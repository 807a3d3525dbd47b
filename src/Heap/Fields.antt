-- ===== src/Heap/Fields.antt =====
-- kernel/memory/heap.cpp: the fields in memory after allocate has cut a block out of a free one.
use shirleys_os.Heap.{Heap, used_tag, free_tag, end_of, make_free, with_tail, take_out}
use shirleys_os.Prelude.{ℕ, ◌-◌, ◌≡◌, ◌&&◌, ◌==◌, ltb, if◌then◌else◌, sub64, arith}

-- The fields after the writes, where the free block at `a` ends at `end` without wrapping around.
module _ (s : Heap) (pr a b e end : ℕ) (ends : end_of s a ≡ end) where
  abbrev after_cut : Heap
  after_cut = take_out s pr a b e

  pub cut_sizes :
      (x : ℕ)
      → after_cut.sizes x ≡ (
          if x == b
          then e - b
          else if ltb a b && x == a
          then b - a
          else if ltb e end && x == e
          then end - e
          else s.sizes x)
  unfolding take_out with_tail make_free
  cut_sizes x = rw (ends) (ground arith)

  pub cut_tags :
      (x : ℕ)
      → after_cut.tags x
        ≡ (if x == b then used_tag else if ltb e end && x == e then free_tag else s.tags x)
  unfolding take_out with_tail make_free
  cut_tags x = rw (ends) (ground arith)

  abbrev pub cut_next : ℕ
  cut_next = if ltb e end then e else s.links a

  pub cut_links :
      (x : ℕ)
      → after_cut.links x ≡ (
          if x == (if ltb a b then a else pr)
          then cut_next
          else if ltb e end && x == e
          then s.links a
          else s.links x)
  unfolding take_out with_tail make_free
  cut_links x = rw (ends) (ground arith)

  pub cut_begin : after_cut.heap_begin ≡ s.heap_begin
  unfolding take_out with_tail make_free
  cut_begin = rw (ends) (ground arith)

  pub cut_end : after_cut.heap_end ≡ s.heap_end
  unfolding take_out with_tail make_free
  cut_end = rw (ends) (ground arith)

  pub cut_bytes : after_cut.free_bytes ≡ sub64 s.free_bytes (e - b)
  unfolding take_out with_tail make_free
  cut_bytes = rw (ends) (ground arith)
