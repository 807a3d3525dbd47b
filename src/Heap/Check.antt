-- ===== src/Heap/Check.antt =====
-- kernel/memory/heap.cpp: capacity, available, largest_available and consistent.
use shirleys_os.Heap.{Heap, rounds, end_of, header_bytes, min_block, used_tag, free_tag}
use shirleys_os.Prelude.{
  ℕ, zero, suc, ◌+◌, ◌-◌, ◌%◌, Bool, false, not, ◌&&◌, ◌||◌, ◌==◌, ltb, leb, if◌then◌else◌, Option,
  none, some, u64_mod, sub64,
}

unfoldable pub capacity : Heap → ℕ
capacity s = s.heap_end - s.heap_begin

unfoldable pub available : Heap → ℕ
available s = s.free_bytes

unfoldable pub largest_from : ℕ → Heap → ℕ → ℕ → ℕ
largest_from zero s block largest = largest
largest_from (suc left) s block largest =
    let given = sub64 (s.sizes block) header_bytes in
    let rest = largest_from left s (s.links block) (if ltb largest given then given else largest) in
    if block == 0 then largest else rest

unfoldable pub largest_available : Heap → ℕ
unfolding largest_from
largest_available s = largest_from (rounds s) s (s.links 0) 0

-- The first loop of `consistent`, over the free blocks: their number and their bytes, `none` for the answer
-- false.
unfoldable pub listed_from : ℕ → Heap → ℕ → ℕ → ℕ → ℕ → Option (ℕ × ℕ)
listed_from zero s block listed bytes previous_end =
    if block == 0 then some (listed, bytes) else none
listed_from (suc left) s block listed bytes previous_end =
    let size = s.sizes block in
    let rest =
      listed_from left s (s.links block) (listed + 1) ((bytes + size) % u64_mod) (end_of s block) in
    if block == 0
    then some (listed, bytes)
    else if ltb block s.heap_begin
        || ltb size min_block
        || ltb (sub64 s.heap_end block) size
        || not (s.tags block == free_tag)
        || (not (previous_end == 0) && leb block previous_end)
    then none
    else rest

-- The second loop, over all blocks: where it ends and how many free ones it met.
unfoldable pub walked_from : ℕ → Heap → ℕ → ℕ → Option (ℕ × ℕ)
walked_from zero s cursor walked = if ltb cursor s.heap_end then none else some (cursor, walked)
walked_from (suc left) s cursor walked =
    let size = s.sizes cursor in
    let rest =
      walked_from left s (end_of s cursor)
        (if s.tags cursor == free_tag then walked + 1 else walked) in
    if not (ltb cursor s.heap_end)
    then some (cursor, walked)
    else if ltb size min_block
        || ltb (sub64 s.heap_end cursor) size
        || (not (s.tags cursor == used_tag) && not (s.tags cursor == free_tag))
    then none
    else rest

unfoldable pub consistent : Heap → Bool
unfolding listed_from walked_from
consistent s = elim (listed_from (rounds s) s (s.links 0) 0 0 0) [
  | none ↦ false
  | some (listed, bytes) ↦ elim (walked_from (rounds s) s s.heap_begin 0) [
    | none ↦ false
    | some (cursor, walked) ↦ cursor == s.heap_end && walked == listed && bytes == s.free_bytes
  ]
]
