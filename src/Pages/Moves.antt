-- ===== src/Pages/Moves.antt =====
-- kernel/memory/page_allocator.cpp: what each loop that moves entries leaves at an index.
use shirleys_os.Prelude.{
  ℕ, zero, suc, ◌+◌, ◌-◌, ◌≤◌, ◌<◌, ◌≡◌, ◌⊎◌, inl, inr, ◌&&◌, if◌then◌else◌, ltb, leb, update,
  arith, dec_lt,
}
use shirleys_os.Pages.Extents.{Extent, move_tail, close_gap, open_gap}

pub close_gap_lem :
    (items : ℕ → Extent) (j n k : ℕ)
    → 1 ≤ j
    → close_gap items j n k
      ≡ (if leb j (k + 1) && ltb (k + 1) (j + n) then items (k + 1) else items k)
unfolding close_gap
close_gap_lem items j zero k h = ground arith
close_gap_lem items j (suc n) k h =
    ground (arith, close_gap_lem (update items (j - 1) (items j)) (j + 1) n k)

pub open_gap_lem :
    (items : ℕ → Extent) (i n k : ℕ)
    → open_gap items i n k ≡ (if ltb (i + 1) k && leb k (i + 1 + n) then items (k - 1) else items k)
unfolding open_gap
open_gap_lem items i zero k = ground arith
open_gap_lem items i (suc n) k =
    ground (arith, open_gap_lem (update items (i + 1 + n + 1) (items (i + 1 + n))) i n k)

-- As long as no entry is overwritten before it is read, the tail arrives in order.
pub move_tail_lem :
    (items : ℕ → Extent) (last removed n k : ℕ)
    → removed ≤ last
    → (removed ≤ 1) ⊎ (n < removed)
    → move_tail items last removed n k ≡ (
        if ltb last (k + removed) && leb (k + removed) (last + n)
        then items (k + removed - 1)
        else items k)
unfolding move_tail
move_tail_lem items last removed zero k h s = ground arith
move_tail_lem items last removed (suc n) k h (inl s) = ground (
  arith,
  move_tail_lem (update items (last + n + 1 - removed) (items (last + n))) last removed n k h
      (inl s),
)
move_tail_lem items last removed (suc n) k h (inr s) = ground (
  arith,
  move_tail_lem (update items (last + n + 1 - removed) (items (last + n))) last removed n k h
      (inr (let d : n < removed = omega arith in d)),
)

-- With two or more extents merged and as many after them, the last merged slot and the first moved
-- one receive the same entry.
pub move_tail_twice :
    (items : ℕ → Extent) (last removed n : ℕ)
    → removed ≤ last
    → 2 ≤ removed
    → removed ≤ n + 1
    → move_tail items last removed n (last + 1 - removed) ≡ move_tail items last removed n last
unfolding move_tail
move_tail_twice items last removed zero h s t = absurd (omega arith)
move_tail_twice items last removed (suc n) h s t = elim (dec_lt (suc n) removed) [
  | yes few ↦ ground (
    arith,
    move_tail_lem items last removed (suc n) (last + 1 - removed) h (inr few),
    move_tail_lem items last removed (suc n) last h (inr few),
  )
  | no many ↦
      move_tail_twice (update items (last + n + 1 - removed) (items (last + n))) last removed n h s
        (omega arith)
]
