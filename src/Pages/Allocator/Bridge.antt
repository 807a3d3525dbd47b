-- ===== src/Pages/Allocator/Bridge.antt =====
-- kernel/memory/page_allocator.cpp: `free_page` of the one page between two free extents.
use shirleys_os.Prelude.{ap, ℕ, ◌+◌, ◌%◌, ◌≤◌, ◌<◌, ◌≡◌, inl, inr, arith, dec_lt, ℕ_discrete}
use shirleys_os.Pages.Extents.{Extent, Extents, insert_extent, page_size}
use shirleys_os.Pages.Cover.{
  IsSorted, Covers, IsPaged, page_at, first_index, last_index, merged_extent,
}
use shirleys_os.Pages.Slots.{found, absorbed}
use shirleys_os.Pages.Insert.{insert_extent-repeats}
use shirleys_os.Pages.Allocator.{Allocator, free_page}
use shirleys_os.Pages.Allocator.Free.{free_page-free}

-- The page at `address` is all that lies between the free extents at `k` and `k + 1`.
module _ (x : Extents) (address k : ℕ) (sorted : IsSorted x) (left : (x.items k).end ≡ address)
    (right : (x.items (k + 1)).begin ≡ address + page_size) (in_use : k + 1 < x.count) where
  first_index-bridge : first_index x (page_at address) ≡ k
  first_index-bridge =
      let f = found x (page_at address) sorted in
      elim (dec_lt (first_index x (page_at address)) k) [
        | yes low ↦ absurd (
            omega (
              arith,
              f.3 (omega arith),
              sorted.apart (first_index x (page_at address)) k low (omega arith),
              sorted.nonempty k (omega arith),
            ))
        | no high ↦ elim (dec_lt k (first_index x (page_at address))) [
          | yes above ↦ absurd (omega (arith, f.2 k (omega arith) above))
          | no below ↦ omega arith
        ]
      ]

  last_index-bridge_ge : k + 2 ≤ last_index x (page_at address)
  last_index-bridge_ge =
      let a = absorbed x (page_at address) sorted in
      elim (dec_lt (last_index x (page_at address)) (k + 2)) [
        | no high ↦ omega arith
        | yes low ↦ elim (ℕ_discrete (last_index x (page_at address)) (k + 1)) [
          | yes e ↦
              let b : (merged_extent x (page_at address)).end < (x.items (k + 1)).begin =
                (rw e at (a.beyond (omega arith))) in
              absurd (omega (arith, a.end_le))
          | no ne ↦
              let e : last_index x (page_at address) ≡ k =
                omega (arith, a.first_le, first_index-bridge) in
              let b : (merged_extent x (page_at address)).end < (x.items k).begin =
                (rw e at (a.beyond (omega arith))) in
              absurd (omega (arith, a.end_le, sorted.nonempty k (omega arith)))
        ]
      ]

  -- The gap behind the extent at `k + 1` is not merged.
  last_index-bridge_le : last_index x (page_at address) ≤ k + 2
  last_index-bridge_le =
      let a = absorbed x (page_at address) sorted in
      elim (dec_lt (k + 2) (last_index x (page_at address))) [
        | no low ↦ omega arith
        | yes high ↦
            let gap : ℕ = (x.items (k + 1)).end in
            let next = a.inside (k + 2) (omega (arith, first_index-bridge)) high in
            let full = sorted.nonempty (k + 2) (omega (arith, a.last_le)) in
            let wide = sorted.nonempty (k + 1) in_use in
            let order = sorted.apart (k + 1) (k + 2) (omega arith) (omega (arith, a.last_le)) in
            absurd (elim (a.onto gap (omega (arith, a.begin_le)) (omega arith)) [
              | inl held ↦ omega arith
              | inr (j, _, h, low, up) ↦ elim (dec_lt j (k + 1)) [
                | yes before ↦ omega (arith, sorted.apart j (k + 1) before in_use)
                | no after ↦ elim (ℕ_discrete j (k + 1)) [
                  | yes e ↦ let up' : gap < (x.items (k + 1)).end = (rw e at up) in omega arith
                  | no ne ↦
                      omega (arith, sorted.apart (k + 1) j (omega arith) (omega (arith, a.last_le)))
                ]
              ]
            ])
      ]

  last_index-bridge : last_index x (page_at address) ≡ k + 2
  last_index-bridge = omega (arith, last_index-bridge_ge, last_index-bridge_le)

-- The fault: when `free_page` is called on a managed page that is not free and that joins two of the
-- sorted free extents, with at least two more free extents behind them, one extent is listed at two
-- indices in use afterwards, so that the free extents are no longer sorted and separate.
pub free_page-repeats :
    (s : Allocator) (address k : ℕ)
    → IsSorted s.managed
    → IsPaged s.managed
    → IsSorted s.free
    → address % page_size ≡ 0
    → Covers s.managed address
    → ¬ Covers s.free address
    → (s.free.items k).end ≡ address
    → (s.free.items (k + 1)).begin ≡ address + page_size
    → k + 3 < s.free.count
    → let y = (free_page s address).free in
      ((i : ℕ) × (j : ℕ) × (i < j) × (j < y.count) × (y.items i ≡ y.items j)) × ¬ IsSorted y
free_page-repeats s address k ms mp fs aligned managed taken left right many =
    let x : Extents = s.free in
    let f = first_index-bridge x address k fs left right (omega arith) in
    let l = last_index-bridge x address k fs left right (omega arith) in
    let y : Extents = (insert_extent x (page_at address)).0 in
    let same = insert_extent-repeats x (page_at address) fs (omega arith) (omega arith) in
    let i : ℕ = first_index x (page_at address) + 1 in
    let j : ℕ = last_index x (page_at address) in
    rw (free_page-free s address ms mp fs aligned managed taken) (
      (i, j, same.0, same.1, same.2),
      λ broken.
          let order : (y.items i).end < (y.items j).begin = broken.apart i j same.0 same.1 in
          let full : (y.items j).begin < (y.items j).end = broken.nonempty j same.1 in
          let twice : (y.items i).end ≡ (y.items j).end = ap (λ (e : Extent). e.end) same.2 in
          omega arith,
    )
