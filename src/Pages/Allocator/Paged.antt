-- ===== src/Pages/Allocator/Paged.antt =====
-- kernel/memory/page_allocator.cpp: extents of whole pages, and the search for an address in them.
use shirleys_os.Prelude.{
  ℕ, zero, suc, ◌+◌, ◌%◌, ◌≤◌, ◌<◌, ◌≡◌, ◌↔◌, refl, inl, inr, leb, ltb, true, arith, Bool-cases,
  ℕ_discrete, ◌&&◌, u64_mod,
}
use shirleys_os.Pages.Extents.{Extent, Extents, insert_extent, page_size}
use shirleys_os.Pages.Cover.{
  IsPaged, IsSorted, Holds, Covers, first_index, merged_extent, MovesSafely,
}
use shirleys_os.Pages.Slots.{absorbed}
use shirleys_os.Pages.Insert.{index-Kept, items-first}
use shirleys_os.Pages.Allocator.{contains_from, contains}

contains_from_lem :
    (x : Extents)
    → IsSorted x
    → (left i address : ℕ) → i + left ≡ x.count
    → (contains_from x.items left i address ≡ true)
      ↔ ((j : ℕ) × (i ≤ j) × (j < x.count) × Holds (x.items j) address)
unfolding contains_from
contains_from_lem x s zero i address e = (λ h. absurd (cc), λ (j, p, q, r). absurd (omega arith))
contains_from_lem x s (suc left) i address e =
    let ih = contains_from_lem x s left (i + 1) address (omega arith) in
    elim (Bool-cases (leb (x.items i).begin address && ltb address (x.items i).end)) [
      | inl h ↦ rw h (λ t. (i, omega arith, omega arith, ground arith), λ t. refl)
      | inr h ↦ elim (Bool-cases (ltb address (x.items i).begin)) [
        | inl k ↦
            rw (h, k)
              (
                λ t. absurd (cc),
                λ (j, p, q, r). absurd (elim (ℕ_discrete j i) [
                  | yes same ↦ ground arith
                  | no ne ↦ ground (arith, s.apart i j (omega arith) q, s.nonempty i (omega arith))
                ]),
              )
        | inr k ↦
            rw (h, k)
              (
                λ t. let (j, p, q, r) = ih.0 t in (j, omega arith, q, r),
                λ (j, p, q, r). ih.1 (elim (ℕ_discrete j i) [
                  | yes same ↦ absurd (ground arith)
                  | no ne ↦ (j, omega arith, q, r)
                ]),
              )
      ]
    ]

-- The search finds an address exactly when some extent holds it.
pub contains_iff :
    (x : Extents) (address : ℕ) → IsSorted x → (contains x address ≡ true) ↔ Covers x address
unfolding contains
contains_iff x address s =
    let both = contains_from_lem x s x.count 0 address (omega arith) in
    (λ h. let (j, _, q, r) = both.0 h in (j, q, r), λ (j, q, r). both.1 (j, omega arith, q, r))

module _ (x : Extents) (added : Extent) (s : IsSorted x) (p : IsPaged x) where
  merged_paged :
      added.begin % page_size ≡ 0
      → added.end % page_size ≡ 0
      → 0 < added.begin
      → added.end < u64_mod
      → let m = merged_extent x added in
        (m.begin % page_size ≡ 0) × (m.end % page_size ≡ 0) × (0 < m.begin) × (m.end < u64_mod)
  merged_paged b e z r =
      let a = absorbed x added s in
      let low : ((merged_extent x added).begin % page_size ≡ 0)
          × (0 < (merged_extent x added).begin) =
        elim a.from [
          | inl q ↦ rw q (b, z)
          | inr (j, _, h, q) ↦ rw q (
            p.begin_aligned j (omega (arith, a.last_le)),
            p.positive j (omega (arith, a.last_le)),
          )
        ] in
      let high : ((merged_extent x added).end % page_size ≡ 0)
          × ((merged_extent x added).end < u64_mod) =
        elim a.upto [
          | inl q ↦ rw q (e, r)
          | inr (j, _, h, q) ↦
              rw q (
                p.end_aligned j (omega (arith, a.last_le)),
                p.in_range j (omega (arith, a.last_le)),
              )
        ] in
      (low.0, high.0, low.1, high.1)

  module _ (safe : MovesSafely x added) (done : (insert_extent x added).1 ≡ true) where
    -- A property of single extents passes to the result.
    each :
        (P : Extent → Type 0)
        → ((j : ℕ) → j < x.count → P (x.items j))
        → P (merged_extent x added)
        → (k : ℕ) → k < (insert_extent x added).0.count
        → P ((insert_extent x added).0.items k)
    each P old new k h = elim (ℕ_discrete k (first_index x added)) [
      | yes e ↦ rw (e, items-first x added s safe done) new
      | no ne ↦ let (j, (q, l, _)) = index-Kept x added s safe done k h ne in rw q (old j l)
    ]

    pub insert_extent-IsPaged :
        added.begin % page_size ≡ 0
        → added.end % page_size ≡ 0
        → 0 < added.begin
        → added.end < u64_mod
        → IsPaged (insert_extent x added).0
    insert_extent-IsPaged b e z r =
        let m = merged_paged b e z r in
        record {
          begin_aligned = each (λ c. c.begin % page_size ≡ 0) p.begin_aligned m.0;
          end_aligned = each (λ c. c.end % page_size ≡ 0) p.end_aligned m.1;
          positive = each (λ c. 0 < c.begin) p.positive m.2;
          in_range = each (λ c. c.end < u64_mod) p.in_range m.3;
        }
