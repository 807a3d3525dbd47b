-- ===== src/Pages/Allocator/Boot/Reserved.antt =====
-- kernel/memory/page_allocator.cpp: the second loop of `initialize`, over the other regions.
use shirleys_os.Prelude.{
  ℕ, zero, suc, ◌+◌, ◌≤◌, ◌<◌, ◌≡◌, ◌↔◌, refl, inl, inr, arith, Bool-cases, Option-cases,
  ℕ_discrete, some,
}
use shirleys_os.Pages.Extents.{Extent, Extents, Region, max_extents, align_reserved, align_down}
use shirleys_os.Pages.Cover.{IsSorted, Holds, Covers, IsPaged}
use shirleys_os.Pages.Allocator.{is_usable, removed_of_region, subtract_region, subtract_regions}
use shirleys_os.Pages.Subtract.Exact.{subtract_extent-exact}
use shirleys_os.Pages.Subtract.Rounds.{WholePages}

-- The loop takes the address away for the region.
abbrev pub Removes : Region → ℕ → Type 0
Removes r a = (e : Extent) × (removed_of_region r ≡ some e) × Holds e a

-- What `align_reserved` gives is not empty and covers whole pages.
align_reserved-WholePages :
    (r : Region) {e : Extent} → align_reserved r ≡ some e → (e.begin < e.end) × WholePages e
unfolding align_reserved align_down
align_reserved-WholePages r h = ground arith

removed_of_region-WholePages :
    (r : Region) {e : Extent} → removed_of_region r ≡ some e → (e.begin < e.end) × WholePages e
unfolding removed_of_region
removed_of_region-WholePages r h = elim (Bool-cases (is_usable r.type)) [
  | inl u ↦ absurd (ground arith)
  | inr u ↦ align_reserved-WholePages r (rw u at h)
]

pub record Shrunk (x y : Extents) (more : ℕ) (P : ℕ → Type 0) : Type 0 where
  pub sorted : IsSorted y
  pub paged : IsPaged y
  pub count_le : y.count ≤ x.count + more
  pub covers : (a : ℕ) → Covers y a ↔ (Covers x a × ¬ P a)

subtract_region-Shrunk :
    (x : Extents) (r : Region)
    → IsSorted x
    → IsPaged x
    → x.count < max_extents
    → (y : Extents) × (subtract_region x r ≡ some y) × Shrunk x y 1 (Removes r)
unfolding subtract_region
subtract_region-Shrunk x r s p room = elim (Option-cases (removed_of_region r)) [
  | inl h ↦
      rw (h, subtract_region)
        (
          x,
          refl,
          record {
            sorted = s;
            paged = p;
            count_le = omega arith;
            covers = λ a. (λ c. (c, λ (e, t, held). cc), λ (c, out). c);
          },
        )
  | inr (e, h) ↦
      let w = removed_of_region-WholePages r h in
      let (y, q, sorted, paged, count, covers) = subtract_extent-exact x e room s p w.0 w.1 in
      rw (h, subtract_region)
        (
          y,
          q,
          record {
            sorted = sorted;
            paged = paged;
            count_le = count;
            covers = λ a. (
              λ c.
                  let (old, out) = (covers a).0 c in
                  (old, λ (e', t, held). let same : e' ≡ e = cc in out (rw same at held)),
              λ (c, out). (covers a).1 (c, λ held. out (e, h, held)),
            );
          },
        )
]

-- The second loop of `initialize` keeps the extents sorted and whole, and takes away exactly what
-- `align_reserved` gives for the regions that are not usable.
pub subtract_regions-Shrunk :
    (regions : ℕ → Region) (left i : ℕ) (x : Extents)
    → IsSorted x
    → IsPaged x
    → x.count + left < max_extents
    → (y : Extents) × (subtract_regions regions left i x ≡ some y)
      × Shrunk x y left (λ a. (j : ℕ) × (i ≤ j) × (j < i + left) × Removes (regions j) a)
unfolding subtract_regions
subtract_regions-Shrunk regions zero i x s p room = (
  x,
  refl,
  record {
    sorted = s;
    paged = p;
    count_le = omega arith;
    covers = λ a. (λ c. (c, λ (j, l, h, t). omega arith), λ (c, out). c);
  },
)
subtract_regions-Shrunk regions (suc left) i x s p room =
    let (z, q, one) = subtract_region-Shrunk x (regions i) s p (omega arith) in
    let (y, t, rest) =
      subtract_regions-Shrunk regions left (i + 1) z one.sorted one.paged
        (omega (arith, one.count_le)) in
    (
      y,
      (rw (q, subtract_regions) t),
      record {
        sorted = rest.sorted;
        paged = rest.paged;
        count_le = omega (arith, rest.count_le, one.count_le);
        covers = λ a. (
          λ c.
              let (mid, out) = (rest.covers a).0 c in
              let (old, out') = (one.covers a).0 mid in
              (
                old,
                λ (j, l, h, gone). elim (ℕ_discrete j i) [
                  | yes e ↦ out' (rw e at gone)
                  | no ne ↦ out (j, omega arith, omega arith, gone)
                ],
              ),
          λ (c, out). (rest.covers a).1 (
            (one.covers a).1 (c, λ gone. out (i, omega arith, omega arith, gone)),
            λ (j, l, h, gone). out (j, omega arith, omega arith, gone),
          ),
        );
      },
    )
