-- ===== src/Pages/Allocator/Boot/Usable.antt =====
-- kernel/memory/page_allocator.cpp: the first loop of `initialize`, over the usable regions.
use shirleys_os.Prelude.{
  ℕ, zero, suc, ◌+◌, ◌-◌, ◌%◌, ◌≤◌, ◌<◌, ◌≡◌, ◌↔◌, ◌⊎◌, inl, inr, true, arith, Bool-cases,
  Option-cases, dec_lt, ℕ_discrete, some, u64_mod,
}
use shirleys_os.Pages.Extents.{Extent, Extents, Region, insert_extent, max_extents, page_size}
use shirleys_os.Pages.Cover.{IsSorted, Holds, Covers, IsPaged, first_index, removed_count}
use shirleys_os.Pages.Slots.{found, absorbed, insert-count}
use shirleys_os.Pages.Insert.{insert_extent-IsSorted-Covers, insert_extent-false_iff}
use shirleys_os.Pages.Allocator.{is_usable, added_of, insert_region, insert_regions}
use shirleys_os.Pages.Allocator.Paged.{insert_extent-IsPaged}
use shirleys_os.Pages.Allocator.Boot.{InOrder, align_usable_bounds}

-- The loop adds the address for the region.
abbrev pub Adds : Region → ℕ → Type 0
Adds r a = (e : Extent) × (added_of r ≡ some e) × Holds e a

added_of_bounds :
    (r : Region) {e : Extent}
    → added_of r ≡ some e
    → (e.begin < e.end)
      × (r.physical_start ≤ e.begin)
      × (e.end ≤ r.physical_start + r.length)
      × (e.begin % page_size ≡ 0)
      × (e.end % page_size ≡ 0)
      × (0 < e.begin)
      × (e.end < u64_mod)
unfolding added_of
added_of_bounds r h = elim (Bool-cases (is_usable r.type)) [
  | inl u ↦ align_usable_bounds r (rw u at h)
  | inr u ↦ absurd (ground arith)
]

added_of-usable : (r : Region) {e : Extent} → added_of r ≡ some e → is_usable r.type ≡ true
unfolding added_of
added_of-usable r h = elim (Bool-cases (is_usable r.type)) [
  | inl u ↦ u
  | inr u ↦ absurd (ground arith)
]

-- An extent behind all others merges at most with the last one.
removed_of_behind :
    (x : Extents) (e : Extent)
    → IsSorted x
    → ((j : ℕ) → j < x.count → (x.items j).end ≤ e.begin)
    → removed_count x e ≤ 1
removed_of_behind x e s behind =
    let f = found x e s in
    let a = absorbed x e s in
    elim (dec_lt (first_index x e + 1) x.count) [
      | yes low ↦ absurd (
          omega (
            arith,
            f.3 (omega arith),
            s.apart (first_index x e) (first_index x e + 1) (omega arith) low,
            s.nonempty (first_index x e + 1) low,
            behind (first_index x e + 1) low,
          ))
      | no high ↦ omega (arith, a.last_le)
    ]

-- What is kept while the loop goes through the regions in order.
pub record Grown (x y : Extents) (more : ℕ) (P : ℕ → Type 0) : Type 0 where
  pub sorted : IsSorted y
  pub paged : IsPaged y
  pub count_le : y.count ≤ x.count + more
  pub covers : (a : ℕ) → Covers y a ↔ (Covers x a ⊎ P a)

insert_region-Grown :
    (x : Extents) (r : Region)
    → IsSorted x
    → IsPaged x
    → x.count < max_extents
    → (is_usable r.type ≡ true → (a : ℕ) → Covers x a → a < r.physical_start)
    → Grown x (insert_region x r) 1 (Adds r)
unfolding insert_region
insert_region-Grown x r s p room before = elim (Option-cases (added_of r)) [
  | inl h ↦
      rw (h, insert_region)
        record {
          sorted = s;
          paged = p;
          count_le = omega arith;
          covers = λ a. (inl, elim [ inl c ↦ c | inr (e, t, held) ↦ absurd (cc) ]);
        }
  | inr (e, h) ↦ rw (h, insert_region) (insert_extent-Grown e h)
]
  where
    insert_extent-Grown :
        (e : Extent) → added_of r ≡ some e → Grown x (insert_extent x e).0 1 (Adds r)
    insert_extent-Grown e h =
        let b = added_of_bounds r h in
        let before_it = before (added_of-usable r h) in
        let behind : (j : ℕ) → j < x.count → (x.items j).end ≤ e.begin = λ j l.
          let full = s.nonempty j l in
          omega (arith, before_it ((x.items j).end - 1) (j, l, (omega arith, omega arith))) in
        let safe : removed_count x e ≤ 1 = removed_of_behind x e s behind in
        let done : (insert_extent x e).1 ≡ true = elim (Bool-cases (insert_extent x e).1) [
          | inl t ↦ t
          | inr f ↦ absurd (omega (arith, ((insert_extent-false_iff x e).0 f).1))
        ] in
        let exact = insert_extent-IsSorted-Covers x e s b.0 (inl safe) done in
        record {
          sorted = exact.0;
          paged = insert_extent-IsPaged x e s p (inl safe) done b.3 b.4 b.5 b.6;
          count_le = omega (arith, insert-count x e s done);
          covers = λ a. (
            λ c. elim ((exact.1 a).0 c) [ inl old ↦ inl old | inr held ↦ inr (e, h, held) ],
            elim [
              | inl old ↦ (exact.1 a).1 (inl old)
              | inr (e', h', held) ↦ let q : e' ≡ e = cc in (exact.1 a).1 (inr (rw q at held))
            ],
          );
        }

-- The first loop of `initialize` keeps the extents sorted and whole, and adds exactly what
-- `align_usable` gives for the usable regions.
pub insert_regions-Grown :
    (regions : ℕ → Region) (count : ℕ)
    → InOrder regions count
    → count < max_extents
    → (left i : ℕ) (x : Extents) → i + left ≡ count
    → IsSorted x
    → IsPaged x
    → x.count ≤ i
    → ((a : ℕ)
        → Covers x a
        → (j : ℕ) → i ≤ j
        → j < count
        → is_usable (regions j).type ≡ true
        → a < (regions j).physical_start)
    → Grown x
        (insert_regions regions left i x)
        left
        (λ a. (j : ℕ) × (i ≤ j) × (j < count) × Adds (regions j) a)
unfolding insert_regions
insert_regions-Grown regions count order room zero i x e s p small before = record {
  sorted = s;
  paged = p;
  count_le = omega arith;
  covers = λ a. (inl, elim [ inl c ↦ c | inr (j, q, l, t) ↦ absurd (omega arith) ]);
}
insert_regions-Grown regions count order room (suc left) i x e s p small before =
    let one =
      insert_region-Grown x (regions i) s p (omega arith)
        (λ u a c. before a c i (omega arith) (omega arith) u) in
    let rest =
      insert_regions-Grown regions count order room left (i + 1) (insert_region x (regions i))
        (omega arith) one.sorted one.paged (omega (arith, one.count_le))
        (λ a c j l h u. elim ((one.covers a).0 c) [
          | inl old ↦ before a old j (omega arith) h u
          | inr (y, t, held) ↦ omega (
            arith,
            added_of_bounds (regions i) t,
            order i j (omega arith) h (added_of-usable (regions i) t) u,
          )
        ]) in
    record {
      sorted = rest.sorted;
      paged = rest.paged;
      count_le = omega (arith, rest.count_le, one.count_le);
      covers = λ a. (
        λ c. elim ((rest.covers a).0 c) [
          | inl mid ↦ elim ((one.covers a).0 mid) [
            | inl old ↦ inl old
            | inr new ↦ inr (i, omega arith, omega arith, new)
          ]
          | inr (j, l, h, new) ↦ inr (j, omega arith, h, new)
        ],
        elim [
          | inl old ↦ (rest.covers a).1 (inl ((one.covers a).1 (inl old)))
          | inr (j, l, h, new) ↦ elim (ℕ_discrete j i) [
            | yes q ↦ (rest.covers a).1 (inl ((one.covers a).1 (inr (rw q at new))))
            | no ne ↦ (rest.covers a).1 (inr (j, omega arith, h, new))
          ]
        ],
      );
    }
