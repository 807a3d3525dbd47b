-- ===== src/Pages/Insert.antt =====
-- kernel/memory/page_allocator.cpp: `insert_extent` against sets of addresses, where the loop that
-- moves the tail does not overwrite what it has yet to read, and what happens where it does.
use shirleys_os.Prelude.{
  ℕ, ◌+◌, ◌-◌, ◌≤◌, ◌<◌, ◌≡◌, ◌↔◌, ◌≢◌, refl, ◌⊎◌, inl, inr, true, false, arith, dec_lt, ℕ_discrete,
}
use shirleys_os.Pages.Extents.{Extent, Extents, insert_extent, max_extents}
use shirleys_os.Pages.Cover.{
  IsSorted, Holds, Covers, first_index, last_index, merged_extent, removed_count, MovesSafely,
}
use shirleys_os.Pages.Moves.{move_tail_twice}
use shirleys_os.Pages.Slots.{found, absorbed, insert-items, insert-count}

module _ (x : Extents) (added : Extent) (s : IsSorted x) where
  abbrev pub result : Extents
  result = (insert_extent x added).0

  -- Each entry of the result is the merged one, or one of the old ones outside those merged.
  abbrev pub Kept : ℕ → ℕ → Type 0
  Kept k j =
      (result.items k ≡ x.items j)
      × (j < x.count)
      × (((k < first_index x added) × (j ≡ k))
          ⊎ ((first_index x added < k) × (j + 1 ≡ k + removed_count x added)))

  module _ (safe : MovesSafely x added) (done : (insert_extent x added).1 ≡ true) where
    pub index-Kept : (k : ℕ) → k < result.count → k ≢ first_index x added → (j : ℕ) × Kept k j
    index-Kept k h ne = elim (dec_lt k (first_index x added)) [
      | yes low ↦ (
        k,
        (
          ground (arith, insert-items x added s safe done k),
          omega (arith, (found x added s).1),
          inl (low, refl),
        ),
      )
      | no high ↦ (
        k + removed_count x added - 1,
        (
          ground (arith, insert-items x added s safe done k, insert-count x added s done),
          omega (arith, insert-count x added s done),
          inr (omega arith, omega (arith, (absorbed x added s).first_le)),
        ),
      )
    ]

    pub items-first : result.items (first_index x added) ≡ merged_extent x added
    items-first = ground (arith, insert-items x added s safe done (first_index x added))

    below_merged :
        (j : ℕ) → j < first_index x added → (x.items j).end < (merged_extent x added).begin
    below_merged j h = elim (absorbed x added s).from [
      | inl e ↦ rw e ((found x added s).2 j (omega arith) h)
      | inr (i, low, high, e) ↦
          rw e (s.apart j i (omega arith) (omega (arith, (absorbed x added s).last_le)))
    ]

    above_merged :
        (j : ℕ)
        → last_index x added ≤ j
        → j < x.count
        → (merged_extent x added).end < (x.items j).begin
    above_merged j h k = elim (dec_lt (last_index x added) j) [
      | yes more ↦ omega (
        arith,
        (absorbed x added s).beyond (omega arith),
        s.apart (last_index x added) j more k,
        s.nonempty (last_index x added) (omega arith),
      )
      | no same ↦
          let e : j ≡ last_index x added = omega arith in
          rw e ((absorbed x added s).beyond (omega arith))
    ]

    result-nonempty :
        added.begin < added.end
        → (k : ℕ) → k < result.count
        → (result.items k).begin < (result.items k).end
    result-nonempty full k h = elim (ℕ_discrete k (first_index x added)) [
      | yes e ↦
          rw (e, items-first)
            (omega (arith, (absorbed x added s).begin_le, (absorbed x added s).end_le))
      | no ne ↦ let (j, (e, l, _)) = index-Kept k h ne in rw e (s.nonempty j l)
    ]

    -- The old index of an entry after the merged one.
    old_index_above : (k j : ℕ) → Kept k j → first_index x added < k → last_index x added ≤ j
    old_index_above k j (_, _, w) h = omega (arith, (absorbed x added s).first_le)

    old_index_below : (k j : ℕ) → Kept k j → k < first_index x added → j < first_index x added
    old_index_below k j (_, _, w) h = omega arith

    -- Old entries keep their order.
    old_index_mono : (k k' j j' : ℕ) → Kept k j → Kept k' j' → k < k' → j < j'
    old_index_mono k k' j j' (_, _, w) (_, _, w') h = omega (arith, (absorbed x added s).first_le)

    result-apart :
        (i j : ℕ) → i < j → j < result.count → (result.items i).end < (result.items j).begin
    result-apart i j h k = elim (ℕ_discrete i (first_index x added)) [
      | yes e ↦
          let (j', kept) = index-Kept j k (omega arith) in
          let e' : result.items j ≡ x.items j' = kept.0 in
          rw (e, items-first, e') (above_merged j' (old_index_above j j' kept (omega arith)) kept.1)
      | no ne ↦
          let (i', kept) = index-Kept i (omega arith) ne in
          let p : result.items i ≡ x.items i' = kept.0 in
          elim (ℕ_discrete j (first_index x added)) [
            | yes e ↦
                rw (e, items-first, p) (below_merged i' (old_index_below i i' kept (omega arith)))
            | no ne' ↦
                let (j', kept') = index-Kept j k ne' in
                let q : result.items j ≡ x.items j' = kept'.0 in
                rw (p, q) (s.apart i' j' (old_index_mono i j i' j' kept kept' h) kept'.1)
          ]
    ]

    result-Covers-sound : (a : ℕ) → Covers result a → Covers x a ⊎ Holds added a
    result-Covers-sound a (k, h, (low, high)) = elim (ℕ_discrete k (first_index x added)) [
      | yes e ↦
          let held : Holds (merged_extent x added) a = (rw (← items-first, ← e) (low, high)) in
          elim ((absorbed x added s).onto a held.0 held.1) [
            | inl p ↦ inr p
            | inr (j, _, l, p, q) ↦ inl (j, omega (arith, (absorbed x added s).last_le), (p, q))
          ]
      | no ne ↦
          let (j, kept) = index-Kept k h ne in
          let e : result.items k ≡ x.items j = kept.0 in
          inl (j, kept.1, ((rw e at low), (rw e at high)))
    ]

    result-Covers_merged : (a : ℕ) → Holds (merged_extent x added) a → Covers result a
    result-Covers_merged a held = (
      first_index x added,
      omega (
        arith,
        insert-count x added s done,
        (found x added s).1,
        (absorbed x added s).first_le,
        (absorbed x added s).last_le,
      ),
      ((rw items-first held.0), (rw items-first held.1)),
    )

    result-Covers_old : (j a : ℕ) → j < x.count → Holds (x.items j) a → Covers result a
    result-Covers_old j a h held = elim (dec_lt j (first_index x added)) [
      | yes low ↦
          let e : result.items j ≡ x.items j = ground (arith, insert-items x added s safe done j) in
          (
            j,
            omega (arith, insert-count x added s done, (absorbed x added s).last_le),
            ((rw e held.0), (rw e held.1)),
          )
      | no high ↦ elim (dec_lt j (last_index x added)) [
        | yes mid ↦
            let p = (absorbed x added s).inside j (omega arith) mid in
            result-Covers_merged a (omega arith, omega arith)
        | no top ↦
            let k : ℕ = j + 1 - removed_count x added in
            let e : result.items k ≡ x.items j =
              ground (arith, insert-items x added s safe done k, (absorbed x added s).first_le) in
            (
              k,
              omega (arith, insert-count x added s done, (absorbed x added s).first_le),
              ((rw e held.0), (rw e held.1)),
            )
      ]
    ]

-- Inserting a non-empty extent into sorted, separate extents, when the call reports success and the
-- moved tail is not overwritten on the way, leaves sorted, separate extents that hold exactly the
-- addresses held before and those of the new extent.
pub insert_extent-IsSorted-Covers :
    (x : Extents) (added : Extent)
    → IsSorted x
    → added.begin < added.end
    → MovesSafely x added
    → (insert_extent x added).1 ≡ true
    → IsSorted (insert_extent x added).0
      × ((a : ℕ) → Covers (insert_extent x added).0 a ↔ (Covers x a ⊎ Holds added a))
insert_extent-IsSorted-Covers x added s full safe done = (
  record {
    nonempty = result-nonempty x added s safe done full;
    apart = result-apart x added s safe done;
  },
  λ a. (
    result-Covers-sound x added s safe done a,
    elim [
      | inl (j, h, p) ↦ result-Covers_old x added s safe done j a h p
      | inr held ↦
          let bounds = absorbed x added s in
          result-Covers_merged x added s safe done a
            (omega (arith, bounds.begin_le), omega (arith, bounds.end_le))
    ],
  ),
)

-- When at least two extents are merged and at least as many stand behind them, the tail is copied
-- over itself: the new array holds one entry at two different indices in use.
pub insert_extent-repeats :
    (x : Extents) (added : Extent)
    → IsSorted x
    → 2 ≤ removed_count x added
    → removed_count x added ≤ x.count - last_index x added
    → let y = (insert_extent x added).0 in
      let i = first_index x added in
      let j = last_index x added in (i + 1 < j) × (j < y.count) × (y.items (i + 1) ≡ y.items j)
unfolding insert_extent
insert_extent-repeats x added s two many =
    let a = absorbed x added s in
    let r = removed_count x added in
    let same =
      move_tail_twice x.items (last_index x added) r (x.count - last_index x added) (omega arith)
        two (omega arith) in
    let e : last_index x added + 1 - r ≡ first_index x added + 1 = omega (arith, a.first_le) in
    (
      omega arith,
      ground (arith, a.first_le, a.last_le),
      ground (arith, a.first_le, a.last_le, same, e),
    )

-- A full array takes no extent that merges with none; every other call succeeds.
pub insert_extent-false_iff :
    (x : Extents) (added : Extent)
    → ((insert_extent x added).1 ≡ false) ↔ ((removed_count x added ≡ 0) × (x.count ≡ max_extents))
unfolding insert_extent
insert_extent-false_iff x added = (λ h. ground arith, λ h. ground arith)
