-- ===== src/Pages/Slots.antt =====
-- kernel/memory/page_allocator.cpp: what `insert_extent` finds in sorted extents, and writes.
use shirleys_os.Prelude.{
  ℕ, ◌+◌, ◌-◌, ◌≤◌, ◌<◌, ◌≡◌, subst, ltb, true, arith, dec_lt, if◌then◌else◌, ◌==◌,
}
use shirleys_os.Pages.Extents.{Extent, Extents, insert_extent}
use shirleys_os.Pages.Cover.{
  IsSorted, first_index, last_index, merged_extent, removed_count, MovesSafely,
}
use shirleys_os.Pages.Moves.{move_tail_lem}
use shirleys_os.Pages.Search.{FoundFirst, find_first-FoundFirst, Absorbed, absorb-Absorbed}

module _ (x : Extents) (added : Extent) (s : IsSorted x) where
  pub found : FoundFirst x.items x.count 0 added.begin (first_index x added)
  found =
      subst (λ n. FoundFirst x.items n 0 added.begin (first_index x added)) (omega arith)
        (find_first-FoundFirst x.items x.count 0 added.begin)

  pub touch : (j : ℕ) → first_index x added ≤ j → j < x.count → added.begin ≤ (x.items j).end
  touch j h k = elim (dec_lt (first_index x added) j) [
    | yes more ↦
        omega (arith, found.3 (omega arith), s.apart (first_index x added) j more k, s.nonempty j k)
    | no same ↦ let e : j ≡ first_index x added = omega arith in rw e (found.3 (omega arith))
  ]

  pub absorbed :
      Absorbed x.items x.count
        (first_index x added)
        added
        (last_index x added)
        (merged_extent x added)
  absorbed =
      let e : first_index x added + (x.count - first_index x added) ≡ x.count =
        omega (arith, found.1) in
      subst
        (λ n.
          Absorbed x.items n (first_index x added) added (last_index x added)
            (merged_extent x added))
        e
        (absorb-Absorbed x.items (x.count - first_index x added) (first_index x added) added
          (λ j h k. touch j h (omega (arith, found.1))))

  -- What stands at each index after a safe insertion.
  pub insert-items :
      MovesSafely x added
      → (insert_extent x added).1 ≡ true
      → (k : ℕ)
      → (insert_extent x added).0.items k ≡ (
          if k == first_index x added
          then merged_extent x added
          else if ltb k (first_index x added)
          then x.items k
          else if ltb (k + removed_count x added) (x.count + 1)
          then x.items (k + removed_count x added - 1)
          else x.items k)
  unfolding insert_extent
  insert-items safe done k =
      let a = absorbed in
      ground (
        arith,
        a.first_le,
        a.last_le,
        move_tail_lem x.items (last_index x added) (removed_count x added)
            (x.count - last_index x added) k (omega arith) safe,
      )

  pub insert-count :
      (insert_extent x added).1 ≡ true
      → (insert_extent x added).0.count + removed_count x added ≡ x.count + 1
  unfolding insert_extent
  insert-count done = ground (arith, absorbed.first_le, absorbed.last_le)
