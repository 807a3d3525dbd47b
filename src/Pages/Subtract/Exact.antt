-- ===== src/Pages/Subtract/Exact.antt =====
-- kernel/memory/page_allocator.cpp: the whole loop of `subtract_extent`.
use shirleys_os.Prelude.{
  ◌↔◌, ◌+◌, ltb→lt, ℕ, zero, suc, ◌≤◌, ◌<◌, ◌≡◌, refl, inl, inr, ltb, arith, Bool-cases, some,
}
use shirleys_os.Pages.Extents.{
  Extent, Extents, subtract_at, subtract_from, subtract_extent, subtract_fuel, max_extents,
}
use shirleys_os.Pages.Cover.{IsPaged, IsSorted, Holds, Covers}
use shirleys_os.Pages.Subtract.{Round, skip, remove, trim, split, subtract_at-Round}
use shirleys_os.Pages.Subtract.Rounds.{
  Round-IsPaged, WholePages, Round-IsSorted, Round-sound, Cleared, Round-Cleared, Room, Round-Room,
  Round-complete, measure, Round-measure,
}

-- What holds of the array `y` when the loop that started with `x` stands at index `i`.
record Loop (x : Extents) (removed : Extent) (y : Extents) (i : ℕ) : Type 0 where
  sorted : IsSorted y
  paged : WholePages removed → IsPaged x → IsPaged y
  small : y.count ≤ max_extents
  sound : (a : ℕ) → Covers y a → Covers x a
  cleared : Cleared removed y i
  room : Room (suc x.count) removed y i
  complete : (a : ℕ) → ¬ Holds removed a → Covers x a → Covers y a

Round-small :
    {x : Extents} {removed : Extent} {i : ℕ} {y : Extents} {j : ℕ}
    → x.count ≤ max_extents
    → Round x removed i y j
    → y.count ≤ max_extents
Round-small h (skip d) = h
Round-small h (remove p q n lo hi) = omega arith
Round-small h (trim n r a t same) = omega arith
Round-small h (split n r p q t u v w lo hi) = omega arith

module _ (x : Extents) (removed : Extent) (proper : removed.begin < removed.end)
    (fits : x.count < max_extents) where
  Loop-Round :
      {y : Extents} {i : ℕ} {z : Extents} {j : ℕ}
      → i < y.count
      → Loop x removed y i
      → Round y removed i z j
      → Loop x removed z j
  Loop-Round h v rd = record {
    sorted = Round-IsSorted v.sorted proper h rd;
    paged = λ w p. Round-IsPaged v.sorted proper h w (v.paged w p) rd;
    small = Round-small v.small rd;
    sound = λ a c. v.sound a (Round-sound v.sorted proper h rd a c);
    cleared = Round-Cleared h v.cleared rd;
    room = Round-Room fits proper v.sorted h v.room rd;
    complete = λ a out c. Round-complete fits h v.room rd a out (v.complete a out c);
  }

  abbrev pub Ends : Extents → Type 0
  Ends z =
      IsSorted z
      × (WholePages removed → IsPaged x → IsPaged z)
      × (z.count ≤ x.count + 1)
      × ((a : ℕ) → Covers z a ↔ (Covers x a × ¬ Holds removed a))

  Loop-Ends : {z : Extents} {i : ℕ} → z.count ≤ i → Loop x removed z i → Ends z
  Loop-Ends {z} h v = (
    v.sorted,
    v.paged,
    elim v.room [ inl r ↦ omega arith | inr r ↦ omega (arith, r.0) ],
    λ a. (
      λ (k, l, held). (
        v.sound a (k, l, held),
        λ out. elim (v.cleared k (omega arith) l) [ inl d ↦ omega arith | inr d ↦ omega arith ],
      ),
      λ (c, out). v.complete a out c,
    ),
  )

  subtract_from-Ends :
      (fuel : ℕ) (y : Extents) (i : ℕ)
      → measure removed y i < fuel
      → Loop x removed y i
      → (z : Extents) × (subtract_from fuel y removed i ≡ some z) × Ends z
  unfolding subtract_from
  subtract_from-Ends zero y i m v = absurd (omega arith)
  subtract_from-Ends (suc fuel) y i m v = elim (Bool-cases (ltb i y.count)) [
    | inl e ↦
        let h : i < y.count = ltb→lt _ _ e in
        let rd = subtract_at-Round y removed i h v.small (v.sorted.nonempty i h) proper in
        rw e (
          subtract_from-Ends fuel (subtract_at y removed i).0 (subtract_at y removed i).1
            (omega (arith, Round-measure h proper rd)) (Loop-Round h v rd))
    | inr e ↦ rw e (y, refl, Loop-Ends (ground arith) v)
  ]

pub subtract_extent-Ends :
    (x : Extents) (removed : Extent) (fits : x.count < max_extents)
    → IsSorted x
    → (proper : removed.begin < removed.end)
    → (z : Extents) × (subtract_extent x removed ≡ some z) × Ends x removed proper fits z
unfolding subtract_extent
subtract_extent-Ends x removed fits s proper =
    subtract_from-Ends x removed proper fits (subtract_fuel x) x 0 (ground arith) (record {
      sorted = s;
      paged = λ w p. p;
      small = omega arith;
      sound = λ a c. c;
      cleared = λ k l. absurd (omega arith);
      room = inl (omega arith);
      complete = λ a out c. c;
    })

-- `subtract_extent` ends within its rounds. From sorted, separate extents of whole pages that leave
-- room in the array it makes such extents again, at most one more, which hold exactly the addresses
-- held before outside the removed range; that range is whole pages, but may end at the top of the
-- address space.
pub subtract_extent-exact :
    (x : Extents) (removed : Extent)
    → x.count < max_extents
    → IsSorted x
    → IsPaged x
    → removed.begin < removed.end
    → WholePages removed
    → (z : Extents) × (subtract_extent x removed ≡ some z)
      × IsSorted z
      × IsPaged z
      × (z.count ≤ x.count + 1)
      × ((a : ℕ) → Covers z a ↔ (Covers x a × ¬ Holds removed a))
subtract_extent-exact x removed fits s p proper whole =
    let (z, e, (sorted, paged, count, covers)) = subtract_extent-Ends x removed fits s proper in
    (z, e, sorted, paged whole p, count, covers)
