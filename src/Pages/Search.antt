-- ===== src/Pages/Search.antt =====
-- kernel/memory/page_allocator.cpp: what the two loops of `insert_extent` find.
use shirleys_os.Prelude.{
  ℕ, zero, suc, ◌+◌, ◌≤◌, ◌<◌, ◌≡◌, refl, ◌∙◌, ◌⊎◌, inl, inr, leb, ltb, leb→le, arith, Bool-cases,
  dec_lt,
}
use shirleys_os.Pages.Extents.{Extent, find_first, absorb, widen}

-- Where the first loop stops: everything before ends before `begin`, what stands there does not.
abbrev pub FoundFirst : (ℕ → Extent) → ℕ → ℕ → ℕ → ℕ → Type 0
FoundFirst items stop first begin found =
    (first ≤ found)
    × (found ≤ stop)
    × ((j : ℕ) → first ≤ j → j < found → (items j).end < begin)
    × (found < stop → begin ≤ (items found).end)

pub find_first-FoundFirst :
    (items : ℕ → Extent) (left first begin : ℕ)
    → FoundFirst items (first + left) first begin (find_first items left first begin)
unfolding find_first
find_first-FoundFirst items zero first begin =
    (omega arith, omega arith, λ j h k. absurd (omega arith), λ h. absurd (omega arith))
find_first-FoundFirst items (suc left) first begin =
    let ih = find_first-FoundFirst items left (first + 1) begin in
    elim (Bool-cases (ltb (items first).end begin)) [
      | inl e ↦ rw e (
        omega (arith, ih.0),
        omega (arith, ih.1),
        λ j h k. elim (dec_lt first j) [
          | yes more ↦ ih.2 j (omega arith) k
          | no same ↦ let q : j ≡ first = omega arith in rw q (ground arith)
        ],
        λ h. ih.3 (omega arith),
      )
      | inr e ↦ rw e (omega arith, omega arith, λ j h k. absurd (omega arith), λ h. ground arith)
    ]

-- What the second loop takes in, from index `first` on.
pub record Absorbed (items : ℕ → Extent) (stop first : ℕ) (added : Extent) (last : ℕ)
    (merged : Extent) : Type 0 where
  pub first_le : first ≤ last
  pub last_le : last ≤ stop
  pub begin_le : merged.begin ≤ added.begin
  pub end_le : added.end ≤ merged.end
  pub inside :
      (j : ℕ)
      → first ≤ j
      → j < last
      → (merged.begin ≤ (items j).begin) × ((items j).end ≤ merged.end)
  pub beyond : last < stop → merged.end < (items last).begin
  pub onto :
      (a : ℕ)
      → merged.begin ≤ a
      → a < merged.end
      → ((added.begin ≤ a) × (a < added.end))
        ⊎ ((j : ℕ) × (first ≤ j) × (j < last) × ((items j).begin ≤ a) × (a < (items j).end))
  pub upto :
      (merged.end ≡ added.end) ⊎ ((j : ℕ) × (first ≤ j) × (j < last) × (merged.end ≡ (items j).end))
  pub from :
      (merged.begin ≡ added.begin)
      ⊎ ((j : ℕ) × (first ≤ j) × (j < last) × (merged.begin ≡ (items j).begin))

widen-onto :
    (added current : Extent) (a : ℕ)
    → added.begin ≤ current.end
    → current.begin ≤ added.end
    → (widen added current).begin ≤ a
    → a < (widen added current).end
    → ((added.begin ≤ a) × (a < added.end)) ⊎ ((current.begin ≤ a) × (a < current.end))
unfolding widen
widen-onto added current a h k p q = ground arith

widen_bounds :
    (added current : Extent)
    → ((widen added current).begin ≤ added.begin)
      × ((widen added current).begin ≤ current.begin)
      × (added.end ≤ (widen added current).end)
      × (current.end ≤ (widen added current).end)
unfolding widen
widen_bounds added current = ground arith

widen-begin :
    (added current : Extent)
    → ((widen added current).begin ≡ added.begin) ⊎ ((widen added current).begin ≡ current.begin)
unfolding widen
widen-begin added current = ground arith

widen-end :
    (added current : Extent)
    → ((widen added current).end ≡ added.end) ⊎ ((widen added current).end ≡ current.end)
unfolding widen
widen-end added current = ground arith

-- The extent at `first` is taken in, and the rest of the loop goes on with the wider one.
Absorbed-widen :
    (items : ℕ → Extent) (left first : ℕ) (added : Extent) (last : ℕ) (merged : Extent)
    → added.begin ≤ (items first).end
    → (items first).begin ≤ added.end
    → Absorbed items (first + 1 + left) (first + 1) (widen added (items first)) last merged
    → Absorbed items (first + suc left) first added last merged
Absorbed-widen items left first added last merged touch near v = record {
  first_le = omega (arith, v.first_le);
  last_le = omega (arith, v.last_le);
  begin_le = omega (arith, v.begin_le, bounds);
  end_le = omega (arith, v.end_le, bounds);
  inside = λ j h k. elim (dec_lt first j) [
    | yes more ↦ v.inside j (omega arith) k
    | no same ↦
        let q : j ≡ first = omega arith in
        rw q (omega (arith, v.begin_le, bounds), omega (arith, v.end_le, bounds))
  ];
  beyond = λ h. v.beyond (omega arith);
  onto = λ a h k. elim (v.onto a h k) [
    | inl (p, q) ↦ elim (widen-onto added (items first) a touch near p q) [
      | inl r ↦ inl r
      | inr r ↦ inr (first, omega arith, omega (arith, v.first_le), r.0, r.1)
    ]
    | inr (j, p, q, r, t) ↦ inr (j, omega arith, q, r, t)
  ];
  upto = elim v.upto [
    | inl p ↦ elim (widen-end added (items first)) [
      | inl q ↦ inl (p ∙ q)
      | inr q ↦ inr (first, omega arith, omega (arith, v.first_le), p ∙ q)
    ]
    | inr (j, p, q, r) ↦ inr (j, omega arith, q, r)
  ];
  from = elim v.from [
    | inl p ↦ elim (widen-begin added (items first)) [
      | inl q ↦ inl (p ∙ q)
      | inr q ↦ inr (first, omega arith, omega (arith, v.first_le), p ∙ q)
    ]
    | inr (j, p, q, r) ↦ inr (j, omega arith, q, r)
  ];
}
  where
    bounds :
        ((widen added (items first)).begin ≤ added.begin)
        × ((widen added (items first)).begin ≤ (items first).begin)
        × (added.end ≤ (widen added (items first)).end)
        × ((items first).end ≤ (widen added (items first)).end)
    bounds = widen_bounds added (items first)

pub absorb-Absorbed :
    (items : ℕ → Extent) (left first : ℕ) (added : Extent)
    → ((j : ℕ) → first ≤ j → j < first + left → added.begin ≤ (items j).end)
    → let (last, merged) = absorb items left first added in
      Absorbed items (first + left) first added last merged
unfolding absorb
absorb-Absorbed items zero first added touch = record {
  first_le = omega arith;
  last_le = omega arith;
  begin_le = omega arith;
  end_le = omega arith;
  inside = λ j h k. absurd (omega arith);
  beyond = λ h. absurd (omega arith);
  onto = λ a h k. inl (h, k);
  upto = inl refl;
  from = inl refl;
}
absorb-Absorbed items (suc left) first added touch =
    let bounds = widen_bounds added (items first) in
    elim (Bool-cases (leb (items first).begin added.end)) [
      | inl e ↦
          let ih =
            absorb-Absorbed items left (first + 1) (widen added (items first))
              (λ j h k. omega (arith, touch j (omega arith) (omega arith), bounds)) in
          rw e (
            Absorbed-widen items left first added _ _ (touch first (omega arith) (omega arith))
              (leb→le _ _ e) ih)
      | inr e ↦ rw e record {
        first_le = omega arith;
        last_le = omega arith;
        begin_le = omega arith;
        end_le = omega arith;
        inside = λ j h k. absurd (omega arith);
        beyond = λ h. ground arith;
        onto = λ a h k. inl (h, k);
        upto = inl refl;
        from = inl refl;
      }
    ]
