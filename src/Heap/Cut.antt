-- ===== src/Heap/Cut.antt =====
-- kernel/memory/heap.cpp: the blocks after allocate has cut one out of a free block.
use shirleys_os.Heap.Fields.{
  cut_sizes, cut_tags, cut_links, cut_begin, cut_end, cut_bytes, cut_next,
}
use shirleys_os.Heap.{Heap, used_tag, free_tag, end_of, take_out}
use shirleys_os.Heap.Align.{IsCut}
use shirleys_os.Heap.Chain.{
  Piece, vacant, held, Chain, IsSize, IsTidy, IsTidy-false, vacancy, Live, Live-inside, Chain-le,
  Agree, Chain-Agree, Kept,
}
use shirleys_os.Prelude.{
  ℕ, ◌+◌, ◌-◌, ◌%◌, ◌≤◌, ◌<◌, ◌≡◌, ◌⊎◌, ◌↔◌, inl, inr, refl, Bool, Bool-cases, true, false, ltb,
  if◌then◌else◌, u64_mod, sub64, arith, if_cases, ap, sym, subst, List, ◌∷◌,
}

-- A block of `k` bytes at `x` is taken out of the free blocks from `a` on: what stands there afterwards, and
-- how it relates to what stood there.
pub record IsGiven (s t : Heap) (pr a : ℕ) (after : Bool) (bs : List Piece)
    (alignment wanted x k : ℕ) : Type 0 where
  pub blocks : List Piece
  pub kept : Kept s t pr a
  pub chain : Chain t a (t.links pr) blocks
  pub tidy : IsTidy after blocks
  pub total : vacancy bs ≡ vacancy blocks + k
  pub live : (y m : ℕ) → Live a blocks y m ↔ (Live a bs y m ⊎ ((y ≡ x) × (m ≡ k)))
  pub fresh : (y m : ℕ) → Live a bs y m → (y + m ≤ x) ⊎ (x + k ≤ y)
  pub room : 16 + wanted ≤ k
  pub aligned : (x + 16) % alignment ≡ 0
  pub above : a ≤ x
  pub below : x + k ≤ s.heap_end
  pub bytes : t.free_bytes ≡ sub64 s.free_bytes k

-- What a cut leaves of the free block: the part in front and the part behind.
abbrev behind_cut : ℕ → ℕ → List Piece → List Piece
behind_cut e end bs = if ltb e end then vacant (end - e) ∷ bs else bs

abbrev around_cut : ℕ → ℕ → ℕ → ℕ → List Piece → List Piece
around_cut a b e end bs =
    if ltb a b
    then vacant (b - a) ∷ held (e - b) ∷ behind_cut e end bs
    else held (e - b) ∷ behind_cut e end bs

module _ (s : Heap) (pr a n alignment wanted b e : ℕ) (after : Bool) (bs : List Piece)
    (before : pr < a) (small : a + n < u64_mod) (chain : Chain s a (s.links pr) (vacant n ∷ bs))
    (tidy : IsTidy after (vacant n ∷ bs)) (cut : IsCut a (a + n) alignment wanted b e)
    (even : a % 16 ≡ 0) (ample : 16 ≤ wanted) where
  abbrev t : Heap
  t = take_out s pr a b e

  ends : end_of s a ≡ a + n
  unfolding end_of
  ends = let (c, d, f, g) = chain in omega arith

  Agree-behind : Agree s t (a + n)
  Agree-behind x l =
      let (c, d, f) = tidy in
      let p = cut.front in
      let q = cut.room in
      let r = cut.back in
      let sizes = cut_sizes s pr a b e (a + n) ends x in
      let tags = cut_tags s pr a b e (a + n) ends x in
      let links = cut_links s pr a b e (a + n) ends x in (ground arith, ground arith, ground arith)

  cut-Kept : Kept s t pr a
  cut-Kept =
      let p = cut.front in
      let q = cut.room in
      let r = cut.back in
      record {
        begins = cut_begin s pr a b e (a + n) ends;
        ends = cut_end s pr a b e (a + n) ends;
        fields = λ x l.
            let sizes = cut_sizes s pr a b e (a + n) ends x in
            let tags = cut_tags s pr a b e (a + n) ends x in (ground arith, ground arith);
        linked = λ x l ne. let links = cut_links s pr a b e (a + n) ends x in ground arith;
      }

  Chain-behind : Chain t e (cut_next s pr a b e (a + n) ends) (behind_cut e (a + n) bs)
  Chain-behind =
      let (c, d, f, rest) = chain in
      let p = cut.front in
      let q = cut.room in
      let r = cut.back in
      let moved : Chain t (a + n) (s.links a) bs =
        Chain-Agree s t (a + n) (s.links a) bs (cut_end s pr a b e (a + n) ends) Agree-behind
          rest in
      elim (Bool-cases (ltb e (a + n))) [
        | inl tail ↦
            let same : e + (a + n - e) ≡ a + n = ground arith in
            let size : t.sizes e ≡ a + n - e =
              (let z = cut_sizes s pr a b e (a + n) ends e in ground arith) in
            let tag : t.tags e ≡ free_tag =
              (let z = cut_tags s pr a b e (a + n) ends e in ground arith) in
            let link : t.links e ≡ s.links a =
              (let z = cut_links s pr a b e (a + n) ends e in ground arith) in
            rw tail (size, tag, refl, rw (same, link) moved)
        | inr whole ↦
            let same : e ≡ a + n = ground arith in
            rw whole (subst (λ (y : ℕ). Chain t y (s.links a) bs) (sym same) moved)
      ]

  Chain-around : Chain t a (t.links pr) (around_cut a b e (a + n) bs)
  Chain-around =
      let (c, d, f, rest) = chain in
      let p = cut.front in
      let q = cut.room in
      let r = cut.back in
      let own : t.sizes b ≡ e - b = (let z = cut_sizes s pr a b e (a + n) ends b in ground arith) in
      let mark : t.tags b ≡ used_tag =
        (let z = cut_tags s pr a b e (a + n) ends b in ground arith) in
      let whole : b + (e - b) ≡ e = omega arith in
      let fin =
        subst (λ (y : ℕ). Chain t y (cut_next s pr a b e (a + n) ends) (behind_cut e (a + n) bs))
          (sym whole) Chain-behind in
      elim (Bool-cases (ltb a b)) [
        | inl gap ↦
            let there : a + (b - a) ≡ b = ground arith in
            let size : t.sizes a ≡ b - a =
              (let z = cut_sizes s pr a b e (a + n) ends a in ground arith) in
            let tag : t.tags a ≡ free_tag =
              (let z = cut_tags s pr a b e (a + n) ends a in ground arith) in
            let link : t.links a ≡ cut_next s pr a b e (a + n) ends =
              (let z = cut_links s pr a b e (a + n) ends a in ground arith) in
            let first : t.links pr ≡ a =
              (let z = cut_links s pr a b e (a + n) ends pr in ground arith) in
            rw gap (
              size,
              tag,
              first,
              subst
                  (λ (y : ℕ).
                    (t.sizes y ≡ e - b)
                    × (t.tags y ≡ used_tag)
                    × Chain t (y + (e - b)) (t.links a) (behind_cut e (a + n) bs))
                  (sym there) (own, mark, rw link fin),
            )
        | inr none_in_front ↦
            let same : a ≡ b = ground arith in
            let first : t.links pr ≡ cut_next s pr a b e (a + n) ends =
              (let z = cut_links s pr a b e (a + n) ends pr in ground arith) in
            rw none_in_front (
              subst
                (λ (y : ℕ).
                  (t.sizes y ≡ e - b)
                  × (t.tags y ≡ used_tag)
                  × Chain t (y + (e - b)) (t.links pr) (behind_cut e (a + n) bs))
                (sym same) (own, mark, rw first fin))
      ]

  around-IsTidy : IsTidy after (around_cut a b e (a + n) bs)
  around-IsTidy =
      let (size, f, rest) = tidy in
      let (big, mult) = size in
      let p = cut.front in
      let q = cut.room in
      let r = cut.back in
      let p16 = cut.even_start in
      let r16 = cut.even_end in
      let tail : IsTidy false (behind_cut e (a + n) bs) =
        if_cases (IsTidy false) (ltb e (a + n)) _ _
          (λ h. ((ground arith, ground arith), refl, rest)) (λ h. IsTidy-false true bs rest) in
      let own : IsSize (e - b) = (omega arith, omega arith) in
      if_cases (IsTidy after) (ltb a b) _ _ (λ h. ((ground arith, ground arith), f, (own, tail)))
        (λ h. (own, tail))

  around-vacancy : vacancy (vacant n ∷ bs) ≡ vacancy (around_cut a b e (a + n) bs) + (e - b)
  around-vacancy =
      let p = cut.front in
      let q = cut.room in
      let r = cut.back in
      let tail : vacancy (behind_cut e (a + n) bs) ≡ (a + n - e) + vacancy bs =
        if_cases (λ l. vacancy l ≡ (a + n - e) + vacancy bs) (ltb e (a + n)) _ _ (λ h. refl)
          (λ h. ground arith) in
      if_cases (λ l. vacancy (vacant n ∷ bs) ≡ vacancy l + (e - b)) (ltb a b) _ _
        (λ h. ground arith) (λ h. ground arith)

  around-Live :
      (y m : ℕ)
      → Live a (around_cut a b e (a + n) bs) y m ↔ (Live (a + n) bs y m ⊎ ((y ≡ b) × (m ≡ e - b)))
  around-Live y m =
      let p = cut.front in
      let q = cut.room in
      let r = cut.back in
      let own : b + (e - b) ≡ e = omega arith in
      let tail : Live e (behind_cut e (a + n) bs) y m ≡ Live (a + n) bs y m =
        if_cases (λ l. Live e l y m ≡ Live (a + n) bs y m) (ltb e (a + n)) _ _
          (λ h. ap (λ (z : ℕ). Live z bs y m) (ground arith))
          (λ h. ap (λ (z : ℕ). Live z bs y m) (ground arith)) in
      let both : Live b (held (e - b) ∷ behind_cut e (a + n) bs) y m
          ↔ (Live (a + n) bs y m ⊎ ((y ≡ b) × (m ≡ e - b))) =
        rw (own, tail)
          (
            λ l. elim l [ inl h ↦ inr h | inr h ↦ inl h ],
            λ l. elim l [ inl h ↦ inr h | inr h ↦ inl h ],
          ) in
      if_cases (λ l. Live a l y m ↔ (Live (a + n) bs y m ⊎ ((y ≡ b) × (m ≡ e - b)))) (ltb a b) _ _
        (λ h. let there : a + (b - a) ≡ b = ground arith in rw there both)
        (λ h.
          let same : b ≡ a = ground arith in
          subst
            (λ (z : ℕ).
              Live z (held (e - b) ∷ behind_cut e (a + n) bs) y m
              ↔ (Live (a + n) bs y m ⊎ ((y ≡ b) × (m ≡ e - b))))
            same both)

  pub cut-IsGiven : IsGiven s t pr a after (vacant n ∷ bs) alignment wanted b (e - b)
  cut-IsGiven =
      let p = cut.front in
      let q = cut.room in
      let r = cut.back in
      let (c, d, f, rest) = chain in
      record {
        blocks = around_cut a b e (a + n) bs;
        kept = cut-Kept;
        chain = Chain-around;
        tidy = around-IsTidy;
        total = around-vacancy;
        live = around-Live;
        fresh = λ y m l. let (g, h) = Live-inside (a + n) bs y m l in inr (omega arith);
        room = omega arith;
        aligned = cut.aligned;
        above = omega arith;
        below = omega (arith, Chain-le s (a + n) (s.links a) bs rest);
        bytes = cut_bytes s pr a b e (a + n) ends;
      }
