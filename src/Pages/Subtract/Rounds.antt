-- ===== src/Pages/Subtract/Rounds.antt =====
-- kernel/memory/page_allocator.cpp: what a round of `subtract_extent` keeps.
use shirleys_os.Prelude.{
  refl, u64_mod, ◌%◌, ℕ, ◌+◌, ◌-◌, ◌≤◌, ◌<◌, ◌≡◌, ◌⊎◌, inl, inr, leb, ltb, arith, dec_lt,
  ℕ_discrete, if◌then◌else◌,
}
use shirleys_os.Pages.Extents.{page_size, Extent, Extents, max_extents}
use shirleys_os.Pages.Cover.{IsPaged, IsSorted, Holds, Covers}
use shirleys_os.Pages.Subtract.{Disjoint, Round, skip, remove, trim, split}

-- Where an entry of the new array comes from in the old one.
abbrev pub origin :
    {x : Extents} {removed : Extent} {i : ℕ} {y : Extents} {j : ℕ} → Round x removed i y j → ℕ → ℕ
origin (skip d) k = k
origin {i = i} (remove p q c lo hi) k = if ltb k i then k else k + 1
origin (trim n r a c same) k = k
origin {i = i} (split l r p q t u v c lo hi) k = if leb k i then k else k - 1

-- Entry `k` of `y` is a non-empty part of entry `j` of `x`.
abbrev pub Piece : Extents → Extents → ℕ → ℕ → Type 0
Piece x y k j =
    (j < x.count)
    × ((x.items j).begin ≤ (y.items k).begin)
    × ((y.items k).end ≤ (x.items j).end)
    × ((y.items k).begin < (y.items k).end)

module _ {x : Extents} {removed : Extent} (s : IsSorted x)
    (proper : removed.begin < removed.end) where
  pub Round-Piece :
      {i : ℕ} {y : Extents} {j : ℕ}
      → i < x.count
      → (rd : Round x removed i y j) → (k : ℕ) → k < y.count
      → Piece x y k (origin rd k)
  Round-Piece h (skip d) k l = (l, omega arith, omega arith, s.nonempty k l)
  Round-Piece {i = i} h (remove p q c lo hi) k l = elim (dec_lt k i) [
    | yes low ↦ ground (arith, lo k low, s.nonempty k (omega arith))
    | no high ↦ ground (arith, hi k (omega arith) l, s.nonempty (k + 1) (omega arith))
  ]
  Round-Piece {i = i} h (trim n r a c same) k l = elim (ℕ_discrete k i) [
    | yes e ↦ rw e (h, r.begin_le, r.end_le, r.nonempty)
    | no ne ↦ ground (arith, same k ne, s.nonempty k (omega arith))
  ]
  Round-Piece {i = i} h (split l r p q t u v c lo hi) k m = elim (ℕ_discrete k i) [
    | yes e ↦ rw e (ground (arith, r.begin_le, r.end_le, r.nonempty))
    | no ne ↦ elim (ℕ_discrete k (i + 1)) [
      | yes e ↦ rw e (ground (arith, r.begin_le, r.end_le, r.nonempty))
      | no ne' ↦ elim (dec_lt k i) [
        | yes low ↦ ground (arith, lo k low, s.nonempty k (omega arith))
        | no high ↦ ground (arith, hi k (omega arith) m, s.nonempty (k - 1) (omega arith))
      ]
    ]
  ]

  Round-apart :
      {i : ℕ} {y : Extents} {j : ℕ}
      → i < x.count
      → (rd : Round x removed i y j) → (k l : ℕ) → k < l
      → l < y.count
      → (y.items k).end < (y.items l).begin
  Round-apart h (skip d) k l p q = s.apart k l p q
  Round-apart {i = i} {y} h (remove a b c lo hi) k l p q =
      let rd : Round x removed i y i = remove a b c lo hi in
      ground (
        arith,
        Round-Piece h rd k (omega arith),
        Round-Piece h rd l q,
        s.apart (origin rd k) (origin rd l) (ground arith),
      )
  Round-apart {i = i} {y} h (trim n r a c same) k l p q = omega (
    arith,
    Round-Piece h (trim n r a c same) k (omega arith),
    Round-Piece h (trim n r a c same) l q,
    s.apart k l p (omega arith),
  )
  Round-apart {i = i} {y} h (split a r b d t u v c lo hi) k l p q =
      elim (ℕ_discrete (k + l) (i + i + 1)) [
        | yes e ↦ elim (ℕ_discrete k i) [
          | yes e' ↦ let e'' : l ≡ i + 1 = omega arith in rw (e', e'', b, u) proper
          | no ne ↦ ordered (ground arith)
        ]
        | no ne ↦ ordered (ground arith)
      ]
    where
      rd : Round x removed i y (i + 1)
      rd = split a r b d t u v c lo hi

      ordered : origin rd k < origin rd l → (y.items k).end < (y.items l).begin
      ordered h' = omega (
        arith,
        Round-Piece h rd k (omega arith),
        Round-Piece h rd l q,
        s.apart (origin rd k) (origin rd l) h' (Round-Piece h rd l q).0,
      )

  pub Round-IsSorted :
      {i : ℕ} {y : Extents} {j : ℕ} → i < x.count → Round x removed i y j → IsSorted y
  Round-IsSorted h rd = record {
    nonempty = λ k l. (Round-Piece h rd k l).3;
    apart = Round-apart h rd;
  }

  -- No round adds an address.
  pub Round-sound :
      {i : ℕ} {y : Extents} {j : ℕ}
      → i < x.count
      → Round x removed i y j
      → (a : ℕ) → Covers y a
      → Covers x a
  Round-sound h rd a (k, l, held) =
      let (p, b, e, _) = Round-Piece h rd k l in (origin rd k, p, (omega arith, omega arith))

-- Entries before the index are apart from what is to be removed.
abbrev pub Cleared : Extent → Extents → ℕ → Type 0
Cleared removed x i = (k : ℕ) → k < i → k < x.count → Disjoint (x.items k) removed

pub Round-Cleared :
    {x : Extents} {removed : Extent} {i : ℕ} {y : Extents} {j : ℕ}
    → i < x.count
    → Cleared removed x i
    → Round x removed i y j
    → Cleared removed y j
Round-Cleared {i = i} h c (skip d) k l m = elim (ℕ_discrete k i) [
  | yes e ↦ rw e d
  | no ne ↦ c k (omega arith) m
]
Round-Cleared h c (remove p q n lo hi) k l m = rw (lo k l) (c k l (omega arith))
Round-Cleared {i = i} h c (trim n r a t same) k l m = elim (ℕ_discrete k i) [
  | yes e ↦ rw e r.disjoint
  | no ne ↦ rw (same k ne) (c k (omega arith) (omega arith))
]
Round-Cleared {i = i} h c (split n r p q t u v w lo hi) k l m = elim (ℕ_discrete k i) [
  | yes e ↦ rw e r.disjoint
  | no ne ↦ rw (lo k (omega arith)) (c k (omega arith) (omega arith))
]

-- A split still has room below `bound`, or nothing that is left reaches into what is to be removed.
abbrev pub Room : ℕ → Extent → Extents → ℕ → Type 0
Room bound removed x i =
    (x.count < bound)
    ⊎ ((x.count ≤ bound) × ((k : ℕ) → i ≤ k → k < x.count → removed.end ≤ (x.items k).begin))

module _ {bound : ℕ} (fits : bound ≤ max_extents) {x : Extents} {removed : Extent} where
  pub Round-Room :
      {i : ℕ} {y : Extents} {j : ℕ}
      → removed.begin < removed.end
      → IsSorted x
      → i < x.count
      → Room bound removed x i
      → Round x removed i y j
      → Room bound removed y j
  Round-Room o s h (inl m) (skip d) = inl m
  Round-Room o s h (inr (c, m)) (skip d) = inr (c, λ k l. m k (omega arith))
  Round-Room o s h (inl m) (remove p q n lo hi) = inl (omega arith)
  Round-Room o s h (inr (c, m)) (remove p q n lo hi) =
      inr (omega arith, λ k l o. rw (hi k l o) (m (k + 1) (omega arith) (omega arith)))
  Round-Room o s h (inl m) (trim n r a t same) = inl (omega arith)
  Round-Room {i = i} o s h (inr (c, m)) (trim n r a t same) =
      absurd (omega (arith, m i (omega arith) h))
  Round-Room {i = i} o s h (inr (c, m)) (split n r p q t u v w lo hi) =
      absurd (omega (arith, m i (omega arith) h, r.nonempty))
  Round-Room {i} {y} o s h (inl m) (split n r p q t u v w lo hi) = inr (omega arith, later)
    where
      later : (k : ℕ) → i + 1 ≤ k → k < y.count → removed.end ≤ (y.items k).begin
      later k l o = elim (ℕ_discrete k (i + 1)) [
        | yes e ↦ rw e (omega arith)
        | no ne ↦ elim (ℕ_discrete (k - 1) i) [
          | yes e ↦ absurd (omega arith)
          | no ne' ↦
              rw (hi k (omega arith) o)
                (omega (arith, s.apart i (k - 1) (omega arith) (omega arith)))
        ]
      ]

  -- With room, a round keeps every address outside what is to be removed.
  pub Round-complete :
      {i : ℕ} {y : Extents} {j : ℕ}
      → i < x.count
      → Room bound removed x i
      → Round x removed i y j
      → (a : ℕ) → ¬ Holds removed a
      → Covers x a
      → Covers y a
  Round-complete h m (skip d) a out c = c
  Round-complete {i} {y} h m (remove p q n lo hi) a out (k, l, held) = elim (ℕ_discrete k i) [
    | yes e ↦
        let held' : Holds (x.items i) a = (rw e at held) in absurd (out (omega arith, omega arith))
    | no ne ↦ elim (dec_lt k i) [
      | yes low ↦ (k, omega arith, (rw (lo k low) held))
      | no high ↦
          let e : k - 1 + 1 ≡ k = omega arith in
          (k - 1, omega arith, (rw (hi (k - 1) (omega arith) (omega arith), e) held))
    ]
  ]
  Round-complete {i} {y} h m (trim n r cut t same) a out (k, l, held) = elim (ℕ_discrete k i) [
    | yes e ↦ elim cut [
      | inl f ↦ (i, omega arith, f a (rw e at held) out)
      | inr f ↦ elim m [
        | inl g ↦ absurd (omega arith)
        | inr (_, g) ↦ absurd (omega (arith, g i (omega arith) h))
      ]
    ]
    | no ne ↦ (k, omega arith, (rw (same k ne) held))
  ]
  Round-complete {i} {y} h m (split n r p q t u v w lo hi) a out (k, l, held) =
      elim (ℕ_discrete k i) [
        | yes e ↦ elim (dec_lt a removed.begin) [
          | yes low ↦
              let held' : Holds (x.items i) a = (rw e at held) in
              (i, omega arith, (omega arith, omega arith))
          | no high ↦
              let held' : Holds (x.items i) a = (rw e at held) in
              elim (dec_lt a removed.end) [
                | yes mid ↦ absurd (out (omega arith, mid))
                | no top ↦ (i + 1, omega arith, (omega arith, omega arith))
              ]
        ]
        | no ne ↦ elim (dec_lt k i) [
          | yes low ↦ (k, omega arith, (rw (lo k low) held))
          | no high ↦
              let e : k + 1 - 1 ≡ k = omega arith in
              (k + 1, omega arith, (rw (hi (k + 1) (omega arith) (omega arith), e) held))
        ]
      ]

-- What falls in every round: twice the entries left, and one more if the next one may be split.
abbrev pub measure : Extent → Extents → ℕ → ℕ
measure removed x i =
    (x.count - i) + (x.count - i) + (if leb removed.end (x.items i).begin then 0 else 1)

pub Round-measure :
    {x : Extents} {removed : Extent} {i : ℕ} {y : Extents} {j : ℕ}
    → i < x.count
    → removed.begin < removed.end
    → Round x removed i y j
    → measure removed y j < measure removed x i
Round-measure h o (skip d) = ground arith
Round-measure h o (remove p q n lo hi) = ground arith
Round-measure h o (trim n r a t same) = ground arith
Round-measure h o (split n r p q t u v w lo hi) = ground (arith, r.nonempty)

-- The ends of each entry are ends of an old entry or of what is removed.
Ends : Extents → Extents → Extent → ℕ → ℕ → Type 0
Ends x y removed k j =
    (((y.items k).begin ≡ (x.items j).begin) ⊎ ((y.items k).begin ≡ removed.end))
    × (((y.items k).end ≡ (x.items j).end) ⊎ ((y.items k).end ≡ removed.begin))

Round-Ends :
    {x : Extents} {removed : Extent} {i : ℕ} {y : Extents} {j : ℕ}
    → (rd : Round x removed i y j) → (k : ℕ) → k < y.count
    → Ends x y removed k (origin rd k)
unfolding Ends
Round-Ends (skip d) k l = (inl refl, inl refl)
Round-Ends {i = i} (remove p q c lo hi) k l = elim (dec_lt k i) [
  | yes low ↦ ground (arith, lo k low)
  | no high ↦ ground (arith, hi k (omega arith) l)
]
Round-Ends {i = i} (trim n r a c same) k l = elim (ℕ_discrete k i) [
  | yes e ↦ rw e (r.begin_from, r.end_from)
  | no ne ↦ ground (arith, same k ne)
]
Round-Ends {i = i} (split l r p q t u v c lo hi) k m = elim (ℕ_discrete k i) [
  | yes e ↦ rw e (ground arith)
  | no ne ↦ elim (ℕ_discrete k (i + 1)) [
    | yes e ↦ rw e (ground arith)
    | no ne' ↦ elim (dec_lt k i) [
      | yes low ↦ ground (arith, lo k low)
      | no high ↦ ground (arith, hi k (omega arith) m)
    ]
  ]
]

-- A reserved range covers whole pages; at the top of the address space its end is cut off.
abbrev pub WholePages : Extent → Type 0
WholePages e = (e.begin % page_size ≡ 0) × ((e.end % page_size ≡ 0) ⊎ (u64_mod ≤ e.end + page_size))

pub Round-IsPaged :
    {x : Extents} {removed : Extent} {i : ℕ} {y : Extents} {j : ℕ}
    → IsSorted x
    → removed.begin < removed.end
    → i < x.count
    → WholePages removed
    → IsPaged x
    → Round x removed i y j
    → IsPaged y
unfolding Ends
Round-IsPaged {x} {removed} {y = y} s proper h (wb, we) p rd = record {
  begin_aligned = λ k l. (whole k l).0;
  end_aligned = λ k l. (whole k l).1;
  positive = λ k l. (whole k l).2;
  in_range = λ k l. (whole k l).3;
}
  where
    whole :
        (k : ℕ)
        → k < y.count
        → ((y.items k).begin % page_size ≡ 0)
          × ((y.items k).end % page_size ≡ 0)
          × (0 < (y.items k).begin)
          × ((y.items k).end < u64_mod)
    whole k l =
        let piece = Round-Piece s proper h rd k l in
        let ends = Round-Ends rd k l in
        let ba = p.begin_aligned (origin rd k) piece.0 in
        let ea = p.end_aligned (origin rd k) piece.0 in
        let ps = p.positive (origin rd k) piece.0 in
        let ir = p.in_range (origin rd k) piece.0 in
        let e : (y.items k).end % page_size ≡ 0 = elim ends.1 [
          | inl q ↦ rw q ea
          | inr q ↦ rw q wb
        ] in
        let b : (y.items k).begin % page_size ≡ 0 = elim ends.0 [
          | inl q ↦ rw q ba
          | inr q ↦ elim we [ inl t ↦ rw q t | inr t ↦ absurd (omega arith) ]
        ] in
        (b, e, omega arith, omega arith)
