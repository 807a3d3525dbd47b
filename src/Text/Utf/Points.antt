-- ===== src/Text/Utf/Points.antt =====
-- kernel/text/utf.cpp: a point that is encoded is read back.
use shirleys_os.Text.Utf.{encoded, width, next_point, lead_of, follow, put, in_range}
use shirleys_os.Prelude.{
  ℕ, suc, ◌+◌, ◌*◌, ◌/◌, ◌%◌, ◌<◌, ◌≤◌, ◌≡◌, refl, ap, true, false, ltb, leb, ◌==◌, List, [], ◌∷◌,
  ◌++◌, none, some, dec_lt, subst, Bool-cases, inl, inr, arith,
}

lead_one : (a : ℕ) → a < 0x80 → lead_of a ≡ some (0, a, 0)
unfolding lead_of
lead_one a l = ground arith

lead_two : (a : ℕ) → a < 32 → lead_of (0xc0 + a) ≡ some (1, a, 0x80)
unfolding lead_of
lead_two a l =
    let c : ltb (0xc0 + a) 0x80 ≡ false = ground arith in
    let d : (0xc0 + a) / 32 == 6 ≡ true = ground arith in
    let e : (0xc0 + a) % 32 ≡ a = omega arith in rw (lead_of, c, d, e) refl

lead_three : (a : ℕ) → a < 16 → lead_of (0xe0 + a) ≡ some (2, a, 0x800)
unfolding lead_of
lead_three a l =
    let c : ltb (0xe0 + a) 0x80 ≡ false = ground arith in
    let d : (0xe0 + a) / 32 == 6 ≡ false = ground arith in
    let e : (0xe0 + a) / 16 == 14 ≡ true = ground arith in
    let f : (0xe0 + a) % 16 ≡ a = omega arith in rw (lead_of, c, d, e, f) refl

lead_four : (a : ℕ) → a < 8 → lead_of (0xf0 + a) ≡ some (3, a, 0x10000)
unfolding lead_of
lead_four a l =
    let c : ltb (0xf0 + a) 0x80 ≡ false = ground arith in
    let d : (0xf0 + a) / 32 == 6 ≡ false = ground arith in
    let e : (0xf0 + a) / 16 == 14 ≡ false = ground arith in
    let f : (0xf0 + a) / 8 == 30 ≡ true = ground arith in
    let g : (0xf0 + a) % 8 ≡ a = omega arith in rw (lead_of, c, d, e, f, g) refl

-- A byte that follows: `q` is the point with its six bits.
follow-suc :
    (n p b q : ℕ) (bytes : List ℕ)
    → b < 64
    → p * 64 + b ≡ q
    → follow (suc n) p ((0x80 + b) ∷ bytes) ≡ follow n q bytes
unfolding follow
follow-suc n p b q bytes l e =
    let c : (0x80 + b) / 64 == 2 ≡ true = ground arith in
    let d : (0x80 + b) % 64 ≡ b = omega arith in rw (follow, c, d, e) refl

in_range-some :
    (minimum p : ℕ) (bytes : List ℕ)
    → minimum ≤ p
    → p ≤ 0x10ffff
    → in_range minimum (some (p, bytes)) ≡ some (p, bytes)
unfolding in_range
in_range-some minimum p bytes l m = ground arith

module _ (p : ℕ) (rest : List ℕ) where
  -- The bytes of a point of each width read back.
  next_one : p < 0x80 → next_point p rest ≡ some (p, rest)
  unfolding next_point
  next_one l =
      rw (next_point, lead_one p l, follow) (in_range-some 0 p rest (omega arith) (omega arith))

  next_two :
      0x80 ≤ p → p < 0x800 → next_point (0xc0 + p / 64) ((0x80 + p % 64) ∷ rest) ≡ some (p, rest)
  unfolding next_point
  next_two l m =
      rw
        (
          next_point,
          lead_two (p / 64) (omega arith),
          follow-suc 0 (p / 64) (p % 64) p rest (omega arith) (omega arith),
          follow,
        )
        (in_range-some 0x80 p rest l (omega arith))

  next_three :
      0x800 ≤ p
      → p < 0x10000
      → next_point (0xe0 + p / 64 / 64) ((0x80 + p / 64 % 64) ∷ (0x80 + p % 64) ∷ rest)
        ≡ some (p, rest)
  unfolding next_point
  next_three l m =
      rw
        (
          next_point,
          lead_three (p / 64 / 64) (omega arith),
          follow-suc 1 (p / 64 / 64) (p / 64 % 64) (p / 64) ((0x80 + p % 64) ∷ rest) (omega arith)
              (omega arith),
          follow-suc 0 (p / 64) (p % 64) p rest (omega arith) (omega arith),
          follow,
        )
        (in_range-some 0x800 p rest l (omega arith))

  next_four :
      0x10000 ≤ p
      → p < 0x110000
      → next_point
          (0xf0 + p / 64 / 64 / 64)
          ((0x80 + p / 64 / 64 % 64) ∷ (0x80 + p / 64 % 64) ∷ (0x80 + p % 64) ∷ rest)
        ≡ some (p, rest)
  unfolding next_point
  next_four l m =
      rw
        (
          next_point,
          lead_four (p / 64 / 64 / 64) (omega arith),
          follow-suc 2 (p / 64 / 64 / 64) (p / 64 / 64 % 64) (p / 64 / 64)
              ((0x80 + p / 64 % 64) ∷ (0x80 + p % 64) ∷ rest) (omega arith) (omega arith),
          follow-suc 1 (p / 64 / 64) (p / 64 % 64) (p / 64) ((0x80 + p % 64) ∷ rest) (omega arith)
              (omega arith),
          follow-suc 0 (p / 64) (p % 64) p rest (omega arith) (omega arith),
          follow,
        )
        (in_range-some 0x10000 p rest l (omega arith))

-- The first byte of an encoded point and those behind it: it is read back.
abbrev pub Encodes : ℕ → List ℕ → Type 0
Encodes p bytes =
    (b : ℕ) × (bs : List ℕ) × (bytes ≡ b ∷ bs)
    × ((rest : List ℕ) → next_point b (bs ++ rest) ≡ some (p, rest))

encoded-Encodes : (p : ℕ) → p < 0x110000 → Encodes p (encoded (width p) p)
unfolding encoded width
encoded-Encodes p l = elim (dec_lt p 0x80) [
  | yes one ↦
      let e : ltb p 0x80 ≡ true = ground arith in
      rw e (p, [], ap (λ (n : ℕ). n ∷ []) (omega arith), λ rest. next_one p rest one)
  | no more ↦
      let e : ltb p 0x80 ≡ false = ground arith in
      elim (dec_lt p 0x800) [
        | yes two ↦
            let f : ltb p 0x800 ≡ true = ground arith in
            rw (e, f)
              (0xc0 + p / 64, (0x80 + p % 64) ∷ [], refl, λ rest. next_two p rest (omega arith) two)
        | no many ↦
            let f : ltb p 0x800 ≡ false = ground arith in
            elim (dec_lt p 0x10000) [
              | yes three ↦
                  let g : ltb p 0x10000 ≡ true = ground arith in
                  rw (e, f, g)
                    (
                      0xe0 + p / 64 / 64,
                      (0x80 + p / 64 % 64) ∷ (0x80 + p % 64) ∷ [],
                      refl,
                      λ rest. next_three p rest (omega arith) three,
                    )
              | no four ↦
                  let g : ltb p 0x10000 ≡ false = ground arith in
                  rw (e, f, g)
                    (
                      0xf0 + p / 64 / 64 / 64,
                      (0x80 + p / 64 / 64 % 64) ∷ (0x80 + p / 64 % 64) ∷ (0x80 + p % 64) ∷ [],
                      refl,
                      λ rest. next_four p rest (omega arith) l,
                    )
            ]
      ]
]

pub put-Encodes :
    (left p : ℕ) (bytes : List ℕ) → p < 0x110000 → put left p ≡ some bytes → Encodes p bytes
unfolding put
put-Encodes left p bytes l e = elim (Bool-cases (leb left (width p))) [
  | inl full ↦ absurd (let z : none ≡ some bytes = (rw full at e) in cc)
  | inr fits ↦
      let e' : encoded (width p) p ≡ bytes =
        (let z : some (encoded (width p) p) ≡ some bytes = (rw fits at e) in cc) in
      subst (Encodes p) e' (encoded-Encodes p l)
]
