-- ===== src/Format/Digits.antt =====
-- kernel/format/number.cpp: the text of a number can be read back.
use native.Mathlib.Nat.{pow-suc}
use shirleys_os.Prelude.{
  ℕ_discrete, ℕ, zero, suc, ◌+◌, ◌-◌, ◌*◌, ◌/◌, ◌%◌, ◌^◌, ◌≤◌, ◌<◌, ◌≡◌, ◌≢◌, inl, inr, false, some,
  none, arith, refl, Option, ltb, Bool-cases, ◌==◌, List, [], ◌∷◌, ◌++◌, ◌∙◌, ap, length,
  length-append, u64_mod, Option-cases,
}
use shirleys_os.Text.Buffers.{store}
use shirleys_os.Text.Buffers.Laws.{HoldsAt, store-HoldsAt}
use shirleys_os.Format.{reversed, emit, decimal_digits, to_decimal}

-- The number that a text of decimal digits stands for.
abbrev pub number_of : ℕ → List ℕ → ℕ
number_of before [] = before
number_of before (c ∷ cs) = number_of (before * 10 + (c - 0x30)) cs

number_of_append :
    (before c : ℕ) (xs : List ℕ)
    → number_of before (xs ++ (c ∷ [])) ≡ number_of before xs * 10 + (c - 0x30)
number_of_append before c [] = refl
number_of_append before c (x ∷ xs) = number_of_append (before * 10 + (x - 0x30)) c xs

length-reversed : (ds : List ℕ) → length (reversed ds) ≡ length ds
length-reversed [] = refl
length-reversed (d ∷ ds) = omega (arith, length-append (reversed ds) (d ∷ []), length-reversed ds)

-- What the loop has found: the digits of the number, no more than there is place for.
abbrev pub Digits : ℕ → ℕ → Option (List ℕ) → Type 0
Digits left value none = ⊥
Digits left value (some ds) = (number_of 0 (reversed ds) ≡ value) × (length ds ≤ left)

decimal_digits-Digits :
    (left value : ℕ) → value < 10 ^ left → 0 < left → Digits left value (decimal_digits left value)
unfolding decimal_digits
decimal_digits-Digits zero value h l = absurd (omega arith)
decimal_digits-Digits (suc left) value h l = elim (Bool-cases (value / 10 == 0)) [
  | inl last ↦ (let small : value / 10 ≡ 0 = ground arith in rw last (omega arith, omega arith))
  | inr more ↦
      (let large : value / 10 ≢ 0 = ground arith in
        let below : value / 10 < 10 ^ left = omega (arith, pow-suc 10 left) in
        let room : 0 < left = elim (ℕ_discrete left 0) [
          | yes z ↦
              (let tiny : value < 10 ^ suc 0 = (rw z at h) in absurd (omega (arith, pow-suc 10 0)))
          | no nz ↦ omega arith
        ] in
        let rest = decimal_digits-Digits left (value / 10) below room in
        elim (Option-cases (decimal_digits left (value / 10))) [
          | inl e ↦ (let z : Digits left (value / 10) none = (rw e at rest) in absurd z)
          | inr (ds, e) ↦
              (let (same, few) : Digits left (value / 10) (some ds) = (rw e at rest) in
                rw (more, e)
                  (
                    number_of_append 0 (0x30 + value % 10) (reversed ds) ∙ (rw same (omega arith)),
                    omega arith,
                  ))
        ])
]

emit_all :
    (buffer : ℕ → ℕ) (capacity : ℕ) (ds : List ℕ)
    → length ds < capacity
    → emit buffer capacity ds ≡ (length (reversed ds), store (reversed ds) buffer 0)
unfolding emit
emit_all buffer capacity ds room =
    let some_room : (capacity == 0) ≡ false = ground arith in
    let fits : ltb capacity (length ds + 1) ≡ false = ground arith in
    rw (some_room, fits, length-reversed ds) refl

answer_of :
    (buffer : ℕ → ℕ) (capacity value : ℕ) (ds : List ℕ)
    → decimal_digits 20 value ≡ some ds
    → length ds < capacity
    → to_decimal buffer capacity value ≡ some (length (reversed ds), store (reversed ds) buffer 0)
unfolding to_decimal
answer_of buffer capacity value ds e room =
    ap
      (λ (o : Option (List ℕ)). elim o [
        | none ↦ none
        | some digits ↦ some (emit buffer capacity digits)
      ])
      e
    ∙ ap (λ (r : ℕ × (ℕ → ℕ)). some r) (emit_all buffer capacity ds room)

-- `to_decimal` always ends within its scratch array, and with room for 21 characters it leaves the
-- terminated text of the number in the buffer, at most 20 characters long, whose length is its answer.
pub to_decimal-number_of :
    (buffer : ℕ → ℕ) (capacity value : ℕ)
    → value < u64_mod
    → 20 < capacity
    → (text : List ℕ) × (left : ℕ → ℕ) × (to_decimal buffer capacity value
        ≡ some (length text, left))
      × HoldsAt left 0 text
      × (number_of 0 text ≡ value)
      × (length text ≤ 20)
to_decimal-number_of buffer capacity value small room =
    let found = decimal_digits-Digits 20 value (omega arith) (omega arith) in
    elim (Option-cases (decimal_digits 20 value)) [
      | inl e ↦ (let z : Digits 20 value none = (rw e at found) in absurd z)
      | inr (ds, e) ↦
          (let (same, few) : Digits 20 value (some ds) = (rw e at found) in
            let len = length-reversed ds in
            (
              reversed ds,
              store (reversed ds) buffer 0,
              answer_of buffer capacity value ds e (omega arith),
              store-HoldsAt (reversed ds) buffer 0,
              same,
              omega arith,
            ))
    ]
