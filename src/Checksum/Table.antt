-- ===== src/Checksum/Table.antt =====
-- kernel/checksum: the table does eight steps of the division at once.
use shirleys_os.Checksum.Bits.{
  bit_xor_apart, bit_and_byte, bit_xor_small, bit_xor_twice, bit_xor_lowest, bit_xor_comm,
  bit_xor_half, bit_xor_assoc,
}
use shirleys_os.Checksum.{table_bits, update_from, make_table}
use shirleys_os.Prelude.{
  true, inr, false, inl, Bool-cases, arith, zero, ◌<◌, ◌^◌, ◌==◌, [], suc, if◌then◌else◌, ◌≡◌, List,
  ℕ, ◌+◌, ◌*◌, ◌/◌, ◌%◌, ◌∷◌, sym, ap, ◌∙◌, refl,
}
use native.Mathlib.Nat.{mul_assoc}
use Prim.Native.Nat.{bit_and, bit_xor, bit_xor-bitwise}

-- The reference: the polynomial is divided out a bit of the message at a time, as a shift register
-- does it. The bit that leaves the register and the next bit of the message decide together whether
-- the polynomial is taken away.
unfoldable pub take_bit : ℕ → ℕ → ℕ → ℕ
take_bit poly bit value = if (value % 2 + bit) % 2 == 1 then bit_xor poly (value / 2) else value / 2

-- The lowest `n` bits of `byte`, the lowest first.
unfoldable pub take_bits : ℕ → ℕ → ℕ → ℕ → ℕ
unfolding take_bit
take_bits poly zero byte value = value
take_bits poly (suc n) byte value = take_bits poly n (byte / 2) (take_bit poly (byte % 2) value)

unfoldable pub divide : ℕ → List ℕ → ℕ → ℕ
unfolding take_bits
divide poly [] value = value
divide poly (b ∷ bs) value = divide poly bs (take_bits poly 8 b value)

abbrev pub Bytes : List ℕ → Type 0
Bytes [] = Unit
Bytes (b ∷ bs) = (b < 256) × Bytes bs

module _ (poly : ℕ) where
  -- One step of the division.
  unfoldable step : ℕ → ℕ
  step value = if value % 2 == 1 then bit_xor poly (value / 2) else value / 2

  table_bits-step : (n value : ℕ) → table_bits poly (suc n) value ≡ table_bits poly n (step value)
  unfolding table_bits step
  table_bits-step n value = refl

  swap : (a b : ℕ) → bit_xor a (bit_xor poly b) ≡ bit_xor poly (bit_xor a b)
  swap a b =
      sym (bit_xor_assoc a poly b)
      ∙ ap (λ (x : ℕ). bit_xor x b) (bit_xor_comm a poly)
      ∙ bit_xor_assoc poly a b

  -- A step of an exclusive or is the exclusive or of the steps.
  step-bit_xor : (a b : ℕ) → step (bit_xor a b) ≡ bit_xor (step a) (step b)
  unfolding step
  step-bit_xor a b =
      let half = bit_xor_half a b in
      let lowest = bit_xor_lowest a b in
      elim (Bool-cases (a % 2 == 1)) [
        | inl odd ↦ elim (Bool-cases (b % 2 == 1)) [
          | inl odd' ↦
              let even : (bit_xor a b % 2 == 1) ≡ false = ground arith in
              rw (even, odd, odd', half)
                (sym (
                  bit_xor_assoc poly (a / 2) (bit_xor poly (b / 2))
                  ∙ ap (bit_xor poly) (swap (a / 2) (b / 2))
                  ∙ bit_xor_twice poly (bit_xor (a / 2) (b / 2))))
          | inr even' ↦
              let odd'' : (bit_xor a b % 2 == 1) ≡ true = ground arith in
              rw (odd'', odd, even', half) (sym (bit_xor_assoc poly (a / 2) (b / 2)))
        ]
        | inr even ↦ elim (Bool-cases (b % 2 == 1)) [
          | inl odd' ↦
              let odd'' : (bit_xor a b % 2 == 1) ≡ true = ground arith in
              rw (odd'', even, odd', half) (sym (swap (a / 2) (b / 2)))
          | inr even' ↦
              let even'' : (bit_xor a b % 2 == 1) ≡ false = ground arith in
              rw (even'', even, even', half) refl
        ]
      ]

  table_bits-bit_xor :
      (n a b : ℕ)
      → table_bits poly n (bit_xor a b) ≡ bit_xor (table_bits poly n a) (table_bits poly n b)
  unfolding table_bits
  table_bits-bit_xor zero a b = refl
  table_bits-bit_xor (suc n) a b =
      rw
        (
          table_bits-step n (bit_xor a b),
          table_bits-step n a,
          table_bits-step n b,
          step-bit_xor a b,
        )
        (table_bits-bit_xor n (step a) (step b))

  step_even : (value : ℕ) → step (value * 2) ≡ value
  unfolding step
  step_even value = let even : (value * 2 % 2 == 1) ≡ false = ground arith in rw even (omega arith)

  -- Steps over zeros only move the number down.
  table_bits_high : (n high : ℕ) → table_bits poly n (high * 2 ^ n) ≡ high
  unfolding table_bits
  table_bits_high zero high = omega arith
  table_bits_high (suc n) high =
      let power : 2 ^ suc n ≡ 2 ^ n * 2 = omega arith in
      rw
        (
          power,
          sym (mul_assoc high (2 ^ n) 2),
          table_bits-step n (high * 2 ^ n * 2),
          step_even (high * 2 ^ n),
        )
        (table_bits_high n high)

  make_table_lem : (index : ℕ) → make_table poly index ≡ table_bits poly 8 index
  unfolding make_table
  make_table_lem index = refl

  -- A byte changes the lowest byte only.
  byte-bit_xor :
      (value b : ℕ)
      → b < 256
      → (low : ℕ) × (low < 256)
        × (bit_xor value b ≡ bit_xor low (value / 256 * 2 ^ 8))
        × (bit_xor value b ≡ low + value / 256 * 256)
  byte-bit_xor value b l =
      let low = bit_xor (value % 256) b in
      let high = value / 256 * 2 ^ 8 in
      let small = bit_xor_small 8 (value % 256) b (omega arith) l in
      let parts : value ≡ bit_xor (value % 256) high =
        omega (arith, bit_xor_apart 8 (value % 256) (value / 256) (omega arith)) in
      let same : bit_xor value b ≡ bit_xor low high =
        ap (λ (x : ℕ). bit_xor x b) parts
        ∙ bit_xor_assoc (value % 256) high b
        ∙ ap (bit_xor (value % 256)) (bit_xor_comm high b)
        ∙ sym (bit_xor_assoc (value % 256) b high) in
      (low, small, same, same ∙ bit_xor_apart 8 low (value / 256) small)

  -- One look into the table is eight steps.
  look_up :
      (value b : ℕ)
      → b < 256
      → bit_xor (make_table poly (bit_and (bit_xor value b) 0xFF)) (value / 256)
        ≡ table_bits poly 8 (bit_xor value b)
  look_up value b l =
      let (low, small, apart, sum) = byte-bit_xor value b l in
      let index : bit_and (bit_xor value b) 0xFF ≡ low =
        omega (arith, bit_and_byte (bit_xor value b), sum) in
      rw (index, make_table_lem low)
        (sym (
          ap (table_bits poly 8) apart
          ∙ table_bits-bit_xor 8 low (value / 256 * 2 ^ 8)
          ∙ ap (bit_xor (table_bits poly 8 low)) (table_bits_high 8 (value / 256))))

  -- A bit of the message may as well be in the register before the step.
  step-take_bit :
      (byte value : ℕ)
      → step (bit_xor value byte) ≡ bit_xor (take_bit poly (byte % 2) value) (byte / 2)
  unfolding step take_bit
  step-take_bit byte value =
      let half = bit_xor_half value byte in
      let lowest = bit_xor_lowest value byte in
      elim (Bool-cases ((value % 2 + byte % 2) % 2 == 1)) [
        | inl odd ↦
            let odd' : (bit_xor value byte % 2 == 1) ≡ true = ground arith in
            rw (odd, odd', half) (sym (bit_xor_assoc poly (value / 2) (byte / 2)))
        | inr even ↦
            let even' : (bit_xor value byte % 2 == 1) ≡ false = ground arith in
            rw (even, even') half
      ]

  table_bits-take_bits :
      (n byte value : ℕ)
      → byte < 2 ^ n
      → table_bits poly n (bit_xor value byte) ≡ take_bits poly n byte value
  unfolding table_bits take_bits
  table_bits-take_bits zero byte value l =
      let none_left : byte ≡ 0 = omega arith in
      rw none_left (bit_xor_comm value 0 ∙ bit_xor-bitwise 0 value)
  table_bits-take_bits (suc n) byte value l =
      rw (table_bits-step n (bit_xor value byte), step-take_bit byte value)
        (table_bits-take_bits n (byte / 2) (take_bit poly (byte % 2) value) (omega arith))

  pub update_from-divide :
      (bytes : List ℕ) (value : ℕ)
      → Bytes bytes
      → update_from (make_table poly) bytes value ≡ divide poly bytes value
  unfolding update_from divide
  update_from-divide [] value h = refl
  update_from-divide (b ∷ bs) value (l, h) =
      rw (look_up value b l, table_bits-take_bits 8 b value l)
        (update_from-divide bs (take_bits poly 8 b value) h)
