-- ===== src/Format.antt =====
-- kernel/format/number.cpp: numbers as texts. The digits that the scratch array holds are a list, the
-- last one first.
pub mod Digits
mod Tests
use shirleys_os.Text.Buffers.{store}
use shirleys_os.Prelude.{
  ℕ, zero, suc, ◌+◌, ◌-◌, ◌/◌, ◌%◌, ◌==◌, ltb, if◌then◌else◌, List, [], ◌∷◌, ◌++◌, Option, none,
  some, update, length,
}

abbrev pub reversed : List ℕ → List ℕ
reversed [] = []
reversed (d ∷ ds) = reversed ds ++ (d ∷ [])

-- The count and the buffer; the buffer is the memory at a pointer that is not null.
unfoldable pub emit : (ℕ → ℕ) → ℕ → List ℕ → ℕ × (ℕ → ℕ)
emit buffer capacity digits =
    if capacity == 0
    then (0, buffer)
    else if ltb capacity (length digits + 1)
    then (0, update buffer 0 0)
    else (length digits, store (reversed digits) buffer 0)

-- The loop of `to_decimal` with `left` places free in the scratch array, `none` if they ran out.
unfoldable pub decimal_digits : ℕ → ℕ → Option (List ℕ)
decimal_digits zero value = none
decimal_digits (suc left) value =
    let rest = decimal_digits left (value / 10) in
    if value / 10 == 0
    then some ((0x30 + value % 10) ∷ [])
    else elim rest [ none ↦ none | some ds ↦ some ((0x30 + value % 10) ∷ ds) ]

unfoldable pub to_decimal : (ℕ → ℕ) → ℕ → ℕ → Option (ℕ × (ℕ → ℕ))
to_decimal buffer capacity value = elim (decimal_digits 20 value) [
  | none ↦ none
  | some digits ↦ some (emit buffer capacity digits)
]

-- `"0123456789abcdef"[digit]`
unfoldable pub hex_digit : ℕ → ℕ
hex_digit digit = if ltb digit 10 then 0x30 + digit else 0x57 + digit

-- The first loop of `to_hex` with `left` places free in the scratch array.
unfoldable pub hex_digits : ℕ → ℕ → Option (List ℕ)
unfolding hex_digit
hex_digits zero value = none
hex_digits (suc left) value =
    let rest = hex_digits left (value / 16) in
    if value / 16 == 0
    then some (hex_digit (value % 16) ∷ [])
    else elim rest [ none ↦ none | some ds ↦ some (hex_digit (value % 16) ∷ ds) ]

abbrev pub zeros : ℕ → List ℕ
zeros zero = []
zeros (suc n) = 0x30 ∷ zeros n

-- The second loop fills up with zeros, which stand in front in the text.
unfoldable pub padded : ℕ → List ℕ → List ℕ
padded min_digits digits = digits ++ zeros (min_digits - length digits)

unfoldable pub to_hex : (ℕ → ℕ) → ℕ → ℕ → ℕ → Option (ℕ × (ℕ → ℕ))
unfolding hex_digits padded emit
to_hex buffer capacity value min_digits = elim (hex_digits 16 value) [
  | none ↦ none
  | some digits ↦
      some (emit buffer capacity (padded (if ltb 16 min_digits then 16 else min_digits) digits))
]
