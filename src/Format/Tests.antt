-- ===== src/Format/Tests.antt =====
-- kernel/format/number.cpp on a number of three digits.
use shirleys_os.Text.Buffers.{store}
use shirleys_os.Prelude.{update, ℕ, ◌≡◌, ◌≤◌, arith, refl, List, [], ◌∷◌, some, length}
use shirleys_os.Format.{to_decimal, decimal_digits, to_hex, hex_digits, emit}
use shirleys_os.Format.Digits.{to_decimal-number_of, number_of}
use shirleys_os.Text.Buffers.Laws.{HoldsAt}

abbrev blank : ℕ → ℕ
blank i = 0

digits_of_407 : decimal_digits 20 407 ≡ some (0x37 ∷ 0x30 ∷ 0x34 ∷ [])
unfolding decimal_digits
digits_of_407 = refl

to_decimal-number_of_example :
    (text : List ℕ) × (left : ℕ → ℕ) × (to_decimal blank 21 407 ≡ some (length text, left))
    × HoldsAt left 0 text
    × (number_of 0 text ≡ 407)
    × (length text ≤ 20)
to_decimal-number_of_example = to_decimal-number_of blank 21 407 (omega arith) (omega arith)

-- `00beef` with its null in the buffer.
hex_of_beef :
    to_hex blank 8 0xbeef 6 ≡ some (6, store (0x30 ∷ 0x30 ∷ 0x62 ∷ 0x65 ∷ 0x65 ∷ 0x66 ∷ []) blank 0)
unfolding to_hex hex_digits emit
hex_of_beef = refl

-- The buffer has no place for the null.
hex_refused : to_hex blank 4 0xbeef 0 ≡ some (0, update blank 0 0)
unfolding to_hex hex_digits emit
hex_refused = refl
