-- ===== src/Text/Utf/Tests.antt =====
-- kernel/text/utf.cpp on a name with a letter, a pair of surrogates and a surrogate without its other half.
use shirleys_os.Text.Utf.{utf16_to_utf8, utf8_to_utf16}
use shirleys_os.Text.Utf.RoundTrip.{utf8_to_utf16-utf16_to_utf8}
use shirleys_os.Prelude.{ℕ, ◌≡◌, refl, true, false, List, [], ◌∷◌, some, arith}

-- `a`, U+1F600, U+4E2D and a high surrogate.
abbrev name_units : List ℕ
name_units = 0x61 ∷ 0xd83d ∷ 0xde00 ∷ 0x4e2d ∷ 0xd83d ∷ []

abbrev name_utf8 : List ℕ
name_utf8 = 0x61 ∷ 0xf0 ∷ 0x9f ∷ 0x98 ∷ 0x80 ∷ 0xe4 ∷ 0xb8 ∷ 0xad ∷ 0xed ∷ 0xa0 ∷ 0xbd ∷ []

written : utf16_to_utf8 true name_units true 12 ≡ (true, name_utf8)
unfolding utf16_to_utf8
written = refl

-- Without room for the null.
too_long : utf16_to_utf8 true name_units true 11 ≡ (false, [])
unfolding utf16_to_utf8
too_long = refl

-- `/` in two bytes.
overlong : utf8_to_utf16 (some (0xc0 ∷ 0xaf ∷ [])) true 8 ≡ (false, [])
unfolding utf8_to_utf16
overlong = refl

-- A pair of surrogates in two sequences of three bytes: the first unit is written before it is seen.
split_pair :
    utf8_to_utf16 (some (0xed ∷ 0xa0 ∷ 0xbd ∷ 0xed ∷ 0xb8 ∷ 0x80 ∷ [])) true 8
    ≡ (false, 0xd83d ∷ [])
unfolding utf8_to_utf16
split_pair = refl

utf8_to_utf16-utf16_to_utf8_example : utf8_to_utf16 (some name_utf8) true 5 ≡ (true, name_units)
utf8_to_utf16-utf16_to_utf8_example =
    utf8_to_utf16-utf16_to_utf8 name_units name_utf8 12 5
      (omega arith, (omega arith, (omega arith, (omega arith, (omega arith, tt))))) (omega arith)
      written
