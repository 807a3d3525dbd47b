-- ===== src/Text/Buffers/Tests.antt =====
-- kernel/text/string.cpp on an array of eight characters.
use shirleys_os.Prelude.{◌≡◌, true, false, ℕ, arith, refl, List, [], ◌∷◌, some, ◌++◌}
use shirleys_os.Text.Buffers.{copy, append}
use shirleys_os.Text.Buffers.Laws.{Outcome, append-Outcome}

abbrev blank : ℕ → ℕ
blank i = 0

abbrev dev : List ℕ
dev = 0x64 ∷ 0x65 ∷ 0x76 ∷ []

copied : (copy blank 8 (some dev)).0 ≡ true
unfolding copy
copied = refl

-- The array has no place for the null.
copy_refused : (copy blank 3 (some dev)).0 ≡ false
unfolding copy
copy_refused = refl

append-Outcome_example : Outcome blank 8 ([] ++ dev) blank (append blank 8 (some dev))
append-Outcome_example = append-Outcome blank 8 [] dev tt (omega arith) refl
