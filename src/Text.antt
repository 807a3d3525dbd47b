-- ===== src/Text.antt =====
-- kernel/text/string.cpp: texts. A text is the list of the characters before its terminating null,
-- none of which is null.
pub mod Buffers
pub mod Utf
use shirleys_os.Prelude.{
  ℕ, Bool, true, not, ◌&&◌, ◌==◌, if◌then◌else◌, List, [], ◌∷◌, ◌≡◌, ◌≢◌, ◌↔◌, refl, ap, arith,
  Bool-cases, inl, inr,
}

abbrev pub IsText : List ℕ → Type 0
IsText [] = Unit
IsText (x ∷ xs) = (x ≢ 0) × IsText xs

-- Both loops of the source stop at a null: the end of the list.
unfoldable pub equals : List ℕ → List ℕ → Bool
equals [] [] = true
equals [] (y ∷ ys) = 0 == y
equals (x ∷ xs) [] = x == 0
equals (x ∷ xs) (y ∷ ys) =
    let rest = equals xs ys in if not (x == 0) && x == y then rest else x == y

equals_sound : (xs ys : List ℕ) → IsText xs → IsText ys → equals xs ys ≡ true → xs ≡ ys
unfolding equals
equals_sound [] [] t u e = refl
equals_sound [] (y ∷ ys) t (ne, u) e = absurd (ground arith)
equals_sound (x ∷ xs) [] (ne, t) u e = absurd (ground arith)
equals_sound (x ∷ xs) (y ∷ ys) (ne, t) (nf, u) e = elim (Bool-cases (x == y)) [
  | inl same ↦
      let h : x ≡ y = ground arith in
      let rest : equals xs ys ≡ true = ground arith in
      (rw h (ap (λ (l : List ℕ). y ∷ l) (equals_sound xs ys t u rest)))
  | inr other ↦ absurd (ground arith)
]

equals_self : (xs : List ℕ) → equals xs xs ≡ true
unfolding equals
equals_self [] = refl
equals_self (x ∷ xs) = ground (arith, equals_self xs)

pub equals_iff : (xs ys : List ℕ) → IsText xs → IsText ys → (equals xs ys ≡ true) ↔ (xs ≡ ys)
equals_iff xs ys t u = (equals_sound xs ys t u, λ e. rw e (equals_self ys))
