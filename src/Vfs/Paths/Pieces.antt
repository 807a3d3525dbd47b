-- ===== src/Vfs/Paths/Pieces.antt =====
-- kernel/fs/vfs.cpp: the pieces of a path, and the steps on a stack of names that they stand for.
use shirleys_os.Text.{equals}
use shirleys_os.Vfs.{max_name_length}
use shirleys_os.Vfs.Paths.Stack.{print, IsPlain}
use shirleys_os.Vfs.Paths.{dot, char_at, component, skip_separators, is_separator}
use shirleys_os.Prelude.{
  subst, zero, suc, false, ◌+◌, refl, none, inr, arith, inl, ltb, ◌≤◌, [], if◌then◌else◌,
  Bool-cases, some, ◌≡◌, ◌∷◌, length, Option, List, ℕ,
}

abbrev before : ℕ → List (List ℕ) → List (List ℕ)
before c [] = (c ∷ []) ∷ []
before c (w ∷ ws) = (c ∷ w) ∷ ws

-- The pieces of a path between its separators, empty ones included.
unfoldable pub split : List ℕ → List (List ℕ)
split [] = [] ∷ []
split (c ∷ cs) = let rest = split cs in if is_separator c then [] ∷ rest else before c rest

abbrev pub pop : List (List ℕ) → List (List ℕ)
pop [] = []
pop (n ∷ ns) = ns

-- What a piece does to the stack: an empty one and `.` nothing, `..` takes the top off, and a name goes on
-- top if it is short enough and the text of the new stack fits, with its null.
unfoldable pub step : ℕ → List (List ℕ) → List ℕ → Option (List (List ℕ))
step capacity st [] = some st
step capacity st (c ∷ cs) =
    let name = c ∷ cs in
    if ltb max_name_length (length name)
    then none
    else if equals name (dot ∷ [])
    then some st
    else if equals name (dot ∷ dot ∷ [])
    then some (pop st)
    else if ltb capacity (length (print (name ∷ st)) + 1)
    then none
    else some (name ∷ st)

unfoldable pub follow : ℕ → List (List ℕ) → List (List ℕ) → Option (List (List ℕ))
unfolding step
follow capacity st [] = some st
follow capacity st (n ∷ ns) = elim (step capacity st n) [
  | none ↦ none
  | some next ↦ follow capacity next ns
]

-- What follows the separator that a text starts with.
abbrev pub after : List ℕ → List (List ℕ)
after [] = []
after (c ∷ cs) = split cs

pub component-split : (cs : List ℕ) → split cs ≡ (component cs).0 ∷ after (component cs).1
unfolding split component
component-split [] = refl
component-split (c ∷ cs) = elim (Bool-cases (is_separator c)) [
  | inl sep ↦ rw sep refl
  | inr plain ↦ rw (plain, component-split cs) refl
]

pub IsPlain-longer : (c : ℕ) (n : List ℕ) → is_separator c ≡ false → IsPlain n → IsPlain (c ∷ n)
unfolding char_at
IsPlain-longer c n e plain zero = e
IsPlain-longer c n e plain (suc j) = plain j

pub component-IsPlain : (cs : List ℕ) → IsPlain (component cs).0
unfolding component char_at is_separator
component-IsPlain [] = λ j. refl
component-IsPlain (c ∷ cs) = elim (Bool-cases (is_separator c)) [
  | inl sep ↦ rw sep (λ j. refl)
  | inr plain ↦ rw plain (IsPlain-longer c (component cs).0 plain (component-IsPlain cs))
]

pub component_shrinks : (cs : List ℕ) → length (component cs).1 ≤ length cs
unfolding component
component_shrinks [] = omega arith
component_shrinks (c ∷ cs) = elim (Bool-cases (is_separator c)) [
  | inl sep ↦ rw sep (omega arith)
  | inr plain ↦ rw plain (let h = component_shrinks cs in omega arith)
]

pub component_starts :
    (cs : List ℕ) (c : ℕ) (rest : List ℕ)
    → skip_separators cs ≡ c ∷ rest
    → (is_separator c ≡ false) × (length (c ∷ rest) ≤ length cs)
unfolding skip_separators
component_starts [] c rest e = absurd cc
component_starts (d ∷ ds) c rest e = elim (Bool-cases (is_separator d)) [
  | inl sep ↦
      let h = component_starts ds c rest (rw sep at e) in (h.0, (let k = h.1 in omega arith))
  | inr plain ↦
      let f : d ∷ ds ≡ c ∷ rest = (rw plain at e) in
      subst (λ (l : List ℕ). (is_separator c ≡ false) × (length l ≤ length (d ∷ ds))) f
        ((let same : d ≡ c = cc in rw⁻¹ same plain), omega arith)
]

module _ (capacity : ℕ) where
  pub follow-after :
      (cs : List ℕ) (st : List (List ℕ))
      → follow capacity st (after (component cs).1) ≡ follow capacity st (split (component cs).1)
  unfolding component follow split
  follow-after [] st = refl
  follow-after (c ∷ cs) st = elim (Bool-cases (is_separator c)) [
    | inl sep ↦ rw (sep, split, sep) refl
    | inr plain ↦ rw plain (follow-after cs st)
  ]

  pub follow-skip :
      (cs : List ℕ) (st : List (List ℕ))
      → follow capacity st (split cs) ≡ follow capacity st (split (skip_separators cs))
  unfolding follow split skip_separators
  follow-skip [] st = refl
  follow-skip (c ∷ cs) st = elim (Bool-cases (is_separator c)) [
    | inl sep ↦ rw sep (follow-skip cs st)
    | inr plain ↦ rw (plain, split, plain) refl
  ]
