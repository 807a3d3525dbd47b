-- ===== src/Vfs/Paths/Normal.antt =====
-- kernel/fs/vfs.cpp: `normalize` does on the text of a path what its pieces do on the stack of names.
use shirleys_os.Vfs.Paths.Pieces.{after}
use shirleys_os.Vfs.Paths.Pieces.{
  follow-after, component-IsPlain, IsPlain-longer, component-split, component_shrinks,
  component_starts, follow-skip, split, follow, pop, step,
}
use shirleys_os.Text.{equals}
use shirleys_os.Vfs.{max_name_length}
use shirleys_os.Vfs.Paths.Stack.{
  print_long, remove_last-print, append-print, IsStack, print, IsPlain,
}
use shirleys_os.Vfs.Paths.{
  copied, is_empty, slash, normalize, normalize_from, remove_last_component, enter, dot, char_at,
  component, skip_separators, is_separator,
}
use shirleys_os.Prelude.{
  ◌==◌, ap, Option-cases, ◌∙◌, List-cases, ◌<◌, if_both, zero, suc, false, ◌+◌, refl, none, inr,
  arith, inl, ltb, ◌≤◌, [], if◌then◌else◌, Bool-cases, some, ◌≡◌, ◌∷◌, length, Option, List, ℕ,
}
use mathlib.Core.Option

module _ (capacity : ℕ) where
  abbrev Stacked : Option (List (List ℕ)) → Type 0
  Stacked none = Unit
  Stacked (some st) = IsStack st

  pop-IsStack : (st : List (List ℕ)) → IsStack st → IsStack (pop st)
  pop-IsStack [] s = s
  pop-IsStack (n ∷ ns) (_, _, s) = s

  step-Stacked :
      (st : List (List ℕ)) (c : ℕ) (cs : List ℕ)
      → IsPlain (c ∷ cs)
      → IsStack st
      → Stacked (step capacity st (c ∷ cs))
  unfolding step
  step-Stacked st c cs plain s = if_both Stacked (ltb max_name_length (length (c ∷ cs))) none _ tt (
      if_both Stacked (equals (c ∷ cs) (dot ∷ [])) (some st) _ s (
        if_both Stacked (equals (c ∷ cs) (dot ∷ dot ∷ [])) (some (pop st)) _ (pop-IsStack st s) (
          if_both Stacked (ltb capacity (length (print ((c ∷ cs) ∷ st)) + 1)) none _ tt
            (plain, omega arith, s))))

  remove_last-pop :
      (st : List (List ℕ)) → IsStack st → remove_last_component (print st) ≡ print (pop st)
  unfolding remove_last_component print
  remove_last-pop [] s = refl
  remove_last-pop (n ∷ ns) s = remove_last-print n ns s

  -- `enter` does on the text what `step` does on the stack.
  enter-print :
      (st : List (List ℕ)) (c : ℕ) (cs : List ℕ)
      → IsStack st
      → ltb max_name_length (length (c ∷ cs)) ≡ false
      → enter capacity (print st) (c ∷ cs) ≡ Option.map print (step capacity st (c ∷ cs))
  unfolding enter step
  enter-print st c cs s short = elim (Bool-cases (equals (c ∷ cs) (dot ∷ []))) [
    | inl one ↦ rw (short, one) refl
    | inr other ↦ elim (Bool-cases (equals (c ∷ cs) (dot ∷ dot ∷ []))) [
      | inl two ↦ rw (short, other, two, remove_last-pop st s) refl
      | inr name ↦
          rw (short, other, name, append-print capacity (c ∷ cs) st s)
            (elim (Bool-cases (ltb capacity (length (print ((c ∷ cs) ∷ st)) + 1))) [
              | inl full ↦ rw full refl
              | inr fits ↦ rw fits refl
            ])
    ]
  ]

  -- A round of the loop on the name `n`, before it goes on with the rest.
  abbrev round : ℕ → List ℕ → List ℕ → List ℕ → Option (List ℕ)
  round left buffer n rest =
      if ltb max_name_length (length n) then none else elim (enter capacity buffer n) [
        | none ↦ none
        | some entered ↦ normalize_from left capacity rest entered
      ]

  normalize_from-round :
      (left : ℕ) (cursor buffer : List ℕ) (c : ℕ) (cs : List ℕ)
      → skip_separators cursor ≡ c ∷ cs
      → normalize_from (suc left) capacity cursor buffer
        ≡ round left buffer (component (c ∷ cs)).0 (component (c ∷ cs)).1
  unfolding normalize_from
  normalize_from-round left cursor buffer c cs e = rw (e, normalize_from) refl

  normalize_from_done :
      (left : ℕ) (cursor : List ℕ) (st : List (List ℕ))
      → skip_separators cursor ≡ []
      → normalize_from (suc left) capacity cursor (print st)
        ≡ Option.map print (follow capacity st (split (skip_separators cursor)))
  unfolding normalize_from follow split step
  normalize_from_done left cursor st e = rw (e, normalize_from) refl

  round-print :
      (left : ℕ) (st : List (List ℕ)) (c : ℕ) (n rest : List ℕ) (pieces : List (List ℕ))
      → IsPlain (c ∷ n)
      → IsStack st
      → ((next : List (List ℕ))
          → IsStack next
          → normalize_from left capacity rest (print next)
            ≡ Option.map print (follow capacity next pieces))
      → round left (print st) (c ∷ n) rest
        ≡ Option.map print (follow capacity st ((c ∷ n) ∷ pieces))
  unfolding follow
  round-print left st c n rest pieces plain s go_on =
      elim (Bool-cases (ltb max_name_length (length (c ∷ n)))) [
        | inl long ↦ rw (long, follow) refl
        | inr short ↦
            let kept = step-Stacked st c n plain s in
            rw (short, enter-print st c n s short)
              (elim (Option-cases (step capacity st (c ∷ n))) [
                | inl e ↦ rw (e, follow) refl
                | inr (next, e) ↦ rw (e, follow) (go_on next (rw e at kept))
              ])
      ]

  component-starts :
      (c : ℕ) (cs : List ℕ)
      → is_separator c ≡ false
      → component (c ∷ cs) ≡ (c ∷ (component cs).0, (component cs).1)
  unfolding component
  component-starts c cs plain = rw plain refl

  normalize_from-print :
      (left : ℕ) (cursor : List ℕ) (st : List (List ℕ))
      → length cursor < left
      → IsStack st
      → normalize_from left capacity cursor (print st)
        ≡ Option.map print (follow capacity st (split cursor))
  normalize_from-print zero cursor st l s = absurd (omega arith)
  normalize_from-print (suc left) cursor st l s =
      rw (follow-skip capacity cursor st) (elim (List-cases (skip_separators cursor)) [
        | inl e ↦ normalize_from_done left cursor st e
        | inr (c, cs, e) ↦
            let (plain, fewer) = component_starts cursor c cs e in
            let shrinks = component_shrinks cs in
            let n = (component cs).0 in
            let rest = (component cs).1 in
            let starts = component-starts c cs plain in
            rw (e, component-split (c ∷ cs), starts)
              (normalize_from-round left cursor (print st) c cs e
                ∙ ap (λ (t : List ℕ × List ℕ). round left (print st) t.0 t.1) starts
                ∙ round-print left st c n rest (after rest)
                    (IsPlain-longer c n plain (component-IsPlain cs)) s
                    (λ next k.
                      rw (follow-after capacity cs next)
                        (normalize_from-print left rest next (omega arith) k)))
      ])

-- Where a path starts: at the root if it is absolute or there is no other directory to start at.
unfoldable pub start : List ℕ → Option (List (List ℕ)) → List (List ℕ)
start path none = []
start path (some st) = if char_at path 0 == slash then [] else st

-- A directory to start at has names as its parts, and its text fits.
abbrev pub IsBase : ℕ → Option (List (List ℕ)) → Type 0
IsBase capacity none = Unit
IsBase capacity (some st) = IsStack st × (length (print st) < capacity)

copied_fits : (capacity : ℕ) (t : List ℕ) → length t < capacity → copied capacity t ≡ some t
unfolding copied
copied_fits capacity t l = let h : ltb capacity (length t + 1) ≡ false = ground arith in rw h refl

print_full : (st : List (List ℕ)) → is_empty (print st) ≡ false
unfolding is_empty
print_full st = elim (List-cases (print st)) [
  | inl e ↦
      (let h = print_long st in let k : 1 ≤ length {A = ℕ} [] = (rw e at h) in absurd (omega arith))
  | inr (c, cs, e) ↦ rw e refl
]

-- On the text of a stack of names, or on none, `normalize` gives the text of the stack that the pieces of
-- the path lead to, and it fails where a piece is too long or the text of a stack on the way does not
-- fit; the rounds of its loop never run out.
pub normalize-print :
    (capacity : ℕ) (path : List ℕ) (base : Option (List (List ℕ)))
    → 1 < capacity
    → IsBase capacity base
    → normalize path (Option.map print base) capacity
      ≡ Option.map print (follow capacity (start path base) (split path))
unfolding normalize start print
normalize-print capacity path none l h =
    let real : (capacity == 0) ≡ false = ground arith in
    rw (real, normalize, copied_fits capacity (slash ∷ []) l)
      (normalize_from-print capacity (length path + 1) path [] (omega arith) tt)
normalize-print capacity path (some st) l (s, fits) =
    let real : (capacity == 0) ≡ false = ground arith in
    elim (Bool-cases (char_at path 0 == slash)) [
      | inl absolute ↦
          rw (absolute, real, normalize, copied_fits capacity (slash ∷ []) l)
            (normalize_from-print capacity (length path + 1) path [] (omega arith) tt)
      | inr relative ↦
          rw (relative, real, normalize, print_full st, copied_fits capacity (print st) fits)
            (normalize_from-print capacity (length path + 1) path st (omega arith) s)
    ]
