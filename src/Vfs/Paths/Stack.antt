-- ===== src/Vfs/Paths/Stack.antt =====
-- kernel/fs/vfs.cpp: a normalized path as a stack of names, the innermost on top, and what the steps of
-- `normalize` do to it.
use shirleys_os.Vfs.Paths.{
  appended, remove_last_component, append_component, is_separator, slash, char_at, cut,
}
use shirleys_os.Prelude.{
  inr, inl, Bool-cases, ◌==◌, ◌∙◌, some, none, if◌then◌else◌, append_assoc, sym, ◌-◌, subst, zero,
  ltb, length-append, suc, ap, refl, arith, length, true, ◌+◌, false, [], ◌<◌, ◌∷◌, ◌≡◌, ◌++◌, take,
  ◌≤◌, List, ℕ,
}

-- No character is a separator; behind the end stands a null.
abbrev pub IsPlain : List ℕ → Type 0
IsPlain name = (j : ℕ) → is_separator (char_at name j) ≡ false

abbrev pub IsStack : List (List ℕ) → Type 0
IsStack [] = Unit
IsStack (n ∷ ns) = IsPlain n × (0 < length n) × IsStack ns

-- The text of a stack.
unfoldable pub print : List (List ℕ) → List ℕ
print [] = slash ∷ []
print (n ∷ []) = (slash ∷ []) ++ n
print (n ∷ m ∷ ns) = (print (m ∷ ns) ++ slash ∷ []) ++ n

-- What stands before the top of a stack.
unfoldable lead : List (List ℕ) → List ℕ
unfolding print
lead [] = slash ∷ []
lead (m ∷ ns) = print (m ∷ ns) ++ slash ∷ []

print-lead : (n : List ℕ) (ns : List (List ℕ)) → print (n ∷ ns) ≡ lead ns ++ n
unfolding print lead
print-lead n [] = refl
print-lead n (m ∷ ns) = refl

pub print_long : (ns : List (List ℕ)) → 1 ≤ length (print ns)
unfolding print
print_long [] = omega arith
print_long (n ∷ []) = omega arith
print_long (n ∷ m ∷ ns) =
    let h = length-append (print (m ∷ ns) ++ slash ∷ []) n in
    let k = length-append (print (m ∷ ns)) (slash ∷ []) in omega arith

char_at-append : (p s : List ℕ) (j : ℕ) → char_at (p ++ s) (length p + j) ≡ char_at s j
unfolding char_at
char_at-append [] s j = let e : 0 + j ≡ j = omega arith in rw e refl
char_at-append (x ∷ xs) s j =
    let e : suc (length xs) + j ≡ suc (length xs + j) = omega arith in rw e (char_at-append xs s j)

take-append : (p s : List ℕ) → take (length p) (p ++ s) ≡ p
take-append [] s = refl
take-append (x ∷ xs) s = ap (λ (l : List ℕ). x ∷ l) (take-append xs s)

-- The loop goes down over characters that are no separators.
cut_plain :
    (buffer : List ℕ) (m k n : ℕ)
    → n ≡ m + k
    → 1 ≤ m
    → ((j : ℕ) → m ≤ j → is_separator (char_at buffer j) ≡ false)
    → cut buffer n ≡ cut buffer m
unfolding cut
cut_plain buffer m zero n e l h = let same : n ≡ m = omega arith in rw same refl
cut_plain buffer m (suc k) zero e l h = absurd (omega arith)
cut_plain buffer m (suc k) (suc n) e l h =
    let long : ltb 1 (suc n) ≡ true = ground arith in
    rw (h n (omega arith), long) (cut_plain buffer m k n (omega arith) l h)

-- It stops behind a separator.
cut_stop :
    (buffer : List ℕ) (m : ℕ) → is_separator (char_at buffer m) ≡ true → cut buffer (suc m) ≡ suc m
unfolding cut
cut_stop buffer m h = ground arith

plain_behind :
    (p n : List ℕ) → IsPlain n → (j : ℕ) → length p ≤ j → is_separator (char_at (p ++ n) j) ≡ false
plain_behind p n plain j l =
    let e : j ≡ length p + (j - length p) = omega arith in
    let h = char_at-append p n (j - length p) in rw (e, h) (plain (j - length p))

-- What is cut off behind a separator, at the index `m`.
cut-plain :
    (q n : List ℕ)
    → IsPlain n
    → cut ((q ++ slash ∷ []) ++ n) (length ((q ++ slash ∷ []) ++ n)) ≡ suc (length q)
unfolding char_at is_separator
cut-plain q n plain =
    let buffer = (q ++ slash ∷ []) ++ n in
    let whole = length-append (q ++ slash ∷ []) n in
    let front = length-append q (slash ∷ []) in
    let same : length q + 0 ≡ length q = omega arith in
    let at : char_at buffer (length q) ≡ slash =
      subst (λ (l : List ℕ). char_at l (length q) ≡ slash) (sym (append_assoc q (slash ∷ []) n))
        (subst (λ (j : ℕ). char_at (q ++ slash ∷ n) j ≡ slash) same
          (char_at-append q (slash ∷ n) 0)) in
    cut_plain buffer (suc (length q)) (length n) (length buffer) (omega arith) (omega arith)
      (λ j l. plain_behind (q ++ slash ∷ []) n plain j (omega arith))
    ∙ cut_stop buffer (length q) (rw at refl)

pub remove_last-print :
    (n : List ℕ) (ns : List (List ℕ))
    → IsStack (n ∷ ns)
    → remove_last_component (print (n ∷ ns)) ≡ print ns
unfolding remove_last_component print
remove_last-print n [] (plain, _, s) = rw (cut-plain [] n plain) refl
remove_last-print n (m ∷ ns) (plain, _, s) =
    let q = print (m ∷ ns) in
    let long : ltb 1 (suc (length q)) ≡ true = (let l = print_long (m ∷ ns) in ground arith) in
    let less : suc (length q) - 1 ≡ length q = omega arith in
    let front : take (length q) ((q ++ slash ∷ []) ++ n) ≡ q =
      subst (λ (l : List ℕ). take (length q) l ≡ q) (sym (append_assoc q (slash ∷ []) n))
        (take-append q (slash ∷ n)) in
    rw (cut-plain q n plain, long, less, front) refl

appended_fits :
    (capacity : ℕ) (p t : List ℕ)
    → appended capacity p t ≡ (if ltb capacity (length (p ++ t) + 1) then none else some (p ++ t))
unfolding appended
appended_fits capacity p t = rw (length-append p t) refl

print_longer : (m : List ℕ) (ns : List (List ℕ)) → IsStack (m ∷ ns) → 2 ≤ length (print (m ∷ ns))
unfolding print
print_longer m [] (_, h, _) = omega arith
print_longer m (k ∷ ns) (_, h, _) =
    let whole = length-append (print (k ∷ ns) ++ slash ∷ []) m in
    let front = length-append (print (k ∷ ns)) (slash ∷ []) in omega arith

pub append-print :
    (capacity : ℕ) (n : List ℕ) (ns : List (List ℕ))
    → IsStack ns
    → append_component capacity (print ns) n
      ≡ (if ltb capacity (length (print (n ∷ ns)) + 1) then none else some (print (n ∷ ns)))
unfolding append_component print
append-print capacity n [] s = appended_fits capacity (slash ∷ []) n
append-print capacity n (m ∷ ns) (plain, h, s) =
    let q = print (m ∷ ns) in
    let whole = length-append (q ++ slash ∷ []) n in
    let front = length-append q (slash ∷ []) in
    let long : (length q == 1) ≡ false =
      (let l = print_longer m ns (plain, h, s) in ground arith) in
    elim (Bool-cases (ltb capacity (length (q ++ slash ∷ []) + 1))) [
      | inl small ↦
          let full : ltb capacity (length ((q ++ slash ∷ []) ++ n) + 1) ≡ true = ground arith in
          rw (long, appended_fits capacity q (slash ∷ []), small, full) refl
      | inr fits ↦
          rw (long, appended_fits capacity q (slash ∷ []), fits)
            (appended_fits capacity (q ++ slash ∷ []) n)
    ]
