-- ===== src/Text/Buffers/Laws.antt =====
-- kernel/text/string.cpp: what `copy` and `append` leave in the array.
use shirleys_os.Prelude.{
  ℕ, zero, suc, ◌+◌, ◌≤◌, ◌<◌, ◌≡◌, ◌⊎◌, inl, inr, true, false, some, arith, refl, ltb, Bool-cases,
  ◌==◌, update, update_self, update_ne, List, [], ◌∷◌, ◌++◌, ◌∙◌, ap, Bool, length, length-append,
}
use shirleys_os.Text.{IsText}
use shirleys_os.Text.Buffers.{length_from, store, copy, append}

-- The array has the text from index `i` on, with its terminating null.
abbrev pub HoldsAt : (ℕ → ℕ) → ℕ → List ℕ → Type 0
HoldsAt buffer i [] = buffer i ≡ 0
HoldsAt buffer i (x ∷ xs) = (buffer i ≡ x) × HoldsAt buffer (i + 1) xs

length_from-HoldsAt :
    (buffer : ℕ → ℕ) (text : List ℕ) (left i : ℕ)
    → IsText text
    → length text < left
    → HoldsAt buffer i text
    → length_from buffer left i ≡ some (i + length text)
unfolding length_from
length_from-HoldsAt buffer text zero i t l h = absurd (omega arith)
length_from-HoldsAt buffer [] (suc left) i t l h = let z : i + 0 ≡ i = omega arith in rw (h, z) refl
length_from-HoldsAt buffer (x ∷ xs) (suc left) i (ne, t) l (e, h) =
    let rest = length_from-HoldsAt buffer xs left (i + 1) t (omega arith) h in
    let other : (buffer i == 0) ≡ false = ground arith in
    let z : i + 1 + length xs ≡ i + suc (length xs) = omega arith in rw (other, rest, z) refl

store_outside :
    (text : List ℕ) (buffer : ℕ → ℕ) (i k : ℕ)
    → (k < i) ⊎ (i + length text < k)
    → store text buffer i k ≡ buffer k
unfolding store
store_outside [] buffer i k out = update_ne buffer i 0 k (ground arith)
store_outside (x ∷ xs) buffer i k out =
    store_outside xs (update buffer i x) (i + 1) k (ground arith)
    ∙ update_ne buffer i x k (ground arith)

pub store-HoldsAt : (text : List ℕ) (buffer : ℕ → ℕ) (i : ℕ) → HoldsAt (store text buffer i) i text
unfolding store
store-HoldsAt [] buffer i = update_self buffer i 0
store-HoldsAt (x ∷ xs) buffer i = (
  store_outside xs (update buffer i x) (i + 1) i (inl (omega arith)) ∙ update_self buffer i x,
  store-HoldsAt xs (update buffer i x) (i + 1),
)

-- A text stored behind another continues it.
store-append :
    (before text : List ℕ) (buffer : ℕ → ℕ) (i j : ℕ)
    → i + length before ≡ j
    → HoldsAt buffer i before
    → HoldsAt (store text buffer j) i (before ++ text)
store-append [] text buffer i j e h =
    let same : j ≡ i = omega arith in rw same (store-HoldsAt text buffer i)
store-append (x ∷ xs) text buffer i j e (a, h) = (
  store_outside text buffer j i (inl (omega arith)) ∙ a,
  store-append xs text buffer (i + 1) j (omega arith) h,
)

-- The outcome of a call on an array that is to hold `wanted` in the end.
abbrev pub Outcome : (ℕ → ℕ) → ℕ → List ℕ → (ℕ → ℕ) → Bool × (ℕ → ℕ) → Type 0
Outcome before capacity wanted left r =
    ((length wanted < capacity)
      × (r.0 ≡ true)
      × HoldsAt r.1 0 wanted
      × ((k : ℕ) → r.1 (capacity + k) ≡ before (capacity + k)))
    ⊎ ((capacity ≤ length wanted) × (r ≡ (false, left)))

-- `copy` puts the whole text with its null into the array, or, if they do not fit, says so and leaves the
-- empty text; it never writes behind the capacity.
copy-Outcome :
    (buffer : ℕ → ℕ) (capacity : ℕ) (text : List ℕ)
    → 0 < capacity
    → Outcome buffer capacity text (update buffer 0 0) (copy buffer capacity (some text))
unfolding copy
copy-Outcome buffer capacity text some_room =
    let n : (capacity == 0) ≡ false = ground arith in
    elim (Bool-cases (ltb capacity (length text + 1))) [
      | inl full ↦ rw (n, full) (inr (ground arith, refl))
      | inr fits ↦
          rw (n, fits)
            (inl (
              ground arith,
              refl,
              store-HoldsAt text (update buffer 0 0) 0,
              λ k.
                  store_outside text (update buffer 0 0) 0 (capacity + k) (inr (ground arith))
                  ∙ update_ne buffer 0 0 (capacity + k) (omega arith),
            ))
    ]

-- `append` continues the text in the array with the whole of another, or, if they do not fit together,
-- says so and changes nothing; it never writes behind the capacity.
pub append-Outcome :
    (buffer : ℕ → ℕ) (capacity : ℕ) (before text : List ℕ)
    → IsText before
    → length before < capacity
    → HoldsAt buffer 0 before
    → Outcome buffer capacity (before ++ text) buffer (append buffer capacity (some text))
unfolding append
append-Outcome buffer capacity before text t l h =
    let n : (capacity == 0) ≡ false = ground arith in
    let z : 0 + length before ≡ length before = omega arith in
    let used : length_from buffer capacity 0 ≡ some (length before) =
      length_from-HoldsAt buffer before capacity 0 t l h ∙ ap (λ (i : ℕ). some i) z in
    let total = length-append before text in
    elim (Bool-cases (ltb capacity (length before + length text + 1))) [
      | inl full ↦ rw (n, used, full) (inr (ground arith, refl))
      | inr fits ↦
          rw (n, used, fits)
            (inl (
              ground arith,
              refl,
              store-append before text buffer 0 (length before) z h,
              λ k. store_outside text buffer (length before) (capacity + k) (inr (ground arith)),
            ))
    ]
