-- ===== src/Text/Buffers.antt =====
-- kernel/text/string.cpp: texts in character arrays of a given capacity. The array is the memory at a
-- pointer that is not null; for a null one `copy` and `append` answer false at once.
pub mod Laws
mod Tests
use shirleys_os.Text.{IsText}
use shirleys_os.Prelude.{
  ℕ, zero, suc, ◌+◌, Bool, true, false, ◌==◌, ltb, if◌then◌else◌, List, [], ◌∷◌, Option, none, some,
  update, length,
}

-- The loop of `length` with `left` characters to look at; `none` if there is no null among them, where
-- the source would read on behind the array.
unfoldable pub length_from : (ℕ → ℕ) → ℕ → ℕ → Option ℕ
length_from text zero i = none
length_from text (suc left) i =
    let rest = length_from text left (i + 1) in if text i == 0 then some i else rest

-- `for (i = 0; i < count; ++i) destination[used + i] = source[i]; destination[used + count] = '\0'`
unfoldable pub store : List ℕ → (ℕ → ℕ) → ℕ → ℕ → ℕ
store [] destination i = update destination i 0
store (x ∷ xs) destination i = store xs (update destination i x) (i + 1)

unfoldable pub copy : (ℕ → ℕ) → ℕ → Option (List ℕ) → Bool × (ℕ → ℕ)
unfolding store
copy destination capacity source = if capacity == 0 then (false, destination) else elim source [
  | none ↦ (true, update destination 0 0)
  | some text ↦
      if ltb capacity (length text + 1)
      then (false, update destination 0 0)
      else (true, store text (update destination 0 0) 0)
]

unfoldable pub append : (ℕ → ℕ) → ℕ → Option (List ℕ) → Bool × (ℕ → ℕ)
unfolding store length_from
append destination capacity source = if capacity == 0 then (false, destination) else elim source [
  | none ↦ (true, destination)
  | some text ↦ elim (length_from destination capacity 0) [
    | none ↦ (false, destination)
    | some used ↦
        if ltb capacity (used + length text + 1)
        then (false, destination)
        else (true, store text destination used)
  ]
]

-- The overload for one character; a null is the end of the text that is made of it.
unfoldable pub append_character : (ℕ → ℕ) → ℕ → ℕ → Bool × (ℕ → ℕ)
append_character destination capacity value =
    append destination capacity (some (if value == 0 then [] else value ∷ []))
