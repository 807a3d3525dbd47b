-- ===== src/Vfs/Paths.antt =====
-- kernel/fs/vfs.cpp: paths, and what `normalize` makes of them.
pub mod Stack
pub mod Pieces
pub mod Normal
use shirleys_os.Vfs.{max_name_length}
use shirleys_os.Text.{equals}
use shirleys_os.Prelude.{
  ℕ, zero, suc, ◌+◌, ◌-◌, Bool, true, false, not, ◌||◌, ◌&&◌, ◌==◌, ltb, if◌then◌else◌, List, [],
  ◌∷◌, ◌++◌, Option, none, some, length, take, drop,
}

abbrev pub slash : ℕ
slash = 0x2f

abbrev pub dot : ℕ
dot = 0x2e

unfoldable pub is_separator : ℕ → Bool
is_separator c = c == slash

-- The character at an index of the array, the terminating null at the end of the text.
unfoldable pub char_at : List ℕ → ℕ → ℕ
char_at [] i = 0
char_at (x ∷ xs) zero = x
char_at (x ∷ xs) (suc i) = char_at xs i

-- `text::copy` and `text::append` on texts: `none` is false, after which the buffer is not used.
unfoldable pub copied : ℕ → List ℕ → Option (List ℕ)
copied capacity text = if ltb capacity (length text + 1) then none else some text

unfoldable pub appended : ℕ → List ℕ → List ℕ → Option (List ℕ)
appended capacity before text =
    if ltb capacity (length before + length text + 1) then none else some (before ++ text)

-- The loop of `remove_last_component`.
unfoldable pub cut : List ℕ → ℕ → ℕ
unfolding is_separator char_at
cut buffer zero = zero
cut buffer (suc n) =
    let rest = cut buffer n in
    if ltb 1 (suc n) && not (is_separator (char_at buffer n)) then rest else suc n

unfoldable pub remove_last_component : List ℕ → List ℕ
unfolding cut
remove_last_component buffer =
    let n = cut buffer (length buffer) in take (if ltb 1 n then n - 1 else n) buffer

unfoldable pub append_component : ℕ → List ℕ → List ℕ → Option (List ℕ)
unfolding appended
append_component capacity buffer component =
    if length buffer == 1
    then appended capacity buffer component
    else elim (appended capacity buffer (slash ∷ [])) [
      | none ↦ none
      | some with_slash ↦ appended capacity with_slash component
    ]

-- `text::equals` with a count: the loop with `left` characters to go.
unfoldable pub equals_count : List ℕ → List ℕ → ℕ → ℕ → Bool
unfolding char_at
equals_count a b zero i = true
equals_count a b (suc left) i =
    let rest = equals_count a b left (i + 1) in
    if not (char_at a i == char_at b i) then false else if char_at a i == 0 then true else rest

unfoldable pub path_starts_with : List ℕ → List ℕ → Bool
unfolding equals_count is_separator char_at
path_starts_with path prefix =
    let next = char_at path (length prefix) in
    if not (equals_count path prefix (length prefix) 0)
    then false
    else if length prefix == 1
    then true
    else next == 0 || is_separator next

unfoldable pub skip_separators : List ℕ → List ℕ
unfolding is_separator
skip_separators [] = []
skip_separators (c ∷ cs) = let rest = skip_separators cs in if is_separator c then rest else c ∷ cs

-- The characters up to a separator, and what follows them.
unfoldable pub component : List ℕ → List ℕ × List ℕ
unfolding is_separator
component [] = ([], [])
component (c ∷ cs) =
    let (name, rest) = component cs in if is_separator c then ([], c ∷ cs) else (c ∷ name, rest)

-- What a component does to the buffer.
unfoldable pub enter : ℕ → List ℕ → List ℕ → Option (List ℕ)
unfolding remove_last_component append_component
enter capacity buffer name =
    if equals name (dot ∷ [])
    then some buffer
    else if equals name (dot ∷ dot ∷ [])
    then some (remove_last_component buffer)
    else append_component capacity buffer name

-- The loop of `normalize`, with `left` rounds.
unfoldable pub normalize_from : ℕ → ℕ → List ℕ → List ℕ → Option (List ℕ)
unfolding skip_separators component enter
normalize_from zero capacity cursor buffer = none
normalize_from (suc left) capacity cursor buffer = elim (skip_separators cursor) [
  | [] ↦ some buffer
  | c ∷ cs ↦
      let (name, rest) = component (c ∷ cs) in
      if ltb max_name_length (length name) then none else elim (enter capacity buffer name) [
        | none ↦ none
        | some entered ↦ normalize_from left capacity rest entered
      ]
]

unfoldable pub is_empty : List ℕ → Bool
is_empty [] = true
is_empty (c ∷ cs) = false

-- `path` is not a null pointer, nor is the buffer; `base` is `none` for one. Every round takes a
-- character at least, so one round more than the path has is enough.
unfoldable pub normalize : List ℕ → Option (List ℕ) → ℕ → Option (List ℕ)
unfolding normalize_from copied is_empty char_at
normalize path base capacity =
    if capacity == 0
    then none
    else let absolute = char_at path 0 == slash in
      let start : List ℕ = elim base [
        | none ↦ slash ∷ []
        | some b ↦ if absolute || is_empty b then slash ∷ [] else b
      ] in
      elim (copied capacity start) [
        | none ↦ none
        | some buffer ↦ normalize_from (length path + 1) capacity path buffer
      ]
