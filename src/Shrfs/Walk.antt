-- ===== src/Shrfs/Walk.antt =====
-- kernel/fs/shrfs.cpp: lookup and path_of.
use shirleys_os.Prelude.{
  ◌&&◌, zero, ◌-◌, ◌||◌, not, ◌+◌, ◌==◌, ltb, if◌then◌else◌, suc, length, Option, List, ℕ, ◌∷◌, [],
  none, some, true, false,
}
use shirleys_os.Shrfs.{max_depth, Shrfs, Node, read_entry, entry, root, mounted, max_name_length}
use shirleys_os.Vfs.Paths.{slash, dot, skip_separators, component, copied, appended, char_at}
use shirleys_os.Text.{equals}

-- The next name of a path, cut off from it: `none` at the end, and for a name that does not fit.
unfoldable pub next_component : List ℕ → ℕ → Option (List ℕ) × List ℕ
unfolding skip_separators component
next_component cursor capacity = elim (skip_separators cursor) [
  | [] ↦ (none, [])
  | c ∷ cs ↦
      let (name, rest) = component (c ∷ cs) in
      if ltb capacity (length name + 1) then (none, rest) else (some name, rest)
]

module _ {W : Type 0} where
  -- The loop of `lookup` over the entries.
  unfoldable pub child_from : Shrfs W → ℕ → List ℕ → ℕ → ℕ → W → Option Node × W
  unfolding read_entry
  child_from s directory name zero index w = (none, w)
  child_from s directory name (suc left) index w =
      let (found, w') = read_entry s index w in
      elim found [
        | none ↦ (none, w')
        | some candidate ↦ elim (candidate.parent == directory && equals candidate.name name) [
          | true ↦ (some candidate, w')
          | false ↦ child_from s directory name left (index + 1) w'
        ]
      ]

  -- What a name leads to from the node `current`.
  unfoldable pub step_into : Shrfs W → Node → List ℕ → W → Option Node × W
  unfolding entry child_from
  step_into s current name w =
      if equals name (dot ∷ [])
      then (some current, w)
      else if equals name (dot ∷ dot ∷ [])
      then entry s current.parent w
      else if not current.directory
      then (none, w)
      else child_from s current.index name (s.entries - 1) 1 w

  -- The loop of `lookup`; every round takes a character at least.
  unfoldable pub lookup_from : Shrfs W → ℕ → List ℕ → Node → W → Option Node × W
  unfolding skip_separators next_component step_into
  lookup_from s zero cursor current w = (none, w)
  lookup_from s (suc left) cursor current w = elim (skip_separators cursor) [
    | [] ↦ (some current, w)
    | c ∷ cs ↦
        let (found, rest) = next_component (c ∷ cs) (max_name_length + 1) in
        elim found [
          | none ↦ (none, w)
          | some name ↦
              let (next, w') = step_into s current name w in
              elim next [ none ↦ (none, w') | some node ↦ lookup_from s left rest node w' ]
        ]
  ]

  -- `base` is `none` for a null pointer; the path is not one.
  unfoldable pub lookup : Shrfs W → List ℕ → Option Node → W → Option Node × W
  unfolding mounted root lookup_from char_at
  lookup s path base w =
      let from_root : Option Node × W =
        (let (top, w') = root s w in
          elim top [
            | none ↦ (none, w')
            | some node ↦ lookup_from s (length path + 1) path node w'
          ]) in
      if not (mounted s) then (none, w) else elim base [
        | none ↦ from_root
        | some node ↦
            if char_at path 0 == slash
            then from_root
            else lookup_from s (length path + 1) path node w
      ]

  -- The loop up to the root: the entries on the way, the uppermost first.
  unfoldable pub chain_from : Shrfs W → ℕ → Node → List ℕ → W → Option (List ℕ) × W
  unfolding entry
  chain_from s zero current chain w = (if current.index == 0 then some chain else none, w)
  chain_from s (suc left) current chain w = elim (current.index == 0) [
    | true ↦ (some chain, w)
    | false ↦
        let (found, w') = entry s current.parent w in
        elim found [ none ↦ (none, w') | some up ↦ chain_from s left up (current.index ∷ chain) w' ]
  ]

  -- The loop that puts the names together.
  unfoldable pub names_from : Shrfs W → ℕ → List ℕ → List ℕ → W → Option (List ℕ) × W
  unfolding entry appended
  names_from s capacity buffer [] w = (some buffer, w)
  names_from s capacity buffer (index ∷ more) w =
      let (found, w') = entry s index w in
      elim found [
        | none ↦ (none, w')
        | some node ↦ elim (appended capacity buffer node.name) [
          | none ↦ (none, w')
          | some longer ↦ elim more [
            | [] ↦ (some longer, w')
            | next ∷ others ↦ elim (appended capacity longer (slash ∷ [])) [
              | none ↦ (none, w')
              | some separated ↦ names_from s capacity separated more w'
            ]
          ]
        ]
      ]

  -- The buffer is not a null pointer.
  unfoldable pub path_of : Shrfs W → Node → ℕ → W → Option (List ℕ) × W
  unfolding mounted copied chain_from names_from
  path_of s node capacity w =
      if not (mounted s) || capacity == 0 then (none, w) else elim (copied capacity (slash ∷ [])) [
        | none ↦ (none, w)
        | some buffer ↦
            let (chain, w') = chain_from s max_depth node [] w in
            elim chain [
              | none ↦ (none, w')
              | some indices ↦ names_from s capacity buffer indices w'
            ]
      ]
