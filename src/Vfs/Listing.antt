-- ===== src/Vfs/Listing.antt =====
-- kernel/fs/vfs.cpp: the entries of a directory, and the file systems that are mounted in it.
use shirleys_os.Prelude.{
  ltb, ◌==◌, ◌&&◌, not, ◌||◌, zero, if◌then◌else◌, Bool, suc, Option, List, ℕ, ◌∷◌, [], none, some,
  false, length, drop, ◌+◌, ◌-◌,
}
use shirleys_os.Vfs.{
  max_mounts, Vfs, Mount, Node, FileSystem, is_directory, max_path_length, max_name_length,
  directory,
}
use shirleys_os.Vfs.Paths.{
  copied, append_component, path_starts_with, skip_separators, is_separator, is_empty,
}
use shirleys_os.Vfs.Names.{leaf_from}
use shirleys_os.Text.{equals}

unfoldable pub has_separator : List ℕ → Bool
unfolding is_separator
has_separator [] = false
has_separator (c ∷ cs) = let rest = has_separator cs in is_separator c || rest

-- Whether a mount lies in a directory, with one name between.
unfoldable pub is_nested : List ℕ → List ℕ → Bool
unfolding path_starts_with skip_separators has_separator is_empty
is_nested candidate path =
    let leaf = skip_separators (drop (length path) candidate) in
    not (equals candidate path)
    && path_starts_with candidate path
    && not (has_separator leaf)
    && not (is_empty leaf)

-- The loop of `nested_mount`, from index `i` on with `seen` of them before it.
unfoldable pub nested_from : (ℕ → Mount) → List ℕ → ℕ → ℕ → ℕ → ℕ → Option ℕ
unfolding is_nested
nested_from mounts path place zero i seen = none
nested_from mounts path place (suc left) i seen =
    let nested = is_nested (mounts i).path path in
    let rest = nested_from mounts path place left (i + 1) (if nested then seen + 1 else seen) in
    if not nested then rest else if seen == place then some i else rest

module _ {S : Type 0} (systems : ℕ → FileSystem S) where
  unfoldable pub mount_as_child : Mount → S → Option Node × S
  unfolding copied leaf_from
  mount_as_child m s =
      let (found, s') = (systems m.filesystem).root s in
      elim found [
        | none ↦ (none, s')
        | some child ↦ elim (copied max_path_length m.path) [
          | none ↦ (none, s')
          | some path ↦ elim (copied (max_name_length + 1) (leaf_from m.path m.path)) [
            | none ↦ (none, s')
            | some name ↦ (
              some (record child {
                filesystem = m.filesystem;
                type = directory;
                path = path;
                name = name;
              }),
              s',
            )
          ]
        ]
      ]

  -- The loop that counts the file system's own entries, with `left` rounds: `none` if they ran out.
  unfoldable pub own_from : ℕ → Node → ℕ → S → Option ℕ × S
  own_from zero node own s = (none, s)
  own_from (suc left) node own s =
      let (found, s') = (systems node.filesystem).list s node own in
      elim found [ none ↦ (some own, s') | some scratch ↦ own_from left node (own + 1) s' ]

  -- `list` on a directory with no more than `most` entries of its own; `none` for a longer one.
  unfoldable pub list : ℕ → Vfs S → Node → ℕ → Option (Option Node × Vfs S)
  unfolding own_from nested_from mount_as_child copied append_component
  list most v node place =
      let (found, s) = (systems node.filesystem).list v.storage node place in
      let (counted, s') = own_from (most + 1) node 0 s in
      if not (is_directory node) || node.filesystem == 0 then some (none, v) else elim found [
        | some child ↦ elim (copied max_path_length node.path) [
          | none ↦ some (none, record v { storage = s })
          | some path ↦ elim (append_component max_path_length path child.name) [
            | none ↦ some (none, record v { storage = s })
            | some longer ↦ some (
              some (record child { filesystem = node.filesystem; path = longer }),
              record v { storage = s },
            )
          ]
        ]
        | none ↦ elim counted [
          | none ↦ none
          | some own ↦
              if ltb place own
              then some (none, record v { storage = s' })
              else elim (nested_from v.mounts node.path (place - own) v.mount_total 0 0) [
                | none ↦ some (none, record v { storage = s' })
                | some i ↦
                    let (child, s'') = mount_as_child (v.mounts i) s' in
                    some (child, record v { storage = s'' })
              ]
        ]
      ]

  -- The loop of `child_count`, with `left` rounds.
  unfoldable pub children_from : ℕ → ℕ → Vfs S → Node → ℕ → Option (ℕ × Vfs S)
  unfolding list
  children_from zero most v node total = none
  children_from (suc left) most v node total = elim (list most v node total) [
    | none ↦ none
    | some (found, v') ↦ elim found [
      | none ↦ some (total, v')
      | some child ↦ children_from left most v' node (total + 1)
    ]
  ]

  -- The mounts add four entries at most.
  unfoldable pub child_count : ℕ → Vfs S → Node → Option (ℕ × Vfs S)
  unfolding children_from
  child_count most v node = children_from (most + max_mounts + 1) most v node 0
