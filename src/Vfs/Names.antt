-- ===== src/Vfs/Names.antt =====
-- kernel/fs/vfs.cpp: the operations on names in directories.
pub mod Busy
pub mod Move
use shirleys_os.Vfs.{
  Vfs, Mount, Node, OpenFile, FileSystem, NodeType, is_directory, max_path_length, max_name_length,
  max_open_files, directory,
}
use shirleys_os.Vfs.Paths.{
  copied, normalize, path_starts_with, remove_last_component, slash, is_separator,
}
use shirleys_os.Vfs.Mounts.{stat}
use shirleys_os.Text.{equals}
use shirleys_os.Io.{Error, is_none}
use shirleys_os.Prelude.{
  ℕ, zero, suc, ◌+◌, Bool, true, false, not, ◌||◌, ◌&&◌, ◌==◌, if◌then◌else◌, List, [], ◌∷◌, Option,
  none, some, ◌⊎◌, inl, inr,
}

-- What follows the last separator; `last` is what follows the one before.
unfoldable pub leaf_from : List ℕ → List ℕ → List ℕ
unfolding is_separator
leaf_from last [] = last
leaf_from last (c ∷ cs) = leaf_from (if is_separator c then cs else last) cs

unfoldable pub covers_mount_from : (ℕ → Mount) → List ℕ → ℕ → ℕ → Bool
covers_mount_from mounts path zero i = false
covers_mount_from mounts path (suc left) i =
    let rest = covers_mount_from mounts path left (i + 1) in
    if path_starts_with (mounts i).path path then true else rest

unfoldable pub covers_file_from : (ℕ → OpenFile) → List ℕ → ℕ → ℕ → Bool
covers_file_from files path zero i = false
covers_file_from files path (suc left) i =
    let rest = covers_file_from files path left (i + 1) in
    if (files i).used && path_starts_with (files i).node.path path then true else rest

module _ {S : Type 0} where
  unfoldable pub covers_mount : Vfs S → List ℕ → Bool
  unfolding covers_mount_from
  covers_mount v path = covers_mount_from v.mounts path v.mount_total 0

  unfoldable pub covers_open_file : Vfs S → List ℕ → Bool
  unfolding covers_file_from
  covers_open_file v path = covers_file_from v.files path max_open_files 0

pub record Parent : Type 0 where
  pub normalized : List ℕ
  pub parent : Node
  pub leaf : List ℕ

module _ {S : Type 0} (systems : ℕ → FileSystem S) where
  -- The error, or the three that the source writes through its pointers.
  unfoldable pub parent_of : Vfs S → Option (List ℕ) → Option (List ℕ) → (Error ⊎ Parent) × Vfs S
  unfolding leaf_from
  parent_of v none base = (inl Error.invalid_argument, v)
  parent_of v (some path) base = elim (normalize path base max_path_length) [
    | none ↦ (inl Error.invalid_argument, v)
    | some normalized ↦
        if equals normalized (slash ∷ [])
        then (inl Error.invalid_argument, v)
        else elim (copied (max_name_length + 1) (leaf_from normalized normalized)) [
          | none ↦ (inl Error.invalid_argument, v)
          | some leaf ↦ elim (copied max_path_length normalized) [
            | none ↦ (inl Error.invalid_argument, v)
            | some whole ↦
                let (found, v') = stat systems v (some (remove_last_component whole)) none in
                elim found [
                  | none ↦ (inl Error.not_found, v')
                  | some parent ↦ if not (is_directory parent) then (inl Error.not_found, v') else (
                    inr (record { normalized = normalized; parent = parent; leaf = leaf }),
                    v',
                  )
                ]
          ]
        ]
  ]

  unfoldable pub make_directory : Vfs S → Option (List ℕ) → Option (List ℕ) → Error × Vfs S
  unfolding parent_of
  make_directory v path base =
      let (found, v1) = parent_of v path base in
      elim found [
        | inl e ↦ (e, v1)
        | inr p ↦
            let (existing, v2) = stat systems v1 (some p.normalized) none in
            elim existing [
              | some node ↦ (Error.already_exists, v2)
              | none ↦
                  if not ((systems p.parent.filesystem).writable v2.storage p.parent)
                  then (Error.read_only, v2)
                  else let (e, created, s) =
                      (systems p.parent.filesystem).create v2.storage p.parent p.leaf directory in
                    (e, record v2 { storage = s })
            ]
      ]

  -- The end of `remove`, once the parent and the node are found.
  unfoldable pub remove_node : Vfs S → Parent → Node → Error × Vfs S
  unfolding covers_mount covers_open_file
  remove_node v p node =
      if covers_mount v p.normalized || covers_open_file v p.normalized
      then (Error.busy, v)
      else if not (node.filesystem == p.parent.filesystem)
      then (Error.busy, v)
      else if not ((systems p.parent.filesystem).writable v.storage p.parent)
      then (Error.read_only, v)
      else let (e, s) = (systems p.parent.filesystem).remove v.storage p.parent p.leaf in
        (e, record v { storage = s })

  unfoldable pub remove : Vfs S → Option (List ℕ) → Option (List ℕ) → Error × Vfs S
  unfolding parent_of remove_node
  remove v path base =
      let (found, v1) = parent_of v path base in
      elim found [
        | inl e ↦ (e, v1)
        | inr p ↦
            let (existing, v2) = stat systems v1 (some p.normalized) none in
            elim existing [ none ↦ (Error.not_found, v2) | some node ↦ remove_node v2 p node ]
      ]

  -- The end of `rename`, once both parents and the node are found and the new name is free.
  unfoldable pub rename_node : Vfs S → Parent → Parent → Node → Error × Vfs S
  unfolding covers_mount covers_open_file
  rename_node v from to node =
      if covers_mount v from.normalized || covers_open_file v from.normalized
      then (Error.busy, v)
      else if not (node.filesystem == from.parent.filesystem)
          || not (to.parent.filesystem == from.parent.filesystem)
      then (Error.unsupported, v)
      else if path_starts_with to.normalized from.normalized
      then (Error.invalid_argument, v)
      else if not ((systems from.parent.filesystem).writable v.storage from.parent)
      then (Error.read_only, v)
      else let (e, s) =
          (systems from.parent.filesystem).rename v.storage from.parent from.leaf to.parent
            to.leaf in
        (e, record v { storage = s })

  -- `rename` from where both parents are found.
  unfoldable pub rename_between : Vfs S → Parent → Parent → Error × Vfs S
  unfolding rename_node
  rename_between v from to =
      let (node, v1) = stat systems v (some from.normalized) none in
      elim node [
        | none ↦ (Error.not_found, v1)
        | some there ↦
            if equals from.normalized to.normalized
            then (Error.none, v1)
            else let (existing, v2) = stat systems v1 (some to.normalized) none in
              elim existing [
                | some other ↦ (Error.already_exists, v2)
                | none ↦ rename_node v2 from to there
              ]
      ]

  unfoldable pub rename :
      Vfs S → Option (List ℕ) → Option (List ℕ) → Option (List ℕ) → Error × Vfs S
  unfolding parent_of rename_between
  rename v from to base =
      let (found, v1) = parent_of v from base in
      elim found [
        | inl e ↦ (e, v1)
        | inr source ↦
            let (other, v2) = parent_of v1 to base in
            elim other [ inl e ↦ (e, v2) | inr target ↦ rename_between v2 source target ]
      ]

  -- The loop of `sync`, over the mounts from index `i` on.
  unfoldable pub sync_from : (ℕ → Mount) → ℕ → ℕ → Error → S → Error × S
  sync_from mounts zero i first s = (first, s)
  sync_from mounts (suc left) i first s =
      let (e, s') = (systems (mounts i).filesystem).sync s in
      sync_from mounts left (i + 1) (if is_none first then e else first) s'

  unfoldable pub sync : Vfs S → Error × Vfs S
  unfolding sync_from
  sync v =
      let (e, s) = sync_from v.mounts v.mount_total 0 Error.none v.storage in
      (e, record v { storage = s })
