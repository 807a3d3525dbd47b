-- ===== src/Vfs/Mounts.antt =====
-- kernel/fs/vfs.cpp: the table of mounts and the resolution of paths.
pub mod Longest
pub mod Table
use shirleys_os.Vfs.{
  Vfs, Mount, Node, FileSystem, is_directory, max_path_length, max_name_length, max_mounts,
  max_open_files, no_mount,
}
use shirleys_os.Vfs.Paths.{
  path_starts_with, skip_separators, component, append_component, copied, normalize, slash,
  remove_last_component, char_at,
}
use shirleys_os.Text.{equals}
use shirleys_os.Prelude.{
  ℕ, zero, suc, ◌+◌, ◌-◌, Bool, true, false, not, ◌||◌, ◌&&◌, ◌==◌, ltb, leb, if◌then◌else◌, List,
  [], ◌∷◌, Option, none, some, length, drop, update,
}

-- The loop of `mount_for`: the best mount so far and the length of its path.
unfoldable pub mount_from : (ℕ → Mount) → List ℕ → ℕ → ℕ → Option ℕ → ℕ → Option ℕ
mount_from mounts path zero i best best_length = best
mount_from mounts path (suc left) i best best_length =
    let candidate = (mounts i).path in
    let keep =
      not (path_starts_with path candidate)
      || elim best [ none ↦ false | some j ↦ leb (length candidate) best_length ] in
    mount_from mounts path left (i + 1) (if keep then best else some i)
      (if keep then best_length else length candidate)

unfoldable pub is_mounted_from : (ℕ → Mount) → List ℕ → ℕ → ℕ → Bool
is_mounted_from mounts path zero i = false
is_mounted_from mounts path (suc left) i =
    let rest = is_mounted_from mounts path left (i + 1) in
    if equals (mounts i).path path then true else rest

module _ {S : Type 0} where
  -- The index of the mount in place of a pointer to it.
  unfoldable pub mount_for : Vfs S → List ℕ → Option ℕ
  unfolding mount_from
  mount_for v path = mount_from v.mounts path v.mount_total 0 none 0

  -- The loop of `unmount` over the open files: whether one of them is on the file system.
  unfoldable pub holds_open : Vfs S → ℕ → ℕ → ℕ → Bool
  holds_open v filesystem zero i = false
  holds_open v filesystem (suc left) i =
      let rest = holds_open v filesystem left (i + 1) in
      if (v.files i).used && (v.files i).node.filesystem == filesystem then true else rest

  unfoldable pub unmount_from : Vfs S → List ℕ → ℕ → ℕ → Bool × Vfs S
  unfolding holds_open
  unmount_from v path zero i = (false, v)
  unmount_from v path (suc left) i =
      let rest = unmount_from v path left (i + 1) in
      if not (equals (v.mounts i).path path)
      then rest
      else if holds_open v (v.mounts i).filesystem max_open_files 0
      then (false, v)
      else (
        true,
        record v {
          mounts =
              update (update v.mounts i (v.mounts (v.mount_total - 1))) (v.mount_total - 1)
                no_mount;
          mount_total = v.mount_total - 1;
        },
      )

  unfoldable pub unmount : Vfs S → Option (List ℕ) → Bool × Vfs S
  unfolding unmount_from
  unmount v none = (false, v)
  unmount v (some path) = elim (normalize path none max_path_length) [
    | none ↦ (false, v)
    | some normalized ↦ unmount_from v normalized v.mount_total 0
  ]

module _ {S : Type 0} (systems : ℕ → FileSystem S) where
  -- The loop of `walk`, with `left` rounds.
  unfoldable pub walk_from : ℕ → ℕ → Node → List ℕ → S → Option Node × S
  walk_from zero filesystem current remainder s = (none, s)
  walk_from (suc left) filesystem current remainder s = elim (skip_separators remainder) [
    | [] ↦ (some current, s)
    | c ∷ cs ↦
        let (name, rest) = component (c ∷ cs) in
        if ltb max_name_length (length name)
        then (none, s)
        else if not (is_directory current)
        then (none, s)
        else let (found, s') = (systems filesystem).lookup s current name in
          elim found [
            | none ↦ (none, s')
            | some child ↦ elim (copied max_path_length current.path) [
              | none ↦ (none, s')
              | some path ↦ elim (append_component max_path_length path name) [
                | none ↦ (none, s')
                | some longer ↦
                    walk_from left filesystem
                      (record child { filesystem = filesystem; path = longer }) rest s'
              ]
            ]
          ]
  ]

  -- Every round takes a character at least.
  unfoldable pub walk : Mount → List ℕ → S → Option Node × S
  unfolding walk_from
  walk m path s =
      let (found, s') = (systems m.filesystem).root s in
      elim found [
        | none ↦ (none, s')
        | some root ↦ elim (copied max_path_length m.path) [
          | none ↦ (none, s')
          | some here ↦
              let remainder = drop (length m.path) path in
              walk_from (length remainder + 1) m.filesystem
                (record root { filesystem = m.filesystem; path = here }) remainder s'
        ]
      ]

  unfoldable pub stat : Vfs S → Option (List ℕ) → Option (List ℕ) → Option Node × Vfs S
  unfolding walk
  stat v none base = (none, v)
  stat v (some path) base = elim (normalize path base max_path_length) [
    | none ↦ (none, v)
    | some normalized ↦ elim (mount_for v normalized) [
      | none ↦ (none, v)
      | some i ↦
          let (found, s) = walk (v.mounts i) normalized v.storage in
          (found, record v { storage = s })
    ]
  ]

  -- The end of `mount`.
  unfoldable pub enter_mount : Vfs S → List ℕ → ℕ → Bool × Vfs S
  enter_mount v normalized filesystem = elim (copied max_path_length normalized) [
    | none ↦ (false, v)
    | some path ↦ (
      true,
      record v {
        mounts = update v.mounts v.mount_total (record { path = path; filesystem = filesystem });
        mount_total = v.mount_total + 1;
      },
    )
  ]

  unfoldable pub mount : Vfs S → Option (List ℕ) → ℕ → Bool × Vfs S
  unfolding stat enter_mount is_mounted_from
  mount v none filesystem = (false, v)
  mount v (some path) filesystem =
      if not (char_at path 0 == slash)
      then (false, v)
      else if leb max_mounts v.mount_total
      then (false, v)
      else if v.mount_total == 0 && not (equals path (slash ∷ []))
      then (false, v)
      else elim (normalize path none max_path_length) [
        | none ↦ (false, v)
        | some normalized ↦
            if is_mounted_from v.mounts normalized v.mount_total 0
            then (false, v)
            else if v.mount_total == 0
            then enter_mount v normalized filesystem
            else elim (copied max_path_length normalized) [
              | none ↦ (false, v)
              | some parent ↦
                  let (found, v') = stat v (some (remove_last_component parent)) none in
                  elim found [
                    | none ↦ (false, v')
                    | some point ↦
                        if not (is_directory point)
                        then (false, v')
                        else enter_mount v' normalized filesystem
                  ]
            ]
      ]
