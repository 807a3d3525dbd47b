-- ===== src/Vfs/Files.antt =====
-- kernel/fs/vfs.cpp: the table of open files.
pub mod Descriptors
pub mod Contract
pub mod Whole
pub mod Reading
use shirleys_os.Vfs.{
  Vfs, Node, OpenFile, FileSystem, NodeType, is_directory, is_regular, max_path_length,
  max_open_files, no_file, regular,
}
use shirleys_os.Vfs.Paths.{copied}
use shirleys_os.Vfs.Mounts.{stat}
use shirleys_os.Vfs.Names.{parent_of, Parent}
use shirleys_os.Process.{OpenFlags}
use shirleys_os.Integers.{ℤ, pos, negsuc}
use shirleys_os.Io.{Error, Result, failed, is_none, succeeded}
use shirleys_os.Devices.{given}
use shirleys_os.Prelude.{
  ℕ, zero, suc, ◌+◌, ◌-◌, ◌%◌, Bool, true, false, not, ◌||◌, ◌&&◌, ◌==◌, ltb, leb, if◌then◌else◌,
  List, [], ◌∷◌, ◌++◌, Option, none, some, length, update, u64_mod, inl, inr,
}

abbrev pub error_not_found : ℤ
error_not_found = negsuc 0

abbrev pub error_is_directory : ℤ
error_is_directory = negsuc 1

abbrev pub error_read_only : ℤ
error_read_only = negsuc 2

abbrev pub error_no_descriptors : ℤ
error_no_descriptors = negsuc 3

abbrev pub error_invalid : ℤ
error_invalid = negsuc 4

abbrev pub error_no_space : ℤ
error_no_space = negsuc 5

unfoldable pub open_error : Error → ℤ
open_error Error.not_found = error_not_found
open_error Error.read_only = error_read_only
open_error Error.no_space = error_no_space
open_error Error.unsupported = error_read_only
open_error e = error_invalid

unfoldable pub free_from : (ℕ → OpenFile) → ℕ → ℕ → Option ℕ
free_from files zero i = none
free_from files (suc left) i =
    let rest = free_from files left (i + 1) in if (files i).used then rest else some i

-- The open file moves on by the bytes of a call that succeeded.
unfoldable pub moved : Result → OpenFile → OpenFile
moved r f =
    if succeeded r then record f { position = (f.position + r.transferred) % u64_mod } else f

unfoldable pub grown : OpenFile → OpenFile
grown f =
    if ltb f.node.size f.position && is_regular f.node
    then record f { node = record f.node { size = f.position } }
    else f

module _ {S : Type 0} where
  -- The index of the open file in place of a pointer to it.
  unfoldable pub file_of : Vfs S → ℤ → Option ℕ
  file_of v (negsuc n) = none
  file_of v (pos d) =
      if leb max_open_files d then none else if (v.files d).used then some d else none

  unfoldable pub set_file : Vfs S → ℕ → OpenFile → Vfs S
  set_file v d f = record v { files = update v.files d f }

  unfoldable pub close : Vfs S → ℤ → Bool × Vfs S
  unfolding file_of set_file
  close v d = elim (file_of v d) [ none ↦ (false, v) | some i ↦ (true, set_file v i no_file) ]

  unfoldable pub node_of : Vfs S → ℤ → Option Node
  unfolding file_of
  node_of v d = elim (file_of v d) [ none ↦ none | some i ↦ some (v.files i).node ]

  unfoldable pub seek : Vfs S → ℤ → ℕ → Bool × Vfs S
  unfolding file_of set_file
  seek v d offset = elim (file_of v d) [
    | none ↦ (false, v)
    | some i ↦ (true, set_file v i (record (v.files i) { position = offset }))
  ]

  unfoldable pub position : Vfs S → ℤ → ℕ
  unfolding file_of
  position v d = elim (file_of v d) [ none ↦ 0 | some i ↦ (v.files i).position ]

  -- The end of `open`: the first descriptor that is free.
  unfoldable pub take_descriptor : Vfs S → Node → OpenFlags → ℤ × Vfs S
  unfolding free_from set_file
  take_descriptor v node flags = elim (free_from v.files max_open_files 0) [
    | none ↦ (error_no_descriptors, v)
    | some i ↦
        (pos i, set_file v i (record { used = true; node = node; position = 0; flags = flags }))
  ]

module _ {S : Type 0} (systems : ℕ → FileSystem S) where
  -- What `open` does with the node that it has found or made.
  unfoldable pub open_node : Vfs S → Node → OpenFlags → ℤ × Vfs S
  unfolding take_descriptor open_error
  open_node v node flags =
      if is_directory node
      then (error_is_directory, v)
      else if flags.writes && not ((systems node.filesystem).writable v.storage node)
      then (error_read_only, v)
      else if not (flags.writes && flags.truncates && not (node.size == 0))
      then take_descriptor v node flags
      else let (error, s) = (systems node.filesystem).truncate v.storage node 0 in
        if not (is_none error)
        then (open_error error, record v { storage = s })
        else take_descriptor (record v { storage = s }) (record node { size = 0 }) flags

  -- What `open` does about a path that is not there.
  unfoldable pub create_and_open : Vfs S → List ℕ → Option (List ℕ) → OpenFlags → ℤ × Vfs S
  unfolding open_node open_error
  create_and_open v path base flags =
      let (found, v') = parent_of systems v (some path) base in
      elim found [
        | inl e ↦ (open_error e, v')
        | inr p ↦
            let system = systems p.parent.filesystem in
            if not (system.writable v'.storage p.parent)
            then (error_read_only, v')
            else let (made, node, s) = system.create v'.storage p.parent p.leaf regular in
              if not (is_none made)
              then (open_error made, record v' { storage = s })
              else elim (copied max_path_length p.normalized) [
                | none ↦ (error_invalid, record v' { storage = s })
                | some here ↦
                    open_node (record v' { storage = s })
                      (record node { filesystem = p.parent.filesystem; path = here }) flags
              ]
      ]

  unfoldable pub open_path : Vfs S → Option (List ℕ) → OpenFlags → Option (List ℕ) → ℤ × Vfs S
  unfolding open_node create_and_open
  open_path v none flags base = (error_invalid, v)
  open_path v (some path) flags base =
      let (found, v') = stat systems v (some path) base in
      elim found [
        | some node ↦ open_node v' node flags
        | none ↦
            if not flags.creates then (error_not_found, v') else create_and_open v' path base flags
      ]

  -- `read` and `write` once the open file is found.
  unfoldable pub read_at : Vfs S → ℕ → Bool → ℕ → Result × List ℕ × Vfs S
  unfolding set_file moved
  read_at v i room len =
      let f = v.files i in
      if not f.flags.reads
      then (failed Error.unsupported, [], v)
      else let (r, out, s) =
          (systems f.node.filesystem).read v.storage f.node f.position room len in
        (r, out, set_file (record v { storage = s }) i (moved r f))

  unfoldable pub read : Vfs S → ℤ → Bool → ℕ → Result × List ℕ × Vfs S
  unfolding file_of read_at
  read v d room len =
      if not (len == 0) && not room
      then (failed Error.invalid_argument, [], v)
      else elim (file_of v d) [
        | none ↦ (failed Error.invalid_argument, [], v)
        | some i ↦ read_at v i room len
      ]

  unfoldable pub write_at : Vfs S → ℕ → Option (ℕ → ℕ) → ℕ → Result × Vfs S
  unfolding set_file moved grown
  write_at v i bytes len =
      let f = v.files i in
      if not f.flags.writes
      then (failed Error.unsupported, v)
      else let (r, s) = (systems f.node.filesystem).write v.storage f.node f.position bytes len in
        (r, set_file (record v { storage = s }) i (grown (moved r f)))

  unfoldable pub write : Vfs S → ℤ → Option (ℕ → ℕ) → ℕ → Result × Vfs S
  unfolding file_of write_at
  write v d bytes len =
      if not (len == 0) && not (given bytes)
      then (failed Error.invalid_argument, v)
      else elim (file_of v d) [
        | none ↦ (failed Error.invalid_argument, v)
        | some i ↦ write_at v i bytes len
      ]

  unfoldable pub truncate : Vfs S → ℤ → ℕ → Error × Vfs S
  unfolding file_of set_file
  truncate v d size = elim (file_of v d) [
    | none ↦ (Error.invalid_argument, v)
    | some i ↦
        let f = v.files i in
        if not f.flags.writes
        then (Error.unsupported, v)
        else if not (is_regular f.node)
        then (Error.unsupported, v)
        else let (e, s) = (systems f.node.filesystem).truncate v.storage f.node size in
          (
            e,
            set_file (record v { storage = s }) i
                (if is_none e then record f { node = record f.node { size = size } } else f),
          )
  ]
