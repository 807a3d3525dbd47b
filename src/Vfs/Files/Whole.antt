-- ===== src/Vfs/Files/Whole.antt =====
-- kernel/fs/vfs.cpp: the blocks behind a descriptor, and a file read whole.
use shirleys_os.Prelude.{
  zero, ◌&&◌, ◌||◌, ltb, suc, ◌==◌, not, Option, List, Bool, if◌then◌else◌, ℕ, [], none, some, true,
  false, ◌+◌, ◌-◌, take, ◌++◌,
}
use shirleys_os.Devices
use shirleys_os.Devices.{Device}
use shirleys_os.Vfs.{Vfs, FileSystem}
use shirleys_os.Vfs.Files.{file_of, open_path, read, close}
use shirleys_os.Integers.{ℤ, pos, negsuc}
use shirleys_os.Io.{Result, Error, failed, succeeded}

-- `device_at` is the device object at an address that is not null.
module _ {S : Type 0} (device_at : ℕ → Device S) where
  unfoldable pub block_read : Vfs S → ℤ → ℕ → ℕ → Bool → Result × List ℕ × Vfs S
  unfolding file_of
  block_read v d first count room = elim (file_of v d) [
    | none ↦ (failed Error.invalid_argument, [], v)
    | some i ↦
        let f = v.files i in
        if not f.flags.reads
        then (failed Error.unsupported, [], v)
        else if f.node.device == 0
        then (failed Error.unsupported, [], v)
        else let (r, out, s) =
            Devices.block_read (device_at f.node.device) v.storage first count room in
          (r, out, record v { storage = s })
  ]

  unfoldable pub block_write : Vfs S → ℤ → ℕ → ℕ → Option (ℕ → ℕ) → Result × Vfs S
  unfolding file_of
  block_write v d first count bytes = elim (file_of v d) [
    | none ↦ (failed Error.invalid_argument, v)
    | some i ↦
        let f = v.files i in
        if not f.flags.writes
        then (failed Error.unsupported, v)
        else if f.node.device == 0
        then (failed Error.unsupported, v)
        else let (r, s) =
            Devices.block_write (device_at f.node.device) v.storage first count bytes in
          (r, record v { storage = s })
  ]

  unfoldable pub block_size : Vfs S → ℤ → ℕ
  unfolding file_of
  block_size v d = elim (file_of v d) [
    | none ↦ 0
    | some i ↦
        let a = (v.files i).node.device in
        if a == 0 then 0 else Devices.block_size (device_at a) v.storage
  ]

  unfoldable pub block_count : Vfs S → ℤ → ℕ
  unfolding file_of
  block_count v d = elim (file_of v d) [
    | none ↦ 0
    | some i ↦
        let a = (v.files i).node.device in
        if a == 0 then 0 else Devices.block_count (device_at a) v.storage
  ]

module _ {S : Type 0} (systems : ℕ → FileSystem S) where
  -- The loop of `read_file`, with `left` rounds: the bytes that stand in the buffer. A round that goes on
  -- has read a byte at least, so as many rounds as the buffer has bytes are enough.
  unfoldable pub fill_from : ℕ → Vfs S → ℤ → ℕ → ℕ → List ℕ → ℕ × List ℕ × Vfs S
  unfolding read
  fill_from zero v d capacity total bytes = (total, bytes, v)
  fill_from (suc left) v d capacity total bytes = elim (ltb total capacity) [
    | false ↦ (total, bytes, v)
    | true ↦
        let (r, out, v') = read systems v d true (capacity - total) in
        elim (not (succeeded r) || r.transferred == 0) [
          | true ↦ (total, bytes, v')
          | false ↦
              fill_from left v' d capacity (total + r.transferred) (bytes ++ take r.transferred out)
        ]
  ]

  -- A buffer is whether it is not null.
  unfoldable pub read_file : Vfs S → Option (List ℕ) → Bool → ℕ → ℕ × List ℕ × Vfs S
  unfolding open_path fill_from read close
  read_file v path room capacity =
      if not room || capacity == 0
      then (0, [], v)
      else let (descriptor, v1) =
          open_path systems v path
            (record { reads = true; writes = false; creates = false; truncates = false }) none in
        elim descriptor [
          | negsuc n ↦ (0, [], v1)
          | pos d ↦
              let (total, bytes, v2) = fill_from capacity v1 (pos d) capacity 0 [] in
              let (more, extra, v3) = read systems v2 (pos d) true 1 in
              if total == capacity
              then (
                if succeeded more && not (more.transferred == 0) then 0 else total,
                bytes,
                (close v3 (pos d)).1,
              )
              else (total, bytes, (close v2 (pos d)).1)
        ]
