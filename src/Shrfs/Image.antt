-- ===== src/Shrfs/Image.antt =====
-- kernel/fs/shrfs.cpp: mount and read.
use shirleys_os.Io.{Error, failed, Result, BlockDevice}
use shirleys_os.Partitions.{byte_at}
use shirleys_os.Shrfs.{
  entry_bytes, magic, supported_version, header_bytes, Node, load_u64, data_offset_of, read_bytes,
  load_u32, Shrfs, unmount, mounted,
}
use shirleys_os.Shrfs.{read_entry}
use shirleys_os.Prelude.{
  leb, ◌&&◌, u64_mod, ◌-◌, sub64, ◌%◌, ◌||◌, ltb, [], ◌*◌, if◌then◌else◌, zero, Option, suc, ◌+◌,
  ◌==◌, not, List, Bool, ℕ, ◌∷◌, none, some, true, false,
}

-- Whether the magic number stands at the start of the header.
unfoldable pub has_magic : List ℕ → ℕ → List ℕ → Bool
unfolding byte_at
has_magic raw i [] = true
has_magic raw i (c ∷ cs) =
    let rest = has_magic raw (i + 1) cs in if not (byte_at raw i == c) then false else rest

-- The test of `mount` on the fields of the header; `size - table` is on 64 bits.
unfoldable pub bad_header : ℕ → ℕ → ℕ → ℕ → ℕ → ℕ → Bool
bad_header version count table data_at size device_bytes =
    not (version == supported_version)
    || count == 0
    || ltb table header_bytes
    || ltb data_at table
    || ltb device_bytes size
    || ltb (sub64 size table) (count * entry_bytes)
    || ltb data_at (table + count * entry_bytes)

module _ {W : Type 0} where
  -- The loop of `mount` over the entries: the bytes of all files, `none` if an entry does not decode.
  unfoldable pub entries_from : Shrfs W → ℕ → ℕ → ℕ → W → Option ℕ × W
  unfolding read_entry
  entries_from s zero index total w = (some total, w)
  entries_from s (suc left) index total w =
      let (found, w') = read_entry s index w in
      elim found [
        | none ↦ (none, w')
        | some node ↦
            entries_from s left (index + 1)
              (if node.directory then total else (total + node.size) % u64_mod) w'
      ]

  -- `mount` from where the header is read.
  unfoldable pub mount_header : Shrfs W → BlockDevice W → List ℕ → W → Bool × Shrfs W × W
  unfolding unmount has_magic bad_header entries_from read_entry load_u32 load_u64
  mount_header s disk raw w =
      let device_bytes = disk.block_count w * disk.block_size w % u64_mod in
      let s' : Shrfs W = record {
        device = some disk;
        entries = load_u32 raw 12;
        table_offset = load_u32 raw 16;
        data_offset = load_u32 raw 20;
        image_bytes = load_u64 raw 24;
        file_bytes = 0;
      } in
      if not (has_magic raw 0 magic)
      then (false, unmount s, w)
      else if bad_header (load_u32 raw 8) s'.entries s'.table_offset s'.data_offset s'.image_bytes
          device_bytes
      then (false, unmount s, w)
      else let (top, w1) = read_entry s' 0 w in
        elim top [
          | none ↦ (false, unmount s, w1)
          | some node ↦
              if not node.directory
              then (false, unmount s, w1)
              else let (total, w2) = entries_from s' s'.entries 0 0 w1 in
                elim total [
                  | none ↦ (false, unmount s, w2)
                  | some bytes ↦ (true, record s' { file_bytes = bytes }, w2)
                ]
        ]

  unfoldable pub mount : Shrfs W → BlockDevice W → W → Bool × Shrfs W × W
  unfolding unmount read_bytes mount_header
  mount s disk w =
      let (found, w') = read_bytes (record (unmount s) { device = some disk }) 0 header_bytes w in
      elim found [ none ↦ (false, unmount s, w') | some raw ↦ mount_header s disk raw w' ]

  -- The end of `read`.
  unfoldable pub delivered : ℕ → Option (List ℕ) × W → Result × List ℕ × W
  delivered wanted (none, w) = (failed Error.device_error, [], w)
  delivered wanted (some bytes, w) = (record { transferred = wanted; error = Error.none }, bytes, w)

  -- A buffer to read into is a Boolean, whether it is not null.
  unfoldable pub read : Shrfs W → Node → ℕ → Bool → ℕ → W → Result × List ℕ × W
  unfolding mounted data_offset_of read_bytes delivered
  read s file offset room size w =
      let wanted = if ltb (file.size - offset) size then file.size - offset else size in
      if not (mounted s)
      then (failed Error.unsupported, [], w)
      else if file.directory
      then (failed Error.invalid_argument, [], w)
      else if not (size == 0) && not room
      then (failed Error.invalid_argument, [], w)
      else if leb s.entries file.index
      then (failed Error.invalid_argument, [], w)
      else if leb file.size offset
      then (record { transferred = 0; error = Error.none }, [], w)
      else let (start, w1) = data_offset_of s file.index w in
        if start == 0
        then (failed Error.device_error, [], w1)
        else delivered wanted (read_bytes s ((start + offset) % u64_mod) wanted w1)

  -- The loop of `list`: `seen` children of the directory so far, `left` entries to go.
  unfoldable pub list_from : Shrfs W → ℕ → ℕ → ℕ → ℕ → ℕ → W → Option Node × W
  unfolding read_entry
  list_from s directory place zero index seen w = (none, w)
  list_from s directory place (suc left) index seen w =
      let (found, w') = read_entry s index w in
      elim found [
        | none ↦ (none, w')
        | some candidate ↦ elim (candidate.parent == directory) [
          | false ↦ list_from s directory place left (index + 1) seen w'
          | true ↦ elim (seen == place) [
            | true ↦ (some candidate, w')
            | false ↦ list_from s directory place left (index + 1) (seen + 1) w'
          ]
        ]
      ]

  unfoldable pub list : Shrfs W → Node → ℕ → W → Option Node × W
  unfolding mounted list_from
  list s directory place w =
      if not (mounted s) || not directory.directory
      then (none, w)
      else list_from s directory.index place (s.entries - 1) 1 0 w

  unfoldable pub count_from : Shrfs W → ℕ → ℕ → ℕ → ℕ → W → ℕ × W
  unfolding read_entry
  count_from s directory zero index count w = (count, w)
  count_from s directory (suc left) index count w =
      let (found, w') = read_entry s index w in
      elim found [
        | none ↦ (count, w')
        | some candidate ↦
            count_from s directory left (index + 1)
              (if candidate.parent == directory then count + 1 else count) w'
      ]

  unfoldable pub child_count : Shrfs W → Node → W → ℕ × W
  unfolding mounted count_from
  child_count s directory w =
      if not (mounted s) || not directory.directory
      then (0, w)
      else count_from s directory.index (s.entries - 1) 1 0 w
