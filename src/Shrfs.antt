-- ===== src/Shrfs.antt =====
-- include/shirley/fs.hpp and kernel/fs/shrfs.cpp: SHRFS1, a read-only file system on a block device. `W` is
-- the state of the device.
pub mod Image
pub mod Bytes
pub mod Files
pub mod Mounting
pub mod Walk
pub mod Memory
pub mod Adapter
mod Tests
use shirleys_os.Io.{succeeded, BlockDevice}
use shirleys_os.Blocks.RamDisk.{is_null}
use shirleys_os.Prelude.{
  ◌++◌, drop, take, ◌-◌, ◌&&◌, ◌||◌, ◌/◌, u64_mod, zero, length, leb, ◌==◌, ◌^◌, suc, ◌%◌, ltb, ◌*◌,
  [], not, if◌then◌else◌, Option, List, Bool, ◌+◌, ℕ, ◌∷◌, none, some, true, false,
}
use shirleys_os.Partitions.{byte_at}
use Prim.Native.Nat.{bit_and}

abbrev pub max_name_length : ℕ
max_name_length = 55

abbrev pub max_depth : ℕ
max_depth = 16

abbrev pub header_bytes : ℕ
header_bytes = 32

abbrev pub entry_bytes : ℕ
entry_bytes = 80

abbrev pub name_bytes : ℕ
name_bytes = 56

abbrev pub directory_flag : ℕ
directory_flag = 1

abbrev pub supported_version : ℕ
supported_version = 1

abbrev pub bounce_bytes : ℕ
bounce_bytes = 512

-- "SHRFS1" and two nulls.
abbrev pub magic : List ℕ
magic = 0x53 ∷ 0x48 ∷ 0x52 ∷ 0x46 ∷ 0x53 ∷ 0x31 ∷ 0 ∷ 0 ∷ []

pub record Node : Type 0 where
  pub name : List ℕ
  pub directory : Bool
  pub size : ℕ
  pub index : ℕ
  pub parent : ℕ

-- The file's static variables; `device` is `none` for a null pointer.
pub record Shrfs (W : Type 0) : Type 0 where
  pub device : Option (BlockDevice W)
  pub entries : ℕ
  pub table_offset : ℕ
  pub data_offset : ℕ
  pub image_bytes : ℕ
  pub file_bytes : ℕ

unfoldable pub load_u32 : List ℕ → ℕ → ℕ
unfolding byte_at
load_u32 bytes i =
    byte_at bytes i
    + byte_at bytes (i + 1) * 2 ^ 8
    + byte_at bytes (i + 2) * 2 ^ 16
    + byte_at bytes (i + 3) * 2 ^ 24

unfoldable pub load_u64 : List ℕ → ℕ → ℕ
unfolding load_u32
load_u64 bytes i = load_u32 bytes i + load_u32 bytes (i + 4) * 2 ^ 32

-- The characters of the name field before its null, or all of it.
unfoldable pub name_from : List ℕ → ℕ → List ℕ
unfolding byte_at
name_from raw zero = []
name_from [] (suc left) = []
name_from (c ∷ cs) (suc left) =
    let rest = name_from cs left in if c % 256 == 0 then [] else c % 256 ∷ rest

-- The node that an entry describes, with the place of its data.
unfoldable pub decode : List ℕ → ℕ → Node × ℕ
unfolding name_from load_u32 load_u64
decode raw index = (
  record {
    name = name_from raw name_bytes;
    directory = not (bit_and (load_u32 raw name_bytes) directory_flag == 0);
    size = load_u64 raw (name_bytes + 16);
    index = index;
    parent = load_u32 raw (name_bytes + 4);
  },
  load_u64 raw (name_bytes + 8),
)

module _ {W : Type 0} where
  unfoldable pub unmount : Shrfs W → Shrfs W
  unmount s = record {
    device = none;
    entries = 0;
    table_offset = 0;
    data_offset = 0;
    image_bytes = 0;
    file_bytes = 0;
  }

  -- The loop of `read_bytes`, with `left` rounds; each takes a byte at least, so as many as bytes are
  -- wanted are enough.
  unfoldable pub bytes_from : BlockDevice W → ℕ → ℕ → ℕ → ℕ → W → Option (List ℕ) × W
  bytes_from disk block zero offset size w = (if size == 0 then some [] else none, w)
  bytes_from disk block (suc left) offset size w = elim (size == 0) [
    | true ↦ (some [], w)
    | false ↦ elim (leb (disk.block_count w) (offset / block)) [
      | true ↦ (none, w)
      | false ↦
          let (r, bounce, w') = disk.read_blocks w (offset / block) 1 true in
          let within = offset % block in
          let amount = if ltb size (block - within) then size else block - within in
          elim (succeeded r) [
            | false ↦ (none, w')
            | true ↦
                let (rest, w'') =
                  bytes_from disk block left ((offset + amount) % u64_mod) (size - amount) w' in
                elim rest [
                  | none ↦ (none, w'')
                  | some bytes ↦ (some (take amount (drop within bounce) ++ bytes), w'')
                ]
          ]
    ]
  ]

  -- The buffer is never a null pointer here.
  unfoldable pub read_bytes : Shrfs W → ℕ → ℕ → W → Option (List ℕ) × W
  unfolding bytes_from
  read_bytes s offset size w = elim s.device [
    | none ↦ (none, w)
    | some disk ↦
        let block = disk.block_size w in
        if block == 0 || ltb bounce_bytes block
        then (none, w)
        else bytes_from disk block size offset size w
  ]

  -- The tests of `read_entry` on a node and the place of its data.
  unfoldable pub entry_ok : Shrfs W → Node → ℕ → Bool
  entry_ok s node offset =
      not (ltb max_name_length (length node.name))
      && ltb node.parent s.entries
      && (node.directory
          || not (
              ltb offset s.data_offset
              || ltb s.image_bytes offset
              || ltb (s.image_bytes - offset) node.size))

  -- What `read_entry` makes of the bytes of an entry.
  unfoldable pub decoded : Shrfs W → ℕ → Option (List ℕ) × W → Option Node × W
  unfolding decode entry_ok
  decoded s index (none, w) = (none, w)
  decoded s index (some raw, w) =
      let (node, offset) = decode raw index in
      if entry_ok s node offset then (some node, w) else (none, w)

  unfoldable pub read_entry : Shrfs W → ℕ → W → Option Node × W
  unfolding read_bytes decoded is_null
  read_entry s index w =
      if is_null s.device || leb s.entries index
      then (none, w)
      else decoded s index
          (read_bytes s ((s.table_offset + index * entry_bytes) % u64_mod) entry_bytes w)

  -- The place of the data in the bytes of an entry, 0 without them.
  unfoldable pub recorded : Option (List ℕ) × W → ℕ × W
  unfolding load_u64
  recorded (none, w) = (0, w)
  recorded (some raw, w) = (load_u64 raw (name_bytes + 8), w)

  unfoldable pub data_offset_of : Shrfs W → ℕ → W → ℕ × W
  unfolding read_bytes recorded
  data_offset_of s index w =
      recorded (read_bytes s ((s.table_offset + index * entry_bytes) % u64_mod) entry_bytes w)

  unfoldable pub mounted : Shrfs W → Bool
  unfolding is_null
  mounted s = not (is_null s.device) && not (s.entries == 0)

  unfoldable pub entry : Shrfs W → ℕ → W → Option Node × W
  unfolding mounted read_entry
  entry s index w = if not (mounted s) then (none, w) else read_entry s index w

  unfoldable pub root : Shrfs W → W → Option Node × W
  unfolding entry
  root s w = entry s 0 w
