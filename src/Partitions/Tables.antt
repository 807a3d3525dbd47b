-- ===== src/Partitions/Tables.antt =====
-- kernel/fs/partition.cpp: reading the partition table of a disk.
use shirleys_os.Prelude.{◌∷◌, none, some, true, false}
use shirleys_os.Checksum.{crc32}
use shirleys_os.Partitions.{
  mbr, file_system_boot_sector, mbr_type_protective, gpt, no_table, max_gpt_array, mbr_entry_bytes,
  mbr_table, [], extended_type, max_logical, byte_at, has_signature, le32, Table, add, text_at,
  le64,
}
use shirleys_os.Io.{succeeded, BlockDevice}
use shirleys_os.Prelude.{
  u32_mod, some, none, zero, ◌&&◌, leb, ltb, u64_mod, drop, ◌||◌, ◌/◌, not, ◌-◌, ◌%◌, ◌*◌, ◌+◌,
  if◌then◌else◌, ◌∷◌, true, ◌==◌, ◌++◌, Option, suc, false, Bool, take, List, ℕ,
}
use Prim.Native.Nat.{bit_and}

-- Whether one of `left` bytes is not zero.
unfoldable pub any_nonzero : List ℕ → ℕ → ℕ → Bool
any_nonzero block offset zero = false
any_nonzero block offset (suc left) =
    let rest = any_nonzero block (offset + 1) left in not (byte_at block offset == 0) || rest

-- The loop over the GPT entries of one block; the index of the entry goes on from block to block.
unfoldable pub entries_from : ℕ → List ℕ → ℕ → ℕ → ℕ → ℕ → ℕ → Table → ℕ × Table
unfolding any_nonzero le64 add
entries_from zero block bytes entry_bytes blocks offset index t = (index, t)
entries_from (suc left) block bytes entry_bytes blocks offset index t =
    let first = le64 block (offset + 32) in
    let last = le64 block (offset + 40) in
    let next =
      if not (any_nonzero block offset 16)
      then t
      else if ltb last first || leb blocks last
      then t
      else (add t ((index + 1) % u32_mod) first (last - first + 1) 0
          (some (take 16 (drop offset block)))).1 in
    elim (ltb offset bytes) [
      | false ↦ (index, t)
      | true ↦
          entries_from left block bytes entry_bytes blocks (offset + entry_bytes)
            ((index + 1) % u32_mod) next
    ]

-- The header with its own checksum set to zero.
unfoldable pub clear_checksum : List ℕ → List ℕ
clear_checksum block = take 16 block ++ (0 ∷ 0 ∷ 0 ∷ 0 ∷ []) ++ drop 20 block

-- The part of a header that `read_gpt` uses.
pub record Header : Type 0 where
  pub array_lba : ℕ
  pub entry_total : ℕ
  pub entry_bytes : ℕ
  pub array_crc : ℕ

-- The tests of `read_gpt` on the block at `lba`, `none` if one of them fails.
unfoldable pub header_of : List ℕ → ℕ → ℕ → ℕ → Option Header
unfolding text_at le32 le64 clear_checksum
header_of block lba block_bytes blocks =
    let header_bytes = le32 block 12 in
    let cleared = clear_checksum block in
    let entry_bytes = le32 cleared 84 in
    let array_bytes = le32 cleared 80 * entry_bytes in
    let array_blocks = (array_bytes + block_bytes - 1) / block_bytes in
    if not (text_at block 0 (0x45 ∷ 0x46 ∷ 0x49 ∷ 0x20 ∷ 0x50 ∷ 0x41 ∷ 0x52 ∷ 0x54 ∷ []))
    then none
    else if ltb header_bytes 92 || ltb block_bytes header_bytes || not (le64 block 24 == lba)
    then none
    else if not (crc32 (take header_bytes cleared) 0 == le32 block 16)
    then none
    else if ltb entry_bytes 128
        || not (bit_and entry_bytes (entry_bytes - 1) == 0)
        || not (block_bytes % entry_bytes == 0)
    then none
    else if array_bytes == 0 || ltb max_gpt_array array_bytes
    then none
    else if leb blocks (le64 cleared 72) || ltb (blocks - le64 cleared 72) array_blocks
    then none
    else some (record {
      array_lba = le64 cleared 72;
      entry_total = le32 cleared 80;
      entry_bytes = entry_bytes;
      array_crc = le32 cleared 88;
    })

-- The loop of `read` that looks at the four entries: `none` if one is not that of a partition table,
-- else whether one of them is protective.
unfoldable pub check_from : List ℕ → ℕ → ℕ → ℕ → Bool → Option Bool
unfolding le32 byte_at
check_from block blocks zero i protective = some protective
check_from block blocks (suc left) i protective =
    let at = mbr_table + i * mbr_entry_bytes in
    let type = byte_at block (at + 4) in
    let start = le32 block (at + 8) in
    let count = le32 block (at + 12) in
    let rest = check_from block blocks left (i + 1) (protective || type == mbr_type_protective) in
    if not (byte_at block at == 0) && not (byte_at block at == 0x80)
    then none
    else if type == 0
    then rest
    else if not (type == mbr_type_protective)
        && (start == 0 || count == 0 || ltb blocks (start + count))
    then none
    else rest

module _ {W : Type 0} (disk : BlockDevice W) where
  -- The loop of `read_logical`, `left` steps.
  unfoldable pub logical_from : ℕ → ℕ → ℕ → ℕ → ℕ → Table → W → Bool × Table × W
  unfolding has_signature le32 byte_at extended_type add
  logical_from zero base size ebr number t w = (true, t, w)
  logical_from (suc left) base size ebr number t w =
      let (r, block, w') = disk.read_blocks w ebr 1 true in
      let start = le32 block (mbr_table + 8) in
      let count = le32 block (mbr_table + 12) in
      let next = mbr_table + mbr_entry_bytes in
      let fits =
        not (byte_at block (mbr_table + 4) == 0)
        && not (count == 0)
        && not (start == 0)
        && leb ((ebr + start + count) % u64_mod) ((base + size) % u64_mod) in
      let t' =
        if fits
        then (add t number ((ebr + start) % u64_mod) count (byte_at block (mbr_table + 4)) none).1
        else t in
      let following = (base + le32 block (next + 8)) % u64_mod in
      if not (succeeded r)
      then (false, t, w')
      else if not (has_signature block)
      then (true, t, w')
      else if not (extended_type (byte_at block (next + 4))) || le32 block (next + 8) == 0
      then (true, t', w')
      else elim (leb ((base + size) % u64_mod) following) [
        | true ↦ (true, t', w')
        | false ↦
            logical_from left base size following (if fits then (number + 1) % u32_mod else number)
              t' w'
      ]

  unfoldable pub read_logical : ℕ → ℕ → Table → W → Bool × Table × W
  unfolding logical_from
  read_logical base size t w = logical_from max_logical base size base 5 t w

  -- The loop of `read_gpt` over the blocks of the array, `left` of them to go.
  unfoldable pub array_from : ℕ → Header → ℕ → ℕ → ℕ → ℕ → ℕ → ℕ → Table → W → Bool × Table × W
  unfolding entries_from
  array_from zero h block_bytes blocks at crc remaining index t w = (crc == h.array_crc, t, w)
  array_from (suc left) h block_bytes blocks at crc remaining index t w =
      let (r, block, w') = disk.read_blocks w ((h.array_lba + at) % u64_mod) 1 true in
      let bytes = if ltb remaining block_bytes then remaining else block_bytes in
      let (index', t') = entries_from bytes block bytes h.entry_bytes blocks 0 index t in
      if not (succeeded r)
      then (false, t, w')
      else array_from left h block_bytes blocks (at + 1) (crc32 (take bytes block) crc)
          (remaining - bytes) index' t' w'

  unfoldable pub read_gpt : ℕ → Table → W → Bool × Table × W
  unfolding header_of array_from
  read_gpt lba t w =
      let block_bytes = disk.block_size w in
      let blocks = disk.block_count w in
      let (r, block, w') = disk.read_blocks w lba 1 true in
      if not (succeeded r) then (false, t, w') else elim (header_of block lba block_bytes blocks) [
        | none ↦ (false, t, w')
        | some h ↦
            let array_bytes = h.entry_total * h.entry_bytes in
            array_from ((array_bytes + block_bytes - 1) / block_bytes) h block_bytes blocks 0 0
              array_bytes 0 (record no_table { scheme = gpt }) w'
      ]

  -- The loop over the four primary entries; an extended one leads to logical partitions.
  unfoldable pub primaries_from : ℕ → List ℕ → ℕ → Table → W → Bool × Table × W
  unfolding le32 byte_at extended_type read_logical add
  primaries_from zero sector i t w = (true, t, w)
  primaries_from (suc left) sector i t w =
      let at = mbr_table + i * mbr_entry_bytes in
      let type = byte_at sector (at + 4) in
      let start = le32 sector (at + 8) in
      let count = le32 sector (at + 12) in
      let (found, t', w') = read_logical start count t w in
      let chain : Bool × Table × W =
        if not found then (false, no_table, w') else primaries_from left sector (i + 1) t' w' in
      if type == 0
      then primaries_from left sector (i + 1) t w
      else if extended_type type
      then chain
      else primaries_from left sector (i + 1) (add t (i + 1) start count type none).1 w

  -- What `read` does about a protective entry: the header in block 1, or the one in the last block.
  unfoldable pub read_copies : ℕ → W → Bool × Table × W
  unfolding read_gpt
  read_copies blocks w =
      let (primary, t, w1) = read_gpt 1 no_table w in
      let (backup, t', w2) = read_gpt (blocks - 1) t w1 in
      if primary
      then (true, t, w1)
      else if backup
      then (true, record t' { used_backup = true }, w2)
      else (false, no_table, w2)

  -- `allocated` is whether the heap has a block to spare.
  unfoldable pub read : Bool → W → Bool × Table × W
  unfolding has_signature file_system_boot_sector check_from read_copies primaries_from
  read allocated w =
      let block_bytes = disk.block_size w in
      let blocks = disk.block_count w in
      let (r, block, w') = disk.read_blocks w 0 1 true in
      if ltb block_bytes 512 || ltb 4096 block_bytes
      then (false, no_table, w)
      else if ltb blocks 2
      then (true, no_table, w)
      else if not allocated
      then (false, no_table, w)
      else if not (succeeded r)
      then (false, no_table, w')
      else if not (has_signature block) || file_system_boot_sector block
      then (true, no_table, w')
      else elim (check_from block blocks 4 0 false) [
        | none ↦ (true, no_table, w')
        | some protective ↦
            if protective
            then read_copies blocks w'
            else primaries_from 4 block 0 (record no_table { scheme = mbr }) w'
      ]
