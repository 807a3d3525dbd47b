-- ===== src/Blocks/RamDisk.antt =====
-- include/shirley/ram_disk.hpp and drivers/block/ram_disk.cpp: a block device in memory.
pub mod Bounds
pub mod Laws
mod Tests
use shirleys_os.Io.{Error, Result, BlockDevice, failed}
use shirleys_os.Prelude.{
  ℕ, zero, suc, ◌+◌, ◌-◌, ◌*◌, ◌/◌, ◌%◌, Bool, true, false, not, ◌||◌, ◌&&◌, ◌==◌, ltb, leb,
  if◌then◌else◌, List, [], Option, none, some, u64_mod, slice, copy_bytes,
}

-- `storage` is the memory at the pointer, `none` for a null pointer.
pub record RamDisk : Type 0 where
  pub storage : Option (ℕ → ℕ)
  pub bytes : ℕ
  pub block_bytes : ℕ

unfoldable pub block_size : RamDisk → ℕ
block_size d = d.block_bytes

unfoldable pub is_null {ℓ} : {A : Type ℓ} → Option A → Bool
is_null none = true
is_null (some x) = false

unfoldable pub block_count : RamDisk → ℕ
unfolding is_null
block_count d = if is_null d.storage || d.block_bytes == 0 then 0 else d.bytes / d.block_bytes

-- The test for a range outside the device; on its third part a product of sizes cannot wrap.
unfoldable pub out_of_range : ℕ → ℕ → ℕ → ℕ → Bool
out_of_range blocks block_bytes first count =
    ltb blocks first || ltb (blocks - first) count || ltb ((u64_mod - 1) / block_bytes) count

unfoldable pub read_blocks : RamDisk → ℕ → ℕ → Bool → Result × List ℕ × RamDisk
unfolding block_count out_of_range
read_blocks d first count room =
    if not (count == 0) && not room
    then (failed Error.invalid_argument, [], d)
    else if d.block_bytes == 0
    then (failed Error.device_error, [], d)
    else elim d.storage [
      | none ↦ (failed Error.device_error, [], d)
      | some storage ↦
          if out_of_range (block_count d) d.block_bytes first count
          then (failed Error.out_of_range, [], d)
          else let bytes = count * d.block_bytes % u64_mod in
            (
              record { transferred = bytes; error = Error.none },
              slice storage (first * d.block_bytes % u64_mod) bytes,
              d,
            )
    ]

unfoldable pub write_blocks : RamDisk → ℕ → ℕ → Option (ℕ → ℕ) → Result × RamDisk
unfolding block_count out_of_range is_null
write_blocks d first count buffer =
    if not (count == 0) && is_null buffer
    then (failed Error.invalid_argument, d)
    else if d.block_bytes == 0
    then (failed Error.device_error, d)
    else elim d.storage [
      | none ↦ (failed Error.device_error, d)
      | some storage ↦
          if out_of_range (block_count d) d.block_bytes first count
          then (failed Error.out_of_range, d)
          else let bytes = count * d.block_bytes % u64_mod in
            (
              record { transferred = bytes; error = Error.none },
              record d {
                storage = some (elim buffer [
                  | none ↦ storage
                  | some source ↦
                      copy_bytes storage (first * d.block_bytes % u64_mod) source bytes 0
                ]);
              },
            )
    ]

abbrev pub block_device : BlockDevice RamDisk
block_device = record {
  block_size = block_size;
  block_count = block_count;
  read_blocks = read_blocks;
  write_blocks = write_blocks;
}
