-- ===== src/Blocks/RamDisk/Tests.antt =====
-- drivers/block/ram_disk.cpp: a disk of four blocks, also behind a device.
use shirleys_os.Prelude.{ℕ, ◌≡◌, inl, false, some, arith, refl}
use shirleys_os.Blocks.RamDisk.{RamDisk, block_count, out_of_range, is_null}
use shirleys_os.Blocks.RamDisk.Bounds.{IsDisk}
use shirleys_os.Blocks.RamDisk.Laws.{IsRoundTrip, read_blocks-write_blocks}

abbrev blank : ℕ → ℕ
blank a = 0

abbrev small_disk : RamDisk
small_disk = record { storage = some blank; bytes = 2048; block_bytes = 512 }

small_disk-IsDisk : IsDisk small_disk blank
small_disk-IsDisk = record { there = refl; blocky = omega arith; small = omega arith }

block_in_range : out_of_range (block_count small_disk) 512 1 2 ≡ false
unfolding out_of_range block_count is_null
block_in_range = refl

first_in_range : out_of_range (block_count small_disk) 512 0 1 ≡ false
unfolding out_of_range block_count is_null
first_in_range = refl

read_blocks-write_blocks_example : IsRoundTrip small_disk blank small_disk-IsDisk 1 2 0 1 (λ i. i)
read_blocks-write_blocks_example =
    read_blocks-write_blocks small_disk blank small_disk-IsDisk 1 2 0 1 (λ i. i) block_in_range
      first_in_range (inl (omega arith))
