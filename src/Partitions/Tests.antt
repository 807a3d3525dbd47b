-- ===== src/Partitions/Tests.antt =====
-- kernel/fs/partition.cpp on a disk in memory of four blocks, with one primary partition of two blocks.
use shirleys_os.Io.{Result}
use shirleys_os.Partitions.Inside.{read-IsInside}
use shirleys_os.Partitions.Apart.{write_blocks-IsApart, IsApart, IsPartition}
use shirleys_os.Blocks.RamDisk.Bounds.{IsDisk}
use shirleys_os.Blocks.RamDisk
use shirleys_os.Blocks.RamDisk.{out_of_range, RamDisk, block_device, block_count, is_null}
use shirleys_os.Partitions.Window.{Partition}
use shirleys_os.Partitions.Tables.{read}
use shirleys_os.Partitions.Bounds.{IsInside}
use shirleys_os.Io.{is_none, succeeded}
use shirleys_os.Prelude.{
  ap, inl, Option-cases, ◌&&◌, not, if_both, List, inr, refl, ◌==◌, arith, if◌then◌else◌, ◌≡◌, ℕ,
  some, true,
}

abbrev sectors : ℕ → ℕ
sectors a =
    if a == 450
    then 0x83
    else if a == 454
    then 1
    else if a == 458
    then 2
    else if a == 510
    then 0x55
    else if a == 511
    then 0xAA
    else 0

abbrev partitioned : RamDisk
partitioned = record { storage = some sectors; bytes = 2048; block_bytes = 512 }

partitioned-IsDisk : IsDisk partitioned sectors
partitioned-IsDisk = record { there = refl; blocky = omega arith; small = omega arith }

-- The only entry is partition 1 with the blocks 1 and 2.
partitioned_count : (read block_device true partitioned).1.count ≡ 1
unfolding read RamDisk.block_size block_count succeeded is_none RamDisk.read_blocks
partitioned_count = refl

read_blocks_same : (d : RamDisk) (first n : ℕ) → (RamDisk.read_blocks d first n true).2 ≡ d
unfolding RamDisk.read_blocks
read_blocks_same d first n =
    let P = λ (r : Result × List ℕ × RamDisk). r.2 ≡ d in
    if_both P (not (n == 0) && not true) _ _ refl (
      if_both P (d.block_bytes == 0) _ _ refl (elim (Option-cases d.storage) [
        | inl e ↦ simp e refl
        | inr (s, e) ↦ simp e (if_both P _ _ _ refl refl)
      ]))

read_blocks_keeps :
    (d : RamDisk) (first n : ℕ) → block_count (RamDisk.read_blocks d first n true).2 ≡ block_count d
read_blocks_keeps d first n = ap block_count (read_blocks_same d first n)

read-IsInside_example : IsInside (block_count partitioned) (read block_device true partitioned).1
read-IsInside_example = read-IsInside block_device read_blocks_keeps true partitioned

-- The blocks 1 and 2, and the block 3.
abbrev low : Partition RamDisk
low = record { disk = some block_device; first = 1; count = 2 }

abbrev high : Partition RamDisk
high = record { disk = some block_device; first = 3; count = 1 }

low-IsPartition : IsPartition partitioned low
unfolding block_count is_null
low-IsPartition = record { on = refl; inside = omega arith }

high-IsPartition : IsPartition partitioned high
unfolding block_count is_null
high-IsPartition = record { on = refl; inside = omega arith }

write_blocks-IsApart_example :
    IsApart partitioned sectors partitioned-IsDisk low high 1 1 0 1 (λ i. i)
write_blocks-IsApart_example =
    write_blocks-IsApart partitioned sectors partitioned-IsDisk low high 1 1 0 1 (λ i. i)
      low-IsPartition high-IsPartition (inr (omega arith)) (omega arith) (omega arith)
