-- ===== src/Shrfs/Memory.antt =====
-- drivers/block/ram_disk.cpp under kernel/fs/shrfs.cpp: a disk in memory is such a device.
use shirleys_os.Blocks.RamDisk.Laws.{read_blocks-slice}
use shirleys_os.Shrfs.Bytes.{IsStorage}
use shirleys_os.Blocks.RamDisk.Bounds.{accepted, IsDisk}
use shirleys_os.Io.{is_none, succeeded}
use shirleys_os.Blocks.RamDisk.{RamDisk, block_device, block_count, block_size}
use shirleys_os.Blocks.RamDisk
use shirleys_os.Prelude.{refl, ◌∙◌, ◌<◌, arith, ℕ, true, ◌*◌, ap, ◌≡◌}

pub disk-IsStorage :
    (d : RamDisk) (storage : ℕ → ℕ) (v : IsDisk d storage)
    → IsStorage block_device (λ w. w ≡ d) storage (block_count d) d.block_bytes
unfolding block_size succeeded is_none
disk-IsStorage d storage v =
    let one : 1 * d.block_bytes ≡ d.block_bytes = omega arith in
    let here = λ (w : RamDisk) (index : ℕ) (h : w ≡ d) (l : index < block_count d).
      ap (λ (x : RamDisk). RamDisk.read_blocks x index 1 true) h
      ∙ read_blocks-slice d storage v index 1 (accepted d storage v index 1 (omega arith)) in
    record {
      size_of = λ w h. ap (λ (x : RamDisk). x.block_bytes) h;
      count_of = λ w h. ap block_count h;
      works = λ w index h l. rw (here w index h l) refl;
      reads = λ w index h l. rw (here w index h l, one) refl;
      keeps = λ w index h l. rw (here w index h l) refl;
    }
