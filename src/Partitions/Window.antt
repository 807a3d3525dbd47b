-- ===== src/Partitions/Window.antt =====
-- kernel/fs/partition.cpp: the class Partition.
use shirleys_os.Prelude.{u64_mod, ◌%◌, ◌+◌, ◌-◌, ◌||◌, ltb, none, some}
use shirleys_os.Devices.{given}
use shirleys_os.Io.{Error, failed, Result, BlockDevice}
use shirleys_os.Prelude.{[], ◌&&◌, ◌==◌, not, List, if◌then◌else◌, some, Bool, Option, ℕ}

-- `disk` is `none` for a null pointer.
pub record Partition (W : Type 0) : Type 0 where
  pub disk : Option (BlockDevice W)
  pub first : ℕ
  pub count : ℕ

module _ {W : Type 0} where
  unfoldable pub attach : Partition W → BlockDevice W → ℕ → ℕ → Partition W
  attach p disk first count = record { disk = some disk; first = first; count = count }

  unfoldable pub block_size : Partition W → W → ℕ
  block_size p w = elim p.disk [ none ↦ 0 | some disk ↦ disk.block_size w ]

  unfoldable pub block_count : Partition W → W → ℕ
  block_count p w = elim p.disk [ none ↦ 0 | some disk ↦ p.count ]

  unfoldable pub read_blocks : Partition W → W → ℕ → ℕ → Bool → Result × List ℕ × W
  read_blocks p w first count room =
      if not (count == 0) && not room then (failed Error.invalid_argument, [], w) else elim p.disk [
        | none ↦ (failed Error.device_error, [], w)
        | some disk ↦
            if ltb p.count first || ltb (p.count - first) count
            then (failed Error.out_of_range, [], w)
            else disk.read_blocks w ((p.first + first) % u64_mod) count room
      ]

  unfoldable pub write_blocks : Partition W → W → ℕ → ℕ → Option (ℕ → ℕ) → Result × W
  write_blocks p w first count buffer =
      if not (count == 0) && not (given buffer)
      then (failed Error.invalid_argument, w)
      else elim p.disk [
        | none ↦ (failed Error.device_error, w)
        | some disk ↦
            if ltb p.count first || ltb (p.count - first) count
            then (failed Error.out_of_range, w)
            else disk.write_blocks w ((p.first + first) % u64_mod) count buffer
      ]

  -- A partition is a block device itself.
  abbrev pub window : Partition W → BlockDevice W
  window p = record {
    block_size = block_size p;
    block_count = block_count p;
    read_blocks = read_blocks p;
    write_blocks = write_blocks p;
  }
