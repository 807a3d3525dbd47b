-- ===== src/Devices.antt =====
-- include/shirley/device.hpp, kernel/device/device.cpp and kernel/device/null.cpp: device objects,
-- their tables of operations and the adapters between them and the I/O interfaces. An operation reads
-- no more of its device than `driver_data`, so it is given that; an entry that is a null pointer is
-- `none`.
pub mod Registry
pub mod Adapters
mod Tests
use shirleys_os.Io.{Error, Result, ByteStream, BlockDevice, failed}
use shirleys_os.Integers.{ℤ, pos, negsuc}
use shirleys_os.Prelude.{
  ◌∷◌, ℕ, Bool, true, false, not, ◌&&◌, ◌==◌, if◌then◌else◌, List, [], Option, none, some,
}

pub data DeviceType : Type 0 where
  character block input network : DeviceType

abbrev pub max_name_length : ℕ
max_name_length = 31

pub record Operations (W : Type 0) : Type 0 where
  pub on_open : Option (ℕ → W → ℤ × W)
  pub on_close : Option (ℕ → W → ℤ × W)
  pub read : Option (ℕ → W → Bool → ℕ → Result × List ℕ × W)
  pub write : Option (ℕ → W → Option (ℕ → ℕ) → ℕ → Result × W)
  pub control : Option (ℕ → W → ℕ → ℕ → ℤ × W)
  pub block_read : Option (ℕ → W → ℕ → ℕ → Bool → Result × List ℕ × W)
  pub block_write : Option (ℕ → W → ℕ → ℕ → Option (ℕ → ℕ) → Result × W)
  pub block_size : Option (ℕ → W → ℕ)
  pub block_count : Option (ℕ → W → ℕ)

pub record Device (W : Type 0) : Type 0 where
  pub name : List ℕ
  pub type : DeviceType
  pub operations : Option (Operations W)
  pub driver_data : ℕ

-- Whether a buffer pointer is not null.
unfoldable pub given : Option (ℕ → ℕ) → Bool
given none = false
given (some bytes) = true

-- `operations == nullptr || operations->f == nullptr` is `none`.
unfoldable pub entry {ℓ} : {A : Type ℓ} → {F : Type ℓ} → Option A → (A → Option F) → Option F
entry none f = none
entry (some o) f = f o

module _ {W : Type 0} where
  unfoldable pub read : Device W → W → Bool → ℕ → Result × List ℕ × W
  unfolding entry
  read d w room len =
      if not (len == 0) && not room
      then (failed Error.invalid_argument, [], w)
      else elim (entry d.operations (λ o. o.read)) [
        | none ↦ (failed Error.unsupported, [], w)
        | some f ↦ f d.driver_data w room len
      ]

  unfoldable pub write : Device W → W → Option (ℕ → ℕ) → ℕ → Result × W
  unfolding entry given
  write d w bytes len =
      if not (len == 0) && not (given bytes)
      then (failed Error.invalid_argument, w)
      else elim (entry d.operations (λ o. o.write)) [
        | none ↦ (failed Error.unsupported, w)
        | some f ↦ f d.driver_data w bytes len
      ]

  unfoldable pub open_device : Device W → W → ℤ × W
  unfolding entry
  open_device d w = elim (entry d.operations (λ o. o.on_open)) [
    | none ↦ (pos 0, w)
    | some f ↦ f d.driver_data w
  ]

  unfoldable pub close_device : Device W → W → ℤ × W
  unfolding entry
  close_device d w = elim (entry d.operations (λ o. o.on_close)) [
    | none ↦ (pos 0, w)
    | some f ↦ f d.driver_data w
  ]

  unfoldable pub control : Device W → W → ℕ → ℕ → ℤ × W
  unfolding entry
  control d w request argument = elim (entry d.operations (λ o. o.control)) [
    | none ↦ (negsuc 0, w)
    | some f ↦ f d.driver_data w request argument
  ]

  unfoldable pub block_read : Device W → W → ℕ → ℕ → Bool → Result × List ℕ × W
  unfolding entry
  block_read d w first count room =
      if not (count == 0) && not room
      then (failed Error.invalid_argument, [], w)
      else elim (entry d.operations (λ o. o.block_read)) [
        | none ↦ (failed Error.unsupported, [], w)
        | some f ↦ f d.driver_data w first count room
      ]

  unfoldable pub block_write : Device W → W → ℕ → ℕ → Option (ℕ → ℕ) → Result × W
  unfolding entry given
  block_write d w first count bytes =
      if not (count == 0) && not (given bytes)
      then (failed Error.invalid_argument, w)
      else elim (entry d.operations (λ o. o.block_write)) [
        | none ↦ (failed Error.unsupported, w)
        | some f ↦ f d.driver_data w first count bytes
      ]

  unfoldable pub block_size : Device W → W → ℕ
  unfolding entry
  block_size d w = elim (entry d.operations (λ o. o.block_size)) [
    | none ↦ 0
    | some f ↦ f d.driver_data w
  ]

  unfoldable pub block_count : Device W → W → ℕ
  unfolding entry
  block_count d w = elim (entry d.operations (λ o. o.block_count)) [
    | none ↦ 0
    | some f ↦ f d.driver_data w
  ]

  unfoldable pub is_block_device : Device W → W → Bool
  unfolding block_size block_count
  is_block_device d w = not (block_size d w == 0) && not (block_count d w == 0)

-- The empty table, of which the others are variants.
abbrev pub no_operations : {W : Type 0} → Operations W
no_operations = record {
  on_open = none;
  on_close = none;
  read = none;
  write = none;
  control = none;
  block_read = none;
  block_write = none;
  block_size = none;
  block_count = none;
}

-- The objects that `driver_data` points at, `none` at the null pointer.
module _ {W : Type 0} (streams : ℕ → Option (ByteStream W)) where
  unfoldable pub stream_read : ℕ → W → Bool → ℕ → Result × List ℕ × W
  stream_read driver_data w room len = elim (streams driver_data) [
    | none ↦ (failed Error.unsupported, [], w)
    | some stream ↦ stream.read w room len
  ]

  unfoldable pub stream_write : ℕ → W → Option (ℕ → ℕ) → ℕ → Result × W
  stream_write driver_data w bytes len = elim (streams driver_data) [
    | none ↦ (failed Error.unsupported, w)
    | some stream ↦ stream.write w bytes len
  ]

  abbrev pub stream_operations : Operations W
  stream_operations = record no_operations { read = some stream_read; write = some stream_write }

module _ {W : Type 0} (disks : ℕ → Option (BlockDevice W)) where
  unfoldable pub device_block_read : ℕ → W → ℕ → ℕ → Bool → Result × List ℕ × W
  device_block_read driver_data w first count room = elim (disks driver_data) [
    | none ↦ (failed Error.unsupported, [], w)
    | some disk ↦ disk.read_blocks w first count room
  ]

  unfoldable pub device_block_write : ℕ → W → ℕ → ℕ → Option (ℕ → ℕ) → Result × W
  device_block_write driver_data w first count bytes = elim (disks driver_data) [
    | none ↦ (failed Error.unsupported, w)
    | some disk ↦ disk.write_blocks w first count bytes
  ]

  unfoldable pub device_block_size : ℕ → W → ℕ
  device_block_size driver_data w = elim (disks driver_data) [
    | none ↦ 0
    | some disk ↦ disk.block_size w
  ]

  unfoldable pub device_block_count : ℕ → W → ℕ
  device_block_count driver_data w = elim (disks driver_data) [
    | none ↦ 0
    | some disk ↦ disk.block_count w
  ]

  abbrev pub block_operations : Operations W
  block_operations = record no_operations {
    block_read = some device_block_read;
    block_write = some device_block_write;
    block_size = some device_block_size;
    block_count = some device_block_count;
  }

-- `Stream` and `BlockView`: a device, `none` if unbound, seen through an I/O interface.
module _ {W : Type 0} where
  abbrev pub stream : Option (Device W) → ByteStream W
  stream none = record {
    read = λ w room len. (failed Error.unsupported, [], w);
    write = λ w bytes len. (failed Error.unsupported, w);
  }
  stream (some d) = record { read = read d; write = write d }

  abbrev pub block_view : Option (Device W) → BlockDevice W
  block_view none = record {
    block_size = λ w. 0;
    block_count = λ w. 0;
    read_blocks = λ w first count room. (failed Error.unsupported, [], w);
    write_blocks = λ w first count bytes. (failed Error.unsupported, w);
  }
  block_view (some d) = record {
    block_size = block_size d;
    block_count = block_count d;
    read_blocks = block_read d;
    write_blocks = block_write d;
  }

  unfoldable pub null_read : ℕ → W → Bool → ℕ → Result × List ℕ × W
  null_read driver_data w room len = (record { transferred = 0; error = Error.none }, [], w)

  unfoldable pub null_write : ℕ → W → Option (ℕ → ℕ) → ℕ → Result × W
  null_write driver_data w bytes len = (record { transferred = len; error = Error.none }, w)

  -- The object of /dev/null, whose name is "null".
  abbrev pub null_device : Device W
  null_device = record {
    name = 0x6e ∷ 0x75 ∷ 0x6c ∷ 0x6c ∷ [];
    type = character;
    operations = some (record no_operations { read = some null_read; write = some null_write });
    driver_data = 0;
  }
