-- ===== src/Devices/Adapters.antt =====
-- kernel/device/device.cpp: an object that is made a device and is bound to a view again.
use shirleys_os.Prelude.{Bool, ℕ}
use shirleys_os.Prelude.{◌≡◌, ◌⊎◌, true, some, arith, Option}
use shirleys_os.Devices.{
  Device, stream, block_view, stream_operations, block_operations, given, entry, read, write,
  block_read, block_write, block_size, block_count, stream_read, stream_write, device_block_read,
  device_block_write, device_block_size, device_block_count,
}
use shirleys_os.Io.{ByteStream, BlockDevice}

-- A stream that a device with `stream_operations` carries, seen through `Stream`, reads and writes as
-- the stream itself, if a buffer that is a null pointer comes with the length 0.
stream-stream_operations :
    {W : Type 0} (streams : ℕ → Option (ByteStream W)) (s : ByteStream W) (d : Device W)
    → d.operations ≡ some (stream_operations streams)
    → streams d.driver_data ≡ some s
    → (w : W) (room : Bool) (len : ℕ) (bytes : Option (ℕ → ℕ)) → (len ≡ 0) ⊎ (room ≡ true)
    → (len ≡ 0) ⊎ (given bytes ≡ true)
    → ((stream (some d)).read w room len ≡ s.read w room len)
      × ((stream (some d)).write w bytes len ≡ s.write w bytes len)
unfolding read write stream_read stream_write entry
stream-stream_operations streams s d o at w room len bytes r g = (ground arith, ground arith)

-- A disk that a device with `block_operations` carries, seen through `BlockView`, has the size of the
-- disk and reads and writes as the disk itself, if a buffer that is a null pointer comes with the
-- count 0.
block_view-block_operations :
    {W : Type 0} (disks : ℕ → Option (BlockDevice W)) (b : BlockDevice W) (d : Device W)
    → d.operations ≡ some (block_operations disks)
    → disks d.driver_data ≡ some b
    → (w : W) (first count : ℕ) (room : Bool) (bytes : Option (ℕ → ℕ)) → (count ≡ 0) ⊎ (room ≡ true)
    → (count ≡ 0) ⊎ (given bytes ≡ true)
    → ((block_view (some d)).block_size w ≡ b.block_size w)
      × ((block_view (some d)).block_count w ≡ b.block_count w)
      × ((block_view (some d)).read_blocks w first count room ≡ b.read_blocks w first count room)
      × ((block_view (some d)).write_blocks w first count bytes
          ≡ b.write_blocks w first count bytes)
unfolding block_read block_write block_size block_count device_block_read device_block_write
    device_block_size device_block_count entry
block_view-block_operations disks b d o at w first count room bytes r g =
    (ground arith, ground arith, ground arith, ground arith)
