-- ===== src/Shrfs/Tests.antt =====
-- kernel/fs/shrfs.cpp on an image of 512 bytes in memory: the root, and in it the file `a` of two bytes.
use shirleys_os.Vfs.{Vfs, FileSystem, no_mount, no_file, is_directory}
use shirleys_os.Vfs.Files.Whole.{read_file}
use shirleys_os.Vfs.Files.Reading.{read_file-IsRead, IsRead}
use shirleys_os.Vfs.Mounts.{mount_for, stat}
use shirleys_os.Vfs.Paths.{path_starts_with, normalize}
use shirleys_os.Shrfs.Adapter.{shrfs_filesystem, shrfs_filesystem_transferred}
use shirleys_os.Prelude.{update}
use shirleys_os.Shrfs.Mounting.{mount-IsImage}
use shirleys_os.Shrfs.Memory.{disk-IsStorage}
use shirleys_os.Shrfs.Files.{read-Served, raw_of, Served, IsImage}
use shirleys_os.Blocks.RamDisk.Bounds.{IsDisk}
use shirleys_os.Shrfs.Bytes.{IsStorage}
use shirleys_os.Prelude.{
  arith, ◌≤◌, refl, ◌==◌, ◌≡◌, ℕ, ◌∷◌, [], none, some, true, false, ◌*◌, ltb, if◌then◌else◌,
}
use shirleys_os.Shrfs.{decode, Shrfs, Node, entry, magic}
use shirleys_os.Shrfs.Image.{mount, bad_header}
use shirleys_os.Io.{succeeded, is_none}
use shirleys_os.Text.{equals}
use shirleys_os.Shrfs.Walk.{lookup, path_of}
use shirleys_os.Blocks.RamDisk.{RamDisk, block_device, block_count, is_null}
use shirleys_os.Blocks.RamDisk
use shirleys_os.Vfs.Paths.{slash, char_at}

-- 32 bytes of header, two entries of 80 bytes, the file at 192.
abbrev image_bytes : ℕ → ℕ
image_bytes a =
    if ltb a 8
    then char_at magic a
    else if a == 8
    then 1
    else if a == 12
    then 2
    else if a == 16
    then 32
    else if a == 20
    then 192
    else if a == 25
    then 2
    else if a == 88
    then 1
    else if a == 112
    then 0x61
    else if a == 176
    then 192
    else if a == 184
    then 2
    else if a == 192
    then 0x68
    else if a == 193
    then 0x69
    else 0

abbrev image_disk : RamDisk
image_disk = record { storage = some image_bytes; bytes = 512; block_bytes = 128 }

abbrev nothing_mounted : Shrfs RamDisk
nothing_mounted = record {
  device = none;
  entries = 0;
  table_offset = 0;
  data_offset = 0;
  image_bytes = 0;
  file_bytes = 0;
}

abbrev image : Shrfs RamDisk
image = record {
  device = some block_device;
  entries = 2;
  table_offset = 32;
  data_offset = 192;
  image_bytes = 512;
  file_bytes = 2;
}

abbrev file_a : Node
file_a = record { name = 0x61 ∷ []; directory = false; size = 2; index = 1; parent = 0 }

image_mounted : (mount nothing_mounted block_device image_disk).0 ≡ true
unfolding mount RamDisk.block_size block_count succeeded is_none RamDisk.read_blocks char_at
image_mounted = refl

a_found : (entry image 1 image_disk).0 ≡ some file_a
unfolding entry RamDisk.block_size block_count succeeded is_none RamDisk.read_blocks
a_found = refl

a_looked_up : (lookup image (slash ∷ 0x61 ∷ []) none image_disk).0 ≡ some file_a
unfolding lookup RamDisk.block_size block_count succeeded is_none RamDisk.read_blocks equals
a_looked_up = refl

a_path : (path_of image file_a 4 image_disk).0 ≡ some (slash ∷ 0x61 ∷ [])
unfolding path_of RamDisk.block_size block_count succeeded is_none RamDisk.read_blocks
a_path = refl

-- A header whose image ends before its table passes the tests.
short_image_accepted : bad_header 1 1 32 112 0 512 ≡ false
unfolding bad_header
short_image_accepted = refl

image_disk-IsDisk : IsDisk image_disk image_bytes
image_disk-IsDisk = record { there = refl; blocky = omega arith; small = omega arith }

image_blocks : block_count image_disk ≡ 4
unfolding block_count is_null
image_blocks = refl

image-IsStorage : IsStorage block_device (λ w. w ≡ image_disk) image_bytes 4 128
image-IsStorage = rw image_blocks at (disk-IsStorage image_disk image_bytes image_disk-IsDisk)

image-IsImage : IsImage block_device 512 image
image-IsImage = record {
  on = refl;
  table_inside = omega arith;
  image_inside = omega arith;
  data_behind = omega arith;
}

read-Served_example :
    Served
      (λ (w : RamDisk). w ≡ image_disk)
      image_bytes
      image
      file_a
      (decode (raw_of image_bytes image 1) 1).1
read-Served_example =
    read-Served block_device (λ w. w ≡ image_disk) image_bytes 4 128 image-IsStorage (omega arith)
      (omega arith) (omega arith) image 1 image_disk file_a image-IsImage refl a_found refl

image_whole :
    (mount nothing_mounted block_device image_disk).1.table_offset
    ≤ (mount nothing_mounted block_device image_disk).1.image_bytes
unfolding mount RamDisk.block_size block_count succeeded is_none RamDisk.read_blocks char_at
image_whole = omega arith

mount-IsImage_example :
    IsImage block_device (4 * 128) (mount nothing_mounted block_device image_disk).1
mount-IsImage_example =
    mount-IsImage block_device (λ w. w ≡ image_disk) image_bytes 4 128 image-IsStorage (omega arith)
      (omega arith) (omega arith) nothing_mounted image_disk refl (omega arith) image_mounted
      image_whole

-- The image mounted on `/` of the virtual file system.
abbrev systems : ℕ → FileSystem (Shrfs RamDisk × RamDisk)
systems i = shrfs_filesystem

abbrev on_root : Vfs (Shrfs RamDisk × RamDisk)
on_root = record {
  mounts = update (λ i. no_mount) 0 (record { path = slash ∷ []; filesystem = 1 });
  mount_total = 1;
  files = λ i. no_file;
  storage = (image, image_disk);
}

-- The path of the file, read into eight bytes through every layer down to the disk.
a_read : (read_file systems on_root (some (slash ∷ 0x61 ∷ [])) true 8).0 ≡ 2
unfolding read_file shrfs_filesystem RamDisk.block_size block_count succeeded is_none
    RamDisk.read_blocks equals normalize mount_for path_starts_with is_directory stat
a_read = refl

a_bytes : (read_file systems on_root (some (slash ∷ 0x61 ∷ [])) true 8).1 ≡ 0x68 ∷ 0x69 ∷ []
unfolding read_file shrfs_filesystem RamDisk.block_size block_count succeeded is_none
    RamDisk.read_blocks equals normalize mount_for path_starts_with is_directory stat
a_bytes = refl

read_file-IsRead_example :
    IsRead on_root 8 (read_file systems on_root (some (slash ∷ 0x61 ∷ [])) true 8)
read_file-IsRead_example =
    read_file-IsRead systems (λ i. shrfs_filesystem_transferred) on_root (some (slash ∷ 0x61 ∷ []))
      true 8
