-- ===== src/Elf/Tests.antt =====
-- boot/common/elf64.cpp on a file of 124 bytes: a header, one program header, and a segment of four bytes.
use shirleys_os.Elf.{
  Elf64Segment, header_at, elf64_valid, elf64_entry, elf64_segments, elf64_physical_extent,
}
use shirleys_os.Elf.Inside.{HasTable, AreInside, elf64_segments-AreInside}
use shirleys_os.Vfs.Paths.{char_at}
use shirleys_os.Prelude.{
  ℕ, ◌≤◌, ◌≡◌, refl, true, false, ltb, ◌==◌, if◌then◌else◌, [], ◌∷◌, some, length,
}

abbrev machine : ℕ
machine = 0x3e

abbrev file : ℕ → ℕ
file i =
    if ltb i 7
    then char_at (0x7f ∷ 0x45 ∷ 0x4c ∷ 0x46 ∷ 2 ∷ 1 ∷ 1 ∷ []) i
    else if i == 16
    then 2
    else if i == 18
    then machine
    else if i == 26
    then 0x10
    else if i == 32
    then 64
    else if i == 54
    then 56
    else if i == 56
    then 1
    else if i == 64
    then 1
    else if i == 68
    then 5
    else if i == 72
    then 120
    else if i == 82
    then 0x10
    else if i == 90
    then 0x10
    else if i == 96
    then 4
    else if i == 105
    then 0x10
    else 0

file_valid : elf64_valid (some file) 124 machine ≡ true
unfolding elf64_valid char_at
file_valid = refl

-- The segment would end behind the file.
cut_refused : elf64_valid (some file) 123 machine ≡ false
unfolding elf64_valid char_at
cut_refused = refl

file_entry : elf64_entry (some file) 124 machine ≡ 0x100000
unfolding elf64_entry char_at
file_entry = refl

file_extent :
    elf64_physical_extent (elf64_segments (some file) 124 machine true 8)
    ≡ some (0x100000, 0x101000)
unfolding elf64_physical_extent elf64_segments char_at
file_extent = refl

abbrev placed : ℕ → ℕ → Elf64Segment
placed start memory = record {
  file_offset = 0;
  file_size = 0;
  physical_address = start;
  virtual_address = start;
  memory_size = memory;
  readable = true;
  writable = false;
  executable = false;
}

-- The end of the second segment wraps around to 0x1000, so the range leaves all of it out.
wrapped_extent :
    elf64_physical_extent (placed 0x100000 0x1000 ∷ placed 0xfffffffffffff000 0x2000 ∷ [])
    ≡ some (0x100000, 0x101000)
unfolding elf64_physical_extent
wrapped_extent = refl

elf64_segments-AreInside_example :
    HasTable 124 (header_at file)
    × AreInside 124 (elf64_segments (some file) 124 machine true 8)
    × (length (elf64_segments (some file) 124 machine true 8) ≤ 8)
elf64_segments-AreInside_example = elf64_segments-AreInside file 124 machine true 8 file_valid
