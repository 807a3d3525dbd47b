-- ===== src/Elf.antt =====
-- boot/common/elf64.cpp: the checks of an ELF file and its segments. A buffer is `none` for a null pointer and
-- otherwise its bytes; a header is the offset that it stands at.
pub mod Inside
mod Tests
use shirleys_os.Prelude.{
  ℕ, zero, suc, ◌+◌, ◌-◌, ◌*◌, ◌/◌, ◌%◌, ◌^◌, Bool, true, false, not, ◌&&◌, ◌||◌, ◌==◌, ltb, leb,
  if◌then◌else◌, List, [], ◌∷◌, Option, none, some, u64_mod,
}

abbrev header_bytes : ℕ
header_bytes = 64

abbrev program_header_bytes : ℕ
program_header_bytes = 56

abbrev program_type_load : ℕ
program_type_load = 1

abbrev type_executable : ℕ
type_executable = 2

-- The fields of one byte and of two, four and eight bytes, little endian.
unfoldable pub u8 : (ℕ → ℕ) → ℕ → ℕ
u8 bytes i = bytes i % 256

unfoldable pub u16 : (ℕ → ℕ) → ℕ → ℕ
unfolding u8
u16 bytes i = u8 bytes i + u8 bytes (i + 1) * 2 ^ 8

unfoldable pub u32 : (ℕ → ℕ) → ℕ → ℕ
unfolding u16
u32 bytes i = u16 bytes i + u16 bytes (i + 2) * 2 ^ 16

unfoldable pub u64 : (ℕ → ℕ) → ℕ → ℕ
unfolding u32
u64 bytes i = u32 bytes i + u32 bytes (i + 4) * 2 ^ 32

-- The fields of the file header that the code reads.
pub record Header : Type 0 where
  pub type : ℕ
  pub machine : ℕ
  pub entry : ℕ
  pub program_header_offset : ℕ
  pub program_header_entry_size : ℕ
  pub program_header_count : ℕ

pub record ProgramHeader : Type 0 where
  pub type : ℕ
  pub flags : ℕ
  pub offset : ℕ
  pub virtual_address : ℕ
  pub physical_address : ℕ
  pub file_size : ℕ
  pub memory_size : ℕ

pub record Elf64Segment : Type 0 where
  pub file_offset : ℕ
  pub file_size : ℕ
  pub physical_address : ℕ
  pub virtual_address : ℕ
  pub memory_size : ℕ
  pub readable : Bool
  pub writable : Bool
  pub executable : Bool

unfoldable pub header_at : (ℕ → ℕ) → Header
unfolding u16 u64
header_at bytes = record {
  type = u16 bytes 16;
  machine = u16 bytes 18;
  entry = u64 bytes 24;
  program_header_offset = u64 bytes 32;
  program_header_entry_size = u16 bytes 54;
  program_header_count = u16 bytes 56;
}

unfoldable pub identifier_ok : (ℕ → ℕ) → Bool
unfolding u8
identifier_ok bytes =
    u8 bytes 0 == 0x7f
    && u8 bytes 1 == 0x45
    && u8 bytes 2 == 0x4c
    && u8 bytes 3 == 0x46
    && u8 bytes 4 == 2
    && u8 bytes 5 == 1
    && u8 bytes 6 == 1

unfoldable pub range_ok : ℕ → ℕ → ℕ → Bool
range_ok offset length size = if ltb size offset then false else leb length (size - offset)

-- The tests of `header_of` on the header's fields.
unfoldable pub header_ok : Header → ℕ → ℕ → Bool
unfolding range_ok
header_ok h size machine =
    h.type == type_executable
    && h.machine == machine
    && leb program_header_bytes h.program_header_entry_size
    && not (h.program_header_count == 0)
    && range_ok h.program_header_offset (h.program_header_entry_size * h.program_header_count) size

unfoldable pub header_of : Option (ℕ → ℕ) → ℕ → ℕ → Option Header
unfolding identifier_ok header_at header_ok
header_of none size machine = none
header_of (some bytes) size machine =
    if ltb size header_bytes
    then none
    else if not (identifier_ok bytes)
    then none
    else if not (header_ok (header_at bytes) size machine)
    then none
    else some (header_at bytes)

-- Where the program header `index` stands in the buffer.
unfoldable pub program_offset : Header → ℕ → ℕ
program_offset h index = h.program_header_offset + index * h.program_header_entry_size

unfoldable pub program_header_at : Header → (ℕ → ℕ) → ℕ → ProgramHeader
unfolding program_offset u32 u64
program_header_at h bytes index =
    let a = program_offset h index in
    record {
      type = u32 bytes a;
      flags = u32 bytes (a + 4);
      offset = u64 bytes (a + 8);
      virtual_address = u64 bytes (a + 16);
      physical_address = u64 bytes (a + 24);
      file_size = u64 bytes (a + 32);
      memory_size = u64 bytes (a + 40);
    }

-- The loop of `elf64_valid` over the `left` program headers from `index` on.
unfoldable pub valid_from : Header → (ℕ → ℕ) → ℕ → ℕ → ℕ → Bool
unfolding program_header_at range_ok
valid_from h bytes size zero index = true
valid_from h bytes size (suc left) index =
    let rest = valid_from h bytes size left (index + 1) in
    let p = program_header_at h bytes index in
    if not (p.type == program_type_load)
    then rest
    else if not (range_ok p.offset p.file_size size)
    then false
    else if ltb p.memory_size p.file_size
    then false
    else rest

unfoldable pub elf64_valid : Option (ℕ → ℕ) → ℕ → ℕ → Bool
unfolding header_of valid_from
elf64_valid none size machine = false
elf64_valid (some bytes) size machine = elim (header_of (some bytes) size machine) [
  | none ↦ false
  | some h ↦ valid_from h bytes size h.program_header_count 0
]

unfoldable pub elf64_entry : Option (ℕ → ℕ) → ℕ → ℕ → ℕ
unfolding elf64_valid header_at
elf64_entry none size machine = 0
elf64_entry (some bytes) size machine =
    if not (elf64_valid (some bytes) size machine) then 0 else (header_at bytes).entry

unfoldable pub segment_of : ProgramHeader → Elf64Segment
segment_of p = record {
  file_offset = p.offset;
  file_size = p.file_size;
  physical_address = p.physical_address;
  virtual_address = p.virtual_address;
  memory_size = p.memory_size;
  readable = not (p.flags / 4 % 2 == 0);
  writable = not (p.flags / 2 % 2 == 0);
  executable = not (p.flags % 2 == 0);
}

-- The loop of `elf64_segments`: the segments that it writes, with `room` places free.
unfoldable pub segments_from : Header → (ℕ → ℕ) → ℕ → ℕ → ℕ → List Elf64Segment
unfolding program_header_at segment_of
segments_from h bytes zero index room = []
segments_from h bytes (suc left) index zero = []
segments_from h bytes (suc left) index (suc room) =
    let p = program_header_at h bytes index in
    let without = segments_from h bytes left (index + 1) (suc room) in
    let behind = segments_from h bytes left (index + 1) room in
    if not (p.type == program_type_load) || p.memory_size == 0
    then without
    else segment_of p ∷ behind

-- `given` is whether the array is not null; the count is the length of the answer.
unfoldable pub elf64_segments : Option (ℕ → ℕ) → ℕ → ℕ → Bool → ℕ → List Elf64Segment
unfolding elf64_valid header_at segments_from
elf64_segments none size machine given capacity = []
elf64_segments (some bytes) size machine given capacity =
    if not given || capacity == 0
    then []
    else if not (elf64_valid (some bytes) size machine)
    then []
    else segments_from (header_at bytes) bytes (header_at bytes).program_header_count 0 capacity

-- The loop of `elf64_physical_extent` behind the first segment.
unfoldable pub extent_from : List Elf64Segment → ℕ → ℕ → ℕ × ℕ
extent_from [] lowest end = (lowest, end)
extent_from (s ∷ segments) lowest end =
    let start = s.physical_address in
    let finish = (start + s.memory_size) % u64_mod in
    extent_from segments (if ltb start lowest then start else lowest)
      (if ltb end finish then finish else end)

-- The lowest address and the end; a null array is the empty list.
unfoldable pub elf64_physical_extent : List Elf64Segment → Option (ℕ × ℕ)
unfolding extent_from
elf64_physical_extent [] = none
elf64_physical_extent (s ∷ segments) =
    some (extent_from segments s.physical_address ((s.physical_address + s.memory_size) % u64_mod))
