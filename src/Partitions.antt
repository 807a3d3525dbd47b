-- ===== src/Partitions.antt =====
-- include/shirley/partition.hpp and kernel/fs/partition.cpp: partition tables, and the window on a disk
-- that a partition is. `W` is the state of the disk.
pub mod Window
pub mod Tables
pub mod Bounds
pub mod Inside
pub mod Apart
mod Tests
use shirleys_os.Prelude.{◌∷◌, none, some}
use shirleys_os.Prelude.{
  zero, suc, ◌%◌, not, ◌||◌, ◌&&◌, ◌^◌, update, ◌∷◌, true, if◌then◌else◌, ◌==◌, ◌+◌, Option, ◌*◌,
  false, Bool, [], List, ℕ,
}

pub data Scheme : Type 0 where
  unpartitioned mbr gpt : Scheme

pub record Entry : Type 0 where
  pub number : ℕ
  pub first : ℕ
  pub count : ℕ
  pub mbr_type : ℕ
  pub type_guid : List ℕ

abbrev pub max_entries : ℕ
max_entries = 16

pub record Table : Type 0 where
  pub scheme : Scheme
  pub count : ℕ
  pub truncated : Bool
  pub used_backup : Bool
  pub entries : ℕ → Entry

abbrev pub no_entry : Entry
no_entry = record { number = 0; first = 0; count = 0; mbr_type = 0; type_guid = [] }

abbrev pub no_table : Table
no_table = record {
  scheme = unpartitioned;
  count = 0;
  truncated = false;
  used_backup = false;
  entries = λ i. no_entry;
}

-- A byte of a buffer, 0 behind what is known of it.
unfoldable pub byte_at : List ℕ → ℕ → ℕ
byte_at [] i = 0
byte_at (x ∷ xs) zero = x % 256
byte_at (x ∷ xs) (suc i) = byte_at xs i

unfoldable pub le32 : List ℕ → ℕ → ℕ
unfolding byte_at
le32 bytes i =
    byte_at bytes i
    + byte_at bytes (i + 1) * 2 ^ 8
    + byte_at bytes (i + 2) * 2 ^ 16
    + byte_at bytes (i + 3) * 2 ^ 24

unfoldable pub le64 : List ℕ → ℕ → ℕ
unfolding le32
le64 bytes i = le32 bytes i + le32 bytes (i + 4) * 2 ^ 32

abbrev pub mbr_table : ℕ
mbr_table = 446

abbrev pub mbr_entry_bytes : ℕ
mbr_entry_bytes = 16

abbrev pub mbr_type_protective : ℕ
mbr_type_protective = 0xEE

abbrev pub max_logical : ℕ
max_logical = 64

abbrev pub max_gpt_array : ℕ
max_gpt_array = 1024 * 1024

unfoldable pub extended_type : ℕ → Bool
extended_type type = type == 0x05 || type == 0x0F || type == 0x85

unfoldable pub has_signature : List ℕ → Bool
unfolding byte_at
has_signature block = byte_at block 510 == 0x55 && byte_at block 511 == 0xAA

-- Whether a text stands in the block at an offset.
unfoldable pub text_at : List ℕ → ℕ → List ℕ → Bool
unfolding byte_at
text_at block offset [] = true
text_at block offset (c ∷ cs) =
    let rest = text_at block (offset + 1) cs in
    if not (byte_at block offset == c) then false else rest

-- "EXFAT   ", "NTFS    ", "FAT" and "FAT32".
unfoldable pub file_system_boot_sector : List ℕ → Bool
unfolding text_at
file_system_boot_sector block =
    text_at block 3 (0x45 ∷ 0x58 ∷ 0x46 ∷ 0x41 ∷ 0x54 ∷ 0x20 ∷ 0x20 ∷ 0x20 ∷ [])
    || text_at block 3 (0x4e ∷ 0x54 ∷ 0x46 ∷ 0x53 ∷ 0x20 ∷ 0x20 ∷ 0x20 ∷ 0x20 ∷ [])
    || text_at block 54 (0x46 ∷ 0x41 ∷ 0x54 ∷ [])
    || text_at block 82 (0x46 ∷ 0x41 ∷ 0x54 ∷ 0x33 ∷ 0x32 ∷ [])

-- `guid` is `none` for a null pointer.
unfoldable pub add : Table → ℕ → ℕ → ℕ → ℕ → Option (List ℕ) → Bool × Table
add t number first count mbr_type guid =
    if t.count == max_entries then (false, record t { truncated = true }) else (
      true,
      record t {
        count = t.count + 1;
        entries = update t.entries t.count (record {
          number = number;
          first = first;
          count = count;
          mbr_type = mbr_type;
          type_guid = elim guid [ none ↦ [] | some g ↦ g ];
        });
      },
    )
