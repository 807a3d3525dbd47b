-- ===== src/Checksum.antt =====
-- kernel/checksum: the CRC32 of a run of bytes, a byte at a time through a table.
pub mod Bits
pub mod Table
pub mod Crc
mod Tests
use shirleys_os.Prelude.{[], ◌∷◌}
use shirleys_os.Prelude.{zero, ◌/◌, ◌==◌, ◌%◌, if◌then◌else◌, ◌-◌, List, suc, u32_mod, ℕ}
use Prim.Native.Nat.{bit_xor, bit_and}

abbrev pub polynomial : ℕ
polynomial = 0xEDB88320

abbrev pub polynomial_castagnoli : ℕ
polynomial_castagnoli = 0x82F63B78

-- The loop over the bits of an index.
unfoldable pub table_bits : ℕ → ℕ → ℕ → ℕ
table_bits poly zero value = value
table_bits poly (suc left) value =
    table_bits poly left (if value % 2 == 1 then bit_xor poly (value / 2) else value / 2)

-- `make_table`: the table as a function of the index.
unfoldable pub make_table : ℕ → ℕ → ℕ
unfolding table_bits
make_table poly index = table_bits poly 8 index

-- `~value` on 32 bits.
unfoldable pub complement32 : ℕ → ℕ
complement32 value = u32_mod - 1 - value

-- The loop of `update`.
unfoldable pub update_from : (ℕ → ℕ) → List ℕ → ℕ → ℕ
update_from table [] value = value
update_from table (b ∷ bs) value =
    update_from table bs (bit_xor (table (bit_and (bit_xor value b) 0xFF)) (value / 256))

unfoldable pub update_sum : (ℕ → ℕ) → List ℕ → ℕ → ℕ
unfolding update_from complement32
update_sum table bytes previous = complement32 (update_from table bytes (complement32 previous))

unfoldable pub crc32 : List ℕ → ℕ → ℕ
unfolding update_sum make_table
crc32 bytes previous = update_sum (make_table polynomial) bytes previous

unfoldable pub crc32c : List ℕ → ℕ → ℕ
unfolding update_sum make_table
crc32c bytes previous = update_sum (make_table polynomial_castagnoli) bytes previous
