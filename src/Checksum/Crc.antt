-- ===== src/Checksum/Crc.antt =====
-- kernel/checksum: crc32 and crc32c.
use shirleys_os.Checksum.{
  polynomial_castagnoli, polynomial, update_sum, crc32c, complement32, crc32,
}
use shirleys_os.Checksum.Table.{update_from-divide, Bytes, divide}
use shirleys_os.Prelude.{◌≡◌, List, ℕ, ap}

-- The definition of a CRC: the complement of the remainder of the complement.
unfoldable pub reference : ℕ → List ℕ → ℕ → ℕ
unfolding divide complement32
reference poly bytes previous = complement32 (divide poly bytes (complement32 previous))

-- The sums by the table are those of a shift register that divides by the polynomial one bit of the
-- message at a time, for both polynomials, on any bytes (numbers below 256) and after any previous sum.
pub crc32-divide :
    (bytes : List ℕ) (previous : ℕ)
    → Bytes bytes
    → (crc32 bytes previous ≡ reference polynomial bytes previous)
      × (crc32c bytes previous ≡ reference polynomial_castagnoli bytes previous)
unfolding crc32 crc32c reference update_sum
crc32-divide bytes previous h = (
  ap complement32 (update_from-divide polynomial bytes (complement32 previous) h),
  ap complement32 (update_from-divide polynomial_castagnoli bytes (complement32 previous) h),
)
