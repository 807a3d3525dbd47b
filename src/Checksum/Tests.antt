-- ===== src/Checksum/Tests.antt =====
-- kernel/checksum: the sums of "123456789", which the two standards give.
use shirleys_os.Checksum.Crc.{crc32-divide, reference}
use shirleys_os.Checksum.Table.{Bytes}
use shirleys_os.Checksum.{polynomial_castagnoli, polynomial, [], crc32c, crc32}
use shirleys_os.Prelude.{refl, ◌≡◌, arith, List, ℕ, ◌∷◌}

abbrev digits : List ℕ
digits = 0x31 ∷ 0x32 ∷ 0x33 ∷ 0x34 ∷ 0x35 ∷ 0x36 ∷ 0x37 ∷ 0x38 ∷ 0x39 ∷ []

crc32_check : crc32 digits 0 ≡ 0xCBF43926
unfolding crc32
crc32_check = refl

crc32c_check : crc32c digits 0 ≡ 0xE3069283
unfolding crc32c
crc32c_check = refl

digits-Bytes : Bytes digits
digits-Bytes = (
  omega arith,
  (
    omega arith,
    (
      omega arith,
      (omega arith, (omega arith, (omega arith, (omega arith, (omega arith, (omega arith, tt)))))),
    ),
  ),
)

crc32-divide_example :
    (crc32 digits 0 ≡ reference polynomial digits 0)
    × (crc32c digits 0 ≡ reference polynomial_castagnoli digits 0)
crc32-divide_example = crc32-divide digits 0 digits-Bytes
