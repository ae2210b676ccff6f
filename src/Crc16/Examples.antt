-- ===== src/Crc16/Examples.antt =====
-- The check value of crc16/main.go: the sum of "123456789" is 0x31c3.
use aurorav1_11_0_test.Base.{ℕ, ◌≡◌, refl, List, [], ◌∷◌, entry, Bytes, arith}
use aurorav1_11_0_test.Crc16.{crc16tab, update, crc_from}
use aurorav1_11_0_test.Crc16.Polynomial.{remainder, crc_from-remainder}

abbrev digits : List ℕ
digits = 49 ∷ 50 ∷ 51 ∷ 52 ∷ 53 ∷ 54 ∷ 55 ∷ 56 ∷ 57 ∷ []

digits-Bytes : Bytes digits
digits-Bytes = (
  omega arith,
  (
    omega arith,
    (
      omega arith,
      (omega arith, (omega arith, (omega arith, (omega arith, (omega arith, (omega arith, tt)))))),
    ),
  ),
)

crc_of_digits : crc_from 0 digits ≡ 0x31c3
unfolding crc_from update crc16tab entry
crc_of_digits = refl

crc_from-remainder_example : crc_from 0 digits ≡ remainder 0 digits
crc_from-remainder_example = crc_from-remainder digits 0 digits-Bytes (omega arith)
