-- ===== src/Crc16.antt =====
-- crc16/main.go: the checksum of a list of bytes. A uint16 is a number below 2 ^ 16.
mod Table
mod Xor
pub mod Detection
pub mod Polynomial
mod Examples
unfoldable pub use Table.{crc16tab}
use Prim.Native.Nat.{bit_and, bit_xor}
use aurorav1_11_0_test.Base.{
  ℕ, zero, suc, ◌+◌, ◌*◌, ◌/◌, ◌%◌, ◌^◌, Bool, true, false, ◌&&◌, ◌==◌, List, [], ◌∷◌, entry,
}

-- One turn of the loop. The index is below 256.
unfoldable pub update : ℕ → ℕ → ℕ
update crc b =
    bit_xor (bit_and (crc * 2 ^ 8 % 2 ^ 16) 0xffff)
      (entry crc16tab (bit_and (bit_xor (crc / 2 ^ 8) b) 0x00ff))

unfoldable pub crc_from : ℕ → List ℕ → ℕ
crc_from crc [] = crc
crc_from crc (b ∷ bytes) = crc_from (update crc b) bytes

-- In little-endian order.
unfoldable pub checksum : List ℕ → List ℕ
unfolding crc_from
checksum bytes = let crc = crc_from 0 bytes in crc % 2 ^ 8 ∷ crc / 2 ^ 8 ∷ []

abbrev pub equal_bytes : List ℕ → List ℕ → Bool
equal_bytes [] [] = true
equal_bytes [] (y ∷ ys) = false
equal_bytes (x ∷ xs) [] = false
equal_bytes (x ∷ xs) (y ∷ ys) = x == y && equal_bytes xs ys

unfoldable pub validate : List ℕ → List ℕ → Bool
unfolding checksum
validate bytes expected = equal_bytes (checksum bytes) expected
