-- ===== src/Crc16/Polynomial.antt =====
-- The table of crc16/main.go computes the division by the polynomial x^16 + x^12 + x^5 + 1.
use Prim.Native.Nat.{bit_xor}
use aurorav1_11_0_test.Base.{
  ℕ, zero, suc, ◌+◌, ◌-◌, ◌*◌, ◌/◌, ◌%◌, ◌^◌, ◌<◌, ◌≡◌, refl, sym, ap, ◌∙◌, Bool, true, false,
  if◌then◌else◌, leb, ◌==◌, ==_iff, Bool-cases, inl, inr, List, [], ◌∷◌, all_below, all_below-holds,
  entry, Bytes, arith,
}
use aurorav1_11_0_test.Crc16.{crc16tab, update, crc_from}
use aurorav1_11_0_test.Crc16.Xor.{
  xor_comm, xor_exchange, xor_twice, xor_top, xor_bound, xor_256, zero-xor,
}
use aurorav1_11_0_test.Crc16.Detection.{update-entry, update_bound, index_below}

-- One digit is shifted out.
abbrev shift_digit : ℕ → ℕ
shift_digit c = if leb (2 ^ 15) c then bit_xor ((c - 2 ^ 15) * 2) 0x1021 else c * 2

abbrev shift_digits : ℕ → ℕ → ℕ
shift_digits zero c = c
shift_digits (suc n) c = shift_digits n (shift_digit c)

-- The remainder of the division, digit by digit from the highest.
unfoldable pub remainder : ℕ → List ℕ → ℕ
remainder c [] = c
remainder c (b ∷ bytes) = remainder (shift_digits 8 (bit_xor c (b * 2 ^ 8))) bytes

shift_xor_low :
    (p q : ℕ)
    → p < 2 ^ 15
    → q < 2 ^ 15
    → shift_digit (bit_xor p q) ≡ bit_xor (shift_digit p) (q * 2)
shift_xor_low p q lt lt' =
    let low : leb 32768 p ≡ false = ground (arith, lt) in
    let low' : leb 32768 (bit_xor p q) ≡ false =
      ground (arith, xor_bound 15 p q (omega (arith, lt)) (omega (arith, lt'))) in
    rw (low, low') (xor_twice p q)

shift_xor_high :
    (y q : ℕ)
    → y < 2 ^ 15
    → q < 2 ^ 15
    → shift_digit (bit_xor (2 ^ 15 + y) q) ≡ bit_xor (shift_digit (2 ^ 15 + y)) (q * 2)
shift_xor_high y q lt lt' =
    let split = xor_top 15 y q (omega (arith, lt)) (omega (arith, lt')) in
    let high : leb 32768 (32768 + y) ≡ true = ground arith in
    let high' : leb 32768 (32768 + bit_xor y q) ≡ true = ground arith in
    let less : 32768 + y - 32768 ≡ y = omega arith in
    let less' : 32768 + bit_xor y q - 32768 ≡ bit_xor y q = omega arith in
    rw (split, high, high', less, less', xor_twice y q) (xor_exchange (y * 2) (q * 2) 0x1021)

-- What is below the highest digit is only shifted.
shift_xor :
    (p q : ℕ)
    → p < 2 ^ 16
    → q < 2 ^ 15
    → shift_digit (bit_xor p q) ≡ bit_xor (shift_digit p) (q * 2)
shift_xor p q lt lt' = elim (Bool-cases (leb (2 ^ 15) p)) [
  | inl h ↦
      let above : p ≡ 2 ^ 15 + (p - 2 ^ 15) = ground (arith, h) in
      rw above (shift_xor_high (p - 2 ^ 15) q (omega (arith, lt, above)) lt')
  | inr h ↦ shift_xor_low p q (ground (arith, h)) lt'
]

shift_bound : (p : ℕ) → p < 2 ^ 16 → shift_digit p < 2 ^ 16
shift_bound p lt = elim (Bool-cases (leb (2 ^ 15) p)) [
  | inl h ↦
      rw h (omega (arith, xor_bound 16 ((p - 2 ^ 15) * 2) 0x1021 (omega (arith, lt)) (omega arith)))
  | inr h ↦ let low : p < 2 ^ 15 = ground (arith, h) in rw h (omega (arith, low))
]

shift_xor_2 :
    (p q : ℕ)
    → p < 2 ^ 16
    → q < 2 ^ 14
    → shift_digits 2 (bit_xor p q) ≡ bit_xor (shift_digits 2 p) (q * 4)
shift_xor_2 p q lt lt' =
    let twice : q * 2 * 2 ≡ q * 4 = omega arith in
    ap shift_digit (shift_xor p q lt (omega (arith, lt')))
    ∙ (shift_xor (shift_digit p) (q * 2) (shift_bound p lt) (omega (arith, lt'))
        ∙ ap (bit_xor (shift_digits 2 p)) twice)

shift_bound_2 : (p : ℕ) → p < 2 ^ 16 → shift_digits 2 p < 2 ^ 16
shift_bound_2 p lt = shift_bound (shift_digit p) (shift_bound p lt)

shift_xor_4 :
    (p q : ℕ)
    → p < 2 ^ 16
    → q < 2 ^ 12
    → shift_digits 4 (bit_xor p q) ≡ bit_xor (shift_digits 4 p) (q * 16)
shift_xor_4 p q lt lt' =
    let twice : q * 4 * 4 ≡ q * 16 = omega arith in
    ap (shift_digits 2) (shift_xor_2 p q lt (omega (arith, lt')))
    ∙ (shift_xor_2 (shift_digits 2 p) (q * 4) (shift_bound_2 p lt) (omega (arith, lt'))
        ∙ ap (bit_xor (shift_digits 4 p)) twice)

shift_xor_8 :
    (p q : ℕ)
    → p < 2 ^ 16
    → q < 2 ^ 8
    → shift_digits 8 (bit_xor p q) ≡ bit_xor (shift_digits 8 p) (q * 256)
shift_xor_8 p q lt lt' =
    let twice : q * 16 * 16 ≡ q * 256 = omega arith in
    ap (shift_digits 4) (shift_xor_4 p q lt (omega (arith, lt')))
    ∙ (shift_xor_4 (shift_digits 4 p) (q * 16)
          (shift_bound_2 (shift_digits 2 p) (shift_bound_2 p lt)) (omega (arith, lt'))
        ∙ ap (bit_xor (shift_digits 8 p)) twice)

abbrev divides : ℕ → Bool
divides h = shift_digits 8 (h * 256) == entry crc16tab h

divided : all_below 256 divides ≡ true
unfolding all_below entry crc16tab
divided = refl

shift_entry : (h : ℕ) → h < 256 → shift_digits 8 (h * 256) ≡ entry crc16tab h
shift_entry h lt = (==_iff _ _).0 (all_below-holds 256 divides h divided lt)

-- The high byte meets the next byte, and the low one is apart.
xor_parts : (crc b : ℕ) → bit_xor crc (b * 256) ≡ bit_xor (bit_xor (crc / 256) b * 256) (crc % 256)
xor_parts crc b =
    let h = bit_xor (crc / 256) b in
    let none_left : crc % 256 / 256 ≡ 0 = omega arith in
    let there : bit_xor h (crc % 256 / 256) ≡ h =
      ap (bit_xor h) none_left ∙ (xor_comm h 0 ∙ zero-xor h) in
    omega (
      arith,
      there,
      xor_comm crc (b * 256),
      xor_256 b crc,
      xor_comm b (crc / 256),
      xor_256 h (crc % 256),
    )

update_divides :
    (crc b : ℕ) → crc < 2 ^ 16 → b < 256 → update crc b ≡ shift_digits 8 (bit_xor crc (b * 2 ^ 8))
update_divides crc b small byte =
    let h = bit_xor (crc / 256) b in
    let below = index_below crc b small byte in
    update-entry crc b small byte
    ∙ (xor_comm (crc % 256 * 256) (entry crc16tab h)
        ∙ (ap (λ e. bit_xor e (crc % 256 * 256)) (sym (shift_entry h below))
            ∙ (sym (shift_xor_8 (h * 256) (crc % 256) (omega (arith, below)) (omega arith))
                ∙ ap (shift_digits 8) (sym (xor_parts crc b)))))

-- The loop with the table gives, for every list of bytes, the remainder of the division by the
-- polynomial 0x11021 that is computed digit by digit.
pub crc_from-remainder :
    (bytes : List ℕ) (crc : ℕ)
    → Bytes bytes
    → crc < 2 ^ 16
    → crc_from crc bytes ≡ remainder crc bytes
unfolding crc_from remainder
crc_from-remainder [] crc all small = refl
crc_from-remainder (b ∷ bytes) crc (byte, all) small =
    crc_from-remainder bytes (update crc b) all (update_bound crc b small byte)
    ∙ ap (λ c. remainder c bytes) (update_divides crc b small byte)
