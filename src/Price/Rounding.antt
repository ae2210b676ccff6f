-- ===== src/Price/Rounding.antt =====
-- The two roundings agree with the quotient of unbounded integers wherever that is an int64.
use native.Mathlib.Nat.{le-div_iff_mul-le}
use aurorav1_11_0_test.Base.{
  ℕ, ◌+◌, ◌-◌, ◌*◌, ◌/◌, ◌%◌, ◌^◌, ◌≤◌, ◌<◌, ◌≡◌, arith, ltb, ◌==◌, if◌then◌else◌,
}
use aurorav1_11_0_test.Price.{
  Result, ok, err, division_by_zero, overflow, mul_fraction_round_down, mul_fraction_round_up,
}

-- The quotient as an int64.
abbrev pub as_int64 : ℕ → Result ℕ
as_int64 q = if ltb q (2 ^ 63) then ok q else err overflow

too_high : (p d : ℕ) → 0 < d → d ≤ p / 2 ^ 64 → 2 ^ 64 ≤ p / d
too_high p d positive h = (le-div_iff_mul-le positive).1 (omega arith)

parts : (p : ℕ) → p / 2 ^ 64 * 2 ^ 64 + p % 2 ^ 64 ≡ p
parts p = omega arith

product_bound : (x n : ℕ) → x < 2 ^ 63 → n < 2 ^ 63 → x * n < 2 ^ 126
product_bound x n hx hn = grind arith

-- On amounts and prices that are int64: division by 0, or the quotient rounded down, or an overflow.
pub mul_fraction_round_down_lem :
    (x n d : ℕ)
    → mul_fraction_round_down x n d
      ≡ (if d == 0 then err division_by_zero else as_int64 (x * n / d))
unfolding mul_fraction_round_down
mul_fraction_round_down_lem x n d = ground (arith, too_high (x * n) d, parts (x * n))

carried :
    (p d : ℕ)
    → p < 2 ^ 126
    → 0 < d
    → d < 2 ^ 63
    → (p / 2 ^ 64 + (p % 2 ^ 64 + (d - 1)) / 2 ^ 64) % 2 ^ 64 * 2 ^ 64
        + (p % 2 ^ 64 + (d - 1)) % 2 ^ 64
      ≡ p + (d - 1)
carried p d hp positive hd = omega arith

-- The same with the quotient rounded up.
pub mul_fraction_round_up_lem :
    (x n d : ℕ)
    → x < 2 ^ 63
    → n < 2 ^ 63
    → d < 2 ^ 63
    → mul_fraction_round_up x n d
      ≡ (if d == 0 then err division_by_zero else as_int64 ((x * n + (d - 1)) / d))
unfolding mul_fraction_round_up
mul_fraction_round_up_lem x n d hx hn hd =
    ground (arith, too_high (x * n + (d - 1)) d, carried (x * n) d, product_bound x n)
