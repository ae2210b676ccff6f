-- ===== src/Price.antt =====
-- price/main.go and xdr/price.go: multiplying an amount by a price, with the rounding of the core, and
-- the comparison of prices. An int64 here is not negative; a product is taken in 128 bits.
pub mod Rounding
pub mod Convert
pub mod Overflow
mod Examples
use aurorav1_11_0_test.Base.{ℕ, ◌+◌, ◌-◌, ◌*◌, ◌/◌, ◌%◌, ◌^◌, Bool, ltb, leb, ◌==◌, if◌then◌else◌}

pub data Error : Type 0 where
  division_by_zero overflow : Error

pub data Result (A : Type 0) : Type 0 where
  ok : A → Result A
  err : Error → Result A

infixl 5 ◌>>=◌
abbrev pub ◌>>=◌ : {A B : Type 0} → Result A → (A → Result B) → Result B
ok a >>= f = f a
err e >>= f = err e

-- `bits.Mul64`, `bits.Add64` and `bits.Div64`; the latter wants hi < d.
abbrev mul_hi : ℕ → ℕ → ℕ
mul_hi x y = x * y / 2 ^ 64

abbrev mul_lo : ℕ → ℕ → ℕ
mul_lo x y = x * y % 2 ^ 64

abbrev div_64 : ℕ → ℕ → ℕ → ℕ
div_64 hi lo d = (hi * 2 ^ 64 + lo) / d

-- The end of both roundings: the quotient of hi and lo, where it is an int64.
abbrev quotient : ℕ → ℕ → ℕ → Result ℕ
quotient hi lo d =
    if leb d hi
    then err overflow
    else let q = div_64 hi lo d in if ltb (2 ^ 63 - 1) q then err overflow else ok q

unfoldable pub mul_fraction_round_down : ℕ → ℕ → ℕ → Result ℕ
mul_fraction_round_down x n d =
    if d == 0 then err division_by_zero else quotient (mul_hi x n) (mul_lo x n) d

unfoldable pub mul_fraction_round_up : ℕ → ℕ → ℕ → Result ℕ
mul_fraction_round_up x n d =
    if d == 0
    then err division_by_zero
    else let sum = mul_lo x n + (d - 1) in
      quotient ((mul_hi x n + sum / 2 ^ 64) % 2 ^ 64) (sum % 2 ^ 64) d

unfoldable pub min : ℕ → ℕ → ℕ
min x y = if leb x y then x else y

-- The proceeds of the offer, rounded down, and what they buy back, rounded up.
unfoldable pub rounded_back : ℕ → ℕ → ℕ → Result ℕ
unfolding mul_fraction_round_down mul_fraction_round_up
rounded_back amount n d = do
  proceeds ← mul_fraction_round_down amount n d
  mul_fraction_round_up proceeds d n

-- What the offer can sell: all of it, or what its rounded proceeds buy.
unfoldable pub selling_bound : ℕ → ℕ → ℕ → Result ℕ
unfolding rounded_back
selling_bound amount n d = if leb n d then rounded_back amount n d else ok amount

-- The units bought and the units sold.
unfoldable pub convert_to_buying_units : ℕ → ℕ → ℕ → ℕ → Result (ℕ × ℕ)
unfolding selling_bound mul_fraction_round_up min
convert_to_buying_units amount needed n d = do
  bound ← selling_bound amount n d
  let extracted = min bound needed
  bought ← mul_fraction_round_up extracted n d
  ok (bought, extracted)

pub record Price : Type 0 where
  pub n : ℕ
  pub d : ℕ

-- Both products of two int32 fit in a uint64.
unfoldable pub cheaper : Price → Price → Bool
cheaper p q = ltb (p.n * q.d) (q.n * p.d)

unfoldable pub equal : Price → Price → Bool
equal p q = p.n * q.d == q.n * p.d

pub invert : Price → Price
invert p = record { n = p.d; d = p.n }
