-- ===== src/Price/Examples.antt =====
-- Prices and offers at concrete values.
use aurorav1_11_0_test.Base.{◌*◌, ◌≤◌, ◌<◌, ◌^◌, ◌≡◌, refl, arith}
use aurorav1_11_0_test.Price.{
  Price, ok, err, overflow, invert, mul_fraction_round_down, convert_to_buying_units,
}
use aurorav1_11_0_test.Price.Convert.{IsCeiling, convert_to_buying_units_lem}

-- An offer of 10 units at 3/7 takes 4 units for 8 of its own.
offer_at_3_7 : convert_to_buying_units 10 8 3 7 ≡ ok (4, 8)
unfolding convert_to_buying_units
offer_at_3_7 = refl

overflows : mul_fraction_round_down (2 ^ 62) 4 1 ≡ err overflow
unfolding mul_fraction_round_down
overflows = refl

convert_to_buying_units_lem_example : (8 ≤ 8) × (8 ≤ 10) × IsCeiling 4 (8 * 3) 7 × (4 < 2 ^ 63)
convert_to_buying_units_lem_example =
    convert_to_buying_units_lem 10 8 3 7 (omega arith) (omega arith) (omega arith) offer_at_3_7

abbrev half : Price
half = record { n = 1; d = 2 }

abbrev third : Price
third = record { n = 1; d = 3 }

abbrev quarter : Price
quarter = record { n = 2; d = 8 }

inverted : invert third ≡ record { n = 3; d = 1 }
unfolding invert
inverted = refl
