-- ===== src/Toid/Examples.antt =====
-- Ids at concrete values.
use aurorav1_11_0_test.Base.{ℕ, ◌^◌, ◌<◌, ◌≡◌, refl, some, arith}
use aurorav1_11_0_test.Base.Int.{pos}
use aurorav1_11_0_test.Toid.{
  ToId, range, after_ledger, to_int64, parse, inc_operation_order, ledger_range_inclusive,
}
use aurorav1_11_0_test.Toid.Pack.{IsValid, parse-to_int64}

abbrev third : ToId
third = record { ledger_sequence = pos 3; transaction_order = pos 2; operation_order = pos 1 }

abbrev full : ToId
full = record { ledger_sequence = pos 3; transaction_order = pos 2; operation_order = pos 4095 }

third-IsValid : IsValid third
third-IsValid = record {
  ledger_low = refl;
  ledger_high = omega arith;
  transaction_low = refl;
  transaction_high = omega arith;
  operation_low = refl;
  operation_high = omega arith;
}

third_packed : to_int64 third ≡ some 12884910081
unfolding to_int64
third_packed = refl

full_packed : to_int64 full ≡ some 12884914175
unfolding to_int64
full_packed = refl

-- The roll-over keeps the transaction.
full_rolls_over :
    inc_operation_order full
    ≡ record { ledger_sequence = pos 4; transaction_order = pos 2; operation_order = pos 0 }
unfolding inc_operation_order
full_rolls_over = refl

after_third : to_int64 (after_ledger (pos 3)) ≡ some 17179869183
unfolding to_int64 after_ledger
after_third = refl

parse-to_int64_example :
    (v : ℕ) × (to_int64 third ≡ some v) × (v < 2 ^ 63) × (parse (pos v) ≡ third)
parse-to_int64_example = parse-to_int64 third third-IsValid

three_to_four : ledger_range_inclusive (pos 3) (pos 4) ≡ range 12884901888 21474836480
unfolding ledger_range_inclusive
three_to_four = refl
