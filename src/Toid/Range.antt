-- ===== src/Toid/Range.antt =====
-- The range of packed ids that covers a range of ledgers.
use aurorav1_11_0_test.Base.{
  ℕ, ◌+◌, ◌-◌, ◌*◌, ◌^◌, ◌≤◌, ◌<◌, ◌≡◌, ◌↔◌, some, arith, ◌==◌, if◌then◌else◌,
}
use aurorav1_11_0_test.Base.Int.{ℤ, pos, pos_part, ◌≤ℤ◌}
use aurorav1_11_0_test.Toid.{ToId, range, panicked, to_int64, ledger_range_inclusive}
use aurorav1_11_0_test.Toid.Pack.{IsValid}

-- The range holds the packed number of an id with a positive ledger sequence exactly when that
-- ledger lies between the two ends, both included.
ledger_range_covers :
    (from to : ℤ) (id : ToId) {a b v : ℕ}
    → IsValid id
    → 1 ≤ pos_part id.ledger_sequence
    → pos_part to < 2 ^ 31
    → ledger_range_inclusive from to ≡ range a b
    → to_int64 id ≡ some v
    → ((a ≤ v) × (v < b)) ↔ ((from ≤ℤ id.ledger_sequence) × (id.ledger_sequence ≤ℤ to))
unfolding ledger_range_inclusive
ledger_range_covers from to id h one fits e p = (λ q. ground arith, λ q. ground arith)

-- On int32 arguments with 1 ≤ from ≤ to the range goes from the first id of `from`, or from 0 where
-- `from` is 1, to the first id of `to + 1`; where `to + 1` is no int32 the call panics.
pub ledger_range_value :
    (from to : ℕ)
    → to < 2 ^ 31
    → 1 ≤ from
    → from ≤ to
    → ledger_range_inclusive (pos from) (pos to) ≡ (
        if to == 2 ^ 31 - 1
        then panicked
        else range (if from == 1 then 0 else from * 2 ^ 32) ((to + 1) * 2 ^ 32))
unfolding ledger_range_inclusive
ledger_range_value from to ht one le = ground arith
