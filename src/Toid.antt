-- ===== src/Toid.antt =====
-- services/aurora/internal/toid/main.go: the total order of ledgers, transactions and operations.
-- An int32 field is a `ℤ`; an int64 that cannot be negative is a number.
pub mod Pack
pub mod Range
mod Examples
use aurorav1_11_0_test.Base.{
  ℕ, ◌+◌, ◌*◌, ◌^◌, Bool, ◌||◌, Option, none, some, false, ◌==◌, ltb, if◌then◌else◌,
}
use aurorav1_11_0_test.Base.Int.{
  ℤ, pos, negsuc, pos_part, neg_part, ◌+ℤ◌, ltb_ℤ, low_bits, shr, int32,
}

pub record ToId : Type 0 where
  pub ledger_sequence : ℤ
  pub transaction_order : ℤ
  pub operation_order : ℤ

abbrev pub transaction_mask : ℕ
transaction_mask = 1048575

abbrev pub operation_mask : ℕ
operation_mask = 4095

-- One more than the masks: `x & mask` is `low_bits x` at these.
abbrev ledger_bound : ℕ
ledger_bound = 2 ^ 32

abbrev transaction_bound : ℕ
transaction_bound = 1048576

abbrev operation_bound : ℕ
operation_bound = 4096

pub new_id : ℤ → ℤ → ℤ → ToId
new_id ledger tx op = record {
  ledger_sequence = ledger;
  transaction_order = tx;
  operation_order = op;
}

pub after_ledger : ℤ → ToId
unfolding new_id
after_ledger seq = new_id seq (pos transaction_mask) (pos operation_mask)

-- `none` is a panic. The three parts occupy disjoint bits, so `|` is a sum.
unfoldable pub to_int64 : ToId → Option ℕ
to_int64 id =
    if ltb_ℤ id.ledger_sequence (pos 0)
    then none
    else if ltb_ℤ (pos transaction_mask) id.transaction_order
    then none
    else if ltb_ℤ (pos operation_mask) id.operation_order
    then none
    else some (
        low_bits id.ledger_sequence ledger_bound * 2 ^ 32
        + low_bits id.transaction_order transaction_bound * 2 ^ 12
        + low_bits id.operation_order operation_bound)

-- `result = int32((id >> shift) & mask)` for each part.
pub parse : ℤ → ToId
parse id = record {
  ledger_sequence = int32 (low_bits (shr id (2 ^ 32)) ledger_bound);
  transaction_order = int32 (low_bits (shr id (2 ^ 12)) transaction_bound);
  operation_order = int32 (low_bits id operation_bound);
}

-- `x++` of an int32.
abbrev inc_int32 : ℤ → ℤ
inc_int32 x = int32 (low_bits (x +ℤ pos 1) (2 ^ 32))

pub inc_operation_order : ToId → ToId
unfolding ◌+ℤ◌
inc_operation_order id =
    let op = inc_int32 id.operation_order in
    if ltb_ℤ (pos operation_mask) op
    then record id { operation_order = pos 0; ledger_sequence = inc_int32 id.ledger_sequence }
    else record id { operation_order = op }

pub data RangeError : Type 0 where
  from_after_to from_or_to_negative : RangeError

pub data RangeResult : Type 0 where
  range : ℕ → ℕ → RangeResult
  invalid : RangeError → RangeResult
  panicked : RangeResult

-- `to + 1` is an int32: it wraps to a negative number at 2 ^ 31 - 1, which `to_int64` rejects.
abbrev next_int32 : ℤ → ℤ
next_int32 to = int32 (pos_part to + 1)

abbrev range_of : Option ℕ → Option ℕ → RangeResult
range_of (some a) (some b) = range a b
range_of (some a) none = panicked
range_of none b = panicked

abbrev eq_one : ℤ → Bool
eq_one (pos n) = n == 1
eq_one (negsuc n) = false

unfoldable pub ledger_range_inclusive : ℤ → ℤ → RangeResult
unfolding to_int64 new_id
ledger_range_inclusive from to =
    if ltb_ℤ to from
    then invalid from_after_to
    else if ltb_ℤ from (pos 1) || ltb_ℤ to (pos 1)
    then invalid from_or_to_negative
    else range_of (if eq_one from then some 0 else to_int64 (new_id from (pos 0) (pos 0)))
        (to_int64 (new_id (next_int32 to) (pos 0) (pos 0)))
