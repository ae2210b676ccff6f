-- ===== src/Toid/Pack.antt =====
-- The packing of an id into an int64: the round trip, and the order that it keeps.
use aurorav1_11_0_test.Base.{ℕ, ◌+◌, ◌*◌, ◌^◌, ◌≤◌, ◌<◌, ◌≡◌, ◌↔◌, ◌⊎◌, some, arith}
use aurorav1_11_0_test.Base.Int.{pos, pos_part, neg_part}
use aurorav1_11_0_test.Toid.{
  ToId, transaction_mask, operation_mask, to_int64, parse, inc_operation_order,
}

-- An id whose parts fit their fields.
pub record IsValid (id : ToId) : Type 0 where
  pub ledger_low : neg_part id.ledger_sequence ≡ 0
  pub ledger_high : pos_part id.ledger_sequence < 2 ^ 31
  pub transaction_low : neg_part id.transaction_order ≡ 0
  pub transaction_high : pos_part id.transaction_order ≤ transaction_mask
  pub operation_low : neg_part id.operation_order ≡ 0
  pub operation_high : pos_part id.operation_order ≤ operation_mask

value : ToId → ℕ
value id =
    pos_part id.ledger_sequence * 2 ^ 32
    + pos_part id.transaction_order * 2 ^ 12
    + pos_part id.operation_order

to_int64-value : (id : ToId) → IsValid id → to_int64 id ≡ some (value id)
unfolding to_int64 value
to_int64-value id h = ground arith

parse-value : (id : ToId) → IsValid id → parse (pos (value id)) ≡ id
unfolding parse value
parse-value id h = ground arith

-- A valid id packs into an int64 that is not negative, and `parse` gives the id back.
pub parse-to_int64 :
    (id : ToId)
    → IsValid id
    → (v : ℕ) × (to_int64 id ≡ some v) × (v < 2 ^ 63) × (parse (pos v) ≡ id)
parse-to_int64 id h = (value id, to_int64-value id h, bound, parse-value id h)
  where
    bound : value id < 2 ^ 63
    bound = unfold value in omega arith

is_value : (id : ToId) (v : ℕ) → IsValid id → to_int64 id ≡ some v → v ≡ value id
is_value id v h e = cc (to_int64-value id h)

inc-IsValid :
    (a : ToId)
    → IsValid a
    → pos_part a.ledger_sequence + 1 < 2 ^ 31
    → IsValid (inc_operation_order a)
unfolding inc_operation_order
inc-IsValid a h room = ground arith

inc-value :
    (a : ToId)
    → IsValid a
    → pos_part a.ledger_sequence + 1 < 2 ^ 31
    → value a < value (inc_operation_order a)
unfolding inc_operation_order value
inc-value a h room = ground arith

-- The lexicographic order of the three parts.
abbrev pub Before : ToId → ToId → Type 0
Before a b =
    (pos_part a.ledger_sequence < pos_part b.ledger_sequence)
    ⊎ (pos_part a.ledger_sequence ≡ pos_part b.ledger_sequence)
      × (pos_part a.transaction_order < pos_part b.transaction_order)
    ⊎ (pos_part a.ledger_sequence ≡ pos_part b.ledger_sequence)
      × (pos_part a.transaction_order ≡ pos_part b.transaction_order)
      × (pos_part a.operation_order < pos_part b.operation_order)

-- The packed numbers of valid ids are ordered as their parts are, lexicographically.
to_int64_order :
    (a b : ToId) {v w : ℕ}
    → IsValid a
    → IsValid b
    → to_int64 a ≡ some v
    → to_int64 b ≡ some w
    → (v < w) ↔ Before a b
unfolding value
to_int64_order a b {v} {w} ha hb ea eb = (
  λ h. ground (arith, is_value a v ha ea, is_value b w hb eb),
  λ h. ground (arith, is_value a v ha ea, is_value b w hb eb),
)

-- A step of the cursor from a valid id, while the ledger sequence stays below 2 ^ 31 - 1, gives a
-- valid id with a larger packed number.
inc_operation_order_grows :
    (a : ToId) {v : ℕ}
    → IsValid a
    → pos_part a.ledger_sequence + 1 < 2 ^ 31
    → to_int64 a ≡ some v
    → IsValid (inc_operation_order a)
      × ((w : ℕ) × (to_int64 (inc_operation_order a) ≡ some w) × (v < w))
inc_operation_order_grows a {v} h room e =
    let valid = inc-IsValid a h room in
    let n = inc_operation_order a in
    (valid, (value n, to_int64-value n valid, ground (arith, is_value a v h e, inc-value a h room)))
