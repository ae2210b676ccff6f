-- ===== src/Checkpoints/Bounds.antt =====
-- The two roundings to a checkpoint, and the ranges that they make.
use aurorav1_11_0_test.Base.{
  ℕ, ◌+◌, ◌-◌, ◌%◌, ◌^◌, ◌≤◌, true, ◌≡◌, ◌↔◌, arith, ltb, ◌==◌, if◌then◌else◌,
}
use aurorav1_11_0_test.Checkpoints.{
  Range, checkpoint_freq, is_checkpoint, prev_checkpoint, next_checkpoint, make_range, clamp,
}

-- The largest uint32.
abbrev pub max_u32 : ℕ
max_u32 = 2 ^ 32 - 1

-- A checkpoint, as a fact of arithmetic.
pub is_checkpoint_lem : (i : ℕ) → i ≤ max_u32 → is_checkpoint i ≡ ((i + 1) % 64 == 0)
unfolding is_checkpoint
is_checkpoint_lem i h = ground arith

-- From the first checkpoint on, `PrevCheckpoint` gives the greatest checkpoint that is not above its
-- argument: it is a checkpoint, not above the argument, and no other such checkpoint is higher.
prev_checkpoint_greatest :
    (i c : ℕ)
    → checkpoint_freq - 1 ≤ i
    → i ≤ max_u32
    → is_checkpoint c ≡ true
    → c ≤ i
    → (is_checkpoint (prev_checkpoint i) ≡ true) × (prev_checkpoint i ≤ i) × (c ≤ prev_checkpoint i)
unfolding is_checkpoint prev_checkpoint
prev_checkpoint_greatest i c low high e le = ground arith

-- `NextCheckpoint` gives the least checkpoint that is not below its argument: it is a checkpoint, not
-- below the argument, and no other such uint32 is lower.
next_checkpoint_least :
    (i c : ℕ)
    → i ≤ c
    → c ≤ max_u32
    → is_checkpoint c ≡ true
    → (is_checkpoint (next_checkpoint i) ≡ true) × (i ≤ next_checkpoint i) × (next_checkpoint i ≤ c)
unfolding is_checkpoint next_checkpoint
next_checkpoint_least i c le high e = ground arith

-- Both ends are checkpoints, in order.
pub record IsAligned (r : Range) : Type 0 where
  pub low_end : is_checkpoint r.low ≡ true
  pub high_end : is_checkpoint r.high ≡ true
  pub ordered : r.low ≤ r.high
  pub fits : r.high ≤ max_u32

abbrev pub Within : ℕ → Range → Type 0
Within i r = (r.low ≤ i) × (i ≤ r.high)

-- `MakeRange` of two uint32 is aligned, and covers the ledgers between them, where the first
-- checkpoint is the low end at the lowest.
make_range-IsAligned :
    (low high : ℕ)
    → low ≤ max_u32
    → high ≤ max_u32
    → IsAligned (make_range low high)
      × (high ≤ (make_range low high).high)
      × (checkpoint_freq - 1 ≤ low → (make_range low high).low ≤ low)
unfolding make_range is_checkpoint
make_range-IsAligned low high hl hh = (
  record {
    low_end = ground arith;
    high_end = ground arith;
    ordered = ground arith;
    fits = ground arith;
  },
  ground arith,
  ground arith,
)

-- A range of checkpoints is kept as it is.
make_range_fixed :
    (low high : ℕ)
    → is_checkpoint low ≡ true
    → is_checkpoint high ≡ true
    → low ≤ high
    → high ≤ max_u32
    → make_range low high ≡ record { low = low; high = high }
unfolding make_range is_checkpoint
make_range_fixed low high l h le fits = ground arith

abbrev intersection : Range → Range → Range
intersection r s = record {
  low = if ltb r.low s.low then s.low else r.low;
  high = if ltb s.high r.high then s.high else r.high;
}

clamp_value :
    (r s : Range) (shared : ℕ)
    → IsAligned r
    → IsAligned s
    → Within shared r
    → Within shared s
    → clamp r s ≡ intersection r s
unfolding clamp
clamp_value r s shared hr hs a b =
    make_range_fixed (intersection r s).low (intersection r s).high (ground arith) (ground arith)
      (ground arith) (ground arith)

-- Two aligned ranges that share a ledger are clamped to their intersection.
clamp-intersection :
    (r s : Range) (shared i : ℕ)
    → IsAligned r
    → IsAligned s
    → Within shared r × Within shared s
    → Within i (clamp r s) ↔ (Within i r × Within i s)
clamp-intersection r s shared i hr hs h =
    rw (clamp_value r s shared hr hs h.0 h.1) ((λ q. ground arith), (λ q. ground arith))
