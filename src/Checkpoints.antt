-- ===== src/Checkpoints.antt =====
-- historyarchive/range.go: the checkpoint ledgers of a history archive, every 64th one.
-- A ledger sequence is a uint32, so sums wrap at 2 ^ 32.
pub mod Bounds
pub mod Loop
mod Examples
use aurorav1_11_0_test.Base.{
  ℕ, zero, suc, ◌+◌, ◌-◌, ◌*◌, ◌/◌, ◌%◌, ◌^◌, Bool, List, [], ◌∷◌, ltb, leb, ◌==◌, if◌then◌else◌,
}

abbrev pub checkpoint_freq : ℕ
checkpoint_freq = 64

pub record Range : Type 0 where
  pub low : ℕ
  pub high : ℕ

abbrev u32 : ℕ → ℕ
u32 n = n % 2 ^ 32

unfoldable pub is_checkpoint : ℕ → Bool
is_checkpoint i = u32 (i + 1) % checkpoint_freq == 0

-- In the second branch `i + 1` is 0 at the largest uint32, and 0 - 1 wraps back to it.
unfoldable pub prev_checkpoint : ℕ → ℕ
prev_checkpoint i =
    if ltb i checkpoint_freq
    then checkpoint_freq - 1
    else u32 (u32 (i + 1) / checkpoint_freq * checkpoint_freq + 2 ^ 32 - 1)

-- The sum is taken in 64 bits.
unfoldable pub next_checkpoint : ℕ → ℕ
next_checkpoint i =
    if i == 0
    then checkpoint_freq - 1
    else let n = (i + checkpoint_freq) / checkpoint_freq * checkpoint_freq - 1 in
      if leb 0xffff_ffff n then 0xffff_ffff else n

unfoldable pub make_range : ℕ → ℕ → Range
unfolding prev_checkpoint next_checkpoint
make_range low high =
    let high' = if ltb high low then low else high in
    record { low = prev_checkpoint low; high = next_checkpoint high' }

unfoldable pub clamp : Range → Range → Range
unfolding make_range
clamp r other =
    let low = if ltb r.low other.low then other.low else r.low in
    let high = if ltb other.high r.high then other.high else r.high in make_range low high

-- The loop of `Checkpoints` sends `low`, `low + 64`, … up to `high`; its counter is a uint64.
pub checkpoints_from : ℕ → ℕ → List ℕ
checkpoints_from zero i = []
checkpoints_from (suc n) i = i ∷ checkpoints_from n (i + checkpoint_freq)

-- The rounds that the test `i <= high` admits.
unfoldable pub checkpoints : Range → List ℕ
unfolding checkpoints_from
checkpoints r = checkpoints_from ((r.high + checkpoint_freq - r.low) / checkpoint_freq) r.low

-- `r.High - r.Low` is a uint32.
unfoldable pub size : Range → ℕ
size r = 1 + u32 (r.high + 2 ^ 32 - r.low) / checkpoint_freq
