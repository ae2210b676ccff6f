-- ===== src/Checkpoints/Loop.antt =====
-- The checkpoints that a range sends, and their number.
use aurorav1_11_0_test.Base.{
  ℕ, zero, suc, ◌+◌, ◌-◌, ◌*◌, ◌/◌, ◌≤◌, ◌<◌, true, ◌≡◌, ◌↔◌, refl, ◌⊎◌, inl, inr, List, [], ◌∷◌,
  arith, length,
}
use aurorav1_11_0_test.Checkpoints.{
  Range, checkpoint_freq, is_checkpoint, checkpoints_from, checkpoints, size,
}
use aurorav1_11_0_test.Checkpoints.Bounds.{IsAligned, Within, max_u32}

-- `i` is an element.
abbrev pub Occurs : ℕ → List ℕ → Type 0
Occurs i [] = ⊥
Occurs i (x ∷ xs) = (i ≡ x) ⊎ Occurs i xs

length-checkpoints_from : (n i : ℕ) → length (checkpoints_from n i) ≡ n
unfolding checkpoints_from
length-checkpoints_from zero i = refl
length-checkpoints_from (suc n) i = omega (arith, length-checkpoints_from n (i + checkpoint_freq))

occurs→reached :
    (n i j : ℕ)
    → Occurs j (checkpoints_from n i)
    → (k : ℕ) × (k < n) × (j ≡ i + k * checkpoint_freq)
unfolding checkpoints_from
occurs→reached zero i j h = elim h [ ]
occurs→reached (suc n) i j (inl e) = (0, omega arith, omega arith)
occurs→reached (suc n) i j (inr h) =
    let (k, lt, e) = occurs→reached n (i + checkpoint_freq) j h in (k + 1, omega arith, omega arith)

reached→occurs :
    (k n i j : ℕ) → k < n → j ≡ i + k * checkpoint_freq → Occurs j (checkpoints_from n i)
unfolding checkpoints_from
reached→occurs k zero i j lt e = elim lt [ ]
reached→occurs zero (suc n) i j lt e = inl (omega arith)
reached→occurs (suc k) (suc n) i j lt e =
    inr (reached→occurs k n (i + checkpoint_freq) j (omega arith) (omega arith))

-- The number of values sent is `Size`, for every range of two uint32 in order.
length-checkpoints :
    (r : Range) → r.low ≤ r.high → r.high ≤ max_u32 → length (checkpoints r) ≡ size r
unfolding checkpoints size
length-checkpoints r le fits =
    omega
      (arith, length-checkpoints_from ((r.high + checkpoint_freq - r.low) / checkpoint_freq) r.low)

aligned_step :
    (r : Range) (j : ℕ)
    → IsAligned r
    → is_checkpoint j ≡ true
    → Within j r
    → j ≡ r.low + (j - r.low) / 64 * 64
unfolding is_checkpoint
aligned_step r j h e b = ground arith

step_aligned :
    (r : Range) (j k : ℕ)
    → IsAligned r
    → k < (r.high + 64 - r.low) / 64
    → j ≡ r.low + k * 64
    → (is_checkpoint j ≡ true) × Within j r
unfolding is_checkpoint
step_aligned r j k h lt e = ground arith

-- An aligned range sends exactly the checkpoints that lie in it.
pub checkpoints-Within :
    (r : Range) (j : ℕ)
    → IsAligned r
    → Occurs j (checkpoints r) ↔ ((is_checkpoint j ≡ true) × Within j r)
unfolding checkpoints
checkpoints-Within r j h = (
  λ o. (let (k, lt, e) = occurs→reached _ r.low j o in step_aligned r j k h lt e),
  λ p.
      reached→occurs ((j - r.low) / 64) _ r.low j (omega (arith, p.1, h.ordered))
        (aligned_step r j h p.0 p.1),
)
