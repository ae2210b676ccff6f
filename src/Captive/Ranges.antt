-- ===== src/Captive/Ranges.antt =====
-- Where the streams begin.
use Prim.Native.String.{String}
use aurorav1_11_0_test.Base.{
  ℕ, ◌<◌, ◌≤◌, ◌+◌, ◌-◌, ◌*◌, ◌/◌, ◌%◌, ◌^◌, ◌≡◌, ◌⊎◌, ◌≢◌, refl, subst, true, false, leb, ltb,
  ◌==◌, if-cases, Bool-cases, inl, inr, Option, none, some, arith,
}
use aurorav1_11_0_test.Checkpoints.{is_checkpoint, prev_checkpoint}
use aurorav1_11_0_test.Captive.{genesis, header_failed}
use aurorav1_11_0_test.Captive.Opening.{
  RunParams, params, err, run_from_params, with_header, checkpoint_below,
}

-- The stream begins at ledger 2 or at the first ledger of a checkpoint, not after the requested ledger,
-- unless that is 0, and less than two checkpoints before it. The subprocess starts after a ledger that is not before the
-- stream's first one, with the hash in the header of the ledger that follows. The error is that of
-- ledger 1, or of a ledger in these bounds whose header is missing.
abbrev Near : ℕ → ℕ → ℕ → Type 0
Near from run_from next =
    ((next ≤ from) ⊎ (from ≡ 0))
    × (2 ≤ next)
    × (from < next + 127)
    × ((next ≡ 2) ⊎ (next % 64 ≡ 0))
    × (next ≤ run_from + 1)
    × (run_from + 1 ≤ next + 63)

abbrev pub Starts : (ℕ → Option String) → ℕ → RunParams → Type 0
Starts previous_hash from (params run_from hash next) =
    (from ≢ 1) × Near from run_from next × (previous_hash (run_from + 1) ≡ some hash)
Starts previous_hash from (err x) =
    (from ≡ 1) × (x ≡ genesis)
    ⊎ (from ≢ 1)
      × (x ≡ header_failed)
      × (run_from : ℕ) × (next : ℕ) × Near from run_from next
      × (previous_hash (run_from + 1) ≡ none)

-- The last ledger of a checkpoint, at most 63 ledgers before this one.
abbrev Below : ℕ → ℕ → Type 0
Below from c = (c ≤ from) × (from < c + 64) × ((c + 1) % 64 ≡ 0) × (63 ≤ c)

own_checkpoint :
    (from : ℕ) → from < 2 ^ 32 → 63 < from → is_checkpoint from ≡ true → Below from from
unfolding is_checkpoint
own_checkpoint from fits late h =
    let aligned : (from + 1) % 2 ^ 32 % 64 ≡ 0 = ground (arith, h) in
    (omega arith, omega arith, omega (arith, aligned), omega (arith, late))

previous_checkpoint :
    (from : ℕ)
    → from < 2 ^ 32
    → 63 < from
    → is_checkpoint from ≡ false
    → Below from (prev_checkpoint from)
unfolding is_checkpoint prev_checkpoint
previous_checkpoint from fits late h =
    let not_aligned : (from + 1) % 2 ^ 32 % 64 ≢ 0 = ground (arith, h) in
    let late' : ltb from 64 ≡ false = ground (arith, late) in
    let sum : (from + 1) % 2 ^ 32 ≡ from + 1 = omega (arith, not_aligned, fits) in
    let v = (from + 1) / 64 * 64 - 1 in
    let here : v ≡ ((from + 1) / 64 * 64 + 2 ^ 32 - 1) % 2 ^ 32 = omega (arith, fits, late) in
    rw (late', sum)
      (subst (Below from) here
        (omega arith, omega (arith, late), omega (arith, late), omega (arith, late)))

checkpoint_below-Below : (from : ℕ) → from < 2 ^ 32 → 63 < from → Below from (checkpoint_below from)
checkpoint_below-Below from fits late =
    if-cases (Below from) (is_checkpoint from) (own_checkpoint from fits late)
      (previous_checkpoint from fits late)

low_start : (from : ℕ) → from ≢ 1 → from ≤ 63 → (2 ≤ from) ⊎ (from ≡ 0)
low_start from later bound = elim (Bool-cases (from == 0)) [
  | inl z ↦ inr (ground (arith, z))
  | inr z ↦ inl (ground (arith, z))
]

with_header-Starts :
    (previous_hash : ℕ → Option String) (from from' next : ℕ)
    → from ≢ 1
    → Near from (from' - 1) next
    → 2 ≤ from'
    → Starts previous_hash from (with_header from' next (previous_hash from'))
with_header-Starts previous_hash from from' next later near low =
    let there : from' ≡ from' - 1 + 1 = omega (arith, low) in
    elim (previous_hash from')
        as (λ o. previous_hash from' ≡ o → Starts previous_hash from (with_header from' next o)) [
          | none ↦ λ h.
              let missing = subst (λ k. previous_hash k ≡ none) there h in
              inr (later, refl, from' - 1, next, near, missing)
          | some hash ↦ λ h. (later, near, subst (λ k. previous_hash k ≡ some hash) there h)
        ]
      refl

-- Where an unbounded stream begins: at ledger 2 or at the first ledger of a checkpoint, not after the
-- requested ledger, unless that is 0, and less than 127 ledgers before it; the subprocess is started
-- behind a ledger from which it streams those, with the hash that the next header has for it. Else
-- the error is that of ledger 1, and then only for ledger 1, or of a header that the archive does not
-- have, and then the header of a ledger in these bounds is missing.
pub run_from_params-Starts :
    (previous_hash : ℕ → Option String) (from : ℕ)
    → from < 2 ^ 32
    → Starts previous_hash from (run_from_params previous_hash from)
unfolding run_from_params
run_from_params-Starts previous_hash from fits =
    if-cases (Starts previous_hash from) (from == 1) (λ h. inl (ground (arith, h), refl))
      (λ h.
        let later : from ≢ 1 = ground (arith, h) in
        if-cases (Starts previous_hash from) (leb from 63)
          (λ k.
            let bound : from ≤ 63 = ground (arith, k) in
            with_header-Starts previous_hash from 3 2 later
              (
                low_start from later bound,
                omega arith,
                omega (arith, bound),
                inl refl,
                omega arith,
                omega arith,
              )
              (omega arith))
          (λ k.
            let late : 63 < from = ground (arith, k) in
            let (c_le, c_near, c_aligned, c_low) = checkpoint_below-Below from fits late in
            let c = checkpoint_below from in
            if-cases (λ next. Starts previous_hash from (with_header c next (previous_hash c)))
              (ltb (c - 63) 2)
              (λ l.
                let first : c - 63 < 2 = ground (arith, l) in
                with_header-Starts previous_hash from c 2 later
                  (
                    inl (omega (arith, late)),
                    omega arith,
                    omega (arith, first, c_near),
                    inl refl,
                    omega (arith, c_low),
                    omega (arith, first),
                  )
                  (omega (arith, c_low)))
              (λ l.
                let after : 2 ≤ c - 63 = ground (arith, l) in
                with_header-Starts previous_hash from c (c - 63) later
                  (
                    inl (omega (arith, c_le)),
                    after,
                    omega (arith, c_near, c_low),
                    inr (omega (arith, c_aligned, c_low)),
                    omega arith,
                    omega arith,
                  )
                  (omega (arith, c_low)))))
