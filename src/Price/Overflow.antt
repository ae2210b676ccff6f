-- ===== src/Price/Overflow.antt =====
-- When the conversion of an offer overflows.
use native.Mathlib.Nat.{div-mul-le_self, mul-le-mul_left, mul-le-mul_right, le_of_mul-le-mul_right}
use aurorav1_11_0_test.Base.{
  ℕ, ◌+◌, ◌-◌, ◌*◌, ◌/◌, ◌^◌, ◌≤◌, ◌<◌, ◌≡◌, refl, ◌⊎◌, inl, inr, arith, leb, Bool-cases,
}
use aurorav1_11_0_test.Price.{
  Result, ok, err, Error, overflow, min, mul_fraction_round_down, ◌>>=◌, mul_fraction_round_up,
  rounded_back, selling_bound, convert_to_buying_units,
}
use aurorav1_11_0_test.Price.Convert.{selling_bound-le}
use aurorav1_11_0_test.Price.Rounding.{mul_fraction_round_down_lem, mul_fraction_round_up_lem}

-- Some units, no more than the offer has and than are needed, cost more than an int64.
abbrev pub CostsTooMuch : ℕ → ℕ → ℕ → ℕ → Type 0
CostsTooMuch amount needed n d = (x : ℕ) × (x ≤ amount) × (x ≤ needed) × ((2 ^ 63 - 1) * d < x * n)

round_up-overflows :
    (x n d : ℕ)
    → x < 2 ^ 63
    → n < 2 ^ 63
    → d < 2 ^ 63
    → 0 < d
    → mul_fraction_round_up x n d ≡ err overflow
    → (2 ^ 63 - 1) * d < x * n
round_up-overflows x n d hx hn hd positive e =
    let q = (x * n + (d - 1)) / d in
    let below = div-mul-le_self (x * n + (d - 1)) d in
    let high : 2 ^ 63 ≤ q = ground (arith, mul_fraction_round_up_lem x n d hx hn hd) in
    let more = mul-le-mul_right d high in omega (arith, below, more, positive)

proceeds_le : (x n d : ℕ) → 0 < d → n ≤ d → x * n / d ≤ x
proceeds_le x n d positive le =
    let below = div-mul-le_self (x * n) d in
    let cheap = mul-le-mul_left x le in
    le_of_mul-le-mul_right (omega (arith, below, cheap)) positive

round_down-fits :
    (x n d : ℕ) → x < 2 ^ 63 → 0 < d → n ≤ d → mul_fraction_round_down x n d ≡ ok (x * n / d)
round_down-fits x n d hx positive le =
    ground (arith, mul_fraction_round_down_lem x n d, proceeds_le x n d positive le)

less_than_bound : (x : ℕ) → x < 2 ^ 63 → x ≤ 2 ^ 63 - 1
less_than_bound x h = omega (arith, h)

rounded_back-fits :
    (x n d : ℕ) → x < 2 ^ 63 → d < 2 ^ 63 → 0 < n → n ≤ d → ¬ (rounded_back x n d ≡ err overflow)
unfolding rounded_back
rounded_back-fits x n d hx hd positive le e =
    let p = x * n / d in
    let small = proceeds_le x n d (omega (arith, positive, le)) le in
    let again = rw (round_down-fits x n d hx (omega (arith, positive, le)) le) at e in
    let costs =
      round_up-overflows p d n (omega (arith, small, hx)) hd (omega (arith, le, hd)) positive
        again in
    let back = div-mul-le_self (x * n) d in
    let cheap = mul-le-mul_right n (less_than_bound x hx) in omega (arith, costs, back, cheap)

selling_bound-fits :
    (x n d : ℕ) → x < 2 ^ 63 → d < 2 ^ 63 → 0 < n → ¬ (selling_bound x n d ≡ err overflow)
unfolding selling_bound
selling_bound-fits x n d hx hd positive e = elim (Bool-cases (leb n d)) [
  | inl le ↦ let e' = rw le at e in rounded_back-fits x n d hx hd positive (ground (arith, le)) e'
  | inr gt ↦ let e' = rw gt at e in cc (e')
]

-- Where a run fails.
failing_part :
    {A B : Type 0} (r : Result A) (next : A → Result B) {x : Error}
    → (r >>= next) ≡ err x
    → (r ≡ err x) ⊎ (a : A) × (r ≡ ok a) × (next a ≡ err x)
failing_part (ok a) next e = inr (a, refl, e)
failing_part (err y) next e = inl (cc (e))

min_below : (x y : ℕ) → (min x y ≤ x) × (min x y ≤ y)
unfolding min
min_below x y = ground arith

-- A conversion at a positive price overflows only where some units cost more than an int64.
pub convert_to_buying_units-CostsTooMuch :
    (amount needed n d : ℕ)
    → amount < 2 ^ 63
    → 0 < n
    → n < 2 ^ 63
    → 0 < d
    → d < 2 ^ 63
    → convert_to_buying_units amount needed n d ≡ err overflow
    → CostsTooMuch amount needed n d
unfolding convert_to_buying_units
convert_to_buying_units-CostsTooMuch amount needed n d ha pn hn pd hd e =
    elim (failing_part (selling_bound amount n d) _ e) [
      | inl f ↦ absurd (selling_bound-fits amount n d ha hd pn f)
      | inr (b, g, f) ↦
          let le = selling_bound-le amount n d b hn hd g in
          let m = min_below b needed in
          elim (failing_part (mul_fraction_round_up (min b needed) n d) _ f) [
            | inl u ↦
                let costs =
                  round_up-overflows (min b needed) n d (omega (arith, m, le, ha)) hn hd pd u in
                (min b needed, omega (arith, m, le), m.1, costs)
            | inr (q, g', f') ↦ cc (f')
          ]
    ]
