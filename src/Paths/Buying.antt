-- ===== src/Paths/Buying.antt =====
-- Spending an amount on a list of offers.
use native.Mathlib.Nat.{div-mul-le_self, lt-div-mul-add, lt_of_mul-lt-mul_right, mul-le-mul_right}
use aurorav1_11_0_test.Base.{
  ℕ, ◌+◌, ◌-◌, ◌*◌, ◌/◌, ◌%◌, ◌^◌, ◌≤◌, ◌<◌, ◌≡◌, refl, sym, subst, false, ltb, leb, ◌==◌,
  Bool-cases, inl, inr, Option, none, some, List, [], ◌∷◌, arith,
}
use aurorav1_11_0_test.Price.{Result, mul_fraction_round_down, convert_to_buying_units}
use aurorav1_11_0_test.Price
use aurorav1_11_0_test.Price.Convert.{IsCeiling, convert_to_buying_units_lem}
use aurorav1_11_0_test.Price.Rounding.{as_int64, mul_fraction_round_down_lem}
use aurorav1_11_0_test.Price.Overflow.{CostsTooMuch}
use aurorav1_11_0_test.OrderBook.{Offer}
use aurorav1_11_0_test.Paths.{
  Consumed, ok, skipped, int64, add_64, converted, bought_units, sold_units, sold_on, buy_loop,
  consume_offers_for_buying_asset,
}
use aurorav1_11_0_test.Paths.Selling.{
  IsOffer, AreOffers, Divides, convert-Divides, overflow-CostsTooMuch, not_zero,
}

-- `q` is `m / d` rounded down.
abbrev pub IsFloor : ℕ → ℕ → ℕ → Type 0
IsFloor q m d = (q * d ≤ m) × (m < q * d + d)

-- An amount is spent on the first offers, on all but the last one for what they give at most, at the
-- price rounded up, and on the last one for what the rest is worth, rounded down.
pub data Spent : List Offer → ℕ → ℕ → Type 0 where
  last :
      {o : Offer} {offers : List Offer} {amount : ℕ} (got : ℕ)
      → 0 < got
      → got ≤ o.amount
      → IsFloor got (amount * o.price.d) o.price.n
      → Spent (o ∷ offers) amount got
  exact :
      {o : Offer} {offers : List Offer} {amount : ℕ} (got : ℕ)
      → got ≤ o.amount
      → IsCeiling amount (got * o.price.n) o.price.d
      → Spent (o ∷ offers) amount got
  whole :
      {o : Offer} {offers : List Offer} {amount : ℕ} (paid got rest : ℕ)
      → paid ≤ amount
      → got ≤ o.amount
      → IsCeiling paid (got * o.price.n) o.price.d
      → Spent offers (amount - paid) rest
      → Spent (o ∷ offers) amount (got + rest)

-- Why an amount is not spent: all offers cost less than what is left, or what is left is worth nothing at
-- the price of the next one, or that one costs more than an int64.
pub data NotBought : List Offer → ℕ → Type 0 where
  used_up : {amount : ℕ} → NotBought [] amount
  worthless :
      {o : Offer} {offers : List Offer} {amount : ℕ}
      → amount * o.price.d < o.price.n
      → NotBought (o ∷ offers) amount
  too_dear :
      {o : Offer} {offers : List Offer} {amount : ℕ}
      → o.amount < amount * o.price.d / o.price.n
      → CostsTooMuch o.amount o.amount o.price.n o.price.d
      → NotBought (o ∷ offers) amount
  taken :
      {o : Offer} {offers : List Offer} {amount : ℕ} (paid got : ℕ)
      → o.amount < amount * o.price.d / o.price.n
      → paid < amount
      → convert_to_buying_units o.amount o.amount o.price.n o.price.d ≡ Price.ok (paid, got)
      → NotBought offers (amount - paid)
      → NotBought (o ∷ offers) amount

-- The outcomes of spending an amount.
pub data Bought (offers : List Offer) (total amount : ℕ) : Consumed → Type 0 where
  not_bought : NotBought offers amount → Bought offers total amount skipped
  bought :
      (got : ℕ)
      → Spent offers amount got
      → Bought offers total amount (ok (int64 ((total + got) % 2 ^ 64)))

-- What the offer's first test tells.
abbrev Tested : Offer → List Offer → ℕ → ℕ → Option Consumed → Type 0
Tested o offers total amount (some r) = Bought (o ∷ offers) total amount r
Tested o offers total amount none = o.amount < amount * o.price.d / o.price.n

floor : (m d : ℕ) → 0 < d → IsFloor (m / d) m d
floor m d positive = (div-mul-le_self m d, lt-div-mul-add {a = m} positive)

no_worth : (m d : ℕ) → 0 < d → m / d ≡ 0 → m < d
no_worth m d positive z =
    let high = (floor m d positive).1 in
    let none_of_it : m / d * d ≡ 0 = rw z (omega arith) in omega (arith, high, none_of_it)

Tested-at :
    (o : Offer) (offers : List Offer) (total amount : ℕ)
    → IsOffer o
    → Tested o offers total amount (sold_on (as_int64 (amount * o.price.d / o.price.n)) o total)
Tested-at o offers total amount v =
    let q = amount * o.price.d / o.price.n in
    elim (Bool-cases (ltb q (2 ^ 63))) [
      | inr e ↦ rw e (ground (arith, e, v.amount))
      | inl e ↦ elim (Bool-cases (q == 0)) [
        | inl z ↦
            rw (e, z)
              (not_bought (
                worthless
                  (no_worth (amount * o.price.d) o.price.n v.n_positive (ground (arith, z)))))
        | inr z ↦ elim (Bool-cases (leb q o.amount)) [
          | inr l ↦ rw (e, z, l) (ground (arith, l))
          | inl l ↦
              rw (e, z, l)
                (bought q (
                  last q (ground (arith, z)) (ground (arith, l))
                    (floor (amount * o.price.d) o.price.n v.n_positive)))
        ]
      ]
    ]

test-Tested :
    (o : Offer) (offers : List Offer) (total amount : ℕ)
    → IsOffer o
    → Tested o offers total amount
        (sold_on (mul_fraction_round_down amount o.price.d o.price.n) o total)
test-Tested o offers total amount v =
    rw (mul_fraction_round_down_lem amount o.price.d o.price.n, not_zero o.price.n v.n_positive)
      (Tested-at o offers total amount v)

-- An offer that is worth less than the amount does not cost more.
affordable :
    (a amount n d s b : ℕ)
    → 0 < n
    → 0 < d
    → a < amount * d / n
    → s ≤ a
    → IsCeiling b (s * n) d
    → b ≤ amount
affordable a amount n d s b pn pd worth le c =
    let quotient = div-mul-le_self (amount * d) n in
    let more = mul-le-mul_right {m = a + 1} {n = amount * d / n} n (omega (arith, worth)) in
    let less = mul-le-mul_right {m = s} {n = a} n le in
    let below : b * d < (amount + 1) * d = omega (arith, quotient, more, less, c.1) in
    omega (arith, lt_of_mul-lt-mul_right d below)

with_rest :
    (o : Offer) (offers : List Offer) (total amount b s : ℕ) (r : Consumed)
    → b < amount
    → o.amount < amount * o.price.d / o.price.n
    → convert_to_buying_units o.amount o.amount o.price.n o.price.d ≡ Price.ok (b, s)
    → s ≤ o.amount
    → IsCeiling b (s * o.price.n) o.price.d
    → Bought offers (add_64 total s) (amount - b) r
    → Bought (o ∷ offers) total amount r
with_rest o offers total amount b s _ lt w conv has up (not_bought n) =
    not_bought (taken b s w lt conv n)
with_rest o offers total amount b s _ lt w conv has up (bought got p) =
    subst (λ w. Bought (o ∷ offers) total amount (ok (int64 w))) (omega arith)
      (bought (s + got) (whole b s got (omega (arith, lt)) has up p))

converted-Bought :
    (o : Offer) (offers : List Offer) (total amount : ℕ) (r : Result (ℕ × ℕ))
    (next : ℕ → ℕ → Consumed)
    → Divides r
    → o.amount < amount * o.price.d / o.price.n
    → (r ≡ Price.err Price.overflow → CostsTooMuch o.amount o.amount o.price.n o.price.d)
    → r ≡ convert_to_buying_units o.amount o.amount o.price.n o.price.d
    → ((b s : ℕ)
        → r ≡ Price.ok (b, s)
        → (b ≤ amount) × (s ≤ o.amount) × IsCeiling b (s * o.price.n) o.price.d)
    → ((t a : ℕ) → Bought offers t a (next t a))
    → Bought (o ∷ offers) total amount (converted r sold_units bought_units total amount next)
converted-Bought o offers total amount (Price.err Price.overflow) next d w x same_run c n =
    not_bought (too_dear w (x refl))
converted-Bought o offers total amount (Price.err Price.division_by_zero) next d w x same_run c n =
    absurd d
converted-Bought o offers total amount (Price.ok (b, s)) next d w x same_run c n =
    let (le, has, up) = c b s refl in
    elim (Bool-cases (amount == b)) [
      | inl e ↦
          let same : amount ≡ b = ground (arith, e) in
          rw e (
            bought s
              (exact s has (subst (λ a. IsCeiling a (s * o.price.n) o.price.d) (sym same) up)))
      | inr e ↦
          let enough : ltb amount b ≡ false = ground (arith, le) in
          rw (e, enough)
            (with_rest o offers total amount b s _ (ground (arith, e, le)) w (sym same_run) has up
              (n (add_64 total s) (amount - b)))
    ]

buy_loop-Bought :
    (offers : List Offer) (total amount : ℕ)
    → AreOffers offers
    → Bought offers total amount (buy_loop offers total amount)
unfolding buy_loop
buy_loop-Bought [] total amount v = not_bought used_up
buy_loop-Bought (o ∷ offers) total amount v =
    elim (sold_on (mul_fraction_round_down amount o.price.d o.price.n) o total)
        as (λ t.
          Tested o offers total amount t
          → Bought (o ∷ offers) total amount (elim t [
            | some r ↦ r
            | none ↦
                converted (convert_to_buying_units o.amount o.amount o.price.n o.price.d) sold_units
                  bought_units total amount (buy_loop offers)
          ])) [
            | some r ↦ λ t. t
            | none ↦ λ worth.
                converted-Bought o offers total amount _ _
                  (convert-Divides o.amount o.amount o.price.n o.price.d v.0.n_positive
                    v.0.d_positive)
                  worth (overflow-CostsTooMuch o o.amount v.0) refl
                  (λ b s h.
                    let c =
                      convert_to_buying_units_lem o.amount o.amount o.price.n o.price.d v.0.amount
                        (omega (arith, v.0.n)) (omega (arith, v.0.d)) h in
                    (
                      affordable o.amount amount o.price.n o.price.d s b v.0.n_positive
                          v.0.d_positive worth c.1 c.2,
                      c.1,
                      c.2,
                    ))
                  (λ t a. buy_loop-Bought offers t a v.1)
          ]
      (test-Tested o offers total amount v.0)

-- A positive amount that is spent on offers with int64 amounts and positive int32 prices is all spent: on the first of them for at most what each
-- gives, at its price rounded up, and on the last one for what the rest is worth, rounded down; the total, in 64
-- bits, is what is returned. Or the result is -1, and then every offer in order has less than the rest is
-- worth and costs less than the rest by the conversion, to the last one, or to one at whose price the
-- rest is worth nothing, or to one that has less than the rest is worth and of which some units cost
-- more than an int64. There is no error.
pub buy-Bought :
    (o : Offer) (offers : List Offer) (amount : ℕ)
    → AreOffers (o ∷ offers)
    → 0 < amount
    → Bought (o ∷ offers) 0 amount (consume_offers_for_buying_asset (o ∷ offers) amount)
unfolding consume_offers_for_buying_asset
buy-Bought o offers amount v positive =
    rw (not_zero amount positive) (buy_loop-Bought (o ∷ offers) 0 amount v)
