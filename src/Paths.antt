-- ===== src/Paths.antt =====
-- exp/orderbook/dfs.go: how much a list of offers takes and gives. An amount is an int64: below it is a
-- number where it is not negative, and a sum is kept modulo 2 ^ 64 until it is returned.
pub mod Selling
pub mod Buying
pub mod Search
pub mod Walks
pub mod Routes
pub mod Payments
pub mod Fuel
pub mod All
pub mod Filter
pub mod Kept
pub mod Best
mod Examples
use Prim.Native.String.{String}
use text.Mathlib.Text.{◌==◌ as same}
use aurorav1_11_0_test.Base.{
  ℕ, ◌+◌, ◌-◌, ◌%◌, ◌^◌, Bool, true, false, ltb, leb, ◌==◌, if◌then◌else◌, Option, none, some, List,
  [], ◌∷◌,
}
use aurorav1_11_0_test.Base.Int.{ℤ, pos, negsuc}
use aurorav1_11_0_test.Price.{Result, mul_fraction_round_down, convert_to_buying_units}
use aurorav1_11_0_test.Price
use aurorav1_11_0_test.OrderBook.{Offer}

pub data Error : Type 0 where
  empty_offers asset_amount_is_zero sold_too_much : Error
  price_error : Price.Error → Error

pub data Consumed : Type 0 where
  ok : ℤ → Consumed
  err : Error → Consumed

-- The result -1, where the path is skipped.
abbrev pub skipped : Consumed
skipped = ok (negsuc 0)

-- The conversion of a word below 2 ^ 64 to an int64.
abbrev pub int64 : ℕ → ℤ
int64 w = if ltb w (2 ^ 63) then pos w else negsuc (2 ^ 64 - w - 1)

abbrev pub add_64 : ℕ → ℕ → ℕ
add_64 a b = (a + b) % 2 ^ 64

-- The account whose offers are ignored, if there is one.
abbrev pub is_ignored : Option String → Offer → Bool
is_ignored none o = false
is_ignored (some account) o = same account o.seller_id

-- What follows a conversion in the loops; `next` is the rest of the loop, from a total and an amount.
abbrev pub converted :
    Result (ℕ × ℕ) → (ℕ × ℕ → ℕ) → (ℕ × ℕ → ℕ) → ℕ → ℕ → (ℕ → ℕ → Consumed) → Consumed
converted (Price.err Price.overflow) gained spent total amount next = skipped
converted (Price.err Price.division_by_zero) gained spent total amount next =
    err (price_error Price.division_by_zero)
converted (Price.ok units) gained spent total amount next =
    if amount == spent units
    then ok (int64 (add_64 total (gained units)))
    else if ltb amount (spent units)
    then err sold_too_much
    else next (add_64 total (gained units)) (amount - spent units)

abbrev pub bought_units : ℕ × ℕ → ℕ
bought_units units = units.0

abbrev pub sold_units : ℕ × ℕ → ℕ
sold_units units = units.1

module _ (ignore_offers_from : Option String) where
  unfoldable pub sell_loop : List Offer → ℕ → ℕ → Consumed
  unfolding convert_to_buying_units
  sell_loop [] total amount = skipped
  sell_loop (o ∷ offers) total amount = elim (is_ignored ignore_offers_from o) [
    | true ↦ sell_loop offers total amount
    | false ↦
        converted (convert_to_buying_units o.amount amount o.price.n o.price.d) bought_units
          sold_units total amount (sell_loop offers)
  ]

  unfoldable pub consume_offers_for_selling_asset : List Offer → ℕ → Consumed
  unfolding sell_loop
  consume_offers_for_selling_asset [] amount = err empty_offers
  consume_offers_for_selling_asset (o ∷ offers) amount =
      if amount == 0 then err asset_amount_is_zero else sell_loop (o ∷ offers) 0 amount

-- The test whether an offer takes the whole amount: `none` where it is consumed whole.
abbrev pub sold_on : Result ℕ → Offer → ℕ → Option Consumed
sold_on (Price.err Price.overflow) o total = none
sold_on (Price.err Price.division_by_zero) o total = some (err (price_error Price.division_by_zero))
sold_on (Price.ok sold) o total =
    if sold == 0
    then some skipped
    else if leb sold o.amount
    then some (ok (int64 (add_64 total sold)))
    else none

unfoldable pub buy_loop : List Offer → ℕ → ℕ → Consumed
unfolding mul_fraction_round_down convert_to_buying_units
buy_loop [] total amount = skipped
buy_loop (o ∷ offers) total amount =
    elim (sold_on (mul_fraction_round_down amount o.price.d o.price.n) o total) [
      | some r ↦ r
      | none ↦
          converted (convert_to_buying_units o.amount o.amount o.price.n o.price.d) sold_units
            bought_units total amount (buy_loop offers)
    ]

unfoldable pub consume_offers_for_buying_asset : List Offer → ℕ → Consumed
unfolding buy_loop
consume_offers_for_buying_asset [] amount = err empty_offers
consume_offers_for_buying_asset (o ∷ offers) amount =
    if amount == 0 then err asset_amount_is_zero else buy_loop (o ∷ offers) 0 amount
