-- ===== src/OrderBook.antt =====
-- exp/orderbook/edges.go: the offers of a trading pair, from the cheapest on, and `findOffers` of
-- exp/orderbook/graph.go. An asset is its string.
pub mod Search
pub mod Add
pub mod Remove
pub mod Levels
pub mod Graph
pub mod Find
pub mod Edges
pub mod Book
pub mod Batch
mod Examples
use Prim.Native.String.{String}
use aurorav1_11_0_test.Base.{
  ℕ, zero, suc, ◌+◌, ◌-◌, ◌/◌, Bool, true, false, ◌||◌, ltb, ◌==◌, if◌then◌else◌, Option, none,
  some, List, [], ◌∷◌, length,
}
use aurorav1_11_0_test.Base.Maps.{Map, lookup, put, delete}
use aurorav1_11_0_test.Price.{Price, cheaper, equal}

-- The fields of `xdr.OfferEntry`.
pub record Offer : Type 0 where
  pub seller_id : String
  pub offer_id : ℕ
  pub selling : String
  pub buying : String
  pub amount : ℕ
  pub price : Price

abbrev pub EdgeSet : Type 0
EdgeSet = Map (List Offer)

-- `e[key]`: a missing key has no offers.
abbrev pub offers_or_nil : Option (List Offer) → List Offer
offers_or_nil none = []
offers_or_nil (some offers) = offers

abbrev pub nth : List Offer → ℕ → Option Offer
nth [] i = none
nth (o ∷ offers) zero = some o
nth (o ∷ offers) (suc i) = nth offers i

-- `sort.Search`: the bounds i and j of the binary search; a round for each index is enough.
unfoldable pub search : ℕ → (ℕ → Bool) → ℕ → ℕ → ℕ
search zero f i j = i
search (suc rounds) f i j =
    let h = (i + j) / 2 in
    let rest = search rounds f (if f h then i else h + 1) (if f h then h else j) in
    if ltb i j then rest else i

-- The test of the search; the index is in range.
abbrev pub costs_more : Price → Option Offer → Bool
costs_more p none = true
costs_more p (some o) = cheaper p o.price

-- The swaps with the last place, which holds the offer `x` at first and then what was swapped out.
unfoldable pub swap_in : Offer → List Offer → List Offer
swap_in x [] = x ∷ []
swap_in x (o ∷ offers) = x ∷ swap_in o offers

unfoldable pub insert_at : ℕ → Offer → List Offer → List Offer
unfolding swap_in
insert_at zero x offers = swap_in x offers
insert_at (suc i) x [] = x ∷ []
insert_at (suc i) x (o ∷ offers) = o ∷ insert_at i x offers

unfoldable pub insert_offer : Offer → List Offer → List Offer
unfolding search insert_at cheaper
insert_offer x offers =
    insert_at (search (length offers) (λ i. costs_more x.price (nth offers i)) 0 (length offers)) x
      offers

unfoldable pub add : String → Offer → EdgeSet → EdgeSet
unfolding insert_offer lookup put
add key x e = put key (insert_offer x (offers_or_nil (lookup key e))) e

-- The first offer with the id is taken out; the later ones move up.
unfoldable pub take_out : ℕ → List Offer → Bool × List Offer
take_out id [] = (false, [])
take_out id (o ∷ offers) =
    let rest = take_out id offers in
    if o.offer_id == id then (true, offers) else (rest.0, o ∷ rest.1)

abbrev pub put_back : String → Bool × List Offer → EdgeSet → Bool × EdgeSet
put_back key (false, offers) e = (false, e)
put_back key (true, []) e = (true, delete key e)
put_back key (true, o ∷ offers) e = (true, put key (o ∷ offers) e)

unfoldable pub remove : ℕ → String → EdgeSet → Bool × EdgeSet
unfolding take_out lookup put delete
remove id key e = put_back key (take_out id (offers_or_nil (lookup key e))) e

-- The price of the last result.
abbrev pub same_price : Option Price → Price → Bool
same_price none q = false
same_price (some p) q = equal p q

-- The loop over the offers. The levels that are left, an int, are 0 for a negative number too.
unfoldable pub take_levels : ℕ → Option Price → List Offer → List Offer
unfolding equal
take_levels levels last [] = []
take_levels levels last (o ∷ offers) =
    let old = same_price last o.price in
    let rest = take_levels (if old then levels else levels - 1) (some o.price) offers in
    if old || ltb 0 levels then o ∷ rest else []

unfoldable pub find_offers : String → String → ℕ → Map EdgeSet → List Offer
unfolding lookup take_levels
find_offers selling buying max_price_levels edges = elim (lookup selling edges) [
  | none ↦ []
  | some e ↦ take_levels max_price_levels none (offers_or_nil (lookup buying e))
]
