-- ===== src/Paths/Examples.antt =====
-- A graph with three assets.
use Prim.Native.String.{String}
use mathlib.Core.List.{Permᴰ}
use aurorav1_11_0_test.Base.{ℕ, ◌≡◌, refl, true, false, none, some, List, [], ◌∷◌, arith}
use aurorav1_11_0_test.Base.Int.{ℤ, pos}
use aurorav1_11_0_test.Base.Maps.{Map, put}
use aurorav1_11_0_test.OrderBook.{Offer}
use aurorav1_11_0_test.OrderBook.Graph.{OrderBookGraph, add_offer_operation, remove_offer_operation}
use aurorav1_11_0_test.Paths.{consume_offers_for_selling_asset, consume_offers_for_buying_asset}
use aurorav1_11_0_test.Paths
use aurorav1_11_0_test.Paths.Selling.{IsOffer, AreOffers, Sold, sell-Sold}
use aurorav1_11_0_test.Paths.Buying.{Bought, buy-Bought}
use aurorav1_11_0_test.Paths.Search.{
  PaymentPath, SearchState, search_from, selling_graph_search_state, buying_graph_search_state,
  found,
}
use aurorav1_11_0_test.Paths.Payments.{IsPathTo, IsPathFrom}
use aurorav1_11_0_test.Paths.All.{FindsAll, sellers-FindsAll}
use aurorav1_11_0_test.Paths.Fuel.{HasOffers}
use aurorav1_11_0_test.Paths.Filter.{
  Less, compare_source_asset, compare_destination_asset, find_paths, find_fixed_paths,
}
use aurorav1_11_0_test.Paths.Best.{
  source_key, destination_key, more_first, paths_of, Sorts, Answers, find_paths-Answers,
  find_fixed_paths-Answers,
}

abbrev offer : ℕ → String → String → String → ℕ → ℕ → ℕ → Offer
offer id seller selling buying amount n d = record {
  seller_id = seller;
  offer_id = id;
  selling = selling;
  buying = buying;
  amount = amount;
  price = record { n = n; d = d };
}

abbrev usd_offers : List Offer
usd_offers = offer 1 "a" "xlm" "usd" 10 1 2 ∷ offer 2 "b" "xlm" "usd" 100 2 3 ∷ []

first-IsOffer : IsOffer (offer 1 "a" "xlm" "usd" 10 1 2)
first-IsOffer = record {
  amount = omega arith;
  n_positive = omega arith;
  n = omega arith;
  d_positive = omega arith;
  d = omega arith;
}

second-IsOffer : IsOffer (offer 2 "b" "xlm" "usd" 100 2 3)
second-IsOffer = record {
  amount = omega arith;
  n_positive = omega arith;
  n = omega arith;
  d_positive = omega arith;
  d = omega arith;
}

third-IsOffer : IsOffer (offer 3 "a" "usd" "eur" 50 1 1)
third-IsOffer = record {
  amount = omega arith;
  n_positive = omega arith;
  n = omega arith;
  d_positive = omega arith;
  d = omega arith;
}

usd_offers-AreOffers : AreOffers usd_offers
usd_offers-AreOffers = (first-IsOffer, (second-IsOffer, tt))

sell-Sold_example :
    Sold (some "c") usd_offers 0 16 (consume_offers_for_selling_asset (some "c") usd_offers 16)
sell-Sold_example =
    sell-Sold (some "c") (offer 1 "a" "xlm" "usd" 10 1 2) (offer 2 "b" "xlm" "usd" 100 2 3 ∷ []) 16
      usd_offers-AreOffers (omega arith)

sold : consume_offers_for_selling_asset (some "c") usd_offers 16 ≡ Paths.ok (pos 9)
unfolding consume_offers_for_selling_asset
sold = refl

buy-Bought_example : Bought usd_offers 0 9 (consume_offers_for_buying_asset usd_offers 9)
buy-Bought_example =
    buy-Bought (offer 1 "a" "xlm" "usd" 10 1 2) (offer 2 "b" "xlm" "usd" 100 2 3 ∷ []) 9
      usd_offers-AreOffers (omega arith)

abbrev graph : OrderBookGraph
graph = record {
  edges_for_selling_asset =
      ("xlm", ("usd", usd_offers) ∷ [])
      ∷ ("usd", ("eur", offer 3 "a" "usd" "eur" 50 1 1 ∷ []) ∷ [])
      ∷ [];
  edges_for_buying_asset =
      ("usd", ("xlm", usd_offers) ∷ [])
      ∷ ("eur", ("usd", offer 3 "a" "usd" "eur" 50 1 1 ∷ []) ∷ [])
      ∷ [];
  trading_pair_for_offer = λ id. none;
  last_ledger = 7;
  batched_updates = record {
    operations =
        add_offer_operation (offer 3 "a" "usd" "eur" 50 1 1) ∷ remove_offer_operation 9 ∷ [];
    committed = false;
  };
}

graph-HasOffers : HasOffers graph.edges_for_selling_asset × HasOffers graph.edges_for_buying_asset
graph-HasOffers = (
  ((usd_offers-AreOffers, tt), (((third-IsOffer, tt), tt), tt)),
  ((usd_offers-AreOffers, tt), (((third-IsOffer, tt), tt), tt)),
)

-- A sort by insertion.
abbrev put_in : Less → PaymentPath → List PaymentPath → List PaymentPath
put_in less p [] = p ∷ []
put_in less p (q ∷ qs) = elim (less q p) [ true ↦ q ∷ put_in less p qs | false ↦ p ∷ q ∷ qs ]

abbrev sort : Less → List PaymentPath → List PaymentPath
sort less [] = []
sort less (p ∷ ps) = put_in less p (sort less ps)

abbrev targets : Map ℤ
targets = ("usd", pos 100) ∷ ("eur", pos 100) ∷ []

abbrev selling_state : SearchState
selling_state = selling_graph_search_state graph "xlm" (pos 16) (some "c") targets true

abbrev buying_state : SearchState
buying_state = buying_graph_search_state graph "eur" (pos 9) ("usd" ∷ "xlm" ∷ [])

abbrev from_usd : PaymentPath
from_usd = record {
  source_amount = pos 9;
  source_asset = "usd";
  destination_asset = "xlm";
  destination_amount = pos 16;
  interior_nodes = [];
}

abbrev from_eur : PaymentPath
from_eur = record {
  source_amount = pos 9;
  source_asset = "eur";
  destination_asset = "xlm";
  destination_amount = pos 16;
  interior_nodes = "usd" ∷ [];
}

found_selling : search_from selling_state 4 "xlm" (pos 16) ≡ found (from_usd ∷ from_eur ∷ [])
unfolding search_from selling_graph_search_state
found_selling = refl

sellers-FindsAll_example :
    FindsAll
      (IsPathTo graph 4 "xlm" (pos 16) (some "c") targets true)
      selling_state
      4
      "xlm"
      (pos 16)
sellers-FindsAll_example =
    sellers-FindsAll graph "xlm" (pos 16) (some "c") targets true 4 graph-HasOffers.0

Sorts-selling :
    Sorts sort compare_source_asset (paths_of (search_from selling_state 4 "xlm" (pos 16)))
unfolding search_from selling_graph_search_state compare_source_asset
Sorts-selling = (Permᴰ.swap refl refl, ((refl, tt), (tt, tt)))

find_paths-Answers_example :
    let r =
      find_paths sort graph 4 "xlm"
        (pos 16)
        (some "c")
        ("usd" ∷ "eur" ∷ [])
        (pos 100 ∷ pos 100 ∷ [])
        true
        1 in
    Answers source_key compare_source_asset 1
      (IsPathTo graph 4 "xlm" (pos 16) (some "c") targets true)
      r.0
    × (r.1 ≡ 7)
unfolding put
find_paths-Answers_example =
    find_paths-Answers sort graph 4 "xlm" (pos 16) (some "c") ("usd" ∷ "eur" ∷ [])
      (pos 100 ∷ pos 100 ∷ []) targets true 1 graph-HasOffers.0 refl Sorts-selling

Sorts-buying :
    let paths = paths_of (search_from buying_state 4 "eur" (pos 9)) in
    Sorts sort more_first paths × Sorts sort compare_destination_asset (sort more_first paths)
unfolding search_from buying_graph_search_state compare_destination_asset
Sorts-buying =
    ((Permᴰ.swap refl refl, ((refl, tt), (tt, tt))), (Permᴰ.swap refl refl, ((refl, tt), (tt, tt))))

find_fixed_paths-Answers_example :
    let r = find_fixed_paths sort graph 4 "eur" (pos 9) ("usd" ∷ "xlm" ∷ []) 1 in
    Answers destination_key compare_destination_asset 1
      (IsPathFrom graph 4 "eur" (pos 9) ("usd" ∷ "xlm" ∷ []))
      r.0
    × (r.1 ≡ 7)
find_fixed_paths-Answers_example =
    find_fixed_paths-Answers sort graph 4 "eur" (pos 9) ("usd" ∷ "xlm" ∷ []) 1 graph-HasOffers.1
      Sorts-buying
