-- ===== src/OrderBook/Examples.antt =====
-- An edge set with three offers of two prices.
use aurorav1_11_0_test.Base.{ℕ, ◌≡◌, refl, false, none, List, [], ◌∷◌, arith}
use aurorav1_11_0_test.Base.Maps.{Map, lookup}
use aurorav1_11_0_test.OrderBook.{Offer, EdgeSet, insert_offer, find_offers}
use aurorav1_11_0_test.OrderBook.Graph.{
  OrderBookGraph, BatchedUpdates, Operation, add_offer_operation, remove_offer_operation, batch,
  err, panicked, unexpected_ledger, batch_already_applied, discard, apply,
}
use aurorav1_11_0_test.OrderBook.Graph
use aurorav1_11_0_test.OrderBook.Book.{Book, Represents}
use aurorav1_11_0_test.OrderBook.Find
use aurorav1_11_0_test.OrderBook.Batch.{follow, apply-Represents}

abbrev offer : ℕ → ℕ → ℕ → Offer
offer id n d = record {
  seller_id = "seller";
  offer_id = id;
  selling = "xlm";
  buying = "usd";
  amount = 100;
  price = record { n = n; d = d };
}

abbrev edges : EdgeSet
edges = ("usd", offer 1 1 2 ∷ offer 2 2 4 ∷ offer 3 3 4 ∷ []) ∷ []

abbrev graph : Map EdgeSet
graph = ("xlm", edges) ∷ []

-- After the offers of the same price.
inserted :
    insert_offer (offer 4 1 2) (offer 1 1 2 ∷ offer 2 2 4 ∷ offer 3 3 4 ∷ [])
    ≡ offer 1 1 2 ∷ offer 2 2 4 ∷ offer 4 1 2 ∷ offer 3 3 4 ∷ []
unfolding insert_offer
inserted = refl

found : find_offers "xlm" "usd" 1 graph ≡ offer 1 1 2 ∷ offer 2 2 4 ∷ []
unfolding find_offers
found = refl

abbrev operations : List Operation
operations =
    add_offer_operation (offer 1 1 2)
    ∷ add_offer_operation (offer 1 3 4)
    ∷ add_offer_operation (offer 2 1 1)
    ∷ remove_offer_operation 2
    ∷ []

-- A graph at ledger 5 without offers, and with a batch.
abbrev enqueued : OrderBookGraph
enqueued = record {
  edges_for_selling_asset = [];
  edges_for_buying_asset = [];
  trading_pair_for_offer = λ id. none;
  last_ledger = 5;
  batched_updates = record { operations = operations; committed = false };
}

abbrev empty_book : Book
empty_book id = none

enqueued-Represents : Represents enqueued empty_book
unfolding lookup Find.find
enqueued-Represents = record {
  finds = λ id s b. refl;
  mirrored = λ s b. refl;
  pairs = λ id. refl;
  unique = λ s b. tt;
  sorted = λ s b. tt;
}

apply-Represents_example :
    (g' : OrderBookGraph) × (apply 6 enqueued ≡ Graph.ok g')
    × Represents g' (follow operations empty_book)
    × (g'.last_ledger ≡ 6)
    × (g'.batched_updates ≡ batch)
apply-Represents_example =
    apply-Represents 6 enqueued empty_book refl refl (omega arith, (omega arith, (omega arith, tt)))
      enqueued-Represents
