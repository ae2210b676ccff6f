-- ===== src/OrderBook/Graph.antt =====
-- exp/orderbook/graph.go and batch.go: the graph of all offers, and the batches of updates to it. The
-- lock makes every method atomic. The batch of a graph is a field of it; a new batch is empty.
use Prim.Native.String.{String}
use aurorav1_11_0_test.Base.{
  ℕ, Bool, true, false, ◌&&◌, ltb, leb, ◌==◌, if◌then◌else◌, Option, none, some, List, [], ◌∷◌,
  ◌++◌,
}
use aurorav1_11_0_test.Base.Maps.{Map, lookup, put, delete}
use aurorav1_11_0_test.OrderBook.{Offer, EdgeSet}
use aurorav1_11_0_test.OrderBook

pub record TradingPair : Type 0 where
  pub buying_asset : String
  pub selling_asset : String

pub data Operation : Type 0 where
  add_offer_operation : Offer → Operation
  remove_offer_operation : ℕ → Operation

pub record BatchedUpdates : Type 0 where
  pub operations : List Operation
  pub committed : Bool

-- The map from the ids of offers is a function.
pub record OrderBookGraph : Type 0 where
  pub edges_for_selling_asset : Map EdgeSet
  pub edges_for_buying_asset : Map EdgeSet
  pub trading_pair_for_offer : ℕ → Option TradingPair
  pub last_ledger : ℕ
  pub batched_updates : BatchedUpdates

pub data Error : Type 0 where
  offer_not_present unexpected_ledger batch_already_applied : Error

-- An error leaves what was changed before it.
pub data Outcome : Type 0 where
  ok : OrderBookGraph → Outcome
  err panicked : Error → OrderBookGraph → Outcome

abbrev pub batch : BatchedUpdates
batch = record { operations = []; committed = false }

abbrev pub new_order_book_graph : OrderBookGraph
new_order_book_graph = record {
  edges_for_selling_asset = [];
  edges_for_buying_asset = [];
  trading_pair_for_offer = λ id. none;
  last_ledger = 0;
  batched_updates = batch;
}

-- `m[id] = v`, or a deletion.
abbrev pub set {ℓ} : {V : Type ℓ} → ℕ → Option V → (ℕ → Option V) → ℕ → Option V
set id v m j = if id == j then v else m j

abbrev pub set_or_new : Option EdgeSet → EdgeSet
set_or_new none = []
set_or_new (some e) = e

unfoldable pub add_edge : String → String → Offer → Map EdgeSet → Map EdgeSet
unfolding OrderBook.add lookup put
add_edge from key x m = put from (OrderBook.add key x (set_or_new (lookup from m))) m

-- The set is deleted when its last offers are gone; `none` is an offer that is not there.
abbrev pub keep_set : String → Bool × EdgeSet → Map EdgeSet → Option (Map EdgeSet)
keep_set from (false, e) m = none
keep_set from (true, []) m = some (delete from m)
keep_set from (true, x ∷ e) m = some (put from (x ∷ e) m)

unfoldable pub remove_edge : String → String → ℕ → Map EdgeSet → Option (Map EdgeSet)
unfolding OrderBook.remove lookup put delete
remove_edge from key id m = elim (lookup from m) [
  | none ↦ none
  | some e ↦ keep_set from (OrderBook.remove id key e) m
]

unfoldable pub remove : ℕ → OrderBookGraph → Outcome
unfolding remove_edge
remove id g = elim (g.trading_pair_for_offer id) [
  | none ↦ err offer_not_present g
  | some p ↦
      let g' = record g { trading_pair_for_offer = set id none g.trading_pair_for_offer } in
      elim (remove_edge p.selling_asset p.buying_asset id g.edges_for_selling_asset) [
        | none ↦ err offer_not_present g'
        | some selling ↦
            elim (remove_edge p.buying_asset p.selling_asset id g.edges_for_buying_asset) [
              | none ↦ err offer_not_present (record g' { edges_for_selling_asset = selling })
              | some buying ↦
                  ok (record g' {
                    edges_for_selling_asset = selling;
                    edges_for_buying_asset = buying;
                  })
            ]
      ]
]

-- `add` once the old offer of the id is gone.
unfoldable pub insert : Offer → OrderBookGraph → OrderBookGraph
unfolding add_edge
insert x g = record g {
  trading_pair_for_offer =
      set x.offer_id (some (record { buying_asset = x.buying; selling_asset = x.selling }))
        g.trading_pair_for_offer;
  edges_for_selling_asset = add_edge x.selling x.buying x g.edges_for_selling_asset;
  edges_for_buying_asset = add_edge x.buying x.selling x g.edges_for_buying_asset;
}

abbrev pub then_insert : Offer → Outcome → Outcome
then_insert x (ok g) = ok (insert x g)
then_insert x other = other

unfoldable pub add : Offer → OrderBookGraph → Outcome
unfolding remove insert
add x g = elim (g.trading_pair_for_offer x.offer_id) [
  | none ↦ ok (insert x g)
  | some p ↦ then_insert x (remove x.offer_id g)
]

abbrev pub enqueue : Operation → OrderBookGraph → OrderBookGraph
enqueue o g = record g {
  batched_updates = record g.batched_updates {
    operations = g.batched_updates.operations ++ o ∷ [];
  };
}

abbrev pub add_offer : Offer → OrderBookGraph → OrderBookGraph
add_offer x g = enqueue (add_offer_operation x) g

abbrev pub remove_offer : ℕ → OrderBookGraph → OrderBookGraph
remove_offer id g = enqueue (remove_offer_operation id) g

unfoldable pub discard : OrderBookGraph → OrderBookGraph
discard g = record g { batched_updates = batch }

unfoldable pub clear : OrderBookGraph → OrderBookGraph
clear g = new_order_book_graph

unfoldable pub is_empty : OrderBookGraph → Bool
is_empty g = elim g.edges_for_selling_asset [ [] ↦ true | x ∷ m ↦ false ]

-- The offers to update and the ids to remove.
unfoldable pub pending : List Operation → List Offer × List ℕ
pending [] = ([], [])
pending (add_offer_operation x ∷ os) = let rest = pending os in (x ∷ rest.0, rest.1)
pending (remove_offer_operation id ∷ os) = let rest = pending os in (rest.0, id ∷ rest.1)

-- One operation of a batch, where an error is a panic.
abbrev pub or_panic : Outcome → Outcome
or_panic (err e g) = panicked e g
or_panic other = other

unfoldable pub apply_one : Operation → OrderBookGraph → Outcome
unfolding add remove
apply_one (add_offer_operation x) g = or_panic (add x g)
apply_one (remove_offer_operation id) g = elim (g.trading_pair_for_offer id) [
  | none ↦ ok g
  | some p ↦ or_panic (remove id g)
]

unfoldable pub apply_each : List Operation → OrderBookGraph → Outcome
unfolding apply_one
apply_each [] g = ok g
apply_each (o ∷ os) g = elim (apply_one o g) [
  | ok g' ↦ apply_each os g'
  | err e g' ↦ err e g'
  | panicked e g' ↦ panicked e g'
]

-- The end of `Apply`: the ledger is noted, and a new batch begins.
abbrev pub finish : ℕ → Outcome → Outcome
finish ledger (ok g) = ok (record g { last_ledger = ledger; batched_updates = batch })
finish ledger other = other

-- An error leaves a batch that is committed.
unfoldable pub apply : ℕ → OrderBookGraph → Outcome
unfolding apply_each
apply ledger g =
    let g' = record g { batched_updates = record g.batched_updates { committed = true } } in
    if g.batched_updates.committed
    then panicked batch_already_applied g
    else if ltb 0 g.last_ledger && leb ledger g.last_ledger
    then err unexpected_ledger g'
    else finish ledger (apply_each g.batched_updates.operations g')
