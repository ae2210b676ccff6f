-- ===== src/OrderBook/Batch.antt =====
-- Batches of updates to the graph, as updates of its book.
use aurorav1_11_0_test.Base.{
  ℕ, ◌<◌, ◌≡◌, refl, sym, ap, subst, ◌∙◌, Bool, true, false, ◌&&◌, ltb, leb, inl, inr, Option, none,
  some, Option-cases, List, [], ◌∷◌, arith,
}
use aurorav1_11_0_test.OrderBook.{Offer}
use aurorav1_11_0_test.OrderBook.Graph.{
  TradingPair, OrderBookGraph, BatchedUpdates, Operation, add_offer_operation,
  remove_offer_operation, ok, Outcome, set, insert, remove, add, or_panic, apply_one, apply_each,
  finish, apply, batch,
}
use aurorav1_11_0_test.OrderBook.Book.{
  Book, Represents, pair_of, insert-Represents, remove-Represents,
}

-- The updates of a book.
abbrev pub follow_one : Operation → Book → Book
follow_one (add_offer_operation x) book = set x.offer_id (some x) book
follow_one (remove_offer_operation id) book = set id none book

abbrev pub follow : List Operation → Book → Book
follow [] book = book
follow (o ∷ os) book = follow os (follow_one o book)

-- The prices of the offers have positive denominators.
abbrev pub Valid : List Operation → Type 0
Valid [] = Unit {0}
Valid (add_offer_operation x ∷ os) = (0 < x.price.d) × Valid os
Valid (remove_offer_operation id ∷ os) = Valid os

none_listed : (o : Option Offer) → pair_of o ≡ none → o ≡ none
none_listed none e = refl
none_listed (some x) e = cc (e)

listed : (o : Option Offer) {p : TradingPair} → pair_of o ≡ some p → (x : Offer) × (o ≡ some x)
listed none e = cc (e)
listed (some x) e = (x, refl)

same_book :
    (g : OrderBookGraph) (book book' : Book)
    → ((id : ℕ) → book id ≡ book' id)
    → Represents g book
    → Represents g book'
same_book g book book' e r = subst (Represents g) (λ i id. e id i) r

-- An outcome without an error that represents a book.
abbrev pub Succeeds : Book → Outcome → Type 0
Succeeds book r = (g : OrderBookGraph) × (r ≡ ok g) × Represents g book

add_new :
    (x : Offer) (g : OrderBookGraph)
    → g.trading_pair_for_offer x.offer_id ≡ none
    → add x g ≡ ok (insert x g)
unfolding add
add_new x g e = rw (e, add) refl

add_over :
    (x : Offer) (g g' : OrderBookGraph) {p : TradingPair}
    → g.trading_pair_for_offer x.offer_id ≡ some p
    → remove x.offer_id g ≡ ok g'
    → add x g ≡ ok (insert x g')
unfolding add
add_over x g g' e f = rw (e, f, add) refl

add-Succeeds :
    (x : Offer) (g : OrderBookGraph) (book : Book)
    → 0 < x.price.d
    → Represents g book
    → Succeeds (set x.offer_id (some x) book) (add x g)
add-Succeeds x g book positive r = elim (Option-cases (g.trading_pair_for_offer x.offer_id)) [
  | inl e ↦
      let absent = none_listed (book x.offer_id) (sym (r.pairs x.offer_id) ∙ e) in
      (insert x g, add_new x g e, insert-Represents x g book positive absent r)
  | inr (p, e) ↦
      let old = listed (book x.offer_id) (sym (r.pairs x.offer_id) ∙ e) in
      let gone = remove-Represents old.0 x.offer_id g book old.1 r in
      (
        insert x gone.0,
        add_over x g gone.0 e gone.1,
        same_book _ _ _ (λ id. ground arith)
            (insert-Represents x gone.0 _ positive (ground arith) gone.2),
      )
]

removed-Succeeds :
    (id : ℕ) (g : OrderBookGraph) (book : Book)
    → Represents g book
    → Succeeds (set id none book) (apply_one (remove_offer_operation id) g)
unfolding apply_one
removed-Succeeds id g book r = elim (Option-cases (g.trading_pair_for_offer id)) [
  | inl e ↦
      let absent = none_listed (book id) (sym (r.pairs id) ∙ e) in
      (g, rw (e, apply_one) refl, same_book g book _ (λ j. ground (arith, absent)) r)
  | inr (p, e) ↦
      let old = listed (book id) (sym (r.pairs id) ∙ e) in
      let gone = remove-Represents old.0 id g book old.1 r in
      (gone.0, rw (e, apply_one) (ap or_panic gone.1), gone.2)
]

apply_one-Succeeds :
    (o : Operation) (g : OrderBookGraph) (book : Book)
    → Valid (o ∷ [])
    → Represents g book
    → Succeeds (follow_one o book) (apply_one o g)
unfolding apply_one
apply_one-Succeeds (add_offer_operation x) g book v r =
    let added = add-Succeeds x g book v.0 r in (added.0, ap or_panic added.1, added.2)
apply_one-Succeeds (remove_offer_operation id) g book v r = removed-Succeeds id g book r

Valid-head : (o : Operation) (os : List Operation) → Valid (o ∷ os) → Valid (o ∷ [])
Valid-head (add_offer_operation x) os v = (v.0, tt)
Valid-head (remove_offer_operation id) os v = tt

Valid-tail : (o : Operation) (os : List Operation) → Valid (o ∷ os) → Valid os
Valid-tail (add_offer_operation x) os v = v.1
Valid-tail (remove_offer_operation id) os v = v

apply_each-Succeeds :
    (os : List Operation) (g : OrderBookGraph) (book : Book)
    → Valid os
    → Represents g book
    → Succeeds (follow os book) (apply_each os g)
unfolding apply_each
apply_each-Succeeds [] g book v r = (g, refl, r)
apply_each-Succeeds (o ∷ os) g book v r =
    let first = apply_one-Succeeds o g book (Valid-head o os v) r in
    let rest = apply_each-Succeeds os first.0 (follow_one o book) (Valid-tail o os v) first.2 in
    (rest.0, rw (first.1, apply_each) rest.1, rest.2)

-- Books do not see the batch and the ledger of a graph.
with_batch :
    (g : OrderBookGraph) (b : BatchedUpdates) (ledger : ℕ) (book : Book)
    → Represents g book
    → Represents (record g { batched_updates = b; last_ledger = ledger }) book
with_batch g b ledger book r = record {
  finds = r.finds;
  mirrored = r.mirrored;
  pairs = r.pairs;
  unique = r.unique;
  sorted = r.sorted;
}

-- The ledger comes after the last one, or is the first.
abbrev pub is_stale : ℕ → OrderBookGraph → Bool
is_stale ledger g = ltb 0 g.last_ledger && leb ledger g.last_ledger

-- A batch that is not committed yet, of offers with positive denominators, is applied at a later ledger
-- without an error or a panic: the graph represents then the book with the operations done in order,
-- at that ledger and with an empty batch.
pub apply-Represents :
    (ledger : ℕ) (g : OrderBookGraph) (book : Book)
    → g.batched_updates.committed ≡ false
    → is_stale ledger g ≡ false
    → Valid g.batched_updates.operations
    → Represents g book
    → (g' : OrderBookGraph) × (apply ledger g ≡ ok g')
      × Represents g' (follow g.batched_updates.operations book)
      × (g'.last_ledger ≡ ledger)
      × (g'.batched_updates ≡ batch)
unfolding apply
apply-Represents ledger g book open_batch fresh v r =
    let b = record g.batched_updates { committed = true } in
    let done =
      apply_each-Succeeds g.batched_updates.operations (record g { batched_updates = b }) book v
        (with_batch g b g.last_ledger book r) in
    (
      record done.0 { last_ledger = ledger; batched_updates = batch },
      rw (open_batch, fresh) (ap (finish ledger) done.1),
      with_batch done.0 batch ledger _ done.2,
      refl,
      refl,
    )
