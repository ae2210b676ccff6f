-- ===== src/OrderBook/Book.antt =====
-- The graph as a book: a map from the ids to the offers.
use Prim.Native.String.{String}
use aurorav1_11_0_test.Base.{
  ℕ, ◌<◌, ◌≡◌, refl, sym, ap, subst, ◌∙◌, true, ◌==◌, ==_iff, Bool-cases, inl, inr, if◌then◌else◌,
  if-holds, Option, none, some, List, arith,
}
use aurorav1_11_0_test.Base.Maps.{Map}
use text.Mathlib.TextEquality.{eq_iff}
use aurorav1_11_0_test.OrderBook.{Offer, EdgeSet, insert_offer, take_out}
use aurorav1_11_0_test.OrderBook.Add.{Sorted, insert_offer-Sorted}
use aurorav1_11_0_test.OrderBook.Remove.{take_out-Sorted}
use aurorav1_11_0_test.OrderBook.Find.{
  find, Unique, find-insert_offer, insert_offer-Unique, find-take_out, take_out-Unique,
}
use aurorav1_11_0_test.OrderBook.Graph.{
  TradingPair, OrderBookGraph, ok, set, insert, remove, remove_edge,
}
use aurorav1_11_0_test.OrderBook.Edges.{
  offers_for, same_pair, offers_for-add_edge, offers_for-remove_edge,
}

abbrev pub Book : Type 0
Book = ℕ → Option Offer

abbrev pub pair_of : Option Offer → Option TradingPair
pair_of none = none
pair_of (some o) = some (record { buying_asset = o.buying; selling_asset = o.selling })

-- The offer, if it trades the pair.
abbrev pub trading : String → String → Option Offer → Option Offer
trading s b none = none
trading s b (some o) = if same_pair o.selling o.buying s b then some o else none

-- Both maps of the graph list exactly the offers of the book, each once under its pair, sorted by price.
pub record Represents (g : OrderBookGraph) (book : Book) : Type 0 where
  pub finds :
      (id : ℕ) (s b : String)
      → find id (offers_for g.edges_for_selling_asset s b) ≡ trading s b (book id)
  pub mirrored :
      (s b : String)
      → offers_for g.edges_for_buying_asset b s ≡ offers_for g.edges_for_selling_asset s b
  pub pairs : (id : ℕ) → g.trading_pair_for_offer id ≡ pair_of (book id)
  pub unique : (s b : String) → Unique (offers_for g.edges_for_selling_asset s b)
  pub sorted : (s b : String) → Sorted (offers_for g.edges_for_selling_asset s b)

-- Two assets that are the same as two others.
same_assets : (s b s' b' : String) → same_pair s b s' b' ≡ true → (s ≡ s') × (b ≡ b')
same_assets s b s' b' e = ground (arith, e, eq_iff s s', eq_iff b b')

find_inserted :
    (x : Offer) (id : ℕ) (s b : String) (own there : List Offer) (o : Option Offer)
    → find x.offer_id own ≡ none
    → find x.offer_id there ≡ none
    → find id there ≡ trading s b o
    → (same_pair x.selling x.buying s b ≡ true → own ≡ there)
    → find id (if same_pair x.selling x.buying s b then insert_offer x own else there)
      ≡ trading s b (if x.offer_id == id then some x else o)
find_inserted x id s b own there o a c f h = elim (Bool-cases (same_pair x.selling x.buying s b)) [
  | inl e ↦ rw e (
      find-insert_offer x own id a ∙ (elim (Bool-cases (x.offer_id == id)) [
        | inl d ↦ rw (d, e) refl
        | inr d ↦ rw d (ap (find id) (h e) ∙ f)
      ]))
  | inr e ↦ rw e (elim (Bool-cases (x.offer_id == id)) [
    | inl d ↦ rw (d, e) (subst (λ j. find j there ≡ none) ((==_iff x.offer_id id).0 d) c)
    | inr d ↦ rw d f
  ])
]

-- An offer whose id is not in the book is inserted.
pub insert-Represents :
    (x : Offer) (g : OrderBookGraph) (book : Book)
    → 0 < x.price.d
    → book x.offer_id ≡ none
    → Represents g book
    → Represents (insert x g) (set x.offer_id (some x) book)
unfolding insert
insert-Represents x g book positive absent r =
    let m = g.edges_for_selling_asset in
    let n = g.edges_for_buying_asset in
    let new : (s b : String) → find x.offer_id (offers_for m s b) ≡ none =
      λ s b. finds x.offer_id s b ∙ ap (trading s b) absent in
    let sell = λ (s b : String). offers_for-add_edge x.selling x.buying s b x m in
    record {
      finds = λ id s b.
          ap (find id) (sell s b)
          ∙ find_inserted x id s b _ _ (book id) (new x.selling x.buying) (new s b) (finds id s b)
              (λ e.
                let p = same_assets x.selling x.buying s b e in λ i. offers_for m (p.0 i) (p.1 i));
      mirrored = λ s b. ground (
        arith,
        sell s b,
        offers_for-add_edge x.buying x.selling b s x n,
        mirrored s b,
        mirrored x.selling x.buying,
      );
      pairs = λ id. ground (arith, pairs id);
      unique = λ s b. rw (sell s b) (
          if-holds Unique (same_pair x.selling x.buying s b)
            (insert_offer-Unique x _ (new x.selling x.buying) (unique x.selling x.buying))
            (unique s b));
      sorted = λ s b. rw (sell s b) (
          if-holds Sorted (same_pair x.selling x.buying s b)
            (insert_offer-Sorted x positive _ (sorted x.selling x.buying)) (sorted s b));
    }
  where
    open r use {finds, mirrored, pairs, unique, sorted}

-- A removal takes the offer of the id out of the book.
find_removed :
    (x : Offer) (id : ℕ) (j : ℕ) (s b : String) (own there : List Offer) (book : Book)
    → book id ≡ some x
    → Unique own
    → find j there ≡ trading s b (book j)
    → (same_pair x.selling x.buying s b ≡ true → own ≡ there)
    → find j (if same_pair x.selling x.buying s b then (take_out id own).1 else there)
      ≡ trading s b (if id == j then none else book j)
find_removed x id j s b own there book a u f h =
    elim (Bool-cases (same_pair x.selling x.buying s b)) [
      | inl e ↦ rw e (
          find-take_out id own j u ∙ (elim (Bool-cases (id == j)) [
            | inl d ↦ rw d refl
            | inr d ↦ rw d (ap (find j) (h e) ∙ f)
          ]))
      | inr e ↦ rw e (elim (Bool-cases (id == j)) [
        | inl d ↦ rw d (
            f
            ∙ (ap (λ k. trading s b (book k)) (sym ((==_iff id j).0 d))
                ∙ (ap (trading s b) a ∙ rw e refl)))
        | inr d ↦ rw d f
      ])
    ]

trading_own : (x : Offer) → trading x.selling x.buying (some x) ≡ some x
trading_own x = ground (arith, eq_iff x.selling x.selling, eq_iff x.buying x.buying)

remove-ok :
    (id : ℕ) (g : OrderBookGraph) {p : TradingPair} {selling buying : Map EdgeSet}
    → g.trading_pair_for_offer id ≡ some p
    → remove_edge p.selling_asset p.buying_asset id g.edges_for_selling_asset ≡ some selling
    → remove_edge p.buying_asset p.selling_asset id g.edges_for_buying_asset ≡ some buying
    → remove id g
      ≡ ok (record g {
        trading_pair_for_offer = set id none g.trading_pair_for_offer;
        edges_for_selling_asset = selling;
        edges_for_buying_asset = buying;
      })
unfolding remove
remove-ok id g e f h = rw (e, f, h, remove) refl

-- An offer of the book is removed without an error.
pub remove-Represents :
    (x : Offer) (id : ℕ) (g : OrderBookGraph) (book : Book)
    → book id ≡ some x
    → Represents g book
    → (g' : OrderBookGraph) × (remove id g ≡ ok g') × Represents g' (set id none book)
unfolding remove
remove-Represents x id g book here r =
    let m = g.edges_for_selling_asset in
    let n = g.edges_for_buying_asset in
    let own : find id (offers_for m x.selling x.buying) ≡ some x =
      finds id x.selling x.buying ∙ (ap (trading x.selling x.buying) here ∙ trading_own x) in
    let sell = offers_for-remove_edge x.selling x.buying id x m own in
    let buy =
      offers_for-remove_edge x.buying x.selling id x n
        (ap (find id) (mirrored x.selling x.buying) ∙ own) in
    (
      record g {
        trading_pair_for_offer = set id none g.trading_pair_for_offer;
        edges_for_selling_asset = sell.0;
        edges_for_buying_asset = buy.0;
      },
      remove-ok id g (pairs id ∙ ap pair_of here) sell.1 buy.1,
      record {
        finds = λ j s b.
            ap (find j) (sell.2 s b)
            ∙ find_removed x id j s b _ _ book here (unique x.selling x.buying) (finds j s b) (λ e.
              let p = same_assets x.selling x.buying s b e in λ i. offers_for m (p.0 i) (p.1 i));
        mirrored =
            λ s b. ground (arith, sell.2 s b, buy.2 b s, mirrored s b, mirrored x.selling x.buying);
        pairs = λ j. ground (arith, pairs j);
        unique = λ s b. rw (sell.2 s b) (
            if-holds Unique (same_pair x.selling x.buying s b)
              (take_out-Unique id _ (unique x.selling x.buying)) (unique s b));
        sorted = λ s b. rw (sell.2 s b) (
            if-holds Sorted (same_pair x.selling x.buying s b)
              (take_out-Sorted id _ (sorted x.selling x.buying)) (sorted s b));
      },
    )
  where
    open r use {finds, mirrored, pairs, unique, sorted}
