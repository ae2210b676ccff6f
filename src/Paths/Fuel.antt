-- ===== src/Paths/Fuel.antt =====
-- The search ends without an error on a graph whose offers are int64 and have positive prices.
use Prim.Native.String.{String}
use aurorav1_11_0_test.Base.{
  ℕ, zero, suc, ◌+◌, ◌≤◌, ◌<◌, ◌≡◌, Bool, true, false, Bool-cases, inl, inr, Option, none, some,
  List, [], ◌∷◌, ◌++◌, length, length-append, arith,
}
use aurorav1_11_0_test.Base.Int.{ℤ, pos, negsuc}
use aurorav1_11_0_test.Base.Maps.{Map, Every, Found as IsFound}
use aurorav1_11_0_test.OrderBook.{Offer, EdgeSet}
use aurorav1_11_0_test.OrderBook.Graph.{OrderBookGraph, set_or_new}
use aurorav1_11_0_test.Paths.{Consumed}
use aurorav1_11_0_test.Paths.Selling.{AreOffers, Sold, not_sold, sold_all, sell-Sold}
use aurorav1_11_0_test.Paths.Buying.{Bought, not_bought, bought, buy-Bought}
use aurorav1_11_0_test.Paths.Search.{
  PaymentPath, SearchState, Next, next, Found, found, failed, out_of_fuel, is_positive, visit_edges,
  is_closed, dfs, selling_graph_search_state, buying_graph_search_state, next_from, first_buying,
  first_selling, amount_of,
}

-- A search that gives paths.
abbrev pub Ends : Found → Type 0
Ends (found paths) = Unit {0}
Ends other = ⊥

abbrev pub Gives : Next → Type 0
Gives (next asset z) = Unit {0}
Gives (Next.failed e) = ⊥

-- The offers take every positive amount without an error.
abbrev pub Takes : SearchState → List Offer → Type 0
Takes state [] = Unit {0}
Takes state (o ∷ offers) =
    (z : ℤ) → is_positive z ≡ true → Gives (state.consume_offers z (o ∷ offers))

module _ (state : SearchState) (max_path_length : ℕ) where
  visit_edges-Ends :
      (go : String → String → ℤ → List PaymentPath → Found) (amount : ℤ)
      → is_positive amount ≡ true
      → ((asset_string asset : String) (z : ℤ) (paths : List PaymentPath)
          → Ends (go asset_string asset z paths))
      → (es : EdgeSet) (paths : List PaymentPath) → Every (Takes state) es
      → Ends (visit_edges state max_path_length go amount es paths)
  unfolding visit_edges
  visit_edges-Ends go amount b h [] paths t = tt
  visit_edges-Ends go amount b h ((s, []) ∷ es) paths t =
      visit_edges-Ends go amount b h es paths t.1
  visit_edges-Ends go amount b h ((s, o ∷ offers) ∷ es) paths t =
      elim (state.consume_offers amount (o ∷ offers))
          as (λ r.
            Gives r
            → Ends (elim r [
              | Next.failed e ↦ failed e
              | next asset z ↦ elim (is_positive z) [
                | false ↦ visit_edges state max_path_length go amount es paths
                | true ↦ elim (go s asset z paths) [
                  | found paths' ↦ visit_edges state max_path_length go amount es paths'
                  | failed e ↦ failed e
                  | out_of_fuel ↦ out_of_fuel
                ]
              ]
            ])) [
              | Next.failed e ↦ λ g. g
              | next asset z ↦ λ g.
                  elim (is_positive z)
                    as (λ p. Ends (elim p [
                      | false ↦ visit_edges state max_path_length go amount es paths
                      | true ↦ elim (go s asset z paths) [
                        | found paths' ↦ visit_edges state max_path_length go amount es paths'
                        | failed e ↦ failed e
                        | out_of_fuel ↦ out_of_fuel
                      ]
                    ])) [
                      | false ↦ visit_edges-Ends go amount b h es paths t.1
                      | true ↦
                          elim (go s asset z paths)
                              as (λ f.
                                Ends f
                                → Ends (elim f [
                                  | found paths' ↦
                                      visit_edges state max_path_length go amount es paths'
                                  | failed e ↦ failed e
                                  | out_of_fuel ↦ out_of_fuel
                                ])) [
                                  | found paths' ↦ λ u. visit_edges-Ends go amount b h es paths' t.1
                                  | failed e ↦ λ u. u
                                  | out_of_fuel ↦ λ u. u
                                ]
                            (h s asset z paths)
                    ]
            ]
        (t.0 amount b)

  open_within :
      (seen list : List String) (asset_string : String) (amount : ℤ)
      → is_closed state max_path_length seen list asset_string amount ≡ false
      → (is_positive amount ≡ true) × (length list ≤ max_path_length)
  open_within seen list asset_string amount c = (ground (arith, c), ground (arith, c))

  pub dfs-Ends :
      (fuel : ℕ) (seen list : List String) (asset_string asset : String) (amount : ℤ)
      (paths : List PaymentPath)
      → length list ≤ max_path_length + 1
      → max_path_length + 2 ≤ fuel + length list
      → ((a : String) → Every (Takes state) (state.edges a))
      → Ends (dfs state max_path_length fuel seen list asset_string asset amount paths)
  unfolding dfs
  dfs-Ends zero seen list asset_string asset amount paths le enough t =
      absurd (omega (arith, le, enough))
  dfs-Ends (suc fuel) seen list asset_string asset amount paths le enough t =
      elim (Bool-cases (is_closed state max_path_length seen list asset_string amount)) [
        | inl c ↦ rw (c, dfs) tt
        | inr c ↦
            let w = open_within seen list asset_string amount c in
            let longer = length-append list (asset ∷ []) in
            rw (c, dfs)
              (visit_edges-Ends _ amount w.0
                (λ s a z ps.
                  dfs-Ends fuel (asset_string ∷ seen) (list ++ asset ∷ []) s a z ps
                    (omega (arith, w.1, longer)) (omega (arith, enough, longer)) t)
                (state.edges asset_string) _ (t asset_string))
      ]

-- The offers of all edges are int64, with positive prices.
abbrev pub HasOffers : Map EdgeSet → Type 0
HasOffers m = Every (Every AreOffers) m

Sold-Gives :
    (ignore : Option String) (offers : List Offer) (amount : ℕ) (asset : String) (r : Consumed)
    → Sold ignore offers 0 amount r
    → Gives (next_from asset r)
Sold-Gives ignore offers amount asset _ (not_sold n) = tt
Sold-Gives ignore offers amount asset _ (sold_all units x e) = tt

Bought-Gives :
    (offers : List Offer) (amount : ℕ) (asset : String) (r : Consumed)
    → Bought offers 0 amount r
    → Gives (next_from asset r)
Bought-Gives offers amount asset _ (not_bought n) = tt
Bought-Gives offers amount asset _ (bought got p) = tt

amount-positive : (z : ℤ) → is_positive z ≡ true → 0 < amount_of z
amount-positive (pos n) p = ground (arith, p)
amount-positive (negsuc n) p = ground (arith, p)

-- The offers of an edge take every amount where they do so for every list of offers that is not empty.
pub edges-Take :
    (state : SearchState)
    → ((o : Offer) (offers : List Offer) → AreOffers (o ∷ offers) → Takes state (o ∷ offers))
    → (es : EdgeSet) → Every AreOffers es
    → Every (Takes state) es
edges-Take state h [] e = tt
edges-Take state h ((s, []) ∷ es) e = (tt, edges-Take state h es e.1)
edges-Take state h ((s, o ∷ offers) ∷ es) e = (h o offers e.0, edges-Take state h es e.1)

pub found-AreOffers :
    (r : Option EdgeSet) → IsFound (Every AreOffers) r → Every AreOffers (set_or_new r)
found-AreOffers none e = tt
found-AreOffers (some es) e = e

pub sellers-Take :
    (g : OrderBookGraph) (asset : String) (amount : ℤ) (ignore : Option String) (targets : Map ℤ)
    (validate : Bool) (o : Offer) (offers : List Offer)
    → AreOffers (o ∷ offers)
    → Takes (selling_graph_search_state g asset amount ignore targets validate) (o ∷ offers)
unfolding selling_graph_search_state
sellers-Take g asset amount ignore targets validate o offers v z p =
    Sold-Gives ignore (o ∷ offers) (amount_of z) (first_buying (o ∷ offers)) _
      (sell-Sold ignore o offers (amount_of z) v (amount-positive z p))

pub buyers-Take :
    (g : OrderBookGraph) (asset : String) (amount : ℤ) (targets : List String) (o : Offer)
    (offers : List Offer)
    → AreOffers (o ∷ offers)
    → Takes (buying_graph_search_state g asset amount targets) (o ∷ offers)
unfolding buying_graph_search_state
buyers-Take g asset amount targets o offers v z p =
    Bought-Gives (o ∷ offers) (amount_of z) (first_selling (o ∷ offers)) _
      (buy-Bought o offers (amount_of z) v (amount-positive z p))
