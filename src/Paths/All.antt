-- ===== src/Paths/All.antt =====
-- The two searches end, and find all paths.
use Prim.Native.String.{String}
use mathlib.Core.List.{Memᴰ}
use mathlib.Core.List.Memᴰ
use aurorav1_11_0_test.Paths.Walks.{Leads, Finds, dfs-Finds}
use aurorav1_11_0_test.Paths.Payments.{IsPathTo, IsPathFrom, Leads-IsPathTo, Leads-IsPathFrom}
use aurorav1_11_0_test.Base.{◌↔◌, ℕ, ◌+◌, ◌≡◌, refl, Bool, inl, inr, Option, List, [], arith}
use aurorav1_11_0_test.Base.Int.{ℤ}
use aurorav1_11_0_test.Base.Maps.{Map, Every, lookup-Every}
use aurorav1_11_0_test.OrderBook.Graph.{OrderBookGraph}
use aurorav1_11_0_test.Paths.Selling.{AreOffers}
use aurorav1_11_0_test.Paths.Search.{
  PaymentPath, SearchState, found, failed, out_of_fuel, search_from, selling_graph_search_state,
  buying_graph_search_state,
}
use aurorav1_11_0_test.Paths.Fuel.{
  Ends, Takes, dfs-Ends, edges-Take, sellers-Take, buyers-Take, found-AreOffers, HasOffers,
}

-- The search from a node ends, and finds exactly the paths of a kind.
abbrev pub FindsAll : (PaymentPath → Type 0) → SearchState → ℕ → String → ℤ → Type 0
FindsAll P state max_path_length asset amount =
    (paths : List PaymentPath) × (search_from state max_path_length asset amount ≡ found paths)
    × ((p : PaymentPath) → Memᴰ p paths ↔ P p)

abbrev LeadsFrom : SearchState → ℕ → String → ℤ → PaymentPath → Type 0
LeadsFrom state max_path_length asset amount p =
    Leads state max_path_length p [] [] asset asset amount

same_paths :
    (P Q : PaymentPath → Type 0) (state : SearchState) (max_path_length : ℕ) (asset : String)
    (amount : ℤ)
    → ((p : PaymentPath) → P p ↔ Q p)
    → FindsAll P state max_path_length asset amount
    → FindsAll Q state max_path_length asset amount
same_paths P Q state max_path_length asset amount e (paths, ends, all_of) =
    (paths, ends, λ p. (λ m. (e p).0 ((all_of p).0 m), λ q. (all_of p).1 ((e p).1 q)))

finds_all :
    (state : SearchState) (max_path_length : ℕ) (asset : String) (amount : ℤ)
    → ((a : String) → Every (Takes state) (state.edges a))
    → FindsAll (LeadsFrom state max_path_length asset amount) state max_path_length asset amount
unfolding search_from
finds_all state max_path_length asset amount t =
    elim (search_from state max_path_length asset amount)
        as (λ r.
          search_from state max_path_length asset amount ≡ r
          → Ends r
          → Finds state max_path_length
              (λ p. Leads state max_path_length p [] [] asset asset amount) [] r
          → FindsAll (LeadsFrom state max_path_length asset amount) state max_path_length asset
              amount) [
                | found paths ↦ λ e u f. (
                  paths,
                  e,
                  λ p. (
                    λ m. elim ((f p).0 m) [ inl x ↦ absurd (Memᴰ.not-nil x) | inr l ↦ l ],
                    λ l. (f p).1 (inr l),
                  ),
                )
                | failed x ↦ λ e u f. absurd u
                | out_of_fuel ↦ λ e u f. absurd u
              ]
      refl
      (dfs-Ends state max_path_length (max_path_length + 2) [] [] asset asset amount []
        (omega arith) (omega arith) t)
      (dfs-Finds state max_path_length (max_path_length + 2) [] [] asset asset amount [])

-- On a graph whose offers have int64 amounts and positive int32 prices, the search for paths to a
-- destination ends without an error, for every limit on their length, and it finds exactly the
-- payment paths of the walks from the destination, over assets that are not repeated and with positive
-- amounts that the offers of each edge give for one another, to a target whose balance, if it is to be
-- checked, covers the amount; a path lists the assets between the ends from the source on.
pub sellers-FindsAll :
    (g : OrderBookGraph) (asset : String) (amount : ℤ) (ignore : Option String) (targets : Map ℤ)
    (validate : Bool) (max_path_length : ℕ)
    → HasOffers g.edges_for_selling_asset
    → FindsAll
        (IsPathTo g max_path_length asset amount ignore targets validate)
        (selling_graph_search_state g asset amount ignore targets validate)
        max_path_length
        asset
        amount
unfolding selling_graph_search_state
sellers-FindsAll g asset amount ignore targets validate max_path_length v =
    let state = selling_graph_search_state g asset amount ignore targets validate in
    same_paths _ _ state max_path_length asset amount
      (Leads-IsPathTo g asset amount ignore targets validate max_path_length)
      (finds_all state max_path_length asset amount (λ a.
        edges-Take state (sellers-Take g asset amount ignore targets validate) (state.edges a)
          (found-AreOffers _ (lookup-Every (Every AreOffers) a g.edges_for_selling_asset v))))

-- On a graph whose offers have int64 amounts and positive int32 prices, the search for paths that spend
-- an amount ends without an error, for every limit on their length, and it finds exactly the
-- payment paths of the walks from the source, over assets that are not repeated and with positive amounts
-- that the offers of each edge give for one another, to a target; a path lists the assets between the
-- ends from the source on.
pub buyers-FindsAll :
    (g : OrderBookGraph) (asset : String) (amount : ℤ) (targets : List String) (max_path_length : ℕ)
    → HasOffers g.edges_for_buying_asset
    → FindsAll
        (IsPathFrom g max_path_length asset amount targets)
        (buying_graph_search_state g asset amount targets)
        max_path_length
        asset
        amount
unfolding buying_graph_search_state
buyers-FindsAll g asset amount targets max_path_length v =
    let state = buying_graph_search_state g asset amount targets in
    same_paths _ _ state max_path_length asset amount
      (Leads-IsPathFrom g asset amount targets max_path_length)
      (finds_all state max_path_length asset amount (λ a.
        edges-Take state (buyers-Take g asset amount targets) (state.edges a)
          (found-AreOffers _ (lookup-Every (Every AreOffers) a g.edges_for_buying_asset v))))
