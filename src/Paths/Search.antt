-- ===== src/Paths/Search.antt =====
-- exp/orderbook/dfs.go and graph.go: the depth-first search for payment paths. An asset is its string.
-- Go visits the edges of a node in no specified order, here in that of the map.
use Prim.Native.String.{String}
use text.Mathlib.Text.{◌==◌ as same}
use aurorav1_11_0_test.Base.{
  ℕ, zero, suc, ◌+◌, Bool, true, false, not, ◌||◌, ltb, if◌then◌else◌, Option, none, some, List, [],
  ◌∷◌, ◌++◌, length,
}
use aurorav1_11_0_test.Base.Int.{ℤ, pos, negsuc, ltb_ℤ}
use aurorav1_11_0_test.Base.Maps.{Map, lookup}
use aurorav1_11_0_test.OrderBook.{Offer, EdgeSet}
use aurorav1_11_0_test.OrderBook.Graph.{OrderBookGraph, set_or_new}
use aurorav1_11_0_test.Paths.{
  Error, Consumed, consume_offers_for_selling_asset, consume_offers_for_buying_asset,
}
use aurorav1_11_0_test.Paths

-- The strings that the code keeps of the two assets are the assets here.
pub record PaymentPath : Type 0 where
  pub source_amount : ℤ
  pub source_asset : String
  pub destination_asset : String
  pub destination_amount : ℤ
  pub interior_nodes : List String

pub data Next : Type 0 where
  next : String → ℤ → Next
  failed : Error → Next

pub record SearchState : Type 0 where
  pub is_terminal_node : String → ℤ → Bool
  pub path_to : List String → String → ℤ → PaymentPath
  pub edges : String → EdgeSet
  pub consume_offers : ℤ → List Offer → Next

pub data Found : Type 0 where
  found : List PaymentPath → Found
  failed : Error → Found
  out_of_fuel : Found

abbrev pub is_positive : ℤ → Bool
is_positive z = ltb_ℤ (pos 0) z

abbrev pub visited : List String → String → Bool
visited [] asset = false
visited (v ∷ vs) asset = same v asset || visited vs asset

module _ (state : SearchState) (max_path_length : ℕ) where
  -- The loop over the edges of a node, given the search from the node at their ends.
  unfoldable pub visit_edges :
      (String → String → ℤ → List PaymentPath → Found) → ℤ → EdgeSet → List PaymentPath → Found
  visit_edges go amount [] paths = found paths
  visit_edges go amount ((asset_string, []) ∷ es) paths = visit_edges go amount es paths
  visit_edges go amount ((asset_string, o ∷ offers) ∷ es) paths =
      elim (state.consume_offers amount (o ∷ offers)) [
        | Next.failed e ↦ failed e
        | next asset next_amount ↦ elim (is_positive next_amount) [
          | false ↦ visit_edges go amount es paths
          | true ↦ elim (go asset_string asset next_amount paths) [
            | found paths' ↦ visit_edges go amount es paths'
            | failed e ↦ failed e
            | out_of_fuel ↦ out_of_fuel
          ]
        ]
      ]

  abbrev pub append_to_paths : List String → String → ℤ → List PaymentPath → List PaymentPath
  append_to_paths list asset amount paths =
      if state.is_terminal_node asset amount
      then paths ++ state.path_to list asset amount ∷ []
      else paths

  -- The node is not looked at: there is no amount, it is on the path already, or the path is too long.
  abbrev pub is_closed : List String → List String → String → ℤ → Bool
  is_closed seen list asset_string amount =
      (not (is_positive amount) || visited seen asset_string) || ltb max_path_length (length list)

  -- What is marked as visited is unmarked at the end, so that it is the assets on the path.
  unfoldable pub dfs :
      ℕ → List String → List String → String → String → ℤ → List PaymentPath → Found
  unfolding visit_edges
  dfs zero seen list asset_string asset amount paths = out_of_fuel
  dfs (suc fuel) seen list asset_string asset amount paths =
      elim (is_closed seen list asset_string amount) [
        | true ↦ found paths
        | false ↦
            let list' = list ++ asset ∷ [] in
            visit_edges (dfs fuel (asset_string ∷ seen) list') amount (state.edges asset_string)
              (append_to_paths list' asset_string amount paths)
      ]

-- The list without its first and its last element.
abbrev pub but_last {ℓ} : {A : Type ℓ} → List A → List A
but_last [] = []
but_last (x ∷ []) = []
but_last (x ∷ y ∷ xs) = x ∷ but_last (y ∷ xs)

abbrev pub but_first {ℓ} : {A : Type ℓ} → List A → List A
but_first [] = []
but_first (x ∷ xs) = xs

abbrev pub backwards {ℓ} : {A : Type ℓ} → List A → List A
backwards [] = []
backwards (x ∷ xs) = backwards xs ++ x ∷ []

abbrev pub last_or : String → List String → String
last_or d [] = d
last_or d (x ∷ xs) = last_or x xs

abbrev pub next_from : String → Consumed → Next
next_from asset (Paths.ok z) = next asset z
next_from asset (Paths.err e) = Next.failed e

abbrev pub amount_of : ℤ → ℕ
amount_of (pos n) = n
amount_of (negsuc n) = 0

-- `offers[0].Buying` and `offers[0].Selling`; the list is not empty.
abbrev pub first_buying : List Offer → String
first_buying [] = ""
first_buying (o ∷ offers) = o.buying

abbrev pub first_selling : List Offer → String
first_selling [] = ""
first_selling (o ∷ offers) = o.selling

unfoldable pub selling_graph_search_state :
    OrderBookGraph → String → ℤ → Option String → Map ℤ → Bool → SearchState
unfolding lookup consume_offers_for_selling_asset
selling_graph_search_state g destination_asset destination_amount ignore_offers_from target_assets
      validate_source_balance =
    record {
      is_terminal_node = λ asset amount. elim (lookup asset target_assets) [
        | none ↦ false
        | some balance ↦ not validate_source_balance || not (ltb_ℤ balance amount)
      ];
      path_to = λ list asset amount. record {
        source_amount = amount;
        source_asset = last_or asset list;
        interior_nodes = backwards (but_last (but_first list));
        destination_asset = destination_asset;
        destination_amount = destination_amount;
      };
      edges = λ asset. set_or_new (lookup asset g.edges_for_selling_asset);
      consume_offers = λ amount offers.
          next_from (first_buying offers)
            (consume_offers_for_selling_asset ignore_offers_from offers (amount_of amount));
    }

unfoldable pub buying_graph_search_state : OrderBookGraph → String → ℤ → List String → SearchState
unfolding lookup consume_offers_for_buying_asset
buying_graph_search_state g source_asset source_amount target_assets = record {
  is_terminal_node = λ asset amount. visited target_assets asset;
  path_to = λ list asset amount. record {
    source_amount = source_amount;
    source_asset = source_asset;
    interior_nodes = but_last (but_first list);
    destination_asset = last_or asset list;
    destination_amount = amount;
  };
  edges = λ asset. set_or_new (lookup asset g.edges_for_buying_asset);
  consume_offers = λ amount offers.
      next_from (first_selling offers) (consume_offers_for_buying_asset offers (amount_of amount));
}

-- The search as both commands start it; the fuel is what the longest path takes.
unfoldable pub search_from : SearchState → ℕ → String → ℤ → Found
unfolding dfs
search_from state max_path_length asset amount =
    dfs state max_path_length (max_path_length + 2) [] [] asset asset amount []
