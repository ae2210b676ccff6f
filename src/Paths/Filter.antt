-- ===== src/Paths/Filter.antt =====
-- exp/orderbook/graph.go: what the searches find, sorted and limited for each asset. The sort of the standard
-- library is a parameter. A limit below 0 acts as 0.
use Prim.Native.String.{String, compare}
use text.Mathlib.Text.{is_lt, ◌==◌ as same}
use aurorav1_11_0_test.Base.{
  ℕ, ◌+◌, Bool, true, false, not, ltb, ◌==◌, if◌then◌else◌, Option, none, some, List, [], ◌∷◌, ◌++◌,
  length,
}
use aurorav1_11_0_test.Base.Int.{ℤ, pos, negsuc, ltb_ℤ}
use aurorav1_11_0_test.Base.Maps.{Map, put}
use aurorav1_11_0_test.OrderBook.Graph.{OrderBookGraph}
use aurorav1_11_0_test.Paths.{Error}
use aurorav1_11_0_test.Paths.Search.{
  PaymentPath, Found, found, failed, search_from, selling_graph_search_state,
  buying_graph_search_state,
}
use aurorav1_11_0_test.Paths.Search

-- The test of an order on paths, as `sort.Slice` takes it.
abbrev pub Less : Type 0
Less = PaymentPath → PaymentPath → Bool

abbrev pub equal_amounts : ℤ → ℤ → Bool
equal_amounts (pos m) (pos n) = m == n
equal_amounts (pos m) (negsuc n) = false
equal_amounts (negsuc m) (pos n) = false
equal_amounts (negsuc m) (negsuc n) = m == n

unfoldable pub compare_source_asset : Less
compare_source_asset p q =
    if same p.source_asset q.source_asset
    then (if equal_amounts p.source_amount q.source_amount
        then ltb (length p.interior_nodes) (length q.interior_nodes)
        else ltb_ℤ p.source_amount q.source_amount)
    else is_lt (compare p.source_asset q.source_asset)

unfoldable pub compare_destination_asset : Less
compare_destination_asset p q =
    if same p.destination_asset q.destination_asset
    then (if equal_amounts p.destination_amount q.destination_amount
        then ltb (length p.interior_nodes) (length q.interior_nodes)
        else ltb_ℤ q.destination_amount p.destination_amount)
    else is_lt (compare p.destination_asset q.destination_asset)

abbrev pub source_asset_equals : PaymentPath → PaymentPath → Bool
source_asset_equals p other_path = same p.source_asset other_path.source_asset

abbrev pub destination_asset_equals : PaymentPath → PaymentPath → Bool
destination_asset_equals p other_path = same p.destination_asset other_path.destination_asset

-- There is no last path, or its asset is another.
abbrev pub starts_asset : (PaymentPath → PaymentPath → Bool) → List PaymentPath → PaymentPath → Bool
starts_asset assets_equal [] entry = true
starts_asset assets_equal (p ∷ []) entry = not (assets_equal p entry)
starts_asset assets_equal (p ∷ q ∷ ps) entry = starts_asset assets_equal (q ∷ ps) entry

module _ (assets_equal : PaymentPath → PaymentPath → Bool) (max_paths_per_asset : ℕ) where
  unfoldable pub filter_loop : List PaymentPath → List PaymentPath → ℕ → List PaymentPath
  filter_loop [] filtered count_for_asset = filtered
  filter_loop (entry ∷ all_paths) filtered count_for_asset =
      elim (starts_asset assets_equal filtered entry) [
        | true ↦ filter_loop all_paths (filtered ++ entry ∷ []) 1
        | false ↦ elim (ltb count_for_asset max_paths_per_asset) [
          | true ↦ filter_loop all_paths (filtered ++ entry ∷ []) (count_for_asset + 1)
          | false ↦ filter_loop all_paths filtered count_for_asset
        ]
      ]

pub data Answer : Type 0 where
  ok : List PaymentPath → Answer
  could_not_determine_paths : Error → Answer
  invalid_sort_by_type index_out_of_range out_of_fuel : Answer

abbrev pub sort_by_source_asset : String
sort_by_source_asset = "source"

abbrev pub sort_by_destination_asset : String
sort_by_destination_asset = "destination"

-- A map of the assets to the balances at the same index.
abbrev pub source_assets_map : List String → List ℤ → Map ℤ → Option (Map ℤ)
source_assets_map [] balances m = some m
source_assets_map (asset ∷ assets) [] m = none
source_assets_map (asset ∷ assets) (balance ∷ balances) m =
    source_assets_map assets balances (put asset balance m)

module _ (sort : Less → List PaymentPath → List PaymentPath) where
  unfoldable pub sort_and_filter_paths : List PaymentPath → ℕ → String → Answer
  unfolding filter_loop compare_source_asset compare_destination_asset
  sort_and_filter_paths all_paths max_paths_per_asset sort_type =
      if same sort_type sort_by_source_asset
      then ok (
          filter_loop source_asset_equals max_paths_per_asset (sort compare_source_asset all_paths)
            [] 0)
      else if same sort_type sort_by_destination_asset
      then ok (
          filter_loop destination_asset_equals max_paths_per_asset
            (sort compare_destination_asset all_paths) [] 0)
      else invalid_sort_by_type

  abbrev pub determined : Found → (List PaymentPath → Answer) → Answer
  determined (found paths) next = next paths
  determined (failed e) next = could_not_determine_paths e
  determined Search.out_of_fuel next = out_of_fuel

  abbrev pub find_paths_with :
      OrderBookGraph → ℕ → String → ℤ → Option String → Option (Map ℤ) → Bool → ℕ → Answer × ℕ
  find_paths_with g max_path_length destination_asset destination_amount source_account_id none
        validate_source_balance max_assets_per_path =
      (index_out_of_range, g.last_ledger)
  find_paths_with g max_path_length destination_asset destination_amount source_account_id
        (some targets) validate_source_balance max_assets_per_path =
      (
        determined
            (search_from
              (selling_graph_search_state g destination_asset destination_amount source_account_id
                targets validate_source_balance)
              max_path_length destination_asset destination_amount)
            (λ paths. sort_and_filter_paths paths max_assets_per_path sort_by_source_asset),
        g.last_ledger,
      )

  -- The answer, and the last ledger of the graph, which stands for nothing where the index panics.
  unfoldable pub find_paths :
      OrderBookGraph → ℕ → String → ℤ → Option String → List String → List ℤ → Bool → ℕ → Answer × ℕ
  unfolding search_from selling_graph_search_state sort_and_filter_paths put
  find_paths g max_path_length destination_asset destination_amount source_account_id source_assets
        source_asset_balances validate_source_balance max_assets_per_path =
      find_paths_with g max_path_length destination_asset destination_amount source_account_id
        (source_assets_map source_assets source_asset_balances []) validate_source_balance
        max_assets_per_path

  unfoldable pub find_fixed_paths : OrderBookGraph → ℕ → String → ℤ → List String → ℕ → Answer × ℕ
  unfolding search_from buying_graph_search_state sort_and_filter_paths
  find_fixed_paths g max_path_length source_asset amount_to_spend destination_assets
        max_assets_per_path =
      (
        determined
            (search_from
              (buying_graph_search_state g source_asset amount_to_spend destination_assets)
              max_path_length source_asset amount_to_spend)
            (λ paths.
              sort_and_filter_paths
                (sort (λ p q. ltb_ℤ q.destination_amount p.destination_amount) paths)
                max_assets_per_path sort_by_destination_asset),
        g.last_ledger,
      )
