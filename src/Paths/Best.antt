-- ===== src/Paths/Best.antt =====
-- What the two commands answer.
use Prim.Native.String.{String, compare}
use text.Mathlib.Text.{is_lt, ◌==◌ as same}
use text.Mathlib.TextEquality.{eq_iff}
use text.Mathlib.TextPositions.{compare_refl}
use mathlib.Core.List.{Memᴰ, Permᴰ}
use mathlib.Core.List.Memᴰ
use mathlib.Core.List.Permᴰ
use aurorav1_11_0_test.Base.{
  ℕ, suc, ◌-◌, ◌≡◌, refl, ap, subst, ◌∙◌, Bool, false, Bool-cases, inl, inr, ◌↔◌, if◌then◌else◌,
  Option, none, some, List, [], ◌∷◌, select,
}
use aurorav1_11_0_test.Base.Int.{ℤ, ltb_ℤ}
use aurorav1_11_0_test.Base.Maps.{Map}
use aurorav1_11_0_test.OrderBook.Graph.{OrderBookGraph}
use aurorav1_11_0_test.Paths.Search.{
  PaymentPath, Found, found, search_from, selling_graph_search_state, buying_graph_search_state,
}
use aurorav1_11_0_test.Paths.Payments.{IsPathTo, IsPathFrom}
use aurorav1_11_0_test.Paths.Fuel.{HasOffers}
use aurorav1_11_0_test.Paths.All.{sellers-FindsAll, buyers-FindsAll}
use aurorav1_11_0_test.Paths.Filter.{
  Less, filter_loop, compare_source_asset, compare_destination_asset, sort_and_filter_paths, Answer,
  ok, source_assets_map, find_paths, find_fixed_paths,
}
use aurorav1_11_0_test.Paths.Kept.{take, of_asset, NoneLess, IsSorted, by_key, filter_loop-take}

abbrev pub source_key : PaymentPath → String
source_key p = p.source_asset

abbrev pub destination_key : PaymentPath → String
destination_key p = p.destination_asset

-- A test that agrees with the order of the keys where the keys differ.
abbrev ByKey : (PaymentPath → String) → Less → Type 0
ByKey key less = (p q : PaymentPath) → less p q ≡ false → by_key key p q ≡ false

split_key :
    (key : PaymentPath → String) (p q : PaymentPath) (within : Bool)
    → (if same (key p) (key q) then within else is_lt (compare (key p) (key q))) ≡ false
    → by_key key p q ≡ false
split_key key p q within h = elim (Bool-cases (same (key p) (key q))) [
  | inl e ↦
      let k : key p ≡ key q = (eq_iff (key p) (key q)).0 e in rw k (ap is_lt (compare_refl (key q)))
  | inr e ↦ subst (λ b. (if b then within else is_lt (compare (key p) (key q))) ≡ false) e h
]

compare_source_asset-ByKey : ByKey source_key compare_source_asset
unfolding compare_source_asset
compare_source_asset-ByKey p q h = split_key source_key p q _ h

compare_destination_asset-ByKey : ByKey destination_key compare_destination_asset
unfolding compare_destination_asset
compare_destination_asset-ByKey p q h = split_key destination_key p q _ h

module _ (key : PaymentPath → String) (less : Less) (k : ByKey key less) where
  NoneLess-by_key :
      (p : PaymentPath) (ps : List PaymentPath) → NoneLess less p ps → NoneLess (by_key key) p ps
  NoneLess-by_key p [] n = tt
  NoneLess-by_key p (q ∷ qs) n = (k q p n.0, NoneLess-by_key p qs n.1)

  IsSorted-by_key : (ps : List PaymentPath) → IsSorted less ps → IsSorted (by_key key) ps
  IsSorted-by_key [] o = tt
  IsSorted-by_key (p ∷ ps) o = (NoneLess-by_key p ps o.0, IsSorted-by_key ps o.1)

-- What a sort does with a list: it rearranges it into the order.
abbrev pub Sorts : (Less → List PaymentPath → List PaymentPath) → Less → List PaymentPath → Type 0
Sorts sort less ps = Permᴰ (sort less ps) ps × IsSorted less (sort less ps)

-- An answer: for every asset, the first paths of those to it in a sorted list of all paths of a kind.
abbrev pub Answers : (PaymentPath → String) → Less → ℕ → (PaymentPath → Type 0) → Answer → Type 0
Answers key less limit P answer =
    (sorted : List PaymentPath) × IsSorted less sorted
    × ((p : PaymentPath) → Memᴰ p sorted ↔ P p)
    × (paths : List PaymentPath) × (answer ≡ ok paths)
    × ((a : String) → of_asset key a paths ≡ take (suc (limit - 1)) (of_asset key a sorted))

rearranged : (p : PaymentPath) {ps qs : List PaymentPath} → Permᴰ ps qs → Memᴰ p ps → Memᴰ p qs
rearranged p Permᴰ.nil m = m
rearranged p (Permᴰ.cons e d) m = elim (Memᴰ.cases_cons m) [
  | inl h ↦ Memᴰ.head (h ∙ e)
  | inr n ↦ Memᴰ.tail (rearranged p d n)
]
rearranged p (Permᴰ.swap e f) m = elim (Memᴰ.cases_cons m) [
  | inl h ↦ Memᴰ.tail (Memᴰ.head (h ∙ e))
  | inr n ↦ elim (Memᴰ.cases_cons n) [ inl h ↦ Memᴰ.head (h ∙ f) | inr r ↦ Memᴰ.tail (Memᴰ.tail r) ]
]
rearranged p (Permᴰ.trans d f) m = rearranged p f (rearranged p d m)

-- A kind of paths is listed by every rearrangement of a list of it.
all_rearranged :
    (P : PaymentPath → Type 0) {ps qs : List PaymentPath}
    → Permᴰ ps qs
    → ((p : PaymentPath) → Memᴰ p qs ↔ P p)
    → (p : PaymentPath) → Memᴰ p ps ↔ P p
all_rearranged P d f p =
    (λ m. (f p).0 (rearranged p d m), λ h. rearranged p (Permᴰ.symm d) ((f p).1 h))

filtered-Answers :
    (key : PaymentPath → String) (less : Less) (limit : ℕ) (P : PaymentPath → Type 0)
    (sorted : List PaymentPath)
    → ByKey key less
    → IsSorted less sorted
    → ((p : PaymentPath) → Memᴰ p sorted ↔ P p)
    → Answers key less limit P (ok (filter_loop (λ p q. same (key p) (key q)) limit sorted [] 0))
unfolding select
filtered-Answers key less limit P sorted k o f = (
  sorted,
  o,
  f,
  _,
  refl,
  λ a. filter_loop-take key limit sorted [] 0 none a refl (IsSorted-by_key key less k sorted o) tt,
)

-- The paths that a search found.
abbrev pub paths_of : Found → List PaymentPath
paths_of (found paths) = paths
paths_of other = []

-- Where the offers have int64 amounts and positive int32 prices, every asset has its balance and the sort
-- rearranges what the search found into the order of `compareSourceAsset`, FindPaths answers for each source
-- asset with the first paths, as many as the limit and at least one, of a list in that order of
-- exactly the payment paths of the graph to the destination; and with the ledger of the graph. These
-- are the walks from it over the edges for what is sold, with no asset twice, no more assets before
-- the last than the limit on the length, and positive amounts that the offers of each edge give for
-- one another, to a source asset whose balance, if it is to be checked, covers the amount.
pub find_paths-Answers :
    (sort : Less → List PaymentPath → List PaymentPath) (g : OrderBookGraph) (max_path_length : ℕ)
    (asset : String) (amount : ℤ) (ignore : Option String) (assets : List String)
    (balances : List ℤ) (targets : Map ℤ) (validate : Bool) (limit : ℕ)
    → HasOffers g.edges_for_selling_asset
    → source_assets_map assets balances [] ≡ some targets
    → (let state = selling_graph_search_state g asset amount ignore targets validate in
        Sorts sort compare_source_asset (paths_of (search_from state max_path_length asset amount)))
    → let r =
        find_paths sort g max_path_length asset amount ignore assets balances validate limit in
      Answers source_key compare_source_asset limit
        (IsPathTo g max_path_length asset amount ignore targets validate)
        r.0
      × (r.1 ≡ g.last_ledger)
unfolding find_paths sort_and_filter_paths
find_paths-Answers sort g max_path_length asset amount ignore assets balances targets validate limit
      v m o =
    let state = selling_graph_search_state g asset amount ignore targets validate in
    let (found_paths, ends, all_of) =
      sellers-FindsAll g asset amount ignore targets validate max_path_length v in
    let o' = subst (λ r. Sorts sort compare_source_asset (paths_of r)) ends o in
    rw (m, ends)
      (
        filtered-Answers source_key compare_source_asset limit _
            (sort compare_source_asset found_paths) compare_source_asset-ByKey o'.1
            (all_rearranged _ o'.0 all_of),
        refl,
      )

abbrev pub more_first : Less
more_first p q = ltb_ℤ q.destination_amount p.destination_amount

-- Where the offers have int64 amounts and positive int32 prices, and the sort rearranges what the search found
-- into the orders of its two uses, FindFixedPaths answers for each destination asset with the first
-- paths, as many as the limit and at least one, of a list in the order of `compareDestinationAsset` of
-- exactly the payment paths of the graph from the source; and with the ledger of the graph. These are
-- the walks from it over the edges for what is bought, with no asset twice, no more assets before the
-- last than the limit on the length, and positive amounts that the offers of each edge give for one
-- another, to a destination asset.
pub find_fixed_paths-Answers :
    (sort : Less → List PaymentPath → List PaymentPath) (g : OrderBookGraph) (max_path_length : ℕ)
    (asset : String) (amount : ℤ) (targets : List String) (limit : ℕ)
    → HasOffers g.edges_for_buying_asset
    → (let state = buying_graph_search_state g asset amount targets in
        let found_paths = paths_of (search_from state max_path_length asset amount) in
        Sorts sort more_first found_paths
        × Sorts sort compare_destination_asset (sort more_first found_paths))
    → let r = find_fixed_paths sort g max_path_length asset amount targets limit in
      Answers destination_key compare_destination_asset limit
        (IsPathFrom g max_path_length asset amount targets)
        r.0
      × (r.1 ≡ g.last_ledger)
unfolding find_fixed_paths sort_and_filter_paths
find_fixed_paths-Answers sort g max_path_length asset amount targets limit v o =
    let state = buying_graph_search_state g asset amount targets in
    let (found_paths, ends, all_of) = buyers-FindsAll g asset amount targets max_path_length v in
    let o' =
      subst
        (λ r.
          Sorts sort more_first (paths_of r)
          × Sorts sort compare_destination_asset (sort more_first (paths_of r)))
        ends o in
    rw ends (
      filtered-Answers destination_key compare_destination_asset limit _
          (sort compare_destination_asset (sort more_first found_paths))
          compare_destination_asset-ByKey o'.1.1
          (all_rearranged _ o'.1.0 (all_rearranged _ o'.0.0 all_of)),
      refl,
    )
