-- ===== src/Paths/Payments.antt =====
-- What a payment path of a graph is, for the two directions of the search, and that the search leads to it.
use Prim.Native.String.{String}
use mathlib.Core.List.{Memᴰ, reverse, reverse-cons}
use aurorav1_11_0_test.Base.{
  ℕ, not, ◌||◌, ◌≡◌, refl, sym, ap, subst, ◌∙◌, ◌≤◌, Bool, true, false, ◌↔◌, Option, none, some,
  List, [], ◌∷◌, ◌++◌, arith,
}
use aurorav1_11_0_test.Base.Int.{ℤ, pos, negsuc, ltb_ℤ}
use aurorav1_11_0_test.Base.Maps.{Map, lookup}
use aurorav1_11_0_test.OrderBook.{Offer, EdgeSet}
use aurorav1_11_0_test.OrderBook.Graph.{OrderBookGraph}
use aurorav1_11_0_test.Paths.{
  Consumed, consume_offers_for_selling_asset, consume_offers_for_buying_asset,
}
use aurorav1_11_0_test.Paths.Search.{
  PaymentPath, SearchState, but_first, but_last, last_or, backwards, selling_graph_search_state,
  buying_graph_search_state,
}
use aurorav1_11_0_test.Paths.Walks.{Leads, open_node}
use aurorav1_11_0_test.Paths.Routes.{
  Walk, ends_at, go_on, Searches, Leads-Reached, Walk-Leads, visited-Mem, Mem-visited, as_positive,
}

-- The assets of a walk: between its first node and its last one, which may be the same.
pub data Between : List String → List String → String → Type 0 where
  alone : {asset : String} → Between (asset ∷ []) [] asset
  around :
      {first last : String} {middle : List String}
      → Between (first ∷ (middle ++ last ∷ [])) middle last

split_last :
    (d x : String) (xs : List String) → but_last (x ∷ xs) ++ last_or d (x ∷ xs) ∷ [] ≡ x ∷ xs
split_last d x [] = refl
split_last d x (y ∷ xs) = ap (λ l. x ∷ l) (split_last x y xs)

but_last-append : (xs : List String) (a : String) → but_last (xs ++ a ∷ []) ≡ xs
but_last-append [] a = refl
but_last-append (x ∷ []) a = refl
but_last-append (x ∷ y ∷ xs) a = ap (λ l. x ∷ l) (but_last-append (y ∷ xs) a)

last_or-append : (d : String) (xs : List String) (a : String) → last_or d (xs ++ a ∷ []) ≡ a
last_or-append d [] a = refl
last_or-append d (x ∷ xs) a = last_or-append x xs a

Between-parts :
    (nodes middle : List String) (last d : String)
    → Between nodes middle last
    → (but_last (but_first nodes) ≡ middle) × (last_or d nodes ≡ last)
Between-parts _ _ _ d (alone {asset}) = (refl, refl)
Between-parts _ _ _ d (around {first} {last} {middle}) =
    (but_last-append middle last, last_or-append first middle last)

parts-Between :
    (d x : String) (xs : List String)
    → Between (x ∷ xs) (but_last (but_first (x ∷ xs))) (last_or d (x ∷ xs))
parts-Between d x [] = alone
parts-Between d x (y ∷ xs) =
    subst (λ l. Between (x ∷ l) (but_last (y ∷ xs)) (last_or x (y ∷ xs))) (split_last x y xs) around

backwards-reverse : (xs : List String) → backwards xs ≡ reverse xs
backwards-reverse [] = refl
backwards-reverse (x ∷ xs) = ap (λ l. l ++ x ∷ []) (backwards-reverse xs) ∙ sym (reverse-cons x xs)

module _ (m : Map EdgeSet) (takes : List Offer → ℕ → Consumed) (asset_of : Offer → String)
    (IsEnd : String → ℕ → Type 0) (max_path_length : ℕ)
    (path : List String → String → ℕ → PaymentPath) (asset : String) (amount : ℤ) where
  -- The paths that come from walks from an asset with an amount.
  abbrev pub IsPath : PaymentPath → Type 0
  IsPath p =
      (n : ℕ) × (nodes : List String) × (final : ℕ) × (middle : List String) × (last : String)
      × (amount ≡ pos n)
      × Walk m takes asset_of IsEnd max_path_length [] asset asset n nodes final
      × Between nodes middle last
      × (p ≡ path middle last final)

  Walk-first :
      (seen : List String) (key first : String) (n : ℕ) (nodes : List String) (final : ℕ)
      → Walk m takes asset_of IsEnd max_path_length seen key first n nodes final
      → (rest : List String) × (nodes ≡ first ∷ rest)
  Walk-first _ _ _ _ _ _ (ends_at o e) = ([], refl)
  Walk-first _ _ _ _ _ _ (go_on {nodes} o t h k w) = (nodes, refl)

  pub Leads-IsPath :
      (state : SearchState)
      → Searches state m takes asset_of IsEnd
      → ((nodes : List String) (d : String) (final : ℕ)
          → state.path_to nodes d (pos final)
            ≡ path (but_last (but_first nodes)) (last_or d nodes) final)
      → (p : PaymentPath) → Leads state max_path_length p [] [] asset asset amount ↔ IsPath p
  Leads-IsPath state searches same_path p = (
    λ l.
        let (n, e) =
          as_positive amount
            (ground (arith, open_node state max_path_length p [] [] asset asset amount l)) in
        let (nodes, final, d, w, q) =
          Leads-Reached state m takes asset_of IsEnd searches max_path_length p [] [] asset asset
            amount n e refl l in
        let (rest, f) = Walk-first [] asset asset n nodes final w in
        let middle = but_last (but_first nodes) in
        let parts =
          subst (λ s. Between s (but_last (but_first s)) (last_or d s)) (sym f)
            (parts-Between d asset rest) in
        (n, nodes, final, middle, last_or d nodes, e, w, parts, q ∙ same_path nodes d final),
    λ i.
        let (n, nodes, final, middle, last, e, w, between, q) = i in
        let there = λ (d : String).
          let parts = Between-parts nodes middle last d between in
          q
          ∙ sym (
              same_path nodes d final
              ∙ ap (λ s. path s (last_or d nodes) final) parts.0
              ∙ ap (λ s. path middle s final) parts.1) in
        subst (λ z. Leads state max_path_length p [] [] asset asset z) (sym e)
          (Walk-Leads state m takes asset_of IsEnd searches max_path_length p [] [] asset asset n
            nodes final refl w there),
  )

-- A target with a balance that covers the amount, if that is to be checked.
abbrev pub Covers : ℤ → ℕ → Type 0
Covers (pos balance) n = n ≤ balance
Covers (negsuc balance) n = ⊥

abbrev pub IsSource : Map ℤ → Bool → String → ℕ → Type 0
IsSource targets validate asset n =
    (balance : ℤ) × (lookup asset targets ≡ some balance) × (validate ≡ true → Covers balance n)

-- A payment path to an asset is a walk from it over the edges for what is sold, to a source; its
-- interior nodes are those of the walk backwards.
abbrev pub IsPathTo :
    OrderBookGraph → ℕ → String → ℤ → Option String → Map ℤ → Bool → PaymentPath → Type 0
IsPathTo g max_path_length asset amount ignore targets validate =
    IsPath g.edges_for_selling_asset (consume_offers_for_selling_asset ignore) (λ o. o.buying)
      (IsSource targets validate) max_path_length
      (λ middle last final. record {
        source_amount = pos final;
        source_asset = last;
        interior_nodes = reverse middle;
        destination_asset = asset;
        destination_amount = amount;
      })
      asset amount

-- A payment path from an asset is a walk from it over the edges for what is bought, to a destination.
abbrev pub IsPathFrom : OrderBookGraph → ℕ → String → ℤ → List String → PaymentPath → Type 0
IsPathFrom g max_path_length asset amount targets =
    IsPath g.edges_for_buying_asset consume_offers_for_buying_asset (λ o. o.selling)
      (λ key n. Memᴰ key targets) max_path_length
      (λ middle last final. record {
        source_amount = amount;
        source_asset = asset;
        interior_nodes = middle;
        destination_asset = last;
        destination_amount = pos final;
      })
      asset amount

-- The test of a node against the targets.
covered :
    (r : Option ℤ) (validate : Bool) (n : ℕ)
    → (elim r [ none ↦ false | some balance ↦ not validate || not (ltb_ℤ balance (pos n)) ] ≡ true)
      ↔ ((balance : ℤ) × (r ≡ some balance) × (validate ≡ true → Covers balance n))
covered none validate n = (λ h. ground (arith, h), λ s. cc (s.1))
covered (some b) false n = (λ h. (b, refl, λ v. ground (arith, v)), λ s. refl)
covered (some (pos b)) true n = (
  λ h. (pos b, refl, λ v. ground (arith, h)),
  λ s.
      let same_balance : s.0 ≡ pos b = cc (s.1) in
      let enough = subst (λ z. Covers z n) same_balance (s.2 refl) in ground (arith, enough),
)
covered (some (negsuc b)) true n = (
  λ h. ground (arith, h),
  λ s.
      let same_balance : s.0 ≡ negsuc b = cc (s.1) in
      absurd (subst (λ z. Covers z n) same_balance (s.2 refl)),
)

-- What a search for paths to an asset leads to are the payment paths to it.
pub Leads-IsPathTo :
    (g : OrderBookGraph) (asset : String) (amount : ℤ) (ignore : Option String) (targets : Map ℤ)
    (validate : Bool) (max_path_length : ℕ) (p : PaymentPath)
    → Leads
        (selling_graph_search_state g asset amount ignore targets validate)
        max_path_length
        p
        []
        []
        asset
        asset
        amount
      ↔ IsPathTo g max_path_length asset amount ignore targets validate p
unfolding selling_graph_search_state
Leads-IsPathTo g asset amount ignore targets validate max_path_length =
    Leads-IsPath g.edges_for_selling_asset (consume_offers_for_selling_asset ignore) (λ o. o.buying)
      (IsSource targets validate) max_path_length _ asset amount
      (selling_graph_search_state g asset amount ignore targets validate)
      (record {
        terminal = λ key n. covered (lookup key targets) validate n;
        edges = λ key. refl;
        consume = λ n o offers. refl;
      })
      (λ nodes d final.
        ap
          (λ s. record {
            source_amount = pos final;
            source_asset = last_or d nodes;
            interior_nodes = s;
            destination_asset = asset;
            destination_amount = amount;
          })
          (backwards-reverse (but_last (but_first nodes))))

-- What a search for paths from an asset leads to are the payment paths from it.
pub Leads-IsPathFrom :
    (g : OrderBookGraph) (asset : String) (amount : ℤ) (targets : List String) (max_path_length : ℕ)
    (p : PaymentPath)
    → Leads
        (buying_graph_search_state g asset amount targets)
        max_path_length
        p
        []
        []
        asset
        asset
        amount
      ↔ IsPathFrom g max_path_length asset amount targets p
unfolding buying_graph_search_state
Leads-IsPathFrom g asset amount targets max_path_length =
    Leads-IsPath g.edges_for_buying_asset consume_offers_for_buying_asset (λ o. o.selling)
      (λ key n. Memᴰ key targets) max_path_length _ asset amount
      (buying_graph_search_state g asset amount targets)
      (record {
        terminal = λ key n. (visited-Mem targets key, Mem-visited targets key);
        edges = λ key. refl;
        consume = λ n o offers. refl;
      })
      (λ nodes d final. refl)
