-- ===== src/Paths/Routes.antt =====
-- The payment paths of a graph, as walks over its edges, and that they are what a search leads to.
use Prim.Native.String.{String}
use mathlib.Core.List.{Memᴰ, append_assoc}
use mathlib.Core.List.Memᴰ
use text.Mathlib.TextEquality.{eq_iff}
use text.Mathlib.Text.{◌==◌ as same}
use aurorav1_11_0_test.Base.{
  ℕ, ◌≡◌, refl, sym, ap, subst, ◌∙◌, ◌<◌, ◌≤◌, true, false, Bool-cases, inl, inr, ◌↔◌, Option, none,
  some, List, [], ◌∷◌, ◌++◌, length, length-append, arith,
}
use aurorav1_11_0_test.Base.Int.{ℤ, pos, negsuc}
use aurorav1_11_0_test.Base.Maps.{Map, lookup}
use aurorav1_11_0_test.OrderBook.{Offer, EdgeSet}
use aurorav1_11_0_test.OrderBook.Graph.{set_or_new}
use aurorav1_11_0_test.Paths.{Consumed}
use aurorav1_11_0_test.Paths
use aurorav1_11_0_test.Paths.Search.{
  PaymentPath, SearchState, next, is_positive, visited, is_closed, next_from,
}
use aurorav1_11_0_test.Paths.Walks.{Leads, here, along}

-- A node that a walk may come to: with a positive amount, not yet on the walk, and with no more nodes
-- before it than the longest path has edges.
abbrev pub IsOpen : ℕ → List String → String → ℕ → Type 0
IsOpen max_path_length seen key n = (0 < n) × ¬ (Memᴰ key seen) × (length seen ≤ max_path_length)

-- The walks from a node with an amount, with the nodes before it: the assets on the way, and the amount at
-- the end, which is an end of the search. The offers of each edge take the amount and give the next
-- one. A node is known by its key in the graph, and is on the path with the asset of the first offer.
pub data Walk (m : Map EdgeSet) (takes : List Offer → ℕ → Consumed) (asset_of : Offer → String)
    (IsEnd : String → ℕ → Type 0) (max_path_length : ℕ)
    : List String → String → String → ℕ → List String → ℕ → Type 0 where
  ends_at :
      {seen : List String} {key asset : String} {n : ℕ}
      → IsOpen max_path_length seen key n
      → IsEnd key n
      → Walk m takes asset_of IsEnd max_path_length seen key asset n (asset ∷ []) n
  go_on :
      {seen : List String} {key asset : String} {n : ℕ} {es : EdgeSet} {next_key : String}
      {o : Offer} {offers : List Offer} {n' : ℕ} {nodes : List String} {final : ℕ}
      → IsOpen max_path_length seen key n
      → lookup key m ≡ some es
      → Memᴰ (next_key, o ∷ offers) es
      → takes (o ∷ offers) n ≡ Paths.ok (pos n')
      → Walk m takes asset_of IsEnd max_path_length
          (key ∷ seen)
          next_key
          (asset_of o)
          n'
          nodes
          final
      → Walk m takes asset_of IsEnd max_path_length seen key asset n (asset ∷ nodes) final

pub visited-Mem : (seen : List String) (key : String) → visited seen key ≡ true → Memᴰ key seen
visited-Mem [] key e = absurd (cc (e))
visited-Mem (v ∷ seen) key e = elim (Bool-cases (same v key)) [
  | inl h ↦ Memᴰ.head (sym ((eq_iff v key).0 h))
  | inr h ↦ Memᴰ.tail (visited-Mem seen key (rw h at e))
]

pub Mem-visited : (seen : List String) (key : String) → Memᴰ key seen → visited seen key ≡ true
Mem-visited [] key h = absurd (Memᴰ.not-nil h)
Mem-visited (v ∷ seen) key h = elim (Memᴰ.cases_cons h) [
  | inl e ↦ rw ((eq_iff v key).1 (sym e)) refl
  | inr t ↦ ground (arith, Mem-visited seen key t)
]

-- The edges of a node.
edges_there :
    (r : Option EdgeSet) (edge : String × List Offer)
    → Memᴰ edge (set_or_new r)
    → (es : EdgeSet) × (r ≡ some es) × Memᴰ edge es
edges_there none edge h = absurd (Memᴰ.not-nil h)
edges_there (some es) edge h = (es, refl, h)

pub as_positive : (z : ℤ) → is_positive z ≡ true → (n : ℕ) × (z ≡ pos n)
as_positive (pos n) e = (n, refl)
as_positive (negsuc n) e = ground (arith, e)

next-same :
    {asset asset' : String} {z : ℤ} (r : Consumed)
    → next_from asset r ≡ next asset' z
    → (asset ≡ asset') × (r ≡ Paths.ok z)
next-same (Paths.ok y) e = (cc (e), cc (e))
next-same (Paths.err x) e = absurd (cc (e))

-- A search state over a graph whose edges are a map, that takes and ends as a walk does.
pub record Searches (state : SearchState) (m : Map EdgeSet) (takes : List Offer → ℕ → Consumed)
    (asset_of : Offer → String) (IsEnd : String → ℕ → Type 0) : Type 0 where
  pub terminal : (key : String) (n : ℕ) → (state.is_terminal_node key (pos n) ≡ true) ↔ IsEnd key n
  pub edges : (key : String) → state.edges key ≡ set_or_new (lookup key m)
  pub consume :
      (n : ℕ) (o : Offer) (offers : List Offer)
      → state.consume_offers (pos n) (o ∷ offers) ≡ next_from (asset_of o) (takes (o ∷ offers) n)

module _ (state : SearchState) (m : Map EdgeSet) (takes : List Offer → ℕ → Consumed)
    (asset_of : Offer → String) (IsEnd : String → ℕ → Type 0)
    (searches : Searches state m takes asset_of IsEnd) (max_path_length : ℕ) where
  open searches use {terminal, edges, consume}

  abbrev WalkHere : List String → String → String → ℕ → List String → ℕ → Type 0
  WalkHere = Walk m takes asset_of IsEnd max_path_length

  -- A path made of a walk and of the assets before it.
  abbrev pub Reached : PaymentPath → List String → List String → String → String → ℕ → Type 0
  Reached p seen list key asset n =
      (nodes : List String) × (final : ℕ) × (last : String) × WalkHere seen key asset n nodes final
      × (p ≡ state.path_to (list ++ nodes) last (pos final))

  is_closed-IsOpen :
      (seen list : List String) (key : String) (n : ℕ)
      → length seen ≡ length list
      → is_closed state max_path_length seen list key (pos n) ≡ false
      → IsOpen max_path_length seen key n
  is_closed-IsOpen seen list key n l c = (
    ground (arith, c),
    λ h. let v = Mem-visited seen key h in ground (arith, c, v),
    ground (arith, c, l),
  )

  IsOpen-is_closed :
      (seen list : List String) (key : String) (n : ℕ)
      → length seen ≡ length list
      → IsOpen max_path_length seen key n
      → is_closed state max_path_length seen list key (pos n) ≡ false
  IsOpen-is_closed seen list key n l o = elim (Bool-cases (visited seen key)) [
    | inl v ↦ absurd (o.1 (visited-Mem seen key v))
    | inr v ↦ ground (arith, o.0, v, o.2, l)
  ]

  one_longer :
      (key asset : String) (seen list : List String)
      → length seen ≡ length list
      → length (key ∷ seen) ≡ length (list ++ asset ∷ [])
  one_longer key asset seen list l =
      let longer = length-append list (asset ∷ []) in omega (arith, l, longer)

  pub Leads-Reached :
      (p : PaymentPath) (seen list : List String) (key asset : String) (z : ℤ) (n : ℕ)
      → z ≡ pos n
      → length seen ≡ length list
      → Leads state max_path_length p seen list key asset z
      → Reached p seen list key asset n
  Leads-Reached p _ _ _ _ _ n e l (here seen list key asset z c t q) =
      let c' = subst (λ y. is_closed state max_path_length seen list key y ≡ false) e c in
      let t' = subst (λ y. state.is_terminal_node key y ≡ true) e t in
      (
        asset ∷ [],
        n,
        key,
        ends_at (is_closed-IsOpen seen list key n l c') ((terminal key n).0 t'),
        subst (λ y. p ≡ state.path_to (list ++ asset ∷ []) key y) e q,
      )
  Leads-Reached p _ _ _ _ _ n e l (along seen list key asset z (k, []) a z' c h some_offer g b r) =
      absurd (some_offer refl)
  Leads-Reached p _ _ _ _ _ n e l
        (along seen list key asset z (k, o ∷ offers) a z' c h some_offer g b r) =
      let c' = subst (λ y. is_closed state max_path_length seen list key y ≡ false) e c in
      let (n', e') = as_positive z' b in
      let g' = subst (λ y. state.consume_offers y (o ∷ offers) ≡ next a z') e g in
      let (same_asset, taken) = next-same (takes (o ∷ offers) n) (sym (consume n o offers) ∙ g') in
      let (es, there, h') =
        edges_there (lookup key m) (k, o ∷ offers)
          (subst (λ s. Memᴰ (k, o ∷ offers) s) (edges key) h) in
      let (nodes, final, last, w, q) =
        Leads-Reached p (key ∷ seen) (list ++ asset ∷ []) k a z' n' e'
          (one_longer key asset seen list l) r in
      (
        asset ∷ nodes,
        final,
        last,
        go_on (is_closed-IsOpen seen list key n l c') there h' (taken ∙ ap Paths.ok e')
            (subst (λ s. WalkHere (key ∷ seen) k s n' nodes final) (sym same_asset) w),
        subst (λ s. p ≡ state.path_to s last (pos final)) (append_assoc list (asset ∷ []) nodes) q,
      )

  -- A walk that goes on has a positive amount.
  Walk-positive :
      (seen : List String) (key asset : String) (n : ℕ) (nodes : List String) (final : ℕ)
      → WalkHere seen key asset n nodes final
      → 0 < n
  Walk-positive _ _ _ _ _ _ (ends_at o e) = o.0
  Walk-positive _ _ _ _ _ _ (go_on o t h k w) = o.0

  pub Walk-Leads :
      (p : PaymentPath) (seen list : List String) (key asset : String) (n : ℕ) (nodes : List String)
      (final : ℕ)
      → length seen ≡ length list
      → WalkHere seen key asset n nodes final
      → ((last : String) → p ≡ state.path_to (list ++ nodes) last (pos final))
      → Leads state max_path_length p seen list key asset (pos n)
  Walk-Leads p _ list _ _ _ _ _ l (ends_at {seen} {key} {asset} {n} o e) q =
      here seen list key asset (pos n) (IsOpen-is_closed seen list key n l o) ((terminal key n).1 e)
        (q key)
  Walk-Leads p _ list _ _ _ _ _ l
        (go_on {seen} {key} {asset} {n} {es} {next_key} {o} {offers} {n'} {nodes} {final} op there h
          taken w)
        q =
      let h' =
        subst (λ s. Memᴰ (next_key, o ∷ offers) s) (sym (edges key ∙ ap set_or_new there)) h in
      let g = consume n o offers ∙ ap (next_from (asset_of o)) taken in
      let more = Walk-positive (key ∷ seen) next_key (asset_of o) n' nodes final w in
      along seen list key asset (pos n) (next_key, o ∷ offers) (asset_of o) (pos n')
        (IsOpen-is_closed seen list key n l op) h' (λ e. cc (e)) g (ground (arith, more))
        (Walk-Leads p (key ∷ seen) (list ++ asset ∷ []) next_key (asset_of o) n' nodes final
          (one_longer key asset seen list l) w
          (λ last.
            subst (λ s. p ≡ state.path_to s last (pos final))
              (sym (append_assoc list (asset ∷ []) nodes)) (q last)))
