-- ===== src/Paths/Walks.antt =====
-- The paths that the search finds, against the walks of the graph.
use Prim.Native.String.{String}
use mathlib.Core.List.{Memᴰ}
use mathlib.Core.List.Memᴰ
use aurorav1_11_0_test.Base.{
  ℕ, zero, suc, ◌≡◌, refl, sym, subst, ◌∙◌, true, false, Bool-cases, inl, inr, ◌⊎◌, ◌↔◌, ◌≢◌, List,
  [], ◌∷◌, ◌++◌,
}
use aurorav1_11_0_test.Base.Int.{ℤ}
use aurorav1_11_0_test.OrderBook.{Offer, EdgeSet}
use aurorav1_11_0_test.Paths.Search.{
  PaymentPath, SearchState, Next, next, Found, found, failed, out_of_fuel, is_positive, visit_edges,
  append_to_paths, is_closed, dfs,
}

module _ (state : SearchState) (max_path_length : ℕ) where
  -- A path that leads from a node, with the assets seen before it, over nodes that are open to a
  -- terminal one. An edge is the next node with its offers, which take the amount and give another.
  pub data Leads (p : PaymentPath) : List String → List String → String → String → ℤ → Type 0 where
    here :
        (seen list : List String) (asset_string asset : String) (amount : ℤ)
        → is_closed state max_path_length seen list asset_string amount ≡ false
        → state.is_terminal_node asset_string amount ≡ true
        → p ≡ state.path_to (list ++ asset ∷ []) asset_string amount
        → Leads p seen list asset_string asset amount
    along :
        (seen list : List String) (asset_string asset : String) (amount : ℤ)
        (edge : String × List Offer) (next_asset : String) (next_amount : ℤ)
        → is_closed state max_path_length seen list asset_string amount ≡ false
        → Memᴰ edge (state.edges asset_string)
        → edge.1 ≢ []
        → state.consume_offers amount edge.1 ≡ next next_asset next_amount
        → is_positive next_amount ≡ true
        → Leads p (asset_string ∷ seen) (list ++ asset ∷ []) edge.0 next_asset next_amount
        → Leads p seen list asset_string asset amount

  -- A path over an edge, and over one of some edges.
  abbrev LeadsBy : PaymentPath → List String → List String → ℤ → String × List Offer → Type 0
  LeadsBy p seen list amount edge =
      (edge.1 ≢ [])
      × (asset : String) × (z : ℤ) × (state.consume_offers amount edge.1 ≡ next asset z)
      × (is_positive z ≡ true)
      × Leads p seen list edge.0 asset z

  abbrev LeadsOver : PaymentPath → List String → List String → ℤ → EdgeSet → Type 0
  LeadsOver p seen list amount es =
      (edge : String × List Offer) × Memᴰ edge es × LeadsBy p seen list amount edge

  over_cons :
      (p : PaymentPath) (seen list : List String) (amount : ℤ) (x : String × List Offer)
      (es : EdgeSet)
      → LeadsOver p seen list amount (x ∷ es)
        ↔ (LeadsBy p seen list amount x ⊎ LeadsOver p seen list amount es)
  over_cons p seen list amount x es = (
    λ o. elim (Memᴰ.cases_cons o.1) [
      | inl e ↦ inl (subst (LeadsBy p seen list amount) e o.2)
      | inr m ↦ inr (o.0, m, o.2)
    ],
    λ s. elim s [ inl b ↦ (x, Memᴰ.head refl, b) | inr o ↦ (o.0, Memᴰ.tail o.1, o.2) ],
  )

  -- A search finds exactly the paths of a kind, besides those that it began with.
  abbrev pub Finds : (PaymentPath → Type 0) → List PaymentPath → Found → Type 0
  Finds P paths (found paths') = (p : PaymentPath) → Memᴰ p paths' ↔ (Memᴰ p paths ⊎ P p)
  Finds P paths (failed e) = Unit {0}
  Finds P paths out_of_fuel = Unit {0}

  same_kind :
      (P Q : PaymentPath → Type 0) (paths : List PaymentPath) (r : Found)
      → ((p : PaymentPath) → P p ↔ Q p)
      → Finds P paths r
      → Finds Q paths r
  same_kind P Q paths (found paths') e f = λ p. (
    λ m. elim ((f p).0 m) [ inl a ↦ inl a | inr b ↦ inr ((e p).0 b) ],
    λ s. elim s [ inl a ↦ (f p).1 (inl a) | inr b ↦ (f p).1 (inr ((e p).1 b)) ],
  )
  same_kind P Q paths (failed x) e f = tt
  same_kind P Q paths out_of_fuel e f = tt

  one_after_other :
      (P Q : PaymentPath → Type 0) (paths mid : List PaymentPath) (r : Found)
      → Finds P paths (found mid)
      → Finds Q mid r
      → Finds (λ p. P p ⊎ Q p) paths r
  one_after_other P Q paths mid (found paths') f g = λ p. (
    λ m. elim ((g p).0 m) [
      | inr b ↦ inr (inr b)
      | inl a ↦ elim ((f p).0 a) [ inl c ↦ inl c | inr b ↦ inr (inl b) ]
    ],
    λ s. elim s [
      | inl a ↦ (g p).1 (inl ((f p).1 (inl a)))
      | inr b ↦ elim b [ inl c ↦ (g p).1 (inl ((f p).1 (inr c))) | inr d ↦ (g p).1 (inr d) ]
    ],
  )
  one_after_other P Q paths mid (failed x) f g = tt
  one_after_other P Q paths mid out_of_fuel f g = tt

  module _ (seen list : List String) (amount : ℤ) where
    abbrev By : String × List Offer → PaymentPath → Type 0
    By x p = LeadsBy p seen list amount x

    abbrev Over : EdgeSet → PaymentPath → Type 0
    Over es p = LeadsOver p seen list amount es

    -- An edge over which no path leads.
    no_path :
        (x : String × List Offer) (es : EdgeSet) (paths : List PaymentPath) (r : Found)
        → ((p : PaymentPath) → ¬ By x p)
        → Finds (Over es) paths r
        → Finds (Over (x ∷ es)) paths r
    no_path x es paths r none_over f =
        same_kind (Over es) (Over (x ∷ es)) paths r
          (λ p. (
            λ o. (over_cons p seen list amount x es).1 (inr o),
            λ o. elim ((over_cons p seen list amount x es).0 o) [
              | inl b ↦ absurd (none_over p b)
              | inr a ↦ a
            ],
          ))
          f

    -- What is known where the offers of an edge give an amount.
    abbrev AtNext : PaymentPath → String → Next → Type 0
    AtNext p s (next asset z) = (is_positive z ≡ true) × Leads p seen list s asset z
    AtNext p s (Next.failed e) = ⊥

    By-next :
        (p : PaymentPath) (s : String) (l : List Offer) (asset : String) (z : ℤ)
        → l ≢ []
        → state.consume_offers amount l ≡ next asset z
        → By (s, l) p ↔ AtNext p s (next asset z)
    By-next p s l asset z n c =
        (λ b. subst (AtNext p s) (sym b.3 ∙ c) (b.4, b.5), λ a. (n, asset, z, c, a.0, a.1))

    abbrev then_visit : Found → (List PaymentPath → Found) → Found
    then_visit r visit = elim r [
      | found paths' ↦ visit paths'
      | failed e ↦ failed e
      | out_of_fuel ↦ out_of_fuel
    ]

    Over-edge :
        (s : String) (l : List Offer) (asset : String) (z : ℤ) (es : EdgeSet)
        (paths : List PaymentPath) (g : Found) (visit : List PaymentPath → Found)
        → l ≢ []
        → state.consume_offers amount l ≡ next asset z
        → is_positive z ≡ true
        → Finds (λ p. Leads p seen list s asset z) paths g
        → ((paths' : List PaymentPath) → Finds (Over es) paths' (visit paths'))
        → Finds (Over ((s, l) ∷ es)) paths (then_visit g visit)
    Over-edge s l asset z es paths (failed e) visit n c b f rest = tt
    Over-edge s l asset z es paths out_of_fuel visit n c b f rest = tt
    Over-edge s l asset z es paths (found mid) visit n c b f rest =
        let first =
          same_kind (λ p. Leads p seen list s asset z) (By (s, l)) paths (found mid)
            (λ p.
              (λ a. (By-next p s l asset z n c).1 (b, a), λ a. ((By-next p s l asset z n c).0 a).1))
            f in
        same_kind (λ p. By (s, l) p ⊎ Over es p) (Over ((s, l) ∷ es)) paths (visit mid)
          (λ p. let e = over_cons p seen list amount (s, l) es in (e.1, e.0))
          (one_after_other (By (s, l)) (Over es) paths mid (visit mid) first (rest mid))

    visit_edges-Finds :
        (go : String → String → ℤ → List PaymentPath → Found)
        → ((asset_string asset : String) (z : ℤ) (paths : List PaymentPath)
            → Finds
                (λ p. Leads p seen list asset_string asset z)
                paths
                (go asset_string asset z paths))
        → (es : EdgeSet) (paths : List PaymentPath)
        → Finds (Over es) paths (visit_edges state max_path_length go amount es paths)
    unfolding visit_edges
    visit_edges-Finds go h [] paths =
        λ p. (λ m. inl m, λ s. elim s [ inl m ↦ m | inr o ↦ absurd (Memᴰ.not-nil o.1) ])
    visit_edges-Finds go h ((s, []) ∷ es) paths =
        no_path (s, []) es paths _ (λ p b. b.0 refl) (visit_edges-Finds go h es paths)
    visit_edges-Finds go h ((s, o ∷ offers) ∷ es) paths =
        let rest = visit_edges-Finds go h es in
        let visit = visit_edges state max_path_length go amount es in
        elim (state.consume_offers amount (o ∷ offers))
            as (λ r.
              state.consume_offers amount (o ∷ offers) ≡ r
              → Finds (Over ((s, o ∷ offers) ∷ es)) paths (elim r [
                | Next.failed e ↦ failed e
                | next asset z ↦ elim (is_positive z) [
                  | false ↦ visit paths
                  | true ↦ elim (go s asset z paths) [
                    | found paths' ↦ visit paths'
                    | failed e ↦ failed e
                    | out_of_fuel ↦ out_of_fuel
                  ]
                ]
              ])) [
                | Next.failed e ↦ λ c. tt
                | next asset z ↦ λ c.
                    elim (is_positive z)
                        as (λ b.
                          is_positive z ≡ b
                          → Finds (Over ((s, o ∷ offers) ∷ es)) paths (elim b [
                            | false ↦ visit paths
                            | true ↦ then_visit (go s asset z paths) visit
                          ])) [
                            | false ↦ λ b.
                                no_path (s, o ∷ offers) es paths _
                                  (λ p d. cc (b, ((By-next p s (o ∷ offers) asset z d.0 c).0 d).0))
                                  (rest paths)
                            | true ↦ λ b.
                                Over-edge s (o ∷ offers) asset z es paths _ visit (λ e. cc (e)) c b
                                  (h s asset z paths) rest
                          ]
                      refl
              ]
          refl

  -- The path that ends at a node.
  abbrev EndsHere : List String → String → String → ℤ → PaymentPath → Type 0
  EndsHere list asset_string asset amount p =
      (state.is_terminal_node asset_string amount ≡ true)
      × (p ≡ state.path_to (list ++ asset ∷ []) asset_string amount)

  append-Finds :
      (list : List String) (asset_string asset : String) (amount : ℤ) (paths : List PaymentPath)
      → Finds (EndsHere list asset_string asset amount) paths (
          found
            (append_to_paths state max_path_length (list ++ asset ∷ []) asset_string amount paths))
  append-Finds list asset_string asset amount paths =
      elim (Bool-cases (state.is_terminal_node asset_string amount)) [
        | inl e ↦ rw e (λ p. (
          λ m. elim (Memᴰ.append_cases paths m) [
            | inl a ↦ inl a
            | inr b ↦ inr (refl, Memᴰ.eq_of_singleton b)
          ],
          λ s. elim s [
            | inl a ↦ Memᴰ.append_left _ a
            | inr b ↦ Memᴰ.append_right paths (Memᴰ.head b.1)
          ],
        ))
        | inr e ↦ rw e (λ p. (λ m. inl m, λ s. elim s [ inl a ↦ a | inr b ↦ cc (b.0) ]))
      ]

  pub open_node :
      (p : PaymentPath) (seen list : List String) (asset_string asset : String) (amount : ℤ)
      → Leads p seen list asset_string asset amount
      → is_closed state max_path_length seen list asset_string amount ≡ false
  open_node p _ _ _ _ _ (here seen list asset_string asset amount c t e) = c
  open_node p _ _ _ _ _ (along seen list asset_string asset amount edge a z c m n k b l) = c

  Leads-cases :
      (p : PaymentPath) (seen list : List String) (asset_string asset : String) (amount : ℤ)
      → Leads p seen list asset_string asset amount
      → EndsHere list asset_string asset amount p
        ⊎ LeadsOver p (asset_string ∷ seen) (list ++ asset ∷ []) amount (state.edges asset_string)
  Leads-cases p _ _ _ _ _ (here seen list asset_string asset amount c t e) = inl (t, e)
  Leads-cases p _ _ _ _ _ (along seen list asset_string asset amount edge a z c m n k b l) =
      inr (edge, m, (n, a, z, k, b, l))

  Leads-by_cases :
      (p : PaymentPath) (seen list : List String) (asset_string asset : String) (amount : ℤ)
      → is_closed state max_path_length seen list asset_string amount ≡ false
      → EndsHere list asset_string asset amount p
        ⊎ LeadsOver p (asset_string ∷ seen) (list ++ asset ∷ []) amount (state.edges asset_string)
      → Leads p seen list asset_string asset amount
  Leads-by_cases p seen list asset_string asset amount c (inl e) =
      here seen list asset_string asset amount c e.0 e.1
  Leads-by_cases p seen list asset_string asset amount c (inr (edge, m, (n, a, z, k, b, l))) =
      along seen list asset_string asset amount edge a z c m n k b l

  -- A search that ends without an error finds exactly the payment paths that lead from its node.
  pub dfs-Finds :
      (fuel : ℕ) (seen list : List String) (asset_string asset : String) (amount : ℤ)
      (paths : List PaymentPath)
      → Finds
          (λ p. Leads p seen list asset_string asset amount)
          paths
          (dfs state max_path_length fuel seen list asset_string asset amount paths)
  unfolding dfs
  dfs-Finds zero seen list asset_string asset amount paths = tt
  dfs-Finds (suc fuel) seen list asset_string asset amount paths =
      let seen' = asset_string ∷ seen in
      let list' = list ++ asset ∷ [] in
      let es = state.edges asset_string in
      elim (is_closed state max_path_length seen list asset_string amount)
          as (λ b.
            is_closed state max_path_length seen list asset_string amount ≡ b
            → Finds (λ p. Leads p seen list asset_string asset amount) paths
                (elim b [
                  | true ↦ found paths
                  | false ↦
                      visit_edges state max_path_length (dfs state max_path_length fuel seen' list')
                        amount es
                        (append_to_paths state max_path_length list' asset_string amount paths)
                ])) [
                  | true ↦ λ c p. (
                    λ m. inl m,
                    λ s. elim s [
                      | inl a ↦ a
                      | inr l ↦ cc (c, open_node p seen list asset_string asset amount l)
                    ],
                  )
                  | false ↦ λ c.
                      same_kind _ _ paths _
                        (λ p. (
                          Leads-by_cases p seen list asset_string asset amount c,
                          Leads-cases p seen list asset_string asset amount,
                        ))
                        (one_after_other (EndsHere list asset_string asset amount)
                          (λ p. LeadsOver p seen' list' amount es) paths _ _
                          (append-Finds list asset_string asset amount paths)
                          (visit_edges-Finds seen' list' amount _ (dfs-Finds fuel seen' list') es
                            _))
                ]
        refl
