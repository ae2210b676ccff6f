-- ===== src/OrderBook/Edges.antt =====
-- The offers of each trading pair in a map of edge sets.
use Prim.Native.String.{String}
use aurorav1_11_0_test.Base.{
  ℕ, ◌≡◌, refl, ap, ◌∙◌, Bool, true, false, ◌&&◌, Bool-cases, inl, inr, if◌then◌else◌, some,
  Option-cases, List, [], ◌∷◌, arith,
}
use aurorav1_11_0_test.Base.Maps.{Map, lookup, put, delete, lookup-put, lookup-delete}
use text.Mathlib.Text.{◌==◌ as same}
use text.Mathlib.TextEquality.{eq_iff}
use aurorav1_11_0_test.OrderBook.{Offer, EdgeSet, insert_offer, take_out, put_back, offers_or_nil}
use aurorav1_11_0_test.OrderBook
use aurorav1_11_0_test.OrderBook.Add.{offers_at}
use aurorav1_11_0_test.OrderBook.Remove.{offers_at-put_back}
use aurorav1_11_0_test.OrderBook.Find.{find, take_out-finds}
use aurorav1_11_0_test.OrderBook.Graph.{set_or_new, add_edge, keep_set, remove_edge}

-- The offers under two assets.
abbrev pub offers_for : Map EdgeSet → String → String → List Offer
offers_for m s b = offers_at b (set_or_new (lookup s m))

abbrev pub same_pair : String → String → String → String → Bool
same_pair s b s' b' = same s s' && same b b'

offers_at-add :
    (key j : String) (x : Offer) (e : EdgeSet)
    → offers_at j (OrderBook.add key x e)
      ≡ (if same key j then insert_offer x (offers_at key e) else offers_at j e)
unfolding OrderBook.add
offers_at-add key j x e = ground (arith, lookup-put key j (insert_offer x (offers_at key e)) e)

set_or_new-put :
    (s s' : String) (e : EdgeSet) (m : Map EdgeSet)
    → set_or_new (lookup s' (put s e m)) ≡ (if same s s' then e else set_or_new (lookup s' m))
set_or_new-put s s' e m = ground (arith, lookup-put s s' e m)

-- What a set is replaced with.
set_or_new-keep_set :
    (s : String) (e : EdgeSet) (m : Map EdgeSet)
    → (m' : Map EdgeSet) × (keep_set s (true, e) m ≡ some m')
      × ((s' : String)
          → set_or_new (lookup s' m') ≡ (if same s s' then e else set_or_new (lookup s' m)))
set_or_new-keep_set s [] m = (delete s m, refl, λ s'. ground (arith, lookup-delete s s' m))
set_or_new-keep_set s (x ∷ e) m = (put s (x ∷ e) m, refl, λ s'. set_or_new-put s s' (x ∷ e) m)

-- What the offers of the pairs are when one set has changed at one key.
changed :
    (s b s' b' : String) (l : List Offer) (e : EdgeSet) (m m' : Map EdgeSet)
    → set_or_new (lookup s' m') ≡ (if same s s' then e else set_or_new (lookup s' m))
    → ((j : String)
        → offers_at j e ≡ (if same b j then l else offers_at j (set_or_new (lookup s m))))
    → offers_for m' s' b' ≡ (if same_pair s b s' b' then l else offers_for m s' b')
changed s b s' b' l e m m' at inner = ap (offers_at b') at ∙ (elim (Bool-cases (same s s')) [
  | inl h ↦
      rw h (inner b' ∙ ap (λ t. if same b b' then l else offers_for m t b') ((eq_iff s s').0 h))
  | inr h ↦ rw h refl
])

-- A pair's offers after an addition.
pub offers_for-add_edge :
    (s b s' b' : String) (x : Offer) (m : Map EdgeSet)
    → offers_for (add_edge s b x m) s' b'
      ≡ (if same_pair s b s' b' then insert_offer x (offers_for m s b) else offers_for m s' b')
unfolding add_edge
offers_for-add_edge s b s' b' x m =
    let e = OrderBook.add b x (set_or_new (lookup s m)) in
    changed s b s' b' _ e m (put s e m) (set_or_new-put s s' e m)
      (λ j. offers_at-add b j x (set_or_new (lookup s m)))

-- What a removal of the set's offer gives.
remove_taken :
    (id : ℕ) (b : String) (e : EdgeSet) (r : Bool × List Offer)
    → r.0 ≡ true
    → (e' : EdgeSet) × (put_back b r e ≡ (true, e'))
      × ((j : String) → offers_at j e' ≡ (if same b j then r.1 else offers_at j e))
remove_taken id b e (true, []) t = (delete b e, refl, λ j. offers_at-put_back b j [] e)
remove_taken id b e (true, o ∷ l) t = (put b (o ∷ l) e, refl, λ j. offers_at-put_back b j (o ∷ l) e)
remove_taken id b e (false, l) t = cc (t)

found_set :
    (s b : String) (id : ℕ) (m : Map EdgeSet)
    → remove_edge s b id m ≡ keep_set s (OrderBook.remove id b (set_or_new (lookup s m))) m
unfolding remove_edge OrderBook.remove
found_set s b id m = elim (Option-cases (lookup s m)) [
  | inl e ↦ cc (e)
  | inr (x, e) ↦ rw (e, remove_edge) refl
]

-- A pair's offers after the removal of an offer that it has.
pub offers_for-remove_edge :
    (s b : String) (id : ℕ) (o : Offer) (m : Map EdgeSet)
    → find id (offers_for m s b) ≡ some o
    → (m' : Map EdgeSet) × (remove_edge s b id m ≡ some m')
      × ((s' b' : String)
          → offers_for m' s' b' ≡ (
              if same_pair s b s' b'
              then (take_out id (offers_for m s b)).1
              else offers_for m s' b'))
unfolding OrderBook.remove
offers_for-remove_edge s b id o m f =
    let e = set_or_new (lookup s m) in
    let taken = remove_taken id b e (take_out id (offers_at b e)) (take_out-finds id _ o f) in
    let kept = set_or_new-keep_set s taken.0 m in
    (
      kept.0,
      found_set s b id m ∙ (ap (λ r. keep_set s r m) taken.1 ∙ kept.1),
      λ s' b'. changed s b s' b' _ taken.0 m kept.0 (kept.2 s') taken.2,
    )
