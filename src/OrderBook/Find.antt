-- ===== src/OrderBook/Find.antt =====
-- The offer of an id among the offers of a trading pair.
use aurorav1_11_0_test.Base.{
  ℕ, zero, suc, ◌≡◌, refl, true, ◌==◌, Bool-cases, inl, inr, if◌then◌else◌, Option, none, some,
  List, [], ◌∷◌, arith,
}
use aurorav1_11_0_test.OrderBook.{Offer, insert_at, insert_offer, take_out}
use aurorav1_11_0_test.OrderBook.Add.{swap_in_lem}

unfoldable pub find : ℕ → List Offer → Option Offer
find id [] = none
find id (o ∷ offers) = if o.offer_id == id then some o else find id offers

-- No id stands twice.
abbrev pub Unique : List Offer → Type 0
Unique [] = Unit {0}
Unique (o ∷ offers) = (find o.offer_id offers ≡ none) × Unique offers

find-insert_at :
    (k : ℕ) (x : Offer) (offers : List Offer) (j : ℕ)
    → find x.offer_id offers ≡ none
    → find j (insert_at k x offers) ≡ (if x.offer_id == j then some x else find j offers)
unfolding find insert_at
find-insert_at zero x offers j a = rw (swap_in_lem x offers) refl
find-insert_at (suc k) x [] j a = refl
find-insert_at (suc k) x (o ∷ offers) j a = ground (arith, a, find-insert_at k x offers j)

pub find-insert_offer :
    (x : Offer) (offers : List Offer) (j : ℕ)
    → find x.offer_id offers ≡ none
    → find j (insert_offer x offers) ≡ (if x.offer_id == j then some x else find j offers)
unfolding insert_offer
find-insert_offer x offers j a = find-insert_at _ x offers j a

insert_at-Unique :
    (k : ℕ) (x : Offer) (offers : List Offer)
    → find x.offer_id offers ≡ none
    → Unique offers
    → Unique (insert_at k x offers)
unfolding find insert_at
insert_at-Unique zero x offers a u = rw (swap_in_lem x offers) (a, u)
insert_at-Unique (suc k) x [] a u = (refl, tt)
insert_at-Unique (suc k) x (o ∷ offers) a u =
    let absent : find x.offer_id offers ≡ none = ground (arith, a) in
    (
      ground (arith, a, u.0, find-insert_at k x offers o.offer_id absent),
      insert_at-Unique k x offers absent u.1,
    )

pub insert_offer-Unique :
    (x : Offer) (offers : List Offer)
    → find x.offer_id offers ≡ none
    → Unique offers
    → Unique (insert_offer x offers)
unfolding insert_offer
insert_offer-Unique x offers a u = insert_at-Unique _ x offers a u

pub find-take_out :
    (id : ℕ) (offers : List Offer) (j : ℕ)
    → Unique offers
    → find j (take_out id offers).1 ≡ (if id == j then none else find j offers)
unfolding find take_out
find-take_out id [] j u = ground arith
find-take_out id (o ∷ offers) j u = ground (arith, u.0, find-take_out id offers j u.1)

pub take_out-Unique : (id : ℕ) (offers : List Offer) → Unique offers → Unique (take_out id offers).1
unfolding take_out find
take_out-Unique id [] u = tt
take_out-Unique id (o ∷ offers) u = elim (Bool-cases (o.offer_id == id)) [
  | inl e ↦ rw e u.1
  | inr e ↦
      rw e
        (ground (arith, u.0, find-take_out id offers o.offer_id u.1), take_out-Unique id offers u.1)
]

pub take_out-finds :
    (id : ℕ) (offers : List Offer) (o : Offer)
    → find id offers ≡ some o
    → (take_out id offers).0 ≡ true
unfolding find take_out
take_out-finds id [] o e = ground (arith, e)
take_out-finds id (x ∷ offers) o e = ground (arith, e, take_out-finds id offers o)
