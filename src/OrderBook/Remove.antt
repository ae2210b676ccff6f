-- ===== src/OrderBook/Remove.antt =====
-- Removing an offer from the offers of a trading pair.
use Prim.Native.String.{String}
use aurorav1_11_0_test.Base.{
  ℕ, zero, suc, ◌≡◌, refl, sym, ap, subst, ◌∙◌, true, false, ◌==◌, if◌then◌else◌, if-holds,
  Bool-cases, inl, inr, List, [], ◌∷◌, arith, Perm, ==_iff, Bool,
}
use aurorav1_11_0_test.Base.Maps.{put, found_put, lookup-put, lookup-delete}
use mathlib.Core.List.Perm
use aurorav1_11_0_test.Price.{Price}
use text.Mathlib.Text.{◌==◌ as same}
use text.Mathlib.TextEquality.{eq_iff}
use aurorav1_11_0_test.OrderBook.{
  Offer, EdgeSet, insert_at, insert_offer, add, take_out, put_back, remove, offers_or_nil,
}
use aurorav1_11_0_test.OrderBook.Add.{NoneCheaper, Sorted, offers_at, swap_in_lem}

-- No offer has the id.
abbrev pub Absent : ℕ → List Offer → Type 0
Absent id [] = Unit {0}
Absent id (o ∷ offers) = ((o.offer_id == id) ≡ false) × Absent id offers

own : (n : ℕ) → (n == n) ≡ true
own n = ground arith

take_out-insert_at :
    (k : ℕ) (x : Offer) (offers : List Offer)
    → Absent x.offer_id offers
    → take_out x.offer_id (insert_at k x offers) ≡ (true, offers)
unfolding take_out insert_at
take_out-insert_at zero x offers a = rw (swap_in_lem x offers, own x.offer_id) refl
take_out-insert_at (suc k) x [] a = rw (own x.offer_id) refl
take_out-insert_at (suc k) x (o ∷ offers) a = rw (a.0, take_out-insert_at k x offers a.1) refl

take_out-insert_offer :
    (x : Offer) (offers : List Offer)
    → Absent x.offer_id offers
    → take_out x.offer_id (insert_offer x offers) ≡ (true, offers)
unfolding insert_offer
take_out-insert_offer x offers a = take_out-insert_at _ x offers a

pub offers_at-put_back :
    (key j : String) (offers : List Offer) (e : EdgeSet)
    → offers_at j (put_back key (true, offers) e).1 ≡ (if same key j then offers else offers_at j e)
offers_at-put_back key j [] e = ground (arith, lookup-delete key j e)
offers_at-put_back key j (o ∷ offers) e = ground (arith, lookup-put key j (o ∷ offers) e)

pub put_back-true :
    (key : String) (offers : List Offer) (e : EdgeSet) → (put_back key (true, offers) e).0 ≡ true
put_back-true key [] e = refl
put_back-true key (o ∷ offers) e = refl

-- What was put at a key and then replaced.
replaced :
    (key j : String) (new : List Offer) (e : EdgeSet)
    → (if same key j then offers_at key e else offers_at j (put key new e)) ≡ offers_at j e
replaced key j new e = elim (Bool-cases (same key j)) [
  | inl s ↦ rw s (ap (λ k. offers_at k e) ((eq_iff key j).0 s))
  | inr s ↦ rw s (ground (arith, s, lookup-put key j new e))
]

-- An offer whose id was not there is removed again: every key has the offers that it had.
remove-add :
    (key : String) (x : Offer) (e : EdgeSet)
    → Absent x.offer_id (offers_at key e)
    → let r = remove x.offer_id key (add key x e) in
      (r.0 ≡ true) × ((j : String) → offers_at j r.1 ≡ offers_at j e)
unfolding remove add
remove-add key x e a =
    let offers = offers_at key e in
    let new = insert_offer x offers in
    let taken : take_out x.offer_id (offers_at key (put key new e)) ≡ (true, offers) =
      ap (take_out x.offer_id) (ap offers_or_nil (found_put key new e))
      ∙ take_out-insert_offer x offers a in
    subst
      (λ r.
        let s = put_back key r (put key new e) in
        (s.0 ≡ true) × ((j : String) → offers_at j s.1 ≡ offers_at j e))
      (sym taken)
      (
        put_back-true key offers (put key new e),
        λ j. offers_at-put_back key j offers (put key new e) ∙ replaced key j new e,
      )

-- What stays is as cheap, and as sorted.
abbrev Orderly : List Offer → List Offer → Type 0
Orderly offers left =
    ((p : Price) → NoneCheaper p offers → NoneCheaper p left) × (Sorted offers → Sorted left)

data TakenOut (id : ℕ) (offers : List Offer) : Bool × List Offer → Type 0 where
  taken :
      (o : Offer) (left : List Offer)
      → o.offer_id ≡ id
      → Perm offers (o ∷ left)
      → Orderly offers left
      → TakenOut id offers (true, left)
  missing : (left : List Offer) → Absent id offers → TakenOut id offers (false, left)

pass :
    (id : ℕ) (o : Offer) (offers : List Offer) (r : Bool × List Offer)
    → (o.offer_id == id) ≡ false
    → TakenOut id offers r
    → TakenOut id (o ∷ offers) (r.0, o ∷ r.1)
pass id o offers _ n (taken x left i p k) =
    taken x (o ∷ left) i (Perm.trans (Perm.cons o p) (Perm.swap x o left))
      (λ q c. (c.0, c.1, k.0 q c.2), λ s. (s.0, k.0 o.price s.1, k.1 s.2))
pass id o offers _ n (missing left a) = missing (o ∷ left) (n, a)

take_out-TakenOut : (id : ℕ) (offers : List Offer) → TakenOut id offers (take_out id offers)
unfolding take_out
take_out-TakenOut id [] = missing [] tt
take_out-TakenOut id (o ∷ offers) = elim (Bool-cases (o.offer_id == id)) [
  | inl e ↦ rw e (taken o offers ((==_iff o.offer_id id).0 e) Perm.rfl (λ q c. c.2, λ s. s.2))
  | inr e ↦ rw e (pass id o offers (take_out id offers) e (take_out-TakenOut id offers))
]

-- The outcomes of a removal.
pub data Removed (id : ℕ) (key : String) (e : EdgeSet) : Bool × EdgeSet → Type 0 where
  removed :
      (o : Offer) (e' : EdgeSet)
      → o.offer_id ≡ id
      → Perm (offers_at key e) (o ∷ offers_at key e')
      → (Sorted (offers_at key e) → Sorted (offers_at key e'))
      → ((j : String) → same key j ≡ false → offers_at j e' ≡ offers_at j e)
      → Removed id key e (true, e')
  not_there : Absent id (offers_at key e) → Removed id key e (false, e)

put_back-Removed :
    (id : ℕ) (key : String) (e : EdgeSet) (r : Bool × List Offer)
    → TakenOut id (offers_at key e) r
    → Removed id key e (put_back key r e)
put_back-Removed id key e _ (missing left a) = not_there a
put_back-Removed id key e _ (taken o left i p k) =
    let r = put_back key (true, left) e in
    let at : offers_at key r.1 ≡ left =
      offers_at-put_back key key left e ∙ ground (arith, eq_iff key key) in
    subst (λ b. Removed id key e (b, r.1)) (sym (put_back-true key left e))
      (removed o r.1 i (subst (λ l. Perm (offers_at key e) (o ∷ l)) (sym at) p)
        (λ s. subst Sorted (sym at) (k.1 s))
        (λ j d. offers_at-put_back key j left e ∙ ground (arith, d)))

-- A removal takes an offer with the id out of the offers of its key, where sorted offers stay sorted
-- and the other keys keep theirs; or no offer there has the id, and nothing is changed.
remove-Removed : (id : ℕ) (key : String) (e : EdgeSet) → Removed id key e (remove id key e)
unfolding remove
remove-Removed id key e = put_back-Removed id key e _ (take_out-TakenOut id (offers_at key e))

take_out-NoneCheaper :
    (p : Price) (id : ℕ) (offers : List Offer)
    → NoneCheaper p offers
    → NoneCheaper p (take_out id offers).1
unfolding take_out
take_out-NoneCheaper p id [] c = tt
take_out-NoneCheaper p id (o ∷ offers) c =
    if-holds (λ (r : Bool × List Offer). NoneCheaper p r.1) (o.offer_id == id) c.2
      (c.0, c.1, take_out-NoneCheaper p id offers c.2)

pub take_out-Sorted : (id : ℕ) (offers : List Offer) → Sorted offers → Sorted (take_out id offers).1
unfolding take_out
take_out-Sorted id [] s = tt
take_out-Sorted id (o ∷ offers) s =
    if-holds (λ (r : Bool × List Offer). Sorted r.1) (o.offer_id == id) s.2
      (s.0, take_out-NoneCheaper o.price id offers s.1, take_out-Sorted id offers s.2)
