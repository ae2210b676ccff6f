-- ===== src/OrderBook/Add.antt =====
-- Adding an offer to the offers of a trading pair, and removing it.
use Prim.Native.String.{String}
use aurorav1_11_0_test.Base.{
  ℕ, zero, suc, ◌≤◌, ◌<◌, ◌≡◌, refl, sym, ap, subst, Bool, true, false, List, [], ◌∷◌, length, Perm,
  arith,
}
use aurorav1_11_0_test.Base.Maps.{lookup, put, found_put, lookup-put}
use mathlib.Core.List.Perm
use text.Mathlib.Text.{◌==◌ as same}
use aurorav1_11_0_test.Price.{Price, cheaper}
use aurorav1_11_0_test.Price.Convert.{not_cheaper_trans}
use aurorav1_11_0_test.OrderBook.{
  Offer, EdgeSet, nth, costs_more, swap_in, insert_at, insert_offer, add, offers_or_nil,
}
use aurorav1_11_0_test.OrderBook.Search.{Turns, search-Turns}

-- No offer is cheaper than a price, or has a denominator that is not positive.
abbrev pub NoneCheaper : Price → List Offer → Type 0
NoneCheaper p [] = Unit {0}
NoneCheaper p (o ∷ offers) = (cheaper o.price p ≡ false) × (0 < o.price.d) × NoneCheaper p offers

abbrev pub Sorted : List Offer → Type 0
Sorted [] = Unit {0}
Sorted (o ∷ offers) = (0 < o.price.d) × NoneCheaper o.price offers × Sorted offers

pub swap_in_lem : (x : Offer) (offers : List Offer) → swap_in x offers ≡ x ∷ offers
unfolding swap_in
swap_in_lem x [] = refl
swap_in_lem x (o ∷ offers) = ap (λ l. x ∷ l) (swap_in_lem o offers)

module _ (x : Offer) (positive : 0 < x.price.d) where
  insert_at-Perm : (i : ℕ) (offers : List Offer) → Perm (insert_at i x offers) (x ∷ offers)
  unfolding insert_at
  insert_at-Perm zero offers = rw (swap_in_lem x offers) Perm.rfl
  insert_at-Perm (suc i) [] = Perm.rfl
  insert_at-Perm (suc i) (o ∷ offers) =
      Perm.trans (Perm.cons o (insert_at-Perm i offers)) (Perm.swap x o offers)

  insert_at-NoneCheaper :
      (p : Price) (i : ℕ) (offers : List Offer)
      → cheaper x.price p ≡ false
      → NoneCheaper p offers
      → NoneCheaper p (insert_at i x offers)
  unfolding insert_at
  insert_at-NoneCheaper p zero offers e c = rw (swap_in_lem x offers) (e, positive, c)
  insert_at-NoneCheaper p (suc i) [] e c = (e, positive, tt)
  insert_at-NoneCheaper p (suc i) (o ∷ offers) e c =
      (c.0, c.1, insert_at-NoneCheaper p i offers e c.2)

  abbrev test : List Offer → ℕ → Bool
  test offers i = costs_more x.price (nth offers i)

  -- A cheaper price than that of an offer is not dearer than it.
  asymmetric : (o : Offer) → cheaper x.price o.price ≡ true → cheaper o.price x.price ≡ false
  unfolding cheaper
  asymmetric o e = ground (arith, e)

  all_dearer :
      (offers : List Offer)
      → Sorted offers
      → ((a : ℕ) → a < length offers → test offers a ≡ true)
      → NoneCheaper x.price offers
  all_dearer [] s t = tt
  all_dearer (o ∷ offers) s t = (
    asymmetric o (t 0 (omega arith)),
    s.0,
    all_dearer offers s.2 (λ a l. t (suc a) (omega (arith, l))),
  )

  insert_at-Sorted :
      (k : ℕ) (offers : List Offer)
      → Sorted offers
      → Turns (test offers) (length offers) k
      → Sorted (insert_at k x offers)
  unfolding insert_at
  insert_at-Sorted zero offers s t =
      rw (swap_in_lem x offers) (positive, all_dearer offers s (λ a l. t.2 a (omega arith) l), s)
  insert_at-Sorted (suc k) [] s t = (positive, tt, tt)
  insert_at-Sorted (suc k) (o ∷ offers) s t = (
    s.0,
    insert_at-NoneCheaper o.price k offers (t.1 0 (omega arith)) s.1,
    insert_at-Sorted k offers s.2 (
      omega (arith, t.0),
      λ a l. t.1 (suc a) (omega (arith, l)),
      λ a l m. t.2 (suc a) (omega (arith, l)) (omega (arith, m)),
    ),
  )

  later_dearer :
      (p : Price) (b : ℕ) (offers : List Offer)
      → NoneCheaper p offers
      → cheaper x.price p ≡ true
      → b < length offers
      → test offers b ≡ true
  later_dearer p b [] c e l = absurd (omega (arith, l))
  later_dearer p zero (o ∷ offers) c e l =
      ground (arith, e, c.0, not_cheaper_trans p o.price x.price c.1 c.0)
  later_dearer p (suc b) (o ∷ offers) c e l = later_dearer p b offers c.2 e (omega (arith, l))

  test-stays :
      (offers : List Offer)
      → Sorted offers
      → (a b : ℕ) → a ≤ b
      → b < length offers
      → test offers a ≡ true
      → test offers b ≡ true
  test-stays [] s a b le l e = absurd (omega (arith, l))
  test-stays (o ∷ offers) s zero zero le l e = e
  test-stays (o ∷ offers) s zero (suc b) le l e =
      later_dearer o.price b offers s.1 e (omega (arith, l))
  test-stays (o ∷ offers) s (suc a) zero le l e = absurd (omega (arith, le))
  test-stays (o ∷ offers) s (suc a) (suc b) le l e =
      test-stays offers s.2 a b (omega (arith, le)) (omega (arith, l)) e

  pub insert_offer-Sorted : (offers : List Offer) → Sorted offers → Sorted (insert_offer x offers)
  unfolding insert_offer
  insert_offer-Sorted offers s =
      insert_at-Sorted _ offers s (search-Turns (test offers) (length offers) (test-stays offers s))

  insert_offer-Perm : (offers : List Offer) → Perm (insert_offer x offers) (x ∷ offers)
  unfolding insert_offer
  insert_offer-Perm offers = insert_at-Perm _ offers

-- The offers of a key.
abbrev pub offers_at : String → EdgeSet → List Offer
offers_at key e = offers_or_nil (lookup key e)

-- An offer whose price has a positive denominator is added to sorted offers so that they stay sorted,
-- with the offers of all other keys as they were.
add-Sorted :
    (key : String) (x : Offer) (e : EdgeSet)
    → 0 < x.price.d
    → Sorted (offers_at key e)
    → Sorted (offers_at key (add key x e))
      × Perm (offers_at key (add key x e)) (x ∷ offers_at key e)
      × ((j : String) → same key j ≡ false → lookup j (add key x e) ≡ lookup j e)
unfolding add
add-Sorted key x e positive s =
    let offers = offers_at key e in
    let new = insert_offer x offers in
    let at : offers_at key (put key new e) ≡ new = ap offers_or_nil (found_put key new e) in
    (
      subst Sorted (sym at) (insert_offer-Sorted x positive offers s),
      subst (λ l. Perm l (x ∷ offers)) (sym at) (insert_offer-Perm x positive offers),
      λ j d. ground (arith, d, lookup-put key j new e),
    )
