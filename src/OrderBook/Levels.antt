-- ===== src/OrderBook/Levels.antt =====
-- The offers that `findOffers` gives for a number of price levels.
use Prim.Native.String.{String}
use aurorav1_11_0_test.Base.{
  ℕ, suc, ◌-◌, ◌≤◌, ◌<◌, ◌≡◌, inl, inr, refl, ap, true, false, ltb, tests, Bool-cases,
  if◌then◌else◌, Option, none, some, Option-cases, List, [], ◌∷◌, ◌++◌, arith,
}
use aurorav1_11_0_test.Base.Maps.{Map, lookup}
use aurorav1_11_0_test.Price.{Price}
use aurorav1_11_0_test.OrderBook.{
  Offer, EdgeSet, offers_or_nil, same_price, take_levels, find_offers,
}

-- How many price levels offers open, after an offer of a price.
abbrev pub levels_after : Option Price → List Offer → ℕ
levels_after last [] = 0
levels_after last (o ∷ offers) =
    let rest = levels_after (some o.price) offers in
    if same_price last o.price then rest else suc rest

abbrev pub last_price : Option Price → List Offer → Option Price
last_price last [] = last
last_price last (o ∷ offers) = last_price (some o.price) offers

-- What is left out: nothing, or offers that begin with a new price, where all levels are used.
abbrev pub LeftOut : ℕ → Option Price → List Offer → List Offer → Type 0
LeftOut levels last taken [] = levels_after last taken ≤ levels
LeftOut levels last taken (o ∷ rest) =
    (levels_after last taken ≡ levels) × (same_price (last_price last taken) o.price ≡ false)

-- An offer before: of the last price, or of a new one.
same_level :
    (levels : ℕ) (last : Option Price) (o : Offer) (taken rest : List Offer)
    → same_price last o.price ≡ true
    → LeftOut levels (some o.price) taken rest
    → LeftOut levels last (o ∷ taken) rest
same_level levels last o taken [] s l = rw s l
same_level levels last o taken (r ∷ rest) s l = rw s l

next_level :
    (levels : ℕ) (last : Option Price) (o : Offer) (taken rest : List Offer)
    → 0 < levels
    → same_price last o.price ≡ false
    → LeftOut (levels - 1) (some o.price) taken rest
    → LeftOut levels last (o ∷ taken) rest
next_level levels last o taken [] p s l = rw s (omega (arith, p, l))
next_level levels last o taken (r ∷ rest) p s l = rw s (omega (arith, p, l.0), l.1)

-- The loop splits the offers.
take_levels-LeftOut :
    (levels : ℕ) (last : Option Price) (offers : List Offer)
    → let taken = take_levels levels last offers in
      (rest : List Offer) × (offers ≡ taken ++ rest) × LeftOut levels last taken rest
unfolding take_levels
take_levels-LeftOut levels last [] = ([], refl, omega arith)
take_levels-LeftOut levels last (o ∷ offers) =
    let old = take_levels-LeftOut levels (some o.price) offers in
    let new = take_levels-LeftOut (levels - 1) (some o.price) offers in
    elim (Bool-cases (same_price last o.price)) [
      | inl s ↦ rw s (old.0, ap (λ l. o ∷ l) old.1, same_level levels last o _ old.0 s old.2)
      | inr s ↦ elim (Bool-cases (ltb 0 levels)) [
        | inl p ↦
            rw (s, p)
              (
                new.0,
                ap (λ l. o ∷ l) new.1,
                next_level levels last o _ new.0 (omega (tests, p)) s new.2,
              )
        | inr p ↦ rw (s, p) (o ∷ offers, refl, (ground (arith, p), s))
      ]
    ]

abbrev pub pair_offers : String → Option EdgeSet → List Offer
pair_offers buying none = []
pair_offers buying (some e) = offers_or_nil (lookup buying e)

-- The offers found are the first ones of the trading pair, of at most the given number of price levels;
-- if some are left out, then all levels are used and the next offer would open one more.
find_offers-LeftOut :
    (selling buying : String) (max_price_levels : ℕ) (edges : Map EdgeSet)
    → let taken = find_offers selling buying max_price_levels edges in
      (rest : List Offer) × (pair_offers buying (lookup selling edges) ≡ taken ++ rest)
      × LeftOut max_price_levels none taken rest
unfolding find_offers
find_offers-LeftOut selling buying max_price_levels edges =
    elim (Option-cases (lookup selling edges)) [
      | inl e ↦ rw (e, find_offers) ([], refl, omega arith)
      | inr (s, e) ↦
          rw (e, find_offers)
            (take_levels-LeftOut max_price_levels none (offers_or_nil (lookup buying s)))
    ]
