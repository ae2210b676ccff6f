-- ===== src/Paths/Selling.antt =====
-- Selling an amount to a list of offers.
use Prim.Native.String.{String}
use aurorav1_11_0_test.Base.{
  ℕ, ◌+◌, ◌-◌, ◌*◌, ◌%◌, ◌^◌, ◌≤◌, ◌<◌, ◌≡◌, refl, sym, subst, Bool, true, false, ltb, leb, ◌==◌,
  Bool-cases, inl, inr, if◌then◌else◌, if-holds, Option, List, [], ◌∷◌, arith,
}
use aurorav1_11_0_test.Price.{
  Result, ◌>>=◌, min, mul_fraction_round_down, mul_fraction_round_up, rounded_back, selling_bound,
  convert_to_buying_units,
}
use aurorav1_11_0_test.Price
use aurorav1_11_0_test.Price.Convert.{IsCeiling, convert_to_buying_units_lem}
use aurorav1_11_0_test.Price.Overflow.{CostsTooMuch, convert_to_buying_units-CostsTooMuch}
use aurorav1_11_0_test.OrderBook.{Offer}
use aurorav1_11_0_test.Paths.{
  Consumed, ok, skipped, int64, add_64, is_ignored, converted, bought_units, sold_units, sell_loop,
  consume_offers_for_selling_asset,
}

-- The amount and the price of an offer are positive int64 and int32.
pub record IsOffer (o : Offer) : Type 0 where
  pub amount : o.amount < 2 ^ 63
  pub n_positive : 0 < o.price.n
  pub n : o.price.n < 2 ^ 31
  pub d_positive : 0 < o.price.d
  pub d : o.price.d < 2 ^ 31

abbrev pub AreOffers : List Offer → Type 0
AreOffers [] = Unit {0}
AreOffers (o ∷ offers) = IsOffer o × AreOffers offers

-- The exchanges with the first offers, in their order and but for the ignored ones, as pairs of what is
-- received and given.
pub data Exchanged (ignore : Option String) : List Offer → List (ℕ × ℕ) → Type 0 where
  all : {offers : List Offer} → Exchanged ignore offers []
  none_with :
      {o : Offer} {offers : List Offer} {units : List (ℕ × ℕ)}
      → is_ignored ignore o ≡ true
      → Exchanged ignore offers units
      → Exchanged ignore (o ∷ offers) units
  some_with :
      {o : Offer} {offers : List Offer} {units : List (ℕ × ℕ)} (bought sold : ℕ)
      → is_ignored ignore o ≡ false
      → sold ≤ o.amount
      → IsCeiling bought (sold * o.price.n) o.price.d
      → Exchanged ignore offers units
      → Exchanged ignore (o ∷ offers) ((bought, sold) ∷ units)

abbrev pub all_bought : List (ℕ × ℕ) → ℕ
all_bought [] = 0
all_bought ((b, s) ∷ units) = b + all_bought units

abbrev pub all_sold : List (ℕ × ℕ) → ℕ
all_sold [] = 0
all_sold ((b, s) ∷ units) = s + all_sold units

-- A result that is not a division by 0.
abbrev pub Divides : {A : Type 0} → Result A → Type 0
Divides (Price.ok x) = Unit {0}
Divides (Price.err Price.overflow) = Unit {0}
Divides (Price.err Price.division_by_zero) = ⊥

bind-Divides :
    {A B : Type 0} (r : Result A) (f : A → Result B)
    → Divides r
    → ((x : A) → Divides (f x))
    → Divides (r >>= f)
bind-Divides (Price.ok x) f d h = h x
bind-Divides (Price.err Price.overflow) f d h = tt
bind-Divides (Price.err Price.division_by_zero) f d h = d

-- The end of both roundings.
quotient-Divides :
    (b c : Bool) (q : ℕ)
    → Divides
        (if b then Price.err Price.overflow else if c then Price.err Price.overflow else Price.ok q)
quotient-Divides true c q = tt
quotient-Divides false true q = tt
quotient-Divides false false q = tt

pub not_zero : (d : ℕ) → 0 < d → (d == 0) ≡ false
not_zero d positive = ground (arith, positive)

pub down-Divides : (x n d : ℕ) → 0 < d → Divides (mul_fraction_round_down x n d)
unfolding mul_fraction_round_down
down-Divides x n d positive = rw (not_zero d positive) (quotient-Divides _ _ _)

up-Divides : (x n d : ℕ) → 0 < d → Divides (mul_fraction_round_up x n d)
unfolding mul_fraction_round_up
up-Divides x n d positive = rw (not_zero d positive) (quotient-Divides _ _ _)

-- A conversion at a positive price does not divide by 0.
pub convert-Divides :
    (amount needed n d : ℕ) → 0 < n → 0 < d → Divides (convert_to_buying_units amount needed n d)
unfolding convert_to_buying_units selling_bound rounded_back
convert-Divides amount needed n d pn pd =
    bind-Divides (selling_bound amount n d) _
      (if-holds Divides (leb n d)
        (bind-Divides (mul_fraction_round_down amount n d) _ (down-Divides amount n d pd)
          (λ p. up-Divides p d n pn))
        tt)
      (λ b.
        bind-Divides (mul_fraction_round_up (min b needed) n d) _ (up-Divides (min b needed) n d pd)
          (λ q. tt))

-- Why an amount is not sold: all offers are used up, each of them ignored or for less than what is left, or
-- what one of them gives costs more than an int64.
pub data NotSold (ignore : Option String) : List Offer → ℕ → Type 0 where
  used_up : {amount : ℕ} → NotSold ignore [] amount
  passed_over :
      {o : Offer} {offers : List Offer} {amount : ℕ}
      → is_ignored ignore o ≡ true
      → NotSold ignore offers amount
      → NotSold ignore (o ∷ offers) amount
  too_dear :
      {o : Offer} {offers : List Offer} {amount : ℕ}
      → is_ignored ignore o ≡ false
      → CostsTooMuch o.amount amount o.price.n o.price.d
      → NotSold ignore (o ∷ offers) amount
  taken :
      {o : Offer} {offers : List Offer} {amount : ℕ} (bought sold : ℕ)
      → is_ignored ignore o ≡ false
      → sold < amount
      → convert_to_buying_units o.amount amount o.price.n o.price.d ≡ Price.ok (bought, sold)
      → NotSold ignore offers (amount - sold)
      → NotSold ignore (o ∷ offers) amount

-- The outcomes of selling an amount: the offers do not suffice or overflow, or all of it is sold in
-- exchanges, and their total is returned in 64 bits.
pub data Sold (ignore : Option String) (offers : List Offer) (total amount : ℕ)
    : Consumed → Type 0 where
  not_sold : NotSold ignore offers amount → Sold ignore offers total amount skipped
  sold_all :
      (units : List (ℕ × ℕ))
      → Exchanged ignore offers units
      → all_sold units ≡ amount
      → Sold ignore offers total amount (ok (int64 ((total + all_bought units) % 2 ^ 64)))

pub overflow-CostsTooMuch :
    (o : Offer) (needed : ℕ)
    → IsOffer o
    → convert_to_buying_units o.amount needed o.price.n o.price.d ≡ Price.err Price.overflow
    → CostsTooMuch o.amount needed o.price.n o.price.d
overflow-CostsTooMuch o needed v e =
    convert_to_buying_units-CostsTooMuch o.amount needed o.price.n o.price.d v.amount v.n_positive
      (omega (arith, v.n)) v.d_positive (omega (arith, v.d)) e

module _ (ignore : Option String) where
  later :
      (o : Offer) (offers : List Offer) (total amount : ℕ) (r : Consumed)
      → is_ignored ignore o ≡ true
      → Sold ignore offers total amount r
      → Sold ignore (o ∷ offers) total amount r
  later o offers total amount _ i (not_sold n) = not_sold (passed_over i n)
  later o offers total amount _ i (sold_all units x e) = sold_all units (none_with i x) e

  -- An exchange with the offer, and then with the others.
  with_offer :
      (o : Offer) (offers : List Offer) (total amount b s : ℕ) (r : Consumed)
      → is_ignored ignore o ≡ false
      → (s ≤ amount) × (s ≤ o.amount) × IsCeiling b (s * o.price.n) o.price.d × (b < 2 ^ 63)
      → s < amount
      → convert_to_buying_units o.amount amount o.price.n o.price.d ≡ Price.ok (b, s)
      → Sold ignore offers (add_64 total b) (amount - s) r
      → Sold ignore (o ∷ offers) total amount r
  with_offer o offers total amount b s _ i c lt conv (not_sold n) = not_sold (taken b s i lt conv n)
  with_offer o offers total amount b s _ i c lt conv (sold_all units x e) =
      subst (λ w. Sold ignore (o ∷ offers) total amount (ok (int64 w))) (omega arith)
        (sold_all ((b, s) ∷ units) (some_with b s i c.1 c.2 x) (omega (arith, e, c.0)))

  converted-Sold :
      (o : Offer) (offers : List Offer) (total amount : ℕ) (r : Result (ℕ × ℕ))
      (next : ℕ → ℕ → Consumed)
      → is_ignored ignore o ≡ false
      → Divides r
      → (r ≡ Price.err Price.overflow → CostsTooMuch o.amount amount o.price.n o.price.d)
      → r ≡ convert_to_buying_units o.amount amount o.price.n o.price.d
      → ((b s : ℕ)
          → r ≡ Price.ok (b, s)
          → (s ≤ amount) × (s ≤ o.amount) × IsCeiling b (s * o.price.n) o.price.d × (b < 2 ^ 63))
      → ((t a : ℕ) → Sold ignore offers t a (next t a))
      → Sold ignore
          (o ∷ offers)
          total
          amount
          (converted r bought_units sold_units total amount next)
  converted-Sold o offers total amount (Price.err Price.overflow) next i d x same c n =
      not_sold (too_dear i (x refl))
  converted-Sold o offers total amount (Price.err Price.division_by_zero) next i d x same c n =
      absurd d
  converted-Sold o offers total amount (Price.ok (b, s)) next i d x same c n =
      let bounds = c b s refl in
      elim (Bool-cases (amount == s)) [
        | inl e ↦ rw e (
            subst (λ w. Sold ignore (o ∷ offers) total amount (ok (int64 w))) (omega arith)
              (sold_all ((b, s) ∷ []) (some_with b s i bounds.1 bounds.2 all) (ground (arith, e))))
        | inr e ↦
            let enough : ltb amount s ≡ false = ground (arith, bounds.0) in
            rw (e, enough)
              (with_offer o offers total amount b s _ i bounds (ground (arith, e, bounds.0))
                (sym same) (n (add_64 total b) (amount - s)))
      ]

  sell_loop-Sold :
      (offers : List Offer) (total amount : ℕ)
      → AreOffers offers
      → Sold ignore offers total amount (sell_loop ignore offers total amount)
  unfolding sell_loop
  sell_loop-Sold [] total amount v = not_sold used_up
  sell_loop-Sold (o ∷ offers) total amount v =
      elim (is_ignored ignore o)
          as (λ b.
            is_ignored ignore o ≡ b
            → Sold ignore (o ∷ offers) total amount (elim b [
              | true ↦ sell_loop ignore offers total amount
              | false ↦
                  converted (convert_to_buying_units o.amount amount o.price.n o.price.d)
                    bought_units sold_units total amount (sell_loop ignore offers)
            ])) [
              | true ↦ λ e. later o offers total amount _ e (sell_loop-Sold offers total amount v.1)
              | false ↦ λ e.
                  converted-Sold o offers total amount _ _ e
                    (convert-Divides o.amount amount o.price.n o.price.d v.0.n_positive
                      v.0.d_positive)
                    (overflow-CostsTooMuch o amount v.0) refl
                    (λ b s h.
                      convert_to_buying_units_lem o.amount amount o.price.n o.price.d v.0.amount
                        (omega (arith, v.0.n)) (omega (arith, v.0.d)) h)
                    (λ t a. sell_loop-Sold offers t a v.1)
            ]
        refl

  -- A positive amount that is sold to offers with int64 amounts and positive int32 prices is all sold to the first of them that are not ignored,
  -- in their order, at most what each has and at its price rounded up, and the total, in 64 bits, is what is
  -- returned; or the result is -1, and then every offer in order is ignored or takes less than what is
  -- left, what the conversion gives for it, to the last one or to one of which some units cost more than
  -- an int64. There is no error.
  pub sell-Sold :
      (o : Offer) (offers : List Offer) (amount : ℕ)
      → AreOffers (o ∷ offers)
      → 0 < amount
      → Sold ignore
          (o ∷ offers)
          0
          amount
          (consume_offers_for_selling_asset ignore (o ∷ offers) amount)
  unfolding consume_offers_for_selling_asset
  sell-Sold o offers amount v positive =
      rw (not_zero amount positive) (sell_loop-Sold (o ∷ offers) 0 amount v)
