-- ===== src/Price/Convert.antt =====
-- What an offer gives and takes.
use native.Mathlib.Nat.{div-mul-le_self, lt-div-mul-add, mul-le-mul_right, le_of_mul-le-mul_right}
use aurorav1_11_0_test.Base.{
  ℕ, ◌+◌, ◌-◌, ◌*◌, ◌/◌, ◌^◌, ◌≤◌, ◌<◌, ◌≡◌, refl, sym, ◌⊎◌, arith, true, false,
}
use aurorav1_11_0_test.Price.{
  Result, ok, err, Price, cheaper, equal, min, mul_fraction_round_down, ◌>>=◌,
  mul_fraction_round_up, rounded_back, selling_bound, convert_to_buying_units,
}
use aurorav1_11_0_test.Price.Rounding.{mul_fraction_round_down_lem, mul_fraction_round_up_lem}

-- `q` is `m / d` rounded up.
abbrev pub IsCeiling : ℕ → ℕ → ℕ → Type 0
IsCeiling q m d = (m ≤ q * d) × (q * d < m + d)

ceiling : (m d : ℕ) → 0 < d → IsCeiling ((m + (d - 1)) / d) m d
ceiling m d positive =
    let low = div-mul-le_self (m + (d - 1)) d in
    let high = lt-div-mul-add {a = m + (d - 1)} positive in (omega arith, omega arith)

round_up-IsCeiling :
    (x n d q : ℕ)
    → x < 2 ^ 63
    → n < 2 ^ 63
    → d < 2 ^ 63
    → mul_fraction_round_up x n d ≡ ok q
    → (0 < d) × IsCeiling q (x * n) d × (q < 2 ^ 63)
round_up-IsCeiling x n d q hx hn hd e =
    ground (arith, mul_fraction_round_up_lem x n d hx hn hd, ceiling (x * n) d)

round_down-le :
    (x n d q : ℕ) → mul_fraction_round_down x n d ≡ ok q → (0 < d) × (q * d ≤ x * n) × (q < 2 ^ 63)
round_down-le x n d q e =
    ground (arith, mul_fraction_round_down_lem x n d, div-mul-le_self (x * n) d)

-- What comes back is no more than the amount.
bound_le : (p a n d q : ℕ) → 0 < n → p * d ≤ a * n → q * n < p * d + n → q ≤ a
bound_le p a n d q positive h k = grind arith

-- The parts of a run that succeeds: the first result, and the run from it.
ok_parts :
    {A B : Type 0} (r : Result A) (next : A → Result B) {final : B}
    → ok final ≡ (r >>= next)
    → (x : A) × (ok x ≡ r) × (ok final ≡ next x)
ok_parts (ok x) next e = (x, refl, e)
ok_parts (err y) next e = cc

rounded_back-le :
    (amount n d b : ℕ) → n < 2 ^ 63 → d < 2 ^ 63 → rounded_back amount n d ≡ ok b → b ≤ amount
unfolding rounded_back
rounded_back-le amount n d b hn hd e =
    let (p, hp, hb) =
      ok_parts (mul_fraction_round_down amount n d) (λ p. mul_fraction_round_up p d n) (sym e) in
    let low = round_down-le amount n d p (sym hp) in
    let up = round_up-IsCeiling p d n b low.2 hd hn (sym hb) in
    bound_le p amount n d b up.0 low.1 up.1.1

pub selling_bound-le :
    (amount n d b : ℕ) → n < 2 ^ 63 → d < 2 ^ 63 → selling_bound amount n d ≡ ok b → b ≤ amount
unfolding selling_bound
selling_bound-le amount n d b hn hd e = ground (arith, rounded_back-le amount n d b hn hd)

pair_eq : {a b c d : ℕ} → ◌≡◌ {A = Result (ℕ × ℕ)} (ok (a, b)) (ok (c, d)) → (a ≡ c) × (b ≡ d)
pair_eq e = (cc, cc)

min_le : (x y : ℕ) → (min x y ≤ x) × (min x y ≤ y)
unfolding min
min_le x y = ground arith

abbrev Converted : ℕ → ℕ → ℕ → ℕ → ℕ → ℕ → Type 0
Converted amount needed n d bought sold =
    (sold ≤ needed) × (sold ≤ amount) × IsCeiling bought (sold * n) d × (bought < 2 ^ 63)

renamed :
    (amount needed n d : ℕ) {q m bought sold : ℕ}
    → q ≡ bought
    → m ≡ sold
    → Converted amount needed n d q m
    → Converted amount needed n d bought sold
renamed amount needed n d same_q same_m h = rw (← same_q, ← same_m) h

-- A conversion that succeeds sells no more than is needed and no more than the offer has, and what
-- is bought for it is the price of what is sold, rounded up.
pub convert_to_buying_units_lem :
    (amount needed n d : ℕ) {bought sold : ℕ}
    → amount < 2 ^ 63
    → n < 2 ^ 63
    → d < 2 ^ 63
    → convert_to_buying_units amount needed n d ≡ ok (bought, sold)
    → (sold ≤ needed) × (sold ≤ amount) × IsCeiling bought (sold * n) d × (bought < 2 ^ 63)
unfolding convert_to_buying_units
convert_to_buying_units_lem amount needed n d {bought} {sold} ha hn hd e =
    let (b, hb, rest) = ok_parts (selling_bound amount n d) _ (sym e) in
    let le = selling_bound-le amount n d b hn hd (sym hb) in
    let (q, hq, last) = ok_parts (mul_fraction_round_up (min b needed) n d) _ rest in
    let (same_q, same_m) = pair_eq (sym last) in
    let small = min_le b needed in
    let up = round_up-IsCeiling (min b needed) n d q (omega arith) hn hd (sym hq) in
    renamed amount needed n d same_q same_m (small.1, omega arith, up.1, up.2)

-- `cheaper` is a strict order on the prices with positive denominators, whose classes are those of
-- `equal`: of two prices exactly one is cheaper, or they are equal; and it is transitive.
cheaper_trichotomy :
    (p q : Price)
    → (cheaper p q ≡ true) × (cheaper q p ≡ false) × (equal p q ≡ false)
      ⊎ (cheaper p q ≡ false) × (cheaper q p ≡ true) × (equal p q ≡ false)
      ⊎ (cheaper p q ≡ false) × (cheaper q p ≡ false) × (equal p q ≡ true)
unfolding cheaper equal
cheaper_trichotomy p q = ground arith

products : (a b c d e f : ℕ) → 0 < d → a * d ≤ c * b → c * f ≤ e * d → a * f ≤ e * b
products a b c d e f positive h k =
    le_of_mul-le-mul_right {k = d} (omega (arith, mul-le-mul_right f h, mul-le-mul_right b k))
      positive

-- Not cheaper, from one price to the next, carries over a middle price with a positive denominator.
pub not_cheaper_trans :
    (p q r : Price) → 0 < q.d → cheaper q p ≡ false → cheaper r q ≡ false → cheaper r p ≡ false
unfolding cheaper
not_cheaper_trans p q r positive h k = ground (arith, products p.n p.d q.n q.d r.n r.d positive)
