-- ===== src/Crc16/Xor.antt =====
-- Laws of the exclusive or of numbers.
use Prim.Native.Nat.{bit_and, bit_and-bitwise, bit_xor, bit_xor-bitwise, differ, digits, min}
use aurorav1_11_0_test.Base.{
  ℕ, zero, suc, ◌+◌, ◌*◌, ◌/◌, ◌%◌, ◌≤◌, ◌≡◌, ◌⊎◌, inl, inr, refl, sym, ap, ◌∙◌, arith,
}

abbrev xor_digits : ℕ → ℕ → ℕ → ℕ
xor_digits n a b = digits (λ b. b) differ n a b

xor_digits-fuel : (n m a b : ℕ) → a ≤ n → a ≤ m → xor_digits n a b ≡ xor_digits m a b
xor_digits-fuel zero zero a b p q = refl
xor_digits-fuel zero (suc m) zero b p q = refl
xor_digits-fuel zero (suc m) (suc a) b p q = absurd (omega arith)
xor_digits-fuel (suc n) zero zero b p q = refl
xor_digits-fuel (suc n) zero (suc a) b p q = absurd (omega arith)
xor_digits-fuel (suc n) (suc m) zero b p q = refl
xor_digits-fuel (suc n) (suc m) (suc a) b p q =
    ap (λ k. k * 2 + differ (suc a % 2) (b % 2))
      (xor_digits-fuel n m (suc a / 2) (b / 2) (omega arith) (omega arith))

pub zero-xor : (b : ℕ) → bit_xor 0 b ≡ b
zero-xor b = bit_xor-bitwise 0 b

bit : (a : ℕ) → ((a % 2 ≡ 0) ⊎ (a % 2 ≡ 1))
bit a = ground arith

differ-bits : (x y : ℕ) → (x ≡ 0) ⊎ (x ≡ 1) → (y ≡ 0) ⊎ (y ≡ 1) → differ x y ≡ (x + y) % 2
differ-bits x y (inl p) (inl q) = rw (p, q) refl
differ-bits x y (inl p) (inr q) = rw (p, q) refl
differ-bits x y (inr p) (inl q) = rw (p, q) refl
differ-bits x y (inr p) (inr q) = rw (p, q) refl

-- The lowest digit and the others.
xor_step : (a b : ℕ) → bit_xor a b ≡ bit_xor (a / 2) (b / 2) * 2 + (a + b) % 2
xor_step zero b = omega (arith, zero-xor b, zero-xor (b / 2))
xor_step (suc a) b =
    let low = differ-bits (suc a % 2) (b % 2) (bit (suc a)) (bit b) in
    omega (
      arith,
      bit_xor-bitwise (suc a) b,
      bit_xor-bitwise (suc a / 2) (b / 2),
      xor_digits-fuel a (suc a / 2) (suc a / 2) (b / 2) (omega arith) (omega arith),
      low,
    )

-- The step and the induction hypothesis decide both digits.
xor_cancel_below : (n c a b : ℕ) → a ≤ n → b ≤ n → bit_xor c a ≡ bit_xor c b → a ≡ b
xor_cancel_below zero c a b p q e = omega (arith, p, q)
xor_cancel_below (suc n) c a b p q e =
    let same : bit_xor (c / 2) (a / 2) ≡ bit_xor (c / 2) (b / 2) =
      omega (arith, e, xor_step c a, xor_step c b) in
    let low : (c + a) % 2 ≡ (c + b) % 2 = omega (arith, e, xor_step c a, xor_step c b) in
    let high =
      xor_cancel_below n (c / 2) (a / 2) (b / 2) (omega (arith, p)) (omega (arith, q)) same in
    omega (arith, high, low)

pub xor_cancel : (c a b : ℕ) → bit_xor c a ≡ bit_xor c b → a ≡ b
xor_cancel c a b e = xor_cancel_below (a + b) c a b (omega arith) (omega arith) e

xor_cancel_right_below : (n a b c : ℕ) → a ≤ n → b ≤ n → bit_xor a c ≡ bit_xor b c → a ≡ b
xor_cancel_right_below zero a b c p q e = omega (arith, p, q)
xor_cancel_right_below (suc n) a b c p q e =
    let same : bit_xor (a / 2) (c / 2) ≡ bit_xor (b / 2) (c / 2) =
      omega (arith, e, xor_step a c, xor_step b c) in
    let low : (a + c) % 2 ≡ (b + c) % 2 = omega (arith, e, xor_step a c, xor_step b c) in
    let high =
      xor_cancel_right_below n (a / 2) (b / 2) (c / 2) (omega (arith, p)) (omega (arith, q)) same in
    omega (arith, high, low)

pub xor_cancel_right : (a b c : ℕ) → bit_xor a c ≡ bit_xor b c → a ≡ b
xor_cancel_right a b c e = xor_cancel_right_below (a + b) a b c (omega arith) (omega arith) e

-- So many ones.
abbrev pub mask : ℕ → ℕ
mask zero = 0
mask (suc k) = mask k * 2 + 1

pub xor_bound : (k a b : ℕ) → a ≤ mask k → b ≤ mask k → bit_xor a b ≤ mask k
xor_bound zero a b p q =
    let a_zero : a ≡ 0 = omega (arith, p) in
    let b_zero : b ≡ 0 = omega (arith, q) in rw (a_zero, b_zero) (omega arith)
xor_bound (suc k) a b p q =
    omega (arith, xor_step a b, xor_bound k (a / 2) (b / 2) (omega (arith, p)) (omega (arith, q)))

-- A number that ends in so many zeros leaves the lowest digits of the other.
xor_double : (x y : ℕ) → bit_xor (x * 2) y ≡ bit_xor x (y / 2) * 2 + y % 2
xor_double x y =
    let half : x * 2 / 2 ≡ x = omega arith in xor_step (x * 2) y ∙ rw half (omega arith)

xor_4 : (x y : ℕ) → bit_xor (x * 4) y ≡ bit_xor x (y / 4) * 4 + y % 4
xor_4 x y =
    let twice : x * 4 ≡ x * 2 * 2 = omega arith in
    let quarter : y / 2 / 2 ≡ y / 4 = omega arith in
    rw (twice, xor_double (x * 2) y, xor_double x (y / 2), quarter) (omega arith)

xor_16 : (x y : ℕ) → bit_xor (x * 16) y ≡ bit_xor x (y / 16) * 16 + y % 16
xor_16 x y =
    let twice : x * 16 ≡ x * 4 * 4 = omega arith in
    let quarter : y / 4 / 4 ≡ y / 16 = omega arith in
    rw (twice, xor_4 (x * 4) y, xor_4 x (y / 4), quarter) (omega arith)

pub xor_256 : (x y : ℕ) → bit_xor (x * 256) y ≡ bit_xor x (y / 256) * 256 + y % 256
xor_256 x y =
    let twice : x * 256 ≡ x * 16 * 16 = omega arith in
    let quarter : y / 16 / 16 ≡ y / 256 = omega arith in
    rw (twice, xor_16 (x * 16) y, xor_16 x (y / 16), quarter) (omega arith)

xor_comm_below : (n a b : ℕ) → a ≤ n → b ≤ n → bit_xor a b ≡ bit_xor b a
xor_comm_below zero a b p q =
    let a_zero : a ≡ 0 = omega (arith, p) in
    let b_zero : b ≡ 0 = omega (arith, q) in rw (a_zero, b_zero) refl
xor_comm_below (suc n) a b p q = omega (
  arith,
  xor_step a b,
  xor_step b a,
  xor_comm_below n (a / 2) (b / 2) (omega (arith, p)) (omega (arith, q)),
)

pub xor_comm : (a b : ℕ) → bit_xor a b ≡ bit_xor b a
xor_comm a b = xor_comm_below (a + b) a b (omega arith) (omega arith)

-- The halves of an exclusive or.
xor_half : (a b : ℕ) → bit_xor a b / 2 ≡ bit_xor (a / 2) (b / 2)
xor_half a b = omega (arith, xor_step a b)

-- Two numbers are added in either order.
xor_exchange_below :
    (n a b c : ℕ) → a ≤ n → b ≤ n → c ≤ n → bit_xor (bit_xor a b) c ≡ bit_xor (bit_xor a c) b
xor_exchange_below zero a b c p q r =
    let a_zero : a ≡ 0 = omega (arith, p) in
    let b_zero : b ≡ 0 = omega (arith, q) in
    let c_zero : c ≡ 0 = omega (arith, r) in rw (a_zero, b_zero, c_zero) refl
xor_exchange_below (suc n) a b c p q r =
    let halves =
      xor_exchange_below n (a / 2) (b / 2) (c / 2) (omega (arith, p)) (omega (arith, q))
        (omega (arith, r)) in
    let high : bit_xor (bit_xor a b / 2) (c / 2) ≡ bit_xor (bit_xor a c / 2) (b / 2) =
      rw (xor_half a b, xor_half a c) halves in
    omega
      (arith, high, xor_step (bit_xor a b) c, xor_step (bit_xor a c) b, xor_step a b, xor_step a c)

pub xor_exchange : (a b c : ℕ) → bit_xor (bit_xor a b) c ≡ bit_xor (bit_xor a c) b
xor_exchange a b c = xor_exchange_below (a + b + c) a b c (omega arith) (omega arith) (omega arith)

pub xor_twice : (a b : ℕ) → bit_xor a b * 2 ≡ bit_xor (a * 2) (b * 2)
xor_twice a b =
    let half : b * 2 / 2 ≡ b = omega arith in sym (xor_double a (b * 2) ∙ rw half (omega arith))

abbrev top : ℕ → ℕ
top zero = 1
top (suc k) = top k * 2

-- A digit above those of the other number stays.
pub xor_top : (k y q : ℕ) → y ≤ mask k → q ≤ mask k → bit_xor (top k + y) q ≡ top k + bit_xor y q
xor_top zero y q p r =
    let y_zero : y ≡ 0 = omega (arith, p) in
    let q_zero : q ≡ 0 = omega (arith, r) in rw (y_zero, q_zero) refl
xor_top (suc k) y q p r =
    let half : (top k * 2 + y) / 2 ≡ top k + y / 2 = omega arith in
    let rest = xor_top k (y / 2) (q / 2) (omega (arith, p)) (omega (arith, r)) in
    xor_step (top k * 2 + y) q ∙ rw (half, rest) (omega (arith, xor_step y q))

abbrev and_digits : ℕ → ℕ → ℕ → ℕ
and_digits n a b = digits (λ b. zero) min n a b

and_digits-fuel : (n m a b : ℕ) → a ≤ n → a ≤ m → and_digits n a b ≡ and_digits m a b
and_digits-fuel zero zero a b p q = refl
and_digits-fuel zero (suc m) zero b p q = refl
and_digits-fuel zero (suc m) (suc a) b p q = absurd (omega arith)
and_digits-fuel (suc n) zero zero b p q = refl
and_digits-fuel (suc n) zero (suc a) b p q = absurd (omega arith)
and_digits-fuel (suc n) (suc m) zero b p q = refl
and_digits-fuel (suc n) (suc m) (suc a) b p q =
    ap (λ k. k * 2 + min (suc a % 2) (b % 2))
      (and_digits-fuel n m (suc a / 2) (b / 2) (omega arith) (omega arith))

and_step : (a b : ℕ) → bit_and a b ≡ bit_and (a / 2) (b / 2) * 2 + min (a % 2) (b % 2)
and_step zero b = omega (arith, bit_and-bitwise 0 b, bit_and-bitwise 0 (b / 2))
and_step (suc a) b = omega (
  arith,
  bit_and-bitwise (suc a) b,
  bit_and-bitwise (suc a / 2) (b / 2),
  and_digits-fuel a (suc a / 2) (suc a / 2) (b / 2) (omega arith) (omega arith),
)

-- A mask of ones keeps a number that has no more digits.
pub and_mask : (k a : ℕ) → a ≤ mask k → bit_and a (mask k) ≡ a
and_mask zero a p = let a_zero : a ≡ 0 = omega (arith, p) in rw a_zero refl
and_mask (suc k) a p =
    let half : (mask k * 2 + 1) / 2 ≡ mask k = omega arith in
    let one : (mask k * 2 + 1) % 2 ≡ 1 = omega arith in
    and_step a (mask k * 2 + 1)
    ∙ rw (half, one, and_mask k (a / 2) (omega (arith, p))) (omega arith)
