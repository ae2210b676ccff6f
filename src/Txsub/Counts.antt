-- ===== src/Txsub/Counts.antt =====
-- How often a number is in a list.
use aurorav1_11_0_test.Base.{ℕ, ◌+◌, ◌≡◌, refl, ◌==◌, if◌then◌else◌, List, [], ◌∷◌, ◌++◌, arith}

unfoldable pub count : ℕ → List ℕ → ℕ
count n [] = 0
count n (x ∷ xs) = let rest = count n xs in if x == n then rest + 1 else rest

pub count-nil : (n : ℕ) → count n [] ≡ 0
unfolding count
count-nil n = refl

pub count-append : (n : ℕ) (xs ys : List ℕ) → count n (xs ++ ys) ≡ count n xs + count n ys
unfolding count
count-append n [] ys = omega arith
count-append n (x ∷ xs) ys = ground (arith, count-append n xs ys)
