-- ===== src/OrderBook/Search.antt =====
-- The binary search of a test that stays true once it is.
use aurorav1_11_0_test.Base.{
  ℕ, zero, suc, ◌+◌, ◌/◌, ◌≤◌, ◌<◌, ◌≡◌, Bool, true, false, ltb, tests, Bool-cases, inl, inr, arith,
}
use aurorav1_11_0_test.OrderBook.{search}

-- The test is false below an index, and true from there on to the end.
abbrev pub Turns : (ℕ → Bool) → ℕ → ℕ → Type 0
Turns f n k = (k ≤ n) × ((a : ℕ) → a < k → f a ≡ false) × ((a : ℕ) → k ≤ a → a < n → f a ≡ true)

module _ (f : ℕ → Bool) (n : ℕ) (stays : (a b : ℕ) → a ≤ b → b < n → f a ≡ true → f b ≡ true) where
  still_false : (a b : ℕ) → a ≤ b → b < n → f b ≡ false → f a ≡ false
  still_false a b le l e = ground (arith, e, stays a b le l)

  search_between :
      (rounds i j : ℕ)
      → i ≤ j
      → j ≤ n
      → j ≤ i + rounds
      → ((a : ℕ) → a < i → f a ≡ false)
      → ((a : ℕ) → j ≤ a → a < n → f a ≡ true)
      → Turns f n (search rounds f i j)
  unfolding search
  search_between zero i j le en fuel below above =
      (omega (arith, le, en), below, λ a h. above a (omega (arith, h, fuel)))
  search_between (suc rounds) i j le en fuel below above = elim (Bool-cases (ltb i j)) [
    | inr e ↦ rw e (omega (arith, le, en), below, λ a h. above a (ground (arith, e, h)))
    | inl e ↦
        let h = (i + j) / 2 in
        let lo : i ≤ h = omega (arith, le) in
        let hi : h < j = omega (tests, e) in
        rw e (elim (Bool-cases (f h)) [
          | inl t ↦ rw t (
              search_between rounds i h lo (omega (arith, hi, en)) (omega (arith, hi, fuel)) below
                (λ a l m. stays h a l m t))
          | inr t ↦ rw t (
              search_between rounds (h + 1) j (omega (arith, hi)) en (omega (arith, lo, fuel))
                (λ a l. still_false a h (omega (arith, l)) (omega (arith, hi, en)) t) above)
        ])
  ]

  pub search-Turns : Turns f n (search n f 0 n)
  search-Turns =
      search_between n 0 n (omega arith) (omega arith) (omega arith)
        (λ a h. absurd (omega (arith, h))) (λ a h l. absurd (omega (arith, h, l)))
