-- ===== src/Base/Lists.antt =====
-- Lists measured by native numbers.
use Prim.Native.Nat.{ℕ, zero, suc, ◌+◌, ◌-◌, ◌<◌}
use mathlib.Core.Path.{◌≡◌, refl, ap}
use mathlib.Core.List.{List, [], ◌∷◌, ◌++◌, map}
use mathlib.Core.Option.{Option, none, some}
use native.Mathlib.Omega.{arith}

module _ {ℓ} {A : Type ℓ} where
  abbrev pub length : List A → ℕ
  length [] = 0
  length (x ∷ xs) = suc (length xs)

  pub empty_of_length : (xs : List A) → length xs ≡ 0 → xs ≡ []
  empty_of_length [] e = refl
  empty_of_length (x ∷ xs) e = absurd (omega (arith, e))

  pub length-append : (xs ys : List A) → length (xs ++ ys) ≡ length xs + length ys
  length-append [] ys = omega arith
  length-append (x ∷ xs) ys = omega (arith, length-append xs ys)

pub length-map {ℓ κ} :
    {A : Type ℓ} {B : Type κ} (f : A → B) (xs : List A) → length (map f xs) ≡ length xs
length-map f [] = refl
length-map f (x ∷ xs) = ap suc (length-map f xs)

module _ {ℓ} {A : Type ℓ} where
  abbrev pub take : ℕ → List A → List A
  take zero xs = []
  take (suc n) [] = []
  take (suc n) (x ∷ xs) = x ∷ take n xs

  abbrev pub drop : ℕ → List A → List A
  drop zero xs = xs
  drop (suc n) [] = []
  drop (suc n) (x ∷ xs) = drop n xs

  pub take-append : (xs ys : List A) → take (length xs) (xs ++ ys) ≡ xs
  take-append [] ys = refl
  take-append (x ∷ xs) ys = ap (λ zs. x ∷ zs) (take-append xs ys)

  pub drop-append : (xs ys : List A) → drop (length xs) (xs ++ ys) ≡ ys
  drop-append [] ys = refl
  drop-append (x ∷ xs) ys = drop-append xs ys

  pub take-drop : (n : ℕ) (xs : List A) → take n xs ++ drop n xs ≡ xs
  take-drop zero xs = refl
  take-drop (suc n) [] = refl
  take-drop (suc n) (x ∷ xs) = ap (λ zs. x ∷ zs) (take-drop n xs)

  -- The element at an index, if it is in range.
  abbrev pub nth : ℕ → List A → Option A
  nth n [] = none
  nth zero (x ∷ xs) = some x
  nth (suc n) (x ∷ xs) = nth n xs

  pub length-drop : (n : ℕ) (xs : List A) → length (drop n xs) ≡ length xs - n
  length-drop zero xs = omega arith
  length-drop (suc n) [] = omega arith
  length-drop (suc n) (x ∷ xs) = omega (arith, length-drop n xs)

  pub drop-nth : (n : ℕ) (xs : List A) (a : A) → nth n xs ≡ some a → drop n xs ≡ a ∷ drop (n + 1) xs
  drop-nth n [] a h = cc h
  drop-nth zero (y ∷ xs) a h = ap (λ z. z ∷ xs) (cc h)
  drop-nth (suc n) (y ∷ xs) a h =
      let more : suc n + 1 ≡ suc (n + 1) = omega arith in rw more (drop-nth n xs a h)

  pub drop-end : (n : ℕ) (xs : List A) → nth n xs ≡ none → drop n xs ≡ []
  drop-end zero [] h = refl
  drop-end (suc n) [] h = refl
  drop-end zero (y ∷ xs) h = cc h
  drop-end (suc n) (y ∷ xs) h = drop-end n xs h

  pub append_assoc : (xs ys zs : List A) → (xs ++ ys) ++ zs ≡ xs ++ (ys ++ zs)
  append_assoc [] ys zs = refl
  append_assoc (y ∷ xs) ys zs = ap (λ l. y ∷ l) (append_assoc xs ys zs)

  pub nth_below : (n : ℕ) (xs : List A) (a : A) → nth n xs ≡ some a → n < length xs
  nth_below n [] a h = cc h
  nth_below zero (y ∷ xs) a h = omega arith
  nth_below (suc n) (y ∷ xs) a h = omega (arith, nth_below n xs a h)

-- An entry of a table; 0 beyond its end.
unfoldable pub entry : List ℕ → ℕ → ℕ
entry [] i = 0
entry (x ∷ xs) zero = x
entry (x ∷ xs) (suc i) = entry xs i

-- Numbers that are bytes.
abbrev pub Bytes : List ℕ → Type 0
Bytes [] = Unit {0}
Bytes (b ∷ bs) = (b < 256) × Bytes bs

pub Bytes-append : (xs ys : List ℕ) → Bytes xs → Bytes ys → Bytes (xs ++ ys)
Bytes-append [] ys p q = q
Bytes-append (x ∷ xs) ys (b, p) q = (b, Bytes-append xs ys p q)
