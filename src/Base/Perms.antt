-- ===== src/Base/Perms.antt =====
-- Permutations of lists: what does not depend on the order.
use Prim.Native.Nat.{suc}
use native.Mathlib.Nat.{ℕ_set}
use mathlib.Core.Logic.{∥∥₁_elim}
use mathlib.Core.Path.{◌≡◌, refl, ap, subst, ◌∙◌}
use mathlib.Core.Bool.{Bool, true, false}
use mathlib.Core.List.{List, [], ◌∷◌, ◌++◌, Perm, Perm-prop, Permᴰ, perm_middle}
use mathlib.Core.List.Perm
use aurorav1_11_0_test.Base.Lists.{length}
use aurorav1_11_0_test.Base.Tests.{if◌then◌else◌}

module _ {ℓ} {A : Type ℓ} where
  -- The elements that pass a test, in their order.
  unfoldable pub select : (A → Bool) → List A → List A
  select p [] = []
  select p (x ∷ xs) = let rest = select p xs in if p x then x ∷ rest else rest

  measured : {xs ys : List A} → Permᴰ xs ys → length xs ≡ length ys
  measured Permᴰ.nil = refl
  measured (Permᴰ.cons e p) = ap suc (measured p)
  measured (Permᴰ.swap e f) = refl
  measured (Permᴰ.trans p q) = measured p ∙ measured q

  pub length-Perm : {xs ys : List A} → Perm xs ys → length xs ≡ length ys
  length-Perm {xs} {ys} p = ∥∥₁_elim p (ℕ_set (length xs) (length ys)) measured

  kept-Perm :
      (b : Bool) (x : A) {xs ys : List A}
      → Perm xs ys
      → Perm (if b then x ∷ xs else xs) (if b then x ∷ ys else ys)
  kept-Perm true x d = Perm.cons x d
  kept-Perm false x d = d

  kept_swap :
      (b c : Bool) (x y : A) (xs : List A)
      → Perm
          (if b then x ∷ (if c then y ∷ xs else xs) else (if c then y ∷ xs else xs))
          (if c then y ∷ (if b then x ∷ xs else xs) else (if b then x ∷ xs else xs))
  kept_swap true true x y xs = Perm.swap y x xs
  kept_swap true false x y xs = Perm.rfl
  kept_swap false true x y xs = Perm.rfl
  kept_swap false false x y xs = Perm.rfl

  module _ (p : A → Bool) where
    selected : {xs ys : List A} → Permᴰ xs ys → Perm (select p xs) (select p ys)
    unfolding select
    selected Permᴰ.nil = Perm.rfl
    selected (Permᴰ.cons {a} {b} {l₁} {l₂} e d) =
        subst (λ z. Perm (select p (a ∷ l₁)) (select p (z ∷ l₂))) e (kept-Perm (p a) a (selected d))
    selected (Permᴰ.swap {a} {b} {a'} {b'} {l} e f) =
        subst (λ z. Perm (select p (a ∷ b ∷ l)) (select p (a' ∷ z ∷ l))) e
          (subst (λ z. Perm (select p (a ∷ b ∷ l)) (select p (z ∷ a ∷ l))) f
            (kept_swap (p a) (p b) a b (select p l)))
    selected (Permᴰ.trans d f) = Perm.trans (selected d) (selected f)

    pub select-Perm : {xs ys : List A} → Perm xs ys → Perm (select p xs) (select p ys)
    select-Perm {xs} {ys} d = ∥∥₁_elim d (Perm-prop {l₁ = select p xs} {l₂ = select p ys}) selected

  -- What comes before all else can change places with a list.
  pub exchange : (xs ys zs : List A) → Perm (xs ++ (ys ++ zs)) (ys ++ (xs ++ zs))
  exchange [] ys zs = Perm.rfl
  exchange (x ∷ xs) ys zs =
      Perm.trans (Perm.cons x (exchange xs ys zs)) (Perm.symm (perm_middle ys (xs ++ zs)))
