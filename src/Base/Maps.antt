-- ===== src/Base/Maps.antt =====
-- A Go map with keys that are strings, as an association list. A key is listed once; the order of a
-- map is not specified, and here is that of the insertions.
use Prim.Native.String.{String}
use mathlib.Core.Path.{◌≡◌, refl}
use mathlib.Core.Bool.{false}
use mathlib.Core.List.{List, [], ◌∷◌}
use mathlib.Core.Option.{Option, none, some}
use native.Mathlib.Omega.{arith}
use text.Mathlib.Text.{◌==◌ as same}
use text.Mathlib.TextEquality.{eq_iff}
use aurorav1_11_0_test.Base.Tests.{if◌then◌else◌, if-holds}

abbrev pub Map {ℓ} : Type ℓ → Type ℓ
Map V = List (String × V)

-- No entry has the key.
abbrev pub Lacks {ℓ} : {V : Type ℓ} → String → Map V → Type 0
Lacks k [] = Unit {0}
Lacks k ((j, v) ∷ m) = (same j k ≡ false) × Lacks k m

-- Every key is listed once.
abbrev pub Distinct {ℓ} : {V : Type ℓ} → Map V → Type 0
Distinct [] = Unit {0}
Distinct ((k, v) ∷ m) = Lacks k m × Distinct m

module _ {ℓ} {V : Type ℓ} where
  unfoldable pub lookup : String → Map V → Option V
  lookup k [] = none
  lookup k ((j, v) ∷ m) = if same j k then some v else lookup k m

  unfoldable pub put : String → V → Map V → Map V
  put k v [] = (k, v) ∷ []
  put k v ((j, w) ∷ m) = if same j k then (k, v) ∷ m else (j, w) ∷ put k v m

  unfoldable pub delete : String → Map V → Map V
  delete k [] = []
  delete k ((j, w) ∷ m) = let rest = delete k m in if same j k then rest else (j, w) ∷ rest

  pub lookup-put :
      (k j : String) (v : V) (m : Map V)
      → lookup j (put k v m) ≡ (if same k j then some v else lookup j m)
  unfolding lookup put
  lookup-put k j v [] = refl
  lookup-put k j v ((i, w) ∷ m) =
      ground (arith, lookup-put k j v m, eq_iff k j, eq_iff i k, eq_iff i j)

  pub found_put : (k : String) (v : V) (m : Map V) → lookup k (put k v m) ≡ some v
  found_put k v m = ground (arith, lookup-put k k v m, eq_iff k k)

  pub lookup-delete :
      (k j : String) (m : Map V) → lookup j (delete k m) ≡ (if same k j then none else lookup j m)
  unfolding lookup delete
  lookup-delete k j [] = ground arith
  lookup-delete k j ((i, w) ∷ m) =
      ground (arith, lookup-delete k j m, eq_iff k j, eq_iff i k, eq_iff i j)

  Lacks-put :
      (k j : String) (v : V) (m : Map V) → same k j ≡ false → Lacks j m → Lacks j (put k v m)
  unfolding put
  Lacks-put k j v [] h l = (h, tt)
  Lacks-put k j v ((i, w) ∷ m) h l = ground (arith, Lacks-put k j v m h l.1, l.0)

  Lacks-delete : (k j : String) (m : Map V) → Lacks j m → Lacks j (delete k m)
  unfolding delete
  Lacks-delete k j [] l = tt
  Lacks-delete k j ((i, w) ∷ m) l = ground (arith, Lacks-delete k j m l.1)

  pub put-Distinct : (k : String) (v : V) (m : Map V) → Distinct m → Distinct (put k v m)
  unfolding put
  put-Distinct k v [] d = (tt, tt)
  put-Distinct k v ((i, w) ∷ m) d =
      ground (arith, put-Distinct k v m d.1, Lacks-put k i v m, eq_iff i k, eq_iff k i)

  pub delete-Distinct : (k : String) (m : Map V) → Distinct m → Distinct (delete k m)
  unfolding delete
  delete-Distinct k [] d = tt
  delete-Distinct k ((i, w) ∷ m) d = ground (arith, delete-Distinct k m d.1, Lacks-delete k i m d.0)

  pub delete-put : (k : String) (v : V) (m : Map V) → delete k (put k v m) ≡ delete k m
  unfolding put delete
  delete-put k v [] = ground (arith, eq_iff k k)
  delete-put k v ((j, w) ∷ m) = ground (arith, delete-put k v m, eq_iff k k)

-- Every value, or the one that was looked up if there is one, satisfies a predicate.
abbrev pub Every {ℓ κ} : {V : Type ℓ} → (V → Type κ) → Map V → Type κ
Every P [] = Unit
Every P ((k, v) ∷ m) = P v × Every P m

abbrev pub Found {ℓ κ} : {V : Type ℓ} → (V → Type κ) → Option V → Type κ
Found P none = Unit
Found P (some v) = P v

module _ {ℓ κ} {V : Type ℓ} (P : V → Type κ) where
  pub lookup-Every : (k : String) (m : Map V) → Every P m → Found P (lookup k m)
  unfolding lookup
  lookup-Every k [] e = tt
  lookup-Every k ((j, w) ∷ m) e = if-holds (Found P) (same j k) e.0 (lookup-Every k m e.1)

  pub put-Every : (k : String) (v : V) (m : Map V) → P v → Every P m → Every P (put k v m)
  unfolding put
  put-Every k v [] p e = (p, tt)
  put-Every k v ((j, w) ∷ m) p e =
      if-holds (Every P) (same j k) (p, e.1) (e.0, put-Every k v m p e.1)

  pub delete-Every : (k : String) (m : Map V) → Every P m → Every P (delete k m)
  unfolding delete
  delete-Every k [] e = tt
  delete-Every k ((j, w) ∷ m) e =
      let rest = delete-Every k m e.1 in if-holds (Every P) (same j k) rest (e.0, rest)
