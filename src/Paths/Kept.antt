-- ===== src/Paths/Kept.antt =====
-- The filter keeps the first paths of each asset.
use Prim.Native.String.{String, compare}
use text.Mathlib.Text.{is_lt, ◌==◌ as same}
use text.Mathlib.TextEquality.{eq_iff}
use mathlib.Core.List.{append_assoc, append-nil}
use aurorav1_11_0_test.Base.{
  ℕ, zero, suc, ◌+◌, ◌-◌, ◌≤◌, ◌≡◌, refl, sym, ap, subst, ◌∙◌, Bool, true, false, not, Bool-cases,
  inl, inr, ltb, if◌then◌else◌, Option, none, some, List, [], ◌∷◌, ◌++◌, select, arith,
}
use aurorav1_11_0_test.Base.Order.{equal_of_not_less}
use aurorav1_11_0_test.Paths.Search.{PaymentPath}
use aurorav1_11_0_test.Paths.Filter.{Less, starts_asset, filter_loop}

abbrev pub take {ℓ} : {A : Type ℓ} → ℕ → List A → List A
take zero xs = []
take (suc n) [] = []
take (suc n) (x ∷ xs) = x ∷ take n xs

take_none {ℓ} : {A : Type ℓ} (n : ℕ) → take {A = A} n [] ≡ []
take_none zero = refl
take_none (suc n) = refl

-- The paths whose key is an asset.
abbrev pub of_asset : (PaymentPath → String) → String → List PaymentPath → List PaymentPath
of_asset key a ps = select (λ p. same (key p) a) ps

-- No path is less than one before it.
abbrev pub NoneLess : Less → PaymentPath → List PaymentPath → Type 0
NoneLess less p [] = Unit {0}
NoneLess less p (q ∷ qs) = (less q p ≡ false) × NoneLess less p qs

abbrev pub IsSorted : Less → List PaymentPath → Type 0
IsSorted less [] = Unit {0}
IsSorted less (p ∷ ps) = NoneLess less p ps × IsSorted less ps

not-true : (b : Bool) → not b ≡ true → b ≡ false
not-true true h = sym h
not-true false h = refl

module _ (key : PaymentPath → String) where
  abbrev pub by_key : Less
  by_key p q = is_lt (compare (key p) (key q))

  abbrev pub same_key : PaymentPath → PaymentPath → Bool
  same_key p q = same (key p) (key q)

  abbrev last_of : List PaymentPath → Option PaymentPath
  last_of [] = none
  last_of (p ∷ []) = some p
  last_of (p ∷ q ∷ ps) = last_of (q ∷ ps)

  abbrev starts_after : Option PaymentPath → PaymentPath → Bool
  starts_after none e = true
  starts_after (some p) e = not (same_key p e)

  starts_asset-last :
      (ps : List PaymentPath) (e : PaymentPath)
      → starts_asset same_key ps e ≡ starts_after (last_of ps) e
  starts_asset-last [] e = refl
  starts_asset-last (p ∷ []) e = refl
  starts_asset-last (p ∷ q ∷ ps) e = starts_asset-last (q ∷ ps) e

  last_of-append : (ps : List PaymentPath) (e : PaymentPath) → last_of (ps ++ e ∷ []) ≡ some e
  last_of-append [] e = refl
  last_of-append (p ∷ []) e = refl
  last_of-append (p ∷ q ∷ ps) e = last_of-append (q ∷ ps) e

  after_if :
      (b : Bool) (p : PaymentPath) (xs ys : List PaymentPath)
      → (if b then p ∷ (xs ++ ys) else xs ++ ys) ≡ (if b then p ∷ xs else xs) ++ ys
  after_if true p xs ys = refl
  after_if false p xs ys = refl

  of_asset-append :
      (a : String) (ps qs : List PaymentPath)
      → of_asset key a (ps ++ qs) ≡ of_asset key a ps ++ of_asset key a qs
  unfolding select
  of_asset-append a [] qs = refl
  of_asset-append a (p ∷ ps) qs =
      ap (λ r. if same (key p) a then p ∷ r else r) (of_asset-append a ps qs)
      ∙ after_if (same (key p) a) p (of_asset key a ps) (of_asset key a qs)

  -- In the order, an asset does not come back.
  of_asset-passed :
      (a : String) (e : PaymentPath) (es : List PaymentPath)
      → is_lt (compare (key e) a) ≡ false
      → same (key e) a ≡ false
      → NoneLess by_key e es
      → of_asset key a es ≡ []
  unfolding select
  of_asset-passed a e [] above other n = refl
  of_asset-passed a e (q ∷ es) above other n = elim (Bool-cases (same (key q) a)) [
    | inr h ↦ rw h (of_asset-passed a e es above other n.1)
    | inl h ↦
        let back : key q ≡ a = (eq_iff (key q) a).0 h in
        let here : key e ≡ a =
          equal_of_not_less (key e) a above
            (subst (λ k. is_lt (compare k (key e)) ≡ false) back n.0) in
        cc (other, (eq_iff (key e) a).1 here)
  ]

  module _ (limit : ℕ) where
    -- How many more paths of an asset are taken, after a last one.
    abbrev room : Option PaymentPath → String → ℕ → ℕ
    room none a count = suc (limit - 1)
    room (some p) a count = if same (key p) a then suc (limit - 1) - count else suc (limit - 1)

    abbrev expected : Option PaymentPath → String → ℕ → List PaymentPath → List PaymentPath
    expected l a count es = take (room l a count) (of_asset key a es)

    abbrev After : Option PaymentPath → List PaymentPath → Type 0
    After none es = IsSorted by_key es
    After (some p) es = IsSorted by_key (p ∷ es)

    abbrev Counted : Option PaymentPath → ℕ → Type 0
    Counted none count = Unit {0}
    Counted (some p) count = 1 ≤ count

    -- The first path of an asset is taken.
    one_taken :
        (n : ℕ) (e : PaymentPath) (es : List PaymentPath)
        → n ≡ suc (limit - 1)
        → take n (e ∷ es) ≡ e ∷ take (suc (limit - 1) - 1) es
    one_taken n e es h = let m : suc (limit - 1) - 1 ≡ limit - 1 = omega arith in rw (h, m) refl

    first_of :
        (l : Option PaymentPath) (a : String) (count : ℕ) (e : PaymentPath) (es : List PaymentPath)
        → starts_after l e ≡ true
        → After l (e ∷ es)
        → expected l a count (e ∷ es) ≡ of_asset key a (e ∷ []) ++ expected (some e) a 1 es
    unfolding select
    first_of none a count e es s o = elim (Bool-cases (same (key e) a)) [
      | inl h ↦ rw h (one_taken _ e (of_asset key a es) refl)
      | inr h ↦ rw h refl
    ]
    first_of (some p) a count e es s o = elim (Bool-cases (same (key e) a)) [
      | inl h ↦
          let other : same (key p) a ≡ false =
            subst (λ k. same (key p) k ≡ false) ((eq_iff (key e) a).0 h) (not-true _ s) in
          rw (h, other) (one_taken _ e (of_asset key a es) refl)
      | inr h ↦ elim (Bool-cases (same (key p) a)) [
        | inr other ↦ rw (h, other) refl
        | inl k ↦
            let above =
              subst (λ k. is_lt (compare (key e) k) ≡ false) ((eq_iff (key p) a).0 k) o.0.0 in
            let passed = of_asset-passed a e es above h o.1.0 in
            rw (h, k, passed)
              (take_none (suc (limit - 1) - count) ∙ sym (take_none (suc (limit - 1))))
      ]
    ]

    more_of :
        (p : PaymentPath) (a : String) (count : ℕ) (e : PaymentPath) (es : List PaymentPath)
        → same_key p e ≡ true
        → ltb count limit ≡ true
        → expected (some p) a count (e ∷ es)
          ≡ of_asset key a (e ∷ []) ++ expected (some e) a (count + 1) es
    unfolding select
    more_of p a count e es s c =
        let k : key p ≡ key e = (eq_iff (key p) (key e)).0 s in
        elim (Bool-cases (same (key e) a)) [
          | inl h ↦
              let some_left : suc (limit - 1) - count ≡ suc (suc (limit - 1) - (count + 1)) =
                ground (arith, c) in
              rw (k, h, some_left) refl
          | inr h ↦ rw (k, h) refl
        ]

    full :
        (p : PaymentPath) (a : String) (count : ℕ) (e : PaymentPath) (es : List PaymentPath)
        → same_key p e ≡ true
        → ltb count limit ≡ false
        → 1 ≤ count
        → expected (some p) a count (e ∷ es) ≡ expected (some p) a count es
    unfolding select
    full p a count e es s c positive =
        let k : key p ≡ key e = (eq_iff (key p) (key e)).0 s in
        elim (Bool-cases (same (key e) a)) [
          | inl h ↦
              let none_left : suc (limit - 1) - count ≡ 0 = ground (arith, c, positive) in
              rw (k, h, none_left) refl
          | inr h ↦ rw (k, h) refl
        ]

    none_expected : (l : Option PaymentPath) (a : String) (count : ℕ) → expected l a count [] ≡ []
    unfolding select
    none_expected l a count = take_none (room l a count)

    -- What one more path adds.
    adds :
        (a : String) (e : PaymentPath) (filtered rest r : List PaymentPath)
        (more : List PaymentPath)
        → r ≡ of_asset key a (filtered ++ e ∷ []) ++ rest
        → more ≡ of_asset key a (e ∷ []) ++ rest
        → r ≡ of_asset key a filtered ++ more
    adds a e filtered rest r more h k =
        h
        ∙ ap (λ x. x ++ rest) (of_asset-append a filtered (e ∷ []))
        ∙ append_assoc (of_asset key a filtered) (of_asset key a (e ∷ [])) rest
        ∙ ap (λ x. of_asset key a filtered ++ x) (sym k)

    After-next :
        (l : Option PaymentPath) (e : PaymentPath) (es : List PaymentPath)
        → After l (e ∷ es)
        → After (some e) es
    After-next none e es o = o
    After-next (some p) e es o = o.1

    After-skipped :
        (p e : PaymentPath) (es : List PaymentPath) → After (some p) (e ∷ es) → After (some p) es
    After-skipped p e es o = (o.0.1, o.1.1)

    pub filter_loop-take :
        (all_paths filtered : List PaymentPath) (count : ℕ) (l : Option PaymentPath) (a : String)
        → last_of filtered ≡ l
        → After l all_paths
        → Counted l count
        → of_asset key a (filter_loop same_key limit all_paths filtered count)
          ≡ of_asset key a filtered ++ expected l a count all_paths
    unfolding filter_loop
    filter_loop-take [] filtered count l a last o c =
        sym (ap (λ x. of_asset key a filtered ++ x) (none_expected l a count) ∙ append-nil _)
    filter_loop-take (e ∷ es) filtered count none a last o c =
        let s : starts_asset same_key filtered e ≡ true =
          starts_asset-last filtered e ∙ ap (λ l. starts_after l e) last in
        rw (s, filter_loop)
          (adds a e filtered _ _ _
            (filter_loop-take es (filtered ++ e ∷ []) 1 (some e) a (last_of-append filtered e) o
              (omega arith))
            (first_of none a count e es refl o))
    filter_loop-take (e ∷ es) filtered count (some p) a last o c =
        let st : starts_asset same_key filtered e ≡ not (same_key p e) =
          starts_asset-last filtered e ∙ ap (λ l. starts_after l e) last in
        elim (Bool-cases (same_key p e)) [
          | inr s ↦
              let t : starts_after (some p) e ≡ true = rw s refl in
              rw (st, s, filter_loop)
                (adds a e filtered _ _ _
                  (filter_loop-take es (filtered ++ e ∷ []) 1 (some e) a (last_of-append filtered e)
                    o.1 (omega arith))
                  (first_of (some p) a count e es t o))
          | inl s ↦ elim (Bool-cases (ltb count limit)) [
            | inl less ↦
                rw (st, s, less, filter_loop)
                  (adds a e filtered _ _ _
                    (filter_loop-take es (filtered ++ e ∷ []) (count + 1) (some e) a
                      (last_of-append filtered e) o.1 (omega arith))
                    (more_of p a count e es s less))
            | inr less ↦
                rw (st, s, less, filter_loop)
                  (filter_loop-take es filtered count (some p) a last (After-skipped p e es o) c
                    ∙ ap (λ x. of_asset key a filtered ++ x) (sym (full p a count e es s less c)))
          ]
        ]
