-- ===== src/Strkey/Canonical.antt =====
-- The test of strkey/main.go for a canonical string.
use Prim.Native.Nat.{bit_and}
use mathlib.Core.Option.{map as map_option}
use aurorav1_11_0_test.Base.{
  ℕ, suc, ◌-◌, ◌*◌, ◌/◌, ◌%◌, ◌^◌, ◌<◌, ◌≡◌, refl, sym, ap, subst, ◌∙◌, Bool, true, false, not,
  ◌&&◌, ltb, leb, ◌==◌, if◌then◌else◌, Bool-cases, inl, inr, Option, none, some, List, [], ◌∷◌,
  length, entry, map, all_below, all_below-holds, arith,
}
use aurorav1_11_0_test.Strkey.Base32.{alphabet, decoding_table}
use aurorav1_11_0_test.Strkey.{last, is_canonical}
use aurorav1_11_0_test.Strkey.Quintets.{Fives, Tail}
use aurorav1_11_0_test.Strkey.Values.{Plain, values, decoding_table-known}

-- The test, from the number of characters and the value of the last one.
abbrev canonical_with : ℕ → ℕ → Bool
canonical_with n v =
    let bits = n * 5 % 8 in
    not (leb 5 bits) && not (ltb 0 bits && not (bit_and v (0x0f / 2 ^ (4 - bits)) == 0))

eight_more :
    (n v : ℕ)
    → canonical_with (suc (suc (suc (suc (suc (suc (suc (suc n)))))))) v ≡ canonical_with n v
eight_more n v =
    let same : suc (suc (suc (suc (suc (suc (suc (suc n))))))) * 5 % 8 ≡ n * 5 % 8 = omega arith in
    rw same refl

abbrev low_test : ℕ → Bool
low_test v =
    bit_and v 1 == v % 2
    && (bit_and v 3 == v % 4 && (bit_and v 7 == v % 8 && bit_and v 15 == v % 16))

low_tested : all_below 32 low_test ≡ true
unfolding all_below
low_tested = refl

low_digits :
    (v : ℕ)
    → v < 32
    → (bit_and v 1 ≡ v % 2)
      × (bit_and v 3 ≡ v % 4)
      × (bit_and v 7 ≡ v % 8)
      × (bit_and v 15 ≡ v % 16)
low_digits v lt =
    let test = all_below-holds 32 low_test v low_tested lt in
    (grind (arith, test), grind (arith, test), grind (arith, test), grind (arith, test))

canonical-Tail :
    (d : ℕ) (vs : List ℕ) → Fives vs → canonical_with (length vs) (last d vs) ≡ true → Tail vs
unfolding Tail
canonical-Tail d [] all h = tt
canonical-Tail d (q0 ∷ []) (h0, all) h = absurd (ground (arith, h))
canonical-Tail d (q0 ∷ q1 ∷ []) (h0, (h1, all)) h =
    let (ones, threes, sevens, all_ones) = low_digits q1 h1 in
    grind (arith, h, ones, threes, sevens, all_ones)
canonical-Tail d (q0 ∷ q1 ∷ q2 ∷ []) (h0, (h1, (h2, all))) h = absurd (ground (arith, h))
canonical-Tail d (q0 ∷ q1 ∷ q2 ∷ q3 ∷ []) (h0, (h1, (h2, (h3, all)))) h =
    let (ones, threes, sevens, all_ones) = low_digits q3 h3 in
    grind (arith, h, ones, threes, sevens, all_ones)
canonical-Tail d (q0 ∷ q1 ∷ q2 ∷ q3 ∷ q4 ∷ []) (h0, (h1, (h2, (h3, (h4, all))))) h =
    let (ones, threes, sevens, all_ones) = low_digits q4 h4 in
    grind (arith, h, ones, threes, sevens, all_ones)
canonical-Tail d (q0 ∷ q1 ∷ q2 ∷ q3 ∷ q4 ∷ q5 ∷ []) (h0, (h1, (h2, (h3, (h4, (h5, all)))))) h =
    absurd (ground (arith, h))
canonical-Tail d (q0 ∷ q1 ∷ q2 ∷ q3 ∷ q4 ∷ q5 ∷ q6 ∷ [])
      (h0, (h1, (h2, (h3, (h4, (h5, (h6, all))))))) h =
    let (ones, threes, sevens, all_ones) = low_digits q6 h6 in
    grind (arith, h, ones, threes, sevens, all_ones)
canonical-Tail d (q0 ∷ q1 ∷ q2 ∷ q3 ∷ q4 ∷ q5 ∷ q6 ∷ q7 ∷ qs)
      (h0, (h1, (h2, (h3, (h4, (h5, (h6, (h7, all)))))))) h =
    canonical-Tail q7 qs all (sym (eight_more (length qs) (last q7 qs)) ∙ h)

Tail-canonical :
    (d : ℕ) (vs : List ℕ) → Fives vs → Tail vs → canonical_with (length vs) (last d vs) ≡ true
unfolding Tail
Tail-canonical d [] all t = refl
Tail-canonical d (q0 ∷ []) (h0, all) t = absurd t
Tail-canonical d (q0 ∷ q1 ∷ []) (h0, (h1, all)) t =
    let (ones, threes, sevens, all_ones) = low_digits q1 h1 in rw (threes, t) refl
Tail-canonical d (q0 ∷ q1 ∷ q2 ∷ []) (h0, (h1, (h2, all))) t = absurd t
Tail-canonical d (q0 ∷ q1 ∷ q2 ∷ q3 ∷ []) (h0, (h1, (h2, (h3, all)))) t =
    let (ones, threes, sevens, all_ones) = low_digits q3 h3 in rw (all_ones, t) refl
Tail-canonical d (q0 ∷ q1 ∷ q2 ∷ q3 ∷ q4 ∷ []) (h0, (h1, (h2, (h3, (h4, all))))) t =
    let (ones, threes, sevens, all_ones) = low_digits q4 h4 in rw (ones, t) refl
Tail-canonical d (q0 ∷ q1 ∷ q2 ∷ q3 ∷ q4 ∷ q5 ∷ []) (h0, (h1, (h2, (h3, (h4, (h5, all)))))) t =
    absurd t
Tail-canonical d (q0 ∷ q1 ∷ q2 ∷ q3 ∷ q4 ∷ q5 ∷ q6 ∷ [])
      (h0, (h1, (h2, (h3, (h4, (h5, (h6, all))))))) t =
    let (ones, threes, sevens, all_ones) = low_digits q6 h6 in rw (sevens, t) refl
Tail-canonical d (q0 ∷ q1 ∷ q2 ∷ q3 ∷ q4 ∷ q5 ∷ q6 ∷ q7 ∷ qs)
      (h0, (h1, (h2, (h3, (h4, (h5, (h6, (h7, all)))))))) t =
    eight_more (length qs) (last q7 qs) ∙ Tail-canonical q7 qs all t

-- What the values of a string say of it.
abbrev Valued : ℕ → List ℕ → List ℕ → Type 0
Valued d s vs =
    (length s ≡ length vs)
    × (decoding_table (last d s) ≡ last (decoding_table d) vs)
    × Fives vs
    × (map (entry alphabet) vs ≡ s)

not_none : (vs : List ℕ) → none ≡ some vs → ⊥
not_none vs h = cc h

cons_cases :
    (v : ℕ) (o : Option (List ℕ)) (vs : List ℕ)
    → map_option (λ ws. v ∷ ws) o ≡ some vs
    → (ws : List ℕ) × (o ≡ some ws) × (v ∷ ws ≡ vs)
cons_cases v none vs h = cc h
cons_cases v (some ws) vs h = (ws, refl, cc h)

known_cases :
    (c : ℕ) (s vs : List ℕ)
    → values (c ∷ s) ≡ some vs
    → ((decoding_table c == 0xff) ≡ false)
      × (ws : List ℕ) × (values s ≡ some ws)
      × (decoding_table c ∷ ws ≡ vs)
unfolding values
known_cases c s vs h =
    let if_known : Bool → Type 0 =
      λ b. (if b then none else map_option (λ ws. decoding_table c ∷ ws) (values s)) ≡ some vs in
    elim (Bool-cases (decoding_table c == 0xff)) [
      | inl k ↦ absurd (not_none vs (subst if_known k h))
      | inr k ↦
          let (ws, valued, same) =
            cons_cases (decoding_table c) (values s) vs (subst if_known k h) in
          (k, ws, valued, same)
    ]

pub values-Valued : (d : ℕ) (s vs : List ℕ) → Plain s → values s ≡ some vs → Valued d s vs
unfolding values
values-Valued d [] [] plain h = (refl, refl, tt, refl)
values-Valued d [] (v ∷ vs) plain h = cc h
values-Valued d (c ∷ s) vs ((not_lf, not_cr, lt), rest) h =
    let (known, ws, valued, same) = known_cases c s vs h in
    let (long, lasts, fives, back) = values-Valued c s ws rest valued in
    let (small, here) = decoding_table-known c lt known in
    subst (Valued d (c ∷ s)) same (
      ap suc long,
      lasts,
      (small, fives),
      ap (λ k. k ∷ map (entry alphabet) ws) here ∙ ap (λ t. c ∷ t) back,
    )

-- A string that passes the test has no unused digits.
pub is_canonical-Tail :
    (s vs : List ℕ) → Plain s → values s ≡ some vs → is_canonical s ≡ true → Tail vs
unfolding is_canonical
is_canonical-Tail s vs plain valued h =
    let (long, lasts, fives, back) = values-Valued 0 s vs plain valued in
    canonical-Tail (decoding_table 0) vs fives (
      subst (λ n. canonical_with n (last (decoding_table 0) vs) ≡ true) long
        (subst (λ v. canonical_with (length s) v ≡ true) lasts h))

pub Tail-is_canonical :
    (s vs : List ℕ) → Plain s → values s ≡ some vs → Tail vs → is_canonical s ≡ true
unfolding is_canonical
Tail-is_canonical s vs plain valued t =
    let (long, lasts, fives, back) = values-Valued 0 s vs plain valued in
    subst (λ v. canonical_with (length s) v ≡ true) (sym lasts)
      (subst (λ n. canonical_with n (last (decoding_table 0) vs) ≡ true) (sym long)
        (Tail-canonical (decoding_table 0) vs fives t))
