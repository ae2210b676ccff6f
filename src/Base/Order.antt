-- ===== src/Base/Order.antt =====
-- The order of texts, by the numbers of their characters.
use Prim.Native.Nat.compare as compare_ℕ
use Prim.Native.Nat.{ℕ, zero, suc, Ordering, compare as compare_ℕ}
use Prim.Native.Char.{code}
use Prim.Native.String.compare
use Prim.Native.String.{String, [], ◌∷◌, compare, then}
use mathlib.Core.Path.{◌≡◌, refl, sym, ap, ◌∙◌}
use mathlib.Core.Bool.{false, true≢false}
use text.Mathlib.Text.{is_lt}
use text.Mathlib.TextEquality.{path_by_compare}

abbrev reversed : Ordering → Ordering
reversed Ordering.lt = Ordering.gt
reversed Ordering.eq = Ordering.eq
reversed Ordering.gt = Ordering.lt

compare_ℕ_swap : (m n : ℕ) → compare_ℕ n m ≡ reversed (compare_ℕ m n)
compare_ℕ_swap zero zero = compare_ℕ.zero-zero ∙ sym (ap reversed compare_ℕ.zero-zero)
compare_ℕ_swap zero (suc n) = compare_ℕ.suc-zero n ∙ sym (ap reversed (compare_ℕ.zero-suc n))
compare_ℕ_swap (suc m) zero = compare_ℕ.zero-suc m ∙ sym (ap reversed (compare_ℕ.suc-zero m))
compare_ℕ_swap (suc m) (suc n) =
    compare_ℕ.suc-suc n m ∙ compare_ℕ_swap m n ∙ sym (ap reversed (compare_ℕ.suc-suc m n))

reversed-then : (o r : Ordering) → then (reversed o) (reversed r) ≡ reversed (then o r)
reversed-then Ordering.lt r = refl
reversed-then Ordering.eq r = refl
reversed-then Ordering.gt r = refl

compare_swap : (s t : String) → compare t s ≡ reversed (compare s t)
compare_swap [] [] = compare.nil-nil ∙ sym (ap reversed compare.nil-nil)
compare_swap [] (d ∷ t) = compare.cons-nil d t ∙ sym (ap reversed (compare.nil-cons d t))
compare_swap (c ∷ s) [] = compare.nil-cons c s ∙ sym (ap reversed (compare.cons-nil c s))
compare_swap (c ∷ s) (d ∷ t) =
    compare.cons-cons d c t s
    ∙ ap (λ o. then o (compare t s)) (compare_ℕ_swap (code c) (code d))
    ∙ ap (then (reversed (compare_ℕ (code c) (code d)))) (compare_swap s t)
    ∙ reversed-then (compare_ℕ (code c) (code d)) (compare s t)
    ∙ sym (ap reversed (compare.cons-cons c d s t))

neither : (o : Ordering) → is_lt o ≡ false → is_lt (reversed o) ≡ false → o ≡ Ordering.eq
neither Ordering.lt h k = absurd (true≢false h)
neither Ordering.eq h k = refl
neither Ordering.gt h k = absurd (true≢false k)

-- Of two texts that differ, one is less.
pub equal_of_not_less :
    (s t : String) → is_lt (compare s t) ≡ false → is_lt (compare t s) ≡ false → s ≡ t
equal_of_not_less s t h k =
    path_by_compare s t (neither (compare s t) h (sym (ap is_lt (compare_swap s t)) ∙ k))
