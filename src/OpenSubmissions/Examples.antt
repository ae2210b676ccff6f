-- ===== src/OpenSubmissions/Examples.antt =====
-- A list with three listeners for two transactions.
use Prim.Native.String.{String}
use aurorav1_11_0_test.Base.{ℕ, ◌≡◌, refl, [], ◌∷◌}
use aurorav1_11_0_test.OpenSubmissions.{Submissions, clean}

abbrev hash_a : String
hash_a = "aaaaaaaaaaaaaaaaaaaaaaaaaaaaaaaaaaaaaaaaaaaaaaaaaaaaaaaaaaaaaaaa"

abbrev hash_b : String
hash_b = "bbbbbbbbbbbbbbbbbbbbbbbbbbbbbbbbbbbbbbbbbbbbbbbbbbbbbbbbbbbbbbbb"

abbrev result : ℕ
result = 5

abbrev no_result : ℕ
no_result = 0

abbrev two : Submissions
two =
    (hash_a, record { hash = hash_a; submitted_at = 1; listeners = 10 ∷ 11 ∷ [] })
    ∷ (hash_b, record { hash = hash_b; submitted_at = 5; listeners = 12 ∷ [] })
    ∷ []

two_cleaned : (clean no_result 9 6 two).0 ≡ (10, 0) ∷ (11, 0) ∷ []
unfolding clean
two_cleaned = refl
