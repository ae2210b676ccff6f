-- ===== src/OpenSubmissions/Shape.antt =====
-- What the list of open submissions is at any time: every hash once, and each submission under its own.
use Prim.Native.String.{String, len}
use aurorav1_11_0_test.Base.{
  ℕ, ◌≡◌, refl, subst, ◌∙◌, not, ◌==◌, Bool-cases, inl, inr, if-holds, Option-cases, [], ◌∷◌,
}
use aurorav1_11_0_test.Base.Maps.{lookup, put, delete, put-Distinct, delete-Distinct}
use text.Mathlib.TextEquality.{eq_iff}
use text.Mathlib.Text.{◌==◌ as same}
use aurorav1_11_0_test.OpenSubmissions.{
  OpenSubmission, Submissions, Added, added, add, finish, is_old, clean_each, clean, open_or_new,
}
use aurorav1_11_0_test.OpenSubmissions.Clean.{Keyed, WellFormed}

put-Keyed :
    (h : String) (os : OpenSubmission) (m : Submissions)
    → os.hash ≡ h
    → Keyed m
    → Keyed (put h os m)
unfolding put
put-Keyed h os [] e k = (e, tt)
put-Keyed h os ((j, w) ∷ m) e k = if-holds Keyed (same j h) (e, k.1) (k.0, put-Keyed h os m e k.1)

delete-Keyed : (h : String) (m : Submissions) → Keyed m → Keyed (delete h m)
unfolding delete
delete-Keyed h [] k = tt
delete-Keyed h ((j, w) ∷ m) k =
    let rest = delete-Keyed h m k.1 in if-holds Keyed (same j h) rest (k.0, rest)

delete-WellFormed : (h : String) (m : Submissions) → WellFormed m → WellFormed (delete h m)
delete-WellFormed h m (d, k) = (delete-Distinct h m d, delete-Keyed h m k)

found_hash :
    (now : ℕ) (h : String) (m : Submissions) → Keyed m → (open_or_new now h (lookup h m)).hash ≡ h
unfolding lookup
found_hash now h [] k = refl
found_hash now h ((j, w) ∷ m) k = elim (Bool-cases (same j h)) [
  | inl s ↦ rw s (k.0 ∙ (eq_iff j h).0 s)
  | inr s ↦ rw s (found_hash now h m k.1)
]

-- The methods that change the list.
module _ (R : Type 0) where
  pub data Step : Submissions → Submissions → Type 0 where
    adds :
        (now capacity l : ℕ) (hash : String) (m m' : Submissions)
        → add now capacity hash l m ≡ added m'
        → Step m m'
    finishes : (hash : String) (r : R) (m : Submissions) → Step m (finish hash r m).1
    cleans :
        (timed_out : R) (now max_age : ℕ) (m : Submissions)
        → Step m (clean timed_out now max_age m).2

-- What an addition that succeeds gives.
abbrev Good : Added → Type 0
Good (added m) = WellFormed m
Good other = Unit {0}

add-Good :
    (now capacity l : ℕ) (hash : String) (m : Submissions)
    → WellFormed m
    → Good (add now capacity hash l m)
unfolding add
add-Good now capacity l hash m (d, k) =
    let named = found_hash now hash m k in
    if-holds Good (capacity == 0) tt (
      if-holds Good (not (len hash == 64)) tt (put-Distinct hash _ m d, put-Keyed hash _ m named k))

module _ {R : Type 0} where
  finish-WellFormed :
      (hash : String) (r : R) (m : Submissions) → WellFormed m → WellFormed (finish hash r m).1
  unfolding finish
  finish-WellFormed hash r m w = elim (Option-cases (lookup hash m)) [
    | inl e ↦ rw (e, finish) w
    | inr (os, e) ↦ rw (e, finish) (delete-WellFormed hash m w)
  ]

  clean_each-WellFormed :
      (timed_out : R) (now max_age : ℕ) (entries m : Submissions)
      → WellFormed m
      → WellFormed (clean_each timed_out now max_age entries m).1
  unfolding clean_each
  clean_each-WellFormed timed_out now max_age [] m w = w
  clean_each-WellFormed timed_out now max_age ((k, os) ∷ entries) m w =
      clean_each-WellFormed timed_out now max_age entries _
        (if-holds WellFormed (is_old timed_out now max_age os) (delete-WellFormed os.hash m w) w)

  -- Every method that changes the list keeps each hash listed once, with its own submission.
  pub Step-WellFormed : {m m' : Submissions} → Step R m m' → WellFormed m → WellFormed m'
  unfolding clean
  Step-WellFormed (adds now capacity l hash m m' e) w =
      subst Good e (add-Good now capacity l hash m w)
  Step-WellFormed (finishes hash r m) w = finish-WellFormed hash r m w
  Step-WellFormed (cleans timed_out now max_age m) w =
      clean_each-WellFormed timed_out now max_age m m w
