-- ===== src/OpenSubmissions/Clean.antt =====
-- The timeout of open submissions, and what the list is at any time.
use Prim.Native.String.{String}
use aurorav1_11_0_test.Base.{
  ℕ, ◌≡◌, refl, sym, ap, subst, ◌∙◌, false, not, Bool-cases, inl, inr, List, [], ◌∷◌, ◌++◌, length,
  select, arith,
}
use aurorav1_11_0_test.Base.Maps.{Map, delete, Lacks, Distinct, delete-Distinct}
use mathlib.Core.List.{append_assoc}
use text.Mathlib.TextEquality.{eq_iff}
use text.Mathlib.Text.{◌==◌ as same}
use aurorav1_11_0_test.OpenSubmissions.{Submissions, send, is_old, clean_each, clean}

-- Every submission is listed under its hash.
abbrev pub Keyed : Submissions → Type 0
Keyed [] = Unit {0}
Keyed ((k, os) ∷ m) = (os.hash ≡ k) × Keyed m

abbrev pub WellFormed : Submissions → Type 0
WellFormed m = Distinct m × Keyed m

module _ {ℓ} {V : Type ℓ} where
  pub delete-Lacks : (k : String) (m : Map V) → Lacks k m → delete k m ≡ m
  unfolding delete
  delete-Lacks k [] l = refl
  delete-Lacks k ((j, w) ∷ m) l = ground (arith, l.0, delete-Lacks k m l.1)

  pub Lacks-middle :
      (j k : String) (v : V) (done m : Map V) → Lacks j (done ++ (k, v) ∷ m) → same k j ≡ false
  Lacks-middle j k v [] m l = l.0
  Lacks-middle j k v (x ∷ done) m l = Lacks-middle j k v done m l.1

  pub delete-middle :
      (k : String) (v : V) (done m : Map V)
      → Distinct (done ++ (k, v) ∷ m)
      → delete k (done ++ (k, v) ∷ m) ≡ done ++ m
  unfolding delete
  delete-middle k v [] m d = ground (arith, delete-Lacks k m d.0, eq_iff k k)
  delete-middle k v ((j, w) ∷ done) m d =
      ground
        (arith, delete-middle k v done m d.1, Lacks-middle j k v done m d.0, eq_iff j k, eq_iff k j)

module _ {R : Type 0} (timed_out : R) (now max_age : ℕ) where
  abbrev pub old : Submissions → Submissions
  old m = select (λ e. is_old timed_out now max_age e.1) m

  abbrev pub young : Submissions → Submissions
  young m = select (λ e. not (is_old timed_out now max_age e.1)) m

  -- The timeout for each listener.
  abbrev pub time_out : Submissions → List (ℕ × R)
  time_out [] = []
  time_out ((k, os) ∷ m) = send timed_out os.listeners ++ time_out m

  clean_each-splits :
      (m done : Submissions)
      → Distinct (done ++ m)
      → Keyed m
      → clean_each timed_out now max_age m (done ++ m) ≡ (time_out (old m), done ++ young m)
  unfolding clean_each select
  clean_each-splits [] done d h = refl
  clean_each-splits ((k, os) ∷ m) done d h = elim (Bool-cases (is_old timed_out now max_age os)) [
    | inl e ↦
        let gone = delete-middle k os done m d in
        let rest =
          clean_each-splits m done (subst Distinct gone (delete-Distinct k (done ++ (k, os) ∷ m) d))
            h.1 in
        let gone' = subst (λ j. delete j (done ++ (k, os) ∷ m) ≡ done ++ m) (sym h.0) gone in
        rw (e, gone') (ap (λ r. (send timed_out os.listeners ++ r.0, r.1)) rest)
    | inr e ↦
        let first = (k, os) ∷ [] in
        let moved = append_assoc done first m in
        let rest = clean_each-splits m (done ++ first) (subst Distinct (sym moved) d) h.1 in
        rw e (
          subst
            (λ l.
              clean_each timed_out now max_age m l ≡ (time_out (old m), done ++ (k, os) ∷ young m))
            moved (rest ∙ ap (λ l. (time_out (old m), l)) (append_assoc done first (young m))))
  ]

  -- On a list that is well formed the timeout sends exactly to the listeners of the submissions over
  -- the age, keeps the others and counts them.
  pub clean-splits :
      (m : Submissions)
      → WellFormed m
      → clean timed_out now max_age m ≡ (time_out (old m), length (young m), young m)
  unfolding clean
  clean-splits m w = ap (λ r. (r.0, length r.1, r.1)) (clean_each-splits m [] w.0 w.1)
