-- ===== src/Txsub/Lists.antt =====
-- The listeners of all open submissions, and what the methods of the list do with them.
use Prim.Native.String.{String, len}
use text.Mathlib.TextEquality.{eq_iff}
use text.Mathlib.Text.{◌==◌ as same}
use aurorav1_11_0_test.Base.{
  ℕ, ◌+◌, ◌==◌, ◌≡◌, refl, ap, subst, ◌∙◌, Bool, not, Bool-cases, Option-cases, inl, inr, if-holds,
  Option, none, some, List, [], ◌∷◌, ◌++◌, map, select, arith,
}
use aurorav1_11_0_test.Base.Maps.{lookup, put, delete, Distinct, Lacks}
use aurorav1_11_0_test.OpenSubmissions.{
  OpenSubmission, Submissions, Added, added, add, finish, clean, send, open_or_new,
}
use aurorav1_11_0_test.OpenSubmissions.Clean.{WellFormed, delete-Lacks, old, time_out, clean-splits}
use aurorav1_11_0_test.OpenSubmissions.Listeners.{waiting_for}
use aurorav1_11_0_test.Txsub.Counts.{count, count-nil, count-append}

abbrev pub all_listeners : Submissions → List ℕ
all_listeners [] = []
all_listeners ((k, os) ∷ m) = os.listeners ++ all_listeners m

-- The channels that get a result.
abbrev pub receivers {ℓ} : {R : Type ℓ} → List (ℕ × R) → List ℕ
receivers sent = map (λ s. s.0) sent

pub receivers-append {ℓ} :
    {R : Type ℓ} (s t : List (ℕ × R)) → receivers (s ++ t) ≡ receivers s ++ receivers t
receivers-append [] t = refl
receivers-append (x ∷ s) t = ap (λ l. x.0 ∷ l) (receivers-append s t)

receivers-send : {R : Type 0} (r : R) (ls : List ℕ) → receivers (send r ls) ≡ ls
receivers-send r [] = refl
receivers-send r (l ∷ ls) = ap (λ l'. l ∷ l') (receivers-send r ls)

module _ (n : ℕ) where
  count-put :
      (k : String) (os : OpenSubmission) (m : Submissions)
      → count n (all_listeners (put k os m)) + count n (waiting_for (lookup k m))
        ≡ count n (all_listeners m) + count n os.listeners
  unfolding put lookup count
  count-put k os [] = omega (arith, count-append n os.listeners [])
  count-put k os ((j, w) ∷ m) = elim (Bool-cases (same j k)) [
    | inl e ↦ rw e (
        omega (
          arith,
          count-append n os.listeners (all_listeners m),
          count-append n w.listeners (all_listeners m),
        ))
    | inr e ↦ rw e (
        omega (
          arith,
          count-put k os m,
          count-append n w.listeners (all_listeners (put k os m)),
          count-append n w.listeners (all_listeners m),
        ))
  ]

  count-delete :
      (k : String) (m : Submissions)
      → Distinct m
      → count n (all_listeners (delete k m)) + count n (waiting_for (lookup k m))
        ≡ count n (all_listeners m)
  unfolding delete lookup count
  count-delete k [] d = refl
  count-delete k ((j, w) ∷ m) d = elim (Bool-cases (same j k)) [
    | inl e ↦
        let gone : delete k m ≡ m =
          delete-Lacks k m (subst (λ i. Lacks i m) ((eq_iff j k).0 e) d.0) in
        rw (e, gone) (omega (arith, count-append n w.listeners (all_listeners m)))
    | inr e ↦ rw e (
        omega (
          arith,
          count-delete k m d.1,
          count-append n w.listeners (all_listeners (delete k m)),
          count-append n w.listeners (all_listeners m),
        ))
  ]

  listeners_before :
      (now : ℕ) (hash : String) (o : Option OpenSubmission)
      → (open_or_new now hash o).listeners ≡ waiting_for o
  listeners_before now hash none = refl
  listeners_before now hash (some os) = refl

  -- The listeners after an addition that succeeds.
  abbrev pub OneMore : ℕ → Submissions → Added → Type 0
  OneMore l m (added m') = count n (all_listeners m') ≡ count n (l ∷ []) + count n (all_listeners m)
  OneMore l m other = Unit {0}

  pub count-add :
      (now capacity l : ℕ) (hash : String) (m : Submissions)
      → OneMore l m (add now capacity hash l m)
  unfolding add
  count-add now capacity l hash m =
      let os = open_or_new now hash (lookup hash m) in
      let os' = record os { listeners = os.listeners ++ l ∷ [] } in
      let before = ap (count n) (listeners_before now hash (lookup hash m)) in
      if-holds (OneMore l m) (capacity == 0) tt (
        if-holds (OneMore l m) (not (len hash == 64)) tt
          (omega (arith, count-put hash os' m, count-append n os.listeners (l ∷ []), before)))

  pub count-finish :
      {R : Type 0} (hash : String) (r : R) (m : Submissions)
      → Distinct m
      → count n (receivers (finish hash r m).0) + count n (all_listeners (finish hash r m).1)
        ≡ count n (all_listeners m)
  unfolding finish
  count-finish hash r m d = elim (Option-cases (lookup hash m)) [
    | inl e ↦ rw (e, finish) (omega (arith, count-nil n))
    | inr (os, e) ↦
        rw (e, finish)
          (let gone = count-delete hash m d in
            let before = ap (λ o. count n (waiting_for o)) e in
            let got = ap (count n) (receivers-send r os.listeners) in
            omega (arith, gone, before, got))
  ]

  count-split :
      (p : String × OpenSubmission → Bool) (m : Submissions)
      → count n (all_listeners (select p m)) + count n (all_listeners (select (λ e. not (p e)) m))
        ≡ count n (all_listeners m)
  unfolding select count
  count-split p [] = refl
  count-split p ((k, os) ∷ m) =
      let others = λ (e : String × OpenSubmission). not (p e) in
      let rest = count-split p m in
      let all = count-append n os.listeners (all_listeners m) in
      elim (Bool-cases (p (k, os))) [
        | inl e ↦
            rw e
              (omega (arith, rest, all, count-append n os.listeners (all_listeners (select p m))))
        | inr e ↦ rw e (
            omega (arith, rest, all, count-append n os.listeners (all_listeners (select others m))))
      ]

  receivers-time_out :
      {R : Type 0} (timed_out : R) (now max_age : ℕ) (m : Submissions)
      → receivers (time_out timed_out now max_age m) ≡ all_listeners m
  receivers-time_out timed_out now max_age [] = refl
  receivers-time_out timed_out now max_age ((k, os) ∷ m) =
      receivers-append (send timed_out os.listeners) (time_out timed_out now max_age m)
      ∙ ap (λ l. l ++ receivers (time_out timed_out now max_age m))
          (receivers-send timed_out os.listeners)
      ∙ ap (λ l. os.listeners ++ l) (receivers-time_out timed_out now max_age m)

  pub count-clean :
      {R : Type 0} (timed_out : R) (now max_age : ℕ) (m : Submissions)
      → WellFormed m
      → let r = clean timed_out now max_age m in
        count n (receivers r.0) + count n (all_listeners r.2) ≡ count n (all_listeners m)
  count-clean timed_out now max_age m w =
      rw
        (
          clean-splits timed_out now max_age m w,
          receivers-time_out timed_out now max_age (old timed_out now max_age m),
        )
        (count-split _ m)
