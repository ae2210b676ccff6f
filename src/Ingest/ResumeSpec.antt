-- ===== src/Ingest/ResumeSpec.antt =====
-- What a round in the resume state does, as a relation between the database before and after it.
use aurorav1_11_0_test.Base.{
  ℕ, ◌<◌, ◌^◌, false, none, ◌≡◌, ◌≢◌, ◌⊎◌, inl, ◌∷◌, arith, tests, ltb, ◌==◌, if◌then◌else◌,
}
use aurorav1_11_0_test.Ingest.World.{
  World, Db, Env, current_version, all_of, get_latest_core_ledger, failed,
}
use aurorav1_11_0_test.Ingest.Nodes.{
  Node, Outcome, ok, start, fail, retry_resume, resume_immediately, resume_state, default_sleep,
}
use aurorav1_11_0_test.Ingest.Steps.{ask}
use aurorav1_11_0_test.Ingest.Helpers.{maybe_prepare_range}
use aurorav1_11_0_test.Ingest.Resume.{
  next_ledger, resume_checks, fast_forward, ingest_ledger, resume_body, run_resume,
}
use aurorav1_11_0_test.Ingest.Machine.{run}
use aurorav1_11_0_test.Ingest.Triples.{
  Holds, Ensures, bind, weaken, if-Ensures, exit_if-Ensures, in_transaction, past_guard, found,
  Inside, returned-Holds,
}

abbrev pub ingested : Db → Db
ingested d =
    let l = next_ledger d.last_ingested in
    record d { last_ingested = l; tables = all_of l ∷ d.tables }

abbrev pub ResumesBelow : ℕ → Node → Type 0
ResumesBelow l (resume_state core) = core < l
ResumesBelow l n = ⊥

-- An error leaves the database alone and goes back to the start or retries; without an error the
-- node goes back to the start, or falls back to a ledger that the backend has, both with the database
-- left alone, or it has ingested exactly the ledger after the last ingested one.
abbrev pub Resumed : ℕ → Db → Outcome → Db → Type 0
Resumed latest d o d' =
    (o.1 ≢ none) × ((o.0 ≡ start) ⊎ (o.0 ≡ retry_resume latest)) × (d' ≡ d)
    ⊎ (o ≡ ok start) × (d' ≡ d)
    ⊎ (o.1 ≡ none)
      × (o.0.sleep_duration ≡ default_sleep)
      × ResumesBelow (next_ledger d.last_ingested) o.0.node
      × (d' ≡ d)
    ⊎ (o ≡ ok (resume_immediately (next_ledger d.last_ingested)))
      × (d.ingest_version ≡ current_version)
      × (next_ledger d.last_ingested ≢ 0)
      × (d' ≡ ingested d)

module _ (e : Env) (latest : ℕ) (d : Db) (word : d.last_ingested < 2 ^ 32) where
  abbrev Post : Outcome → World → Type 0
  Post o w = Resumed latest d o w.db

  resume_checks-Ensures :
      Ensures (Inside d) (resume_checks e latest) Post (λ l w.
        Inside d w × (l ≡ next_ledger d.last_ingested) × (d.ingest_version ≡ current_version))
  unfolding resume_checks
  resume_checks-Ensures = record { holds = λ w p. ground arith }

  fast_forward-Ensures :
      (core : ℕ)
      → core < next_ledger d.last_ingested
      → Ensures (Inside d) (fast_forward e latest core) Post Post
  unfolding fast_forward
  fast_forward-Ensures core lt = record { holds = λ w p. ground arith }

  ingest_ledger-Ensures :
      (l : ℕ)
      → l ≡ next_ledger d.last_ingested
      → d.ingest_version ≡ current_version
      → Ensures (Inside d) (ingest_ledger e latest l) Post Post
  unfolding ingest_ledger
  ingest_ledger-Ensures l q v = record { holds = λ w p. ground arith }

  -- What is known once the checks have passed.
  abbrev Ready : ℕ → World → Type 0
  Ready l w = Inside d w × (l ≡ next_ledger d.last_ingested) × (d.ingest_version ≡ current_version)

  prepare-Ensures :
      (l : ℕ)
      → Ensures
          (Ready l)
          (maybe_prepare_range e (fail start) l)
          Post
          (λ released w. (released ≡ false → Ready l w) × (w.db ≡ d))
  unfolding maybe_prepare_range
  prepare-Ensures l = record { holds = λ w p. ground arith }

  ask_core-Ensures :
      (l : ℕ)
      → Ensures
          (Ready l)
          (ask e get_latest_core_ledger
            (λ w. e.latest_core_ledger w.calls)
            (fail (retry_resume latest) (failed get_latest_core_ledger)))
          Post
          (λ core w. Ready l w)
  unfolding ask
  ask_core-Ensures l = record { holds = λ w p. ground arith }

  close-Ensures :
      (l core : ℕ)
      → Ensures
          (Ready l)
          (if ltb core l then fast_forward e latest core else ingest_ledger e latest l)
          Post
          Post
  close-Ensures l core =
      if-Ensures (ltb core l)
        (λ b. record {
          holds = λ w p. (fast_forward-Ensures core (omega (tests, p.1))).holds w p.0;
        })
        (λ b. record { holds = λ w p. (ingest_ledger-Ensures l p.1 p.2).holds w p.0 })

  resume_body-Ensures : Ensures (Inside d) (resume_body e latest) Post Post
  unfolding resume_body
  resume_body-Ensures = bind resume_checks-Ensures λ l. bind (prepare-Ensures l) λ released.
      bind (exit_if-Ensures released (ok start) (λ w p b. ground arith))
        λ _. bind (weaken (λ w p. p.0.0 p.1) (ask_core-Ensures l)) λ core. close-Ensures l core

-- The outcome of a round: one of the cases of `Resumed`, or no transaction could be opened.
abbrev pub ResumeRound : Env → ℕ → World → Outcome → World → Type 0
ResumeRound e latest w o w' =
    Resumed latest (found e w) o w'.db ⊎ (o.1 ≢ none) × (o.0 ≡ retry_resume latest) × (w'.db ≡ w.db)

run_resume-Round :
    (e : Env) (latest : ℕ) (w : World)
    → w.tx ≡ none
    → latest ≢ 0
    → (found e w).last_ingested < 2 ^ 32
    → Holds (ResumeRound e latest w) (ResumeRound e latest w) (run_resume e latest w)
unfolding run_resume
run_resume-Round e latest w closed pos word = past_guard _ (latest == 0) _ _ w (ground arith) (
    in_transaction (ResumeRound e latest w) (Post e latest (found e w) word) e w _
      (resume_body e latest) closed (ground arith)
      (weaken (λ v b. b.0) (resume_body-Ensures e latest (found e w) word)) (λ o w' r. inl r))

-- A round in the resume state, from a world with no transaction open, with a ledger other than 0 and
-- with ledger sequences below 2 ^ 32, opens no transaction and fails, or is a case of `Resumed`.
pub resume-Resumed :
    (e : Env) (latest : ℕ) (w : World)
    → w.tx ≡ none
    → latest ≢ 0
    → (found e w).last_ingested < 2 ^ 32
    → ResumeRound e latest w (run e (resume_state latest) w).0 (run e (resume_state latest) w).1
unfolding run
resume-Resumed e latest w closed pos word =
    returned-Holds (ResumeRound e latest w) (run_resume e latest w)
      (run_resume-Round e latest w closed pos word)
