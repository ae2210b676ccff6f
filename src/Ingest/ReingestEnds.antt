-- ===== src/Ingest/ReingestEnds.antt =====
-- The reingestion command comes to an end.
use aurorav1_11_0_test.Base.{
  ℕ, zero, suc, ◌+◌, ◌-◌, Bool, true, false, none, some, ◌≡◌, ◌≢◌, refl, arith, ◌∷◌, ◌&&◌, ltb, leb,
}
use aurorav1_11_0_test.Ingest.World.{
  World, Env, Call, Error, note, sleep, store, failed, transactions_of, run_transaction_processors,
  get_last_ledger, get_last_ledger_non_blocking, reingest_range_conflict, current, invalid_range,
  prepare_bounded_range,
}
use aurorav1_11_0_test.Ingest.Nodes.{Outcome, fail, stop}
use aurorav1_11_0_test.Ingest.Steps.{M, ask, exit_if, perform, begins, commits, deferring_rollback}
use aurorav1_11_0_test.Ingest.Helpers.{process_ledgers}
use aurorav1_11_0_test.Ingest.History.{
  delete_first, reingest_body, reingest_locked, reingest_ledgers, reingest_forced,
  reingest_unforced, run_reingest, bad_range,
}
use aurorav1_11_0_test.Ingest.Machine.{
  Finish, finished, unexpected_transaction, panicked, unfinished, run, after_run, reingest_once,
  retry_reingest, reingest_range,
}
use aurorav1_11_0_test.Ingest.Triples.{
  Ensures, bind, consequence, weaken, if-Ensures, exit_if-Ensures, deferring_rollback-Ensures,
  returned-Holds,
}

abbrev Any : World → Type 0
Any w = Unit {0}

abbrev Stops : Outcome → World → Type 0
Stops o w = o.0 ≡ stop

-- The steps of the command return to nowhere but the stop state.
abbrev StepStops : {A : Type 0} → M Outcome A → Type 0
StepStops m = Ensures Any m Stops (λ _ w. Any w)

module _ (e : Env) where
  ask-stops :
      {A : Type 0} (c : Call) (read : World → A) (x : Error)
      → StepStops (ask e c read (fail stop x))
  unfolding ask
  ask-stops c read x = record { holds = λ w p. ground arith }

  perform-stops :
      (c : Call) (f : World → World) (x : Error) → StepStops (perform e c f (fail stop x))
  unfolding perform
  perform-stops c f x = record { holds = λ w p. ground arith }

  begins-stops : (x : Error) → StepStops (begins e (fail stop x))
  unfolding begins perform
  begins-stops x = record { holds = λ w p. ground arith }

  commits-stops : (x : Error) → StepStops (commits e (fail stop x))
  unfolding commits
  commits-stops x = record { holds = λ w p. ground arith }

  process_ledgers-stops : (n cur : ℕ) → StepStops (process_ledgers e (fail stop) n cur)
  unfolding process_ledgers
  process_ledgers-stops zero cur = record { holds = λ w p. tt }
  process_ledgers-stops (suc n) cur =
      bind
        (perform-stops (run_transaction_processors cur)
          (store (λ d. record d { tables = transactions_of cur ∷ d.tables }))
          (failed (run_transaction_processors cur)))
        λ _. process_ledgers-stops n (cur + 1)

  delete_first-stops : (from to : ℕ) → StepStops (delete_first e from to)
  unfolding delete_first
  delete_first-stops from to = record { holds = λ w p. ground arith }

  reingest_body-stops : (from to : ℕ) → StepStops (reingest_body e from to)
  unfolding reingest_body
  reingest_body-stops from to =
      bind (bind (delete_first-stops from to) λ _. process_ledgers-stops (to + 1 - from) from)
        λ _. commits-stops _

  deferring-stops : {A : Type 0} {m : M Outcome A} → StepStops m → StepStops (deferring_rollback m)
  deferring-stops h = deferring_rollback-Ensures (consequence (λ o w p. p) (λ a w p. p) h)

  reingest_ledgers-stops : (n cur : ℕ) → StepStops (reingest_ledgers e n cur)
  unfolding reingest_ledgers
  reingest_ledgers-stops zero cur = record { holds = λ w p. tt }
  reingest_ledgers-stops (suc n) cur = bind (begins-stops _) λ _.
      bind (deferring-stops (reingest_body-stops cur cur)) λ _. reingest_ledgers-stops n (cur + 1)

  reingest_forced-Stops : (from to : ℕ) → Ensures Any (reingest_forced e from to) Stops Stops
  unfolding reingest_forced reingest_locked
  reingest_forced-Stops from to = bind (begins-stops _) λ _.
      bind
        (deferring-stops (
          bind (ask-stops get_last_ledger (λ w. (current w).last_ingested) _)
            λ _. reingest_body-stops from to))
        λ _. record { holds = λ w p. refl }

  conflict-stops : (b : Bool) → StepStops (exit_if b (fail stop reingest_range_conflict))
  conflict-stops true = record { holds = λ w p. refl }
  conflict-stops false = record { holds = λ w p. tt }

  reingest_unforced-Stops : (from to : ℕ) → Ensures Any (reingest_unforced e from to) Stops Stops
  unfolding reingest_unforced
  reingest_unforced-Stops from to =
      bind (ask-stops get_last_ledger_non_blocking (λ w. (current w).last_ingested) _) λ last.
        bind (conflict-stops (ltb 0 last && leb last to)) λ _.
          bind (reingest_ledgers-stops (to + 1 - from) from) λ _. record { holds = λ w p. refl }

  run_reingest-Stops :
      (from to : ℕ) (force : Bool) → Ensures Any (run_reingest e from to force) Stops Stops
  unfolding run_reingest
  run_reingest-Stops from to force =
      bind (exit_if-Ensures (bad_range from to) (fail stop invalid_range) (λ w p b. refl)) λ _.
        bind (weaken (λ w p. tt) (perform-stops (prepare_bounded_range from to) (λ w. w) _)) λ _.
          if-Ensures force (λ _. reingest_forced-Stops _ to) (λ _. reingest_unforced-Stops _ to)

  -- One round of the machine is enough.
  reingest_once-ends :
      (from to : ℕ) (force : Bool) (w : World) → reingest_once e from to force w ≢ unfinished
  unfolding reingest_once after_run run
  reingest_once-ends from to force w =
      let h =
        returned-Holds Stops (run_reingest e from to force w)
          ((run_reingest-Stops from to force).holds w tt) in
      ground (arith, h)

  retry_reingest-ends :
      (n : ℕ) (once : World → Finish) (r : Finish)
      → ((w : World) → once w ≢ unfinished)
      → r ≢ unfinished
      → retry_reingest e n once r ≢ unfinished
  unfolding retry_reingest
  retry_reingest-ends zero once r h k = k
  retry_reingest-ends (suc n) once (finished (some x) w) h k =
      retry_reingest-ends n once (once (note (sleep e.reingest_retry_backoff) w)) h (h _)
  retry_reingest-ends (suc n) once (finished none w) h k = k
  retry_reingest-ends (suc n) once (unexpected_transaction w) h k = k
  retry_reingest-ends (suc n) once (panicked w) h k = k
  retry_reingest-ends (suc n) once unfinished h k = k

  -- The reingestion command with its retries always comes to an end: each attempt is one round.
  pub reingest_range-ends :
      (from to : ℕ) (force : Bool) (w : World) → reingest_range e from to force w ≢ unfinished
  unfolding reingest_range
  reingest_range-ends from to force w =
      retry_reingest-ends e.max_reingest_retries (reingest_once e from to force) _
        (reingest_once-ends from to force) (reingest_once-ends from to force w)
