-- ===== src/Ingest/History.antt =====
-- The `run` of the history range state, of the reingestion, of the range verification and of the
-- stress test. The loops count their rounds: the Go counter, a uint32, does not wrap where the range
-- ends below 2 ^ 32 - 1.
use aurorav1_11_0_test.Base.{
  ℕ, zero, suc, ◌+◌, ◌-◌, Bool, false, ◌&&◌, ◌||◌, not, ltb, leb, ◌==◌, some, none, if◌then◌else◌,
}
use aurorav1_11_0_test.Base.Int.{int32}
use aurorav1_11_0_test.Toid.{RangeResult, range, invalid, panicked, ledger_range_inclusive}
use aurorav1_11_0_test.Ingest.World.{
  Env, failed, invalid_range, reingest_range_conflict, no_transaction, bad_ledger_range, toid_panic,
  database_not_empty, begin, commit, get_last_ledger, get_last_ledger_non_blocking,
  get_latest_ledger, delete_range_all, delete_range, prepare_bounded_range,
  run_history_archive_ingestion, state_of, run_all_processors, all_of, verify_state, sleep, current,
}
use aurorav1_11_0_test.Ingest.Nodes.{Outcome, ok, fail, start, stop}
use aurorav1_11_0_test.Ingest.Steps.{
  M, ◌>>=◌, ◌>>◌, return, exits, exit_if, perform, ask, try, begins, commits, last_ledger,
  latest_ledger, writes, deferring_rollback,
}
use aurorav1_11_0_test.Ingest.Helpers.{complete_ingestion, maybe_prepare_range, process_ledgers}

-- The guard of the states over a range.
abbrev pub bad_range : ℕ → ℕ → Bool
bad_range from to = (from == 0 || to == 0) || ltb to from

module _ (e : Env) (from to : ℕ) where
  -- The history must end right before the range.
  unfoldable pub history_checks : M Outcome (Unit {0})
  unfolding ask maybe_prepare_range
  history_checks = do
    _ ← last_ledger e (fail start (failed get_last_ledger))
    last_history ← latest_ledger e (fail start (failed get_latest_ledger))
    exit_if (not (last_history == from - 1)) (ok start)
    released ← maybe_prepare_range e (fail start) from
    exit_if released (ok start)

  unfoldable pub commit_history : M Outcome Outcome
  unfolding commits
  commit_history = do commits e (fail start (failed commit)); return (ok start)

  unfoldable pub history_range_body : M Outcome Outcome
  unfolding history_checks process_ledgers commit_history
  history_range_body = do
    history_checks
    process_ledgers e (fail start) (to + 1 - from) from
    commit_history

  unfoldable pub run_history_range : M Outcome Outcome
  unfolding begins history_range_body
  run_history_range = do
    exit_if (bad_range from to) (fail start invalid_range)
    begins e (fail start (failed begin))
    deferring_rollback history_range_body

module _ (e : Env) where
  -- `s.historyQ.GetTx() == nil`
  unfoldable pub needs_tx : M Outcome (Unit {0})
  needs_tx w = elim w.tx [ none ↦ exits (fail stop no_transaction) w | some d ↦ return tt w ]

  unfoldable pub delete_ledgers : RangeResult → M Outcome (Unit {0})
  unfolding perform
  delete_ledgers (range a b) =
      writes e (delete_range_all a b) (delete_range a b) (fail stop (failed (delete_range_all a b)))
  delete_ledgers (invalid x) = exits (fail stop bad_ledger_range)
  delete_ledgers panicked = exits (fail stop toid_panic)

  -- The old rows of the range go first.
  unfoldable pub delete_first : ℕ → ℕ → M Outcome (Unit {0})
  unfolding needs_tx delete_ledgers
  delete_first from to = do
    needs_tx
    delete_ledgers (ledger_range_inclusive (int32 from) (int32 to))

  -- `ingestRange`
  unfoldable pub ingest_range : ℕ → ℕ → M Outcome (Unit {0})
  unfolding delete_first process_ledgers
  ingest_range from to = do delete_first from to; process_ledgers e (fail stop) (to + 1 - from) from

  -- One ledger in a transaction of its own.
  unfoldable pub reingest_body : ℕ → ℕ → M Outcome (Unit {0})
  unfolding ingest_range commits
  reingest_body from to = do ingest_range from to; commits e (fail stop (failed commit))

  unfoldable pub reingest_ledgers : ℕ → ℕ → M Outcome (Unit {0})
  unfolding begins reingest_body
  reingest_ledgers zero cur = return tt
  reingest_ledgers (suc rounds) cur = do
    begins e (fail stop (failed begin))
    deferring_rollback (reingest_body cur cur)
    reingest_ledgers rounds (cur + 1)

  unfoldable pub reingest_locked : ℕ → ℕ → M Outcome (Unit {0})
  unfolding ask reingest_body
  reingest_locked from to = do
    _ ← last_ledger e (fail stop (failed get_last_ledger))
    reingest_body from to

  -- With `force`: the whole range in one transaction, under the ingestion lock.
  unfoldable pub reingest_forced : ℕ → ℕ → M Outcome Outcome
  unfolding begins reingest_locked
  reingest_forced from to = do
    begins e (fail stop (failed begin))
    deferring_rollback (reingest_locked from to)
    return (ok stop)

  unfoldable pub reingest_unforced : ℕ → ℕ → M Outcome Outcome
  unfolding ask reingest_ledgers
  reingest_unforced from to = do
    last_ingested ←
        ask e get_last_ledger_non_blocking (λ w. (current w).last_ingested)
          (fail stop (failed get_last_ledger_non_blocking))
    exit_if (ltb 0 last_ingested && leb last_ingested to) (fail stop reingest_range_conflict)
    reingest_ledgers (to + 1 - from) from
    return (ok stop)

  -- Ledger 1 is pregenerated.
  unfoldable pub run_reingest : ℕ → ℕ → Bool → M Outcome Outcome
  unfolding perform reingest_forced reingest_unforced
  run_reingest from to force = do
    exit_if (bad_range from to) (fail stop invalid_range)
    perform e (prepare_bounded_range from to) (λ w. w)
        (fail stop (failed (prepare_bounded_range from to)))
    let first = if from == 1 then 2 else from
    if force then reingest_forced first to else reingest_unforced first to

  unfoldable pub run_wait_for_checkpoint : M Outcome Outcome
  unfolding try
  run_wait_for_checkpoint = do try e (sleep 10); return (ok start)

  unfoldable pub verify_ledgers : ℕ → ℕ → M Outcome (Unit {0})
  unfolding begins perform complete_ingestion
  verify_ledgers zero sequence = return tt
  verify_ledgers (suc rounds) sequence = do
    begins e (fail stop (failed begin))
    writes e (run_all_processors sequence) (all_of sequence)
        (fail stop (failed (run_all_processors sequence)))
    complete_ingestion e (fail stop) sequence
    verify_ledgers rounds (sequence + 1)

  -- The check that the database is clean.
  unfoldable pub needs_empty : M Outcome (Unit {0})
  unfolding ask
  needs_empty = do
    last_ingested ← last_ledger e (fail stop (failed get_last_ledger))
    exit_if (not (last_ingested == 0)) (fail stop database_not_empty)

  unfoldable pub verify_range_body : ℕ → ℕ → Bool → M Outcome Outcome
  unfolding needs_empty perform complete_ingestion verify_ledgers
  verify_range_body from to verify = do
    needs_empty
    writes e (run_history_archive_ingestion from) (state_of from)
        (fail stop (failed (run_history_archive_ingestion from)))
    complete_ingestion e (fail stop) from
    verify_ledgers (to - from) (from + 1)
    if verify
        then perform e (verify_state false) (λ w. w) (fail stop (failed (verify_state false)))
        else return tt
    return (ok stop)

  unfoldable pub run_verify_range : ℕ → ℕ → Bool → M Outcome Outcome
  unfolding begins verify_range_body
  run_verify_range from to verify = do
    exit_if (bad_range from to) (fail stop invalid_range)
    begins e (fail stop (failed begin))
    deferring_rollback (verify_range_body from to verify)

  unfoldable pub stress_test_body : M Outcome Outcome
  unfolding needs_empty perform complete_ingestion
  stress_test_body = do
    needs_empty
    writes e (run_all_processors 1) (all_of 1) (fail stop (failed (run_all_processors 1)))
    complete_ingestion e (fail stop) 1
    return (ok stop)

  unfoldable pub run_stress_test : M Outcome Outcome
  unfolding begins stress_test_body
  run_stress_test = do begins e (fail stop (failed begin)); deferring_rollback stress_test_body
