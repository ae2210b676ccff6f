-- ===== src/Ingest/Start.antt =====
-- The `run` of the start state and of the build state.
use aurorav1_11_0_test.Base.{ℕ, ◌-◌, Bool, false, ◌&&◌, ◌||◌, not, ltb, ◌==◌, ◌+◌, if◌then◌else◌}
use aurorav1_11_0_test.Ingest.World.{
  Env, current_version, failed, unexpected_checkpoint_ledger, begin, commit, get_last_ledger,
  get_ingest_version, get_latest_ledger, get_latest_checkpoint, update_last_ledger,
  update_state_invalid, truncate_state_tables, truncate_state, run_history_archive_ingestion,
  state_of, update_ingest_version, store,
}
use aurorav1_11_0_test.Ingest.Nodes.{
  Transition, Outcome, ok, fail, stop, start, start_suggested_checkpoint, rebuild, resume,
  history_range, wait_for_checkpoint,
}
use aurorav1_11_0_test.Ingest.Steps.{
  M, ◌>>=◌, ◌>>◌, return, exit_if, perform, ask, begins, commits, last_ledger, ingest_version,
  latest_ledger, set_last_ledger, writes, deferring_rollback,
}
use aurorav1_11_0_test.Ingest.Helpers.{complete_ingestion, maybe_prepare_range, update_cursor}

-- Where the history already has ledgers: wait, catch up, or build.
abbrev pub after_checkpoint : ℕ → ℕ → Transition
after_checkpoint last_history last_checkpoint =
    if last_history == 0
    then rebuild last_checkpoint
    else if ltb last_checkpoint last_history
    then wait_for_checkpoint
    else if ltb last_history last_checkpoint
    then history_range (last_history + 1) last_checkpoint
    else rebuild last_checkpoint

module _ (e : Env) where
  unfoldable pub suggested_or_latest : ℕ → M Outcome ℕ
  unfolding ask
  suggested_or_latest suggested =
      if suggested == 0
      then ask e get_latest_checkpoint (λ w. e.latest_checkpoint w.calls)
          (fail start (failed get_latest_checkpoint))
      else return suggested

  -- The state is empty, or of another version.
  unfoldable pub start_without_state : ℕ → ℕ → M Outcome Outcome
  unfolding suggested_or_latest
  start_without_state suggested last_history = do
    last_checkpoint ← suggested_or_latest suggested
    return (ok (after_checkpoint last_history last_checkpoint))

  unfoldable pub start_over : M Outcome Outcome
  unfolding perform commits
  start_over = do
    set_last_ledger e 0 (fail start (failed (update_last_ledger 0)))
    commits e (fail start (failed commit))
    return (ok start)

  unfoldable pub start_with_state : ℕ → ℕ → M Outcome Outcome
  unfolding start_over
  start_with_state last_history last_ingested =
      if ltb last_ingested last_history
      then start_over
      else if not (last_history == 0) && ltb last_history last_ingested
      then return (ok (history_range (last_history + 1) last_ingested))
      else return (ok (resume last_ingested))

  -- What the reads lead to.
  unfoldable pub start_by : ℕ → ℕ → ℕ → ℕ → M Outcome Outcome
  unfolding start_without_state start_with_state
  start_by suggested last_ingested version last_history =
      if not (version == current_version) || last_ingested == 0
      then start_without_state suggested last_history
      else start_with_state last_history last_ingested

  unfoldable pub start_body : ℕ → M Outcome Outcome
  unfolding ask start_by
  start_body suggested = do
    last_ingested ← last_ledger e (fail start (failed get_last_ledger))
    version ← ingest_version e (fail start (failed get_ingest_version))
    exit_if (ltb current_version version) (ok stop)
    last_history ← latest_ledger e (fail start (failed get_latest_ledger))
    start_by suggested last_ingested version last_history

  unfoldable pub run_start : ℕ → M Outcome Outcome
  unfolding begins start_body
  run_start suggested = do
    begins e (fail start (failed begin))
    deferring_rollback (start_body suggested)

abbrev pub next_fail_state : Bool → Transition
next_fail_state stops = if stops then stop else start

module _ (e : Env) (checkpoint : ℕ) (stops : Bool) where
  -- The tables are emptied, and the range is prepared unless it starts at the genesis ledger.
  unfoldable pub build_clear : M Outcome (Unit {0})
  unfolding perform maybe_prepare_range update_cursor
  build_clear = do
    update_cursor e (checkpoint - 1)
    set_last_ledger e 0 (fail (next_fail_state stops) (failed (update_last_ledger 0)))
    perform e (update_state_invalid false) (store (λ d. record d { state_invalid = false }))
        (fail (next_fail_state stops) (failed (update_state_invalid false)))
    writes e truncate_state_tables truncate_state
        (fail (next_fail_state stops) (failed truncate_state_tables))
    released ←
        if checkpoint == 1
        then return false
        else maybe_prepare_range e (fail (next_fail_state stops)) checkpoint
    exit_if released (ok (start_suggested_checkpoint checkpoint))

  unfoldable pub build_ingest : M Outcome Outcome
  unfolding perform complete_ingestion
  build_ingest = do
    writes e (run_history_archive_ingestion checkpoint) (state_of checkpoint)
        (fail (next_fail_state stops) (failed (run_history_archive_ingestion checkpoint)))
    perform e (update_ingest_version current_version)
        (store (λ d. record d { ingest_version = current_version }))
        (fail (next_fail_state stops) (failed (update_ingest_version current_version)))
    complete_ingestion e (fail (next_fail_state stops)) checkpoint
    return (ok (if stops then stop else resume checkpoint))

  -- Another node may have built the state already.
  unfoldable pub build_checks : M Outcome (Unit {0})
  unfolding ask
  build_checks = do
    last_ingested ← last_ledger e (fail (next_fail_state stops) (failed get_last_ledger))
    version ← ingest_version e (fail (next_fail_state stops) (failed get_ingest_version))
    exit_if (version == current_version && ltb 0 last_ingested) (ok (next_fail_state stops))

  unfoldable pub build_body : M Outcome Outcome
  unfolding build_checks build_clear build_ingest
  build_body = do build_checks; build_clear; build_ingest

  unfoldable pub run_build : M Outcome Outcome
  unfolding begins build_body
  run_build = do
    exit_if (checkpoint == 0) (fail (next_fail_state stops) unexpected_checkpoint_ledger)
    begins e (fail (next_fail_state stops) (failed begin))
    deferring_rollback build_body
