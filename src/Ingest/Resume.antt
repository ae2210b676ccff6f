-- ===== src/Ingest/Resume.antt =====
-- The `run` of the resume state: it ingests the ledger after the last one.
use aurorav1_11_0_test.Base.{ℕ, ◌+◌, ◌%◌, ◌^◌, ◌&&◌, not, ltb, leb, ◌==◌, if◌then◌else◌}
use aurorav1_11_0_test.Ingest.World.{
  Env, current_version, failed, unexpected_latest_ledger, ingest_ledger_too_far, begin,
  get_last_ledger, get_ingest_version, get_latest_ledger, get_latest_core_ledger, get_ledger,
  run_all_processors, all_of,
}
use aurorav1_11_0_test.Ingest.Nodes.{Outcome, ok, fail, start, resume_immediately, retry_resume}
use aurorav1_11_0_test.Ingest.Steps.{
  M, ◌>>=◌, ◌>>◌, return, exit_if, perform, ask, begins, last_ledger, ingest_version, latest_ledger,
  writes, deferring_rollback,
}
use aurorav1_11_0_test.Ingest.Helpers.{
  complete_ingestion, maybe_prepare_range, update_cursor, maybe_verify_state,
}

abbrev pub next_ledger : ℕ → ℕ
next_ledger l = (l + 1) % 2 ^ 32

module _ (e : Env) (latest : ℕ) where
  -- The ledger is not closed yet: fetch the latest one that the backend has, and retry from it.
  unfoldable pub fast_forward : ℕ → M Outcome Outcome
  unfolding perform
  fast_forward core = do
    perform e (get_ledger core) (λ w. w) (fail (retry_resume latest) (failed (get_ledger core)))
    return (ok (retry_resume core))

  unfoldable pub ingest_ledger : ℕ → M Outcome Outcome
  unfolding perform complete_ingestion update_cursor maybe_verify_state
  ingest_ledger ledger = do
    writes e (run_all_processors ledger) (all_of ledger)
        (fail (retry_resume latest) (failed (run_all_processors ledger)))
    complete_ingestion e (fail (retry_resume latest)) ledger
    update_cursor e ledger
    maybe_verify_state e ledger
    return (ok (resume_immediately ledger))

  -- The checks on the database, and the ledger to ingest.
  unfoldable pub resume_checks : M Outcome ℕ
  unfolding ask
  resume_checks = do
    last_ingested ← last_ledger e (fail (retry_resume latest) (failed get_last_ledger))
    exit_if (ltb (next_ledger last_ingested) (next_ledger latest))
        (fail start ingest_ledger_too_far)
    let ledger =
        if leb (next_ledger latest) last_ingested
        then next_ledger last_ingested
        else next_ledger latest
    version ← ingest_version e (fail (retry_resume latest) (failed get_ingest_version))
    exit_if (not (version == current_version)) (ok start)
    last_history ← latest_ledger e (fail (retry_resume latest) (failed get_latest_ledger))
    exit_if (not (last_history == 0) && not (last_history == last_ingested)) (ok start)
    return ledger

  unfoldable pub resume_body : M Outcome Outcome
  unfolding resume_checks ask maybe_prepare_range fast_forward ingest_ledger
  resume_body = do
    ledger ← resume_checks
    released ← maybe_prepare_range e (fail start) ledger
    exit_if released (ok start)
    core ←
        ask e get_latest_core_ledger (λ w. e.latest_core_ledger w.calls)
          (fail (retry_resume latest) (failed get_latest_core_ledger))
    if ltb core ledger then fast_forward core else ingest_ledger ledger

  unfoldable pub run_resume : M Outcome Outcome
  unfolding begins resume_body
  run_resume = do
    exit_if (latest == 0) (fail start unexpected_latest_ledger)
    begins e (fail (retry_resume latest) (failed begin))
    deferring_rollback resume_body
