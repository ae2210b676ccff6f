-- ===== src/Ingest/Helpers.antt =====
-- The helpers that the nodes share: `completeIngestion`, `maybePrepareRange`, `updateCursor`,
-- `maybeVerifyState` and the loops over ledgers.
use aurorav1_11_0_test.Base.{ℕ, zero, suc, ◌+◌, Bool, true, false, ◌&&◌, not, ◌==◌, if◌then◌else◌}
use aurorav1_11_0_test.Checkpoints.{is_checkpoint}
use aurorav1_11_0_test.Ingest.World.{
  Env, Error, failed, ledger_not_positive, commit, update_last_ledger, is_prepared, prepare_range,
  run_transaction_processors, transactions_of, set_cursor, get_state_invalid, verify_state, note,
  current,
}
use aurorav1_11_0_test.Ingest.Steps.{
  M, next, ◌>>=◌, ◌>>◌, return, exit_if, perform, ask, try, commits, set_last_ledger, writes,
  roll_back,
}

module _ (e : Env) {T : Type 0} (on_error : Error → T) where
  unfoldable pub complete_ingestion : ℕ → M T (Unit {0})
  unfolding perform commits
  complete_ingestion ledger = do
    exit_if (ledger == 0) (on_error ledger_not_positive)
    set_last_ledger e ledger (on_error (failed (update_last_ledger ledger)))
    commits e (on_error (failed commit))

  unfoldable pub release_and_prepare : ℕ → M T Bool
  unfolding perform
  release_and_prepare from = do
    λ w. (next tt, roll_back w)
    perform e (prepare_range from) (λ w. w) (on_error (failed (prepare_range from)))
    return true

  -- True where the ingestion lock was released to prepare the range.
  unfoldable pub maybe_prepare_range : ℕ → M T Bool
  unfolding ask release_and_prepare
  maybe_prepare_range from = do
    prepared ←
        ask e (is_prepared from) (λ w. e.prepared w.calls from)
          (on_error (failed (is_prepared from)))
    if prepared then return false else release_and_prepare from

  -- `for cur := from; cur <= to; cur++`: the argument counts the rounds, `to + 1 - from`.
  unfoldable pub process_ledgers : ℕ → ℕ → M T (Unit {0})
  unfolding perform
  process_ledgers zero cur = return tt
  process_ledgers (suc rounds) cur = do
    writes e (run_transaction_processors cur) (transactions_of cur)
        (on_error (failed (run_transaction_processors cur)))
    process_ledgers rounds (cur + 1)

module _ (e : Env) {T : Type 0} where
  -- An error of the cursor is logged only.
  unfoldable pub update_cursor : ℕ → M T (Unit {0})
  unfolding try
  update_cursor ledger = if e.core_cursor_used then try e (set_cursor ledger) else return tt

  -- The verification runs beside the machine, in a session of its own: here it is only started.
  unfoldable pub maybe_verify_state : ℕ → M T (Unit {0})
  unfolding try is_checkpoint
  maybe_verify_state ledger w =
      let invalid = not (e.fails w.calls get_state_invalid) && (current w).state_invalid in
      let go = not invalid && not e.disable_state_verification && is_checkpoint ledger in
      if go
      then (next tt, note (verify_state true) (note get_state_invalid w))
      else (next tt, note get_state_invalid w)
