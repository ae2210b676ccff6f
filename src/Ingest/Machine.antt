-- ===== src/Ingest/Machine.antt =====
-- `run` of every node, the loop `runStateMachine`, and the commands that start it.
use aurorav1_11_0_test.Base.{ℕ, zero, suc, Bool, true, false, Option, some, none, if◌then◌else◌}
use aurorav1_11_0_test.Ingest.World.{
  World, Env, Error, cannot_run_terminal_state, toid_panic, sleep, note,
}
use aurorav1_11_0_test.Ingest.Nodes.{
  Node, stop_state, start_state, build_state, resume_state, history_range_state,
  reingest_history_range_state, wait_for_checkpoint_state, verify_range_state, stress_test_state,
  Outcome, fail, stop,
}
use aurorav1_11_0_test.Ingest.Steps.{returned}
use aurorav1_11_0_test.Ingest.Start.{run_start, run_build}
use aurorav1_11_0_test.Ingest.Resume.{run_resume}
use aurorav1_11_0_test.Ingest.History.{
  run_history_range, run_reingest, run_wait_for_checkpoint, run_verify_range, run_stress_test,
}

-- What `runStateMachine` comes to: it returns, it panics over a transaction that is still open, a
-- node panics, or the fuel runs out.
pub data Finish : Type 0 where
  finished : Option Error → World → Finish
  unexpected_transaction : World → Finish
  panicked : World → Finish
  unfinished : Finish

abbrev pub is_stop : Node → Bool
is_stop stop_state = true
is_stop n = false

abbrev pub is_panic : Option Error → Bool
is_panic (some toid_panic) = true
is_panic x = false

module _ (e : Env) where
  unfoldable pub run : Node → World → Outcome × World
  run stop_state w = (fail stop cannot_run_terminal_state, w)
  run (start_state suggested) w = returned (run_start e suggested w)
  run (build_state checkpoint stops) w = returned (run_build e checkpoint stops w)
  run (resume_state latest) w = returned (run_resume e latest w)
  run (history_range_state from to) w = returned (run_history_range e from to w)
  run (reingest_history_range_state from to force) w = returned (run_reingest e from to force w)
  run wait_for_checkpoint_state w = returned (run_wait_for_checkpoint e w)
  run (verify_range_state from to verify) w = returned (run_verify_range e from to verify w)
  run stress_test_state w = returned (run_stress_test e w)

  -- One round of the loop, given what the later rounds do from the next node.
  unfoldable pub after_run : Outcome × World → (Node → World → Finish) → Finish
  after_run ((t, x), w) go =
      if is_panic x
      then panicked w
      else if is_stop t.node
      then finished x w
      else if e.cancelled w.calls
      then finished none w
      else go t.node (note (sleep t.sleep_duration) w)

  -- A node is never entered with a transaction open: the loop panics on one.
  unfoldable pub run_state_machine : ℕ → Node → World → Finish
  unfolding after_run
  run_state_machine zero cur w = unfinished
  run_state_machine (suc fuel) cur w = elim w.tx [
    | some d ↦ unexpected_transaction w
    | none ↦ after_run (run cur w) (run_state_machine fuel)
  ]

  -- A reingestion stops after one round, so that fuel 1 is enough.
  unfoldable pub reingest_once : ℕ → ℕ → Bool → World → Finish
  unfolding run_state_machine
  reingest_once from to force w = run_state_machine 1 (reingest_history_range_state from to force) w

  unfoldable pub retry_reingest : ℕ → (World → Finish) → Finish → Finish
  retry_reingest zero once r = r
  retry_reingest (suc retries) once (finished (some x) w) =
      retry_reingest retries once (once (note (sleep e.reingest_retry_backoff) w))
  retry_reingest (suc retries) once r = r

  unfoldable pub reingest_range : ℕ → ℕ → Bool → World → Finish
  unfolding reingest_once retry_reingest
  reingest_range from to force w =
      retry_reingest e.max_reingest_retries (reingest_once from to force)
        (reingest_once from to force w)

  pub build_genesis_state : ℕ → World → Finish
  unfolding run_state_machine
  build_genesis_state fuel = run_state_machine fuel (build_state 1 true)

  unfoldable pub run_ingestion : ℕ → World → Finish
  unfolding run_state_machine
  run_ingestion fuel = run_state_machine fuel (start_state 0)

  pub verify_range : ℕ → ℕ → ℕ → Bool → World → Finish
  unfolding run_state_machine
  verify_range fuel from to verify = run_state_machine fuel (verify_range_state from to verify)
