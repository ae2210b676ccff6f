-- ===== src/Ingest/Closed.antt =====
-- No node leaves a transaction open behind it.
use aurorav1_11_0_test.Base.{ℕ, zero, suc, ◌+◌, true, false, none, ◌≡◌, refl, arith}
use aurorav1_11_0_test.Ingest.World.{World, Env}
use aurorav1_11_0_test.Ingest.Nodes.{
  Node, Outcome, stop_state, start_state, build_state, resume_state, history_range_state,
  reingest_history_range_state, wait_for_checkpoint_state, verify_range_state, stress_test_state,
}
use aurorav1_11_0_test.Ingest.Steps.{Flow, M, next, exit, begins, perform, deferring_rollback}
use aurorav1_11_0_test.Ingest.Start.{run_start, run_build}
use aurorav1_11_0_test.Ingest.Resume.{run_resume}
use aurorav1_11_0_test.Ingest.History.{
  reingest_body, reingest_ledgers, reingest_unforced, run_history_range, run_reingest,
  run_wait_for_checkpoint, run_verify_range, run_stress_test,
}
use aurorav1_11_0_test.Ingest.Machine.{run}
use aurorav1_11_0_test.Ingest.Triples.{
  Holds, Ensures, bind, consequence, deferring_rollback-Ensures,
}

abbrev Closed : World → Type 0
Closed w = w.tx ≡ none

any_end : {A : Type 0} (r : Flow Outcome A × World) → Holds (λ t w. Unit {0}) (λ a w. Unit {0}) r
any_end (next a, w) = tt
any_end (exit t, w) = tt

-- The deferred rollback closes whatever the body leaves open.
deferred-Closed :
    {A : Type 0} (m : M Outcome A)
    → Ensures (λ w. Unit {0}) (deferring_rollback m) (λ _ w. Closed w) (λ _ w. Closed w)
deferred-Closed m =
    deferring_rollback-Ensures
      (consequence (λ t w u. refl) (λ a w u. refl) (record { holds = λ w u. any_end (m w) }))

begins-Closed :
    (e : Env) (o : Outcome) → Ensures Closed (begins e o) (λ _ w. Closed w) (λ _ w. Unit {0})
unfolding begins perform
begins-Closed e o = record { holds = λ w p. ground arith }

reingest_ledgers-Ensures :
    (e : Env) (rounds cur : ℕ)
    → Ensures Closed (reingest_ledgers e rounds cur) (λ _ w. Closed w) (λ _ w. Closed w)
unfolding reingest_ledgers
reingest_ledgers-Ensures e zero cur = record { holds = λ w p. p }
reingest_ledgers-Ensures e (suc rounds) cur = bind (begins-Closed e _) λ _.
    bind (deferred-Closed (reingest_body e cur cur))
      λ _. reingest_ledgers-Ensures e rounds (cur + 1)

Holds-Closed :
    {A : Type 0} (r : Flow Outcome A × World)
    → Holds (λ _ w. Closed w) (λ _ w. Closed w) r
    → r.1.tx ≡ none
Holds-Closed (next a, w) h = h
Holds-Closed (exit t, w) h = h

reingest_ledgers-closed :
    (e : Env) (rounds cur : ℕ) (w : World)
    → w.tx ≡ none
    → (reingest_ledgers e rounds cur w).1.tx ≡ none
reingest_ledgers-closed e rounds cur w h =
    Holds-Closed _ ((reingest_ledgers-Ensures e rounds cur).holds w h)

reingest_unforced-closed :
    (e : Env) (from to : ℕ) (w : World) → w.tx ≡ none → (reingest_unforced e from to w).1.tx ≡ none
unfolding reingest_unforced
reingest_unforced-closed e from to w h = grind (arith, reingest_ledgers-closed e)

-- Whatever fails, a node that starts without a transaction ends without one.
pub run-closed : (e : Env) (n : Node) (w : World) → w.tx ≡ none → (run e n w).1.tx ≡ none
unfolding run
run-closed e stop_state w h = h
run-closed e (start_state s) w h = unfold run_start in ground arith
run-closed e (build_state c s) w h = unfold run_build in ground arith
run-closed e (resume_state l) w h = unfold run_resume in ground arith
run-closed e (history_range_state a b) w h = unfold run_history_range in ground arith
run-closed e (reingest_history_range_state a b true) w h = unfold run_reingest in ground arith
run-closed e (reingest_history_range_state a b false) w h =
    unfold run_reingest in grind (arith, reingest_unforced-closed e)
run-closed e wait_for_checkpoint_state w h = unfold run_wait_for_checkpoint in ground arith
run-closed e (verify_range_state a b v) w h = unfold run_verify_range in ground arith
run-closed e stress_test_state w h = unfold run_stress_test in ground arith
