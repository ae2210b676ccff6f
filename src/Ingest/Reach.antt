-- ===== src/Ingest/Reach.antt =====
-- The nodes that the machine reaches from the start, and the rounds of its loop.
use aurorav1_11_0_test.Base.{ℕ, zero, suc, none, ◌≡◌, ◌≢◌, arith}
use aurorav1_11_0_test.Ingest.World.{World, Env, note, sleep}
use aurorav1_11_0_test.Ingest.Nodes.{Node, Outcome}
use aurorav1_11_0_test.Ingest.Machine.{
  run, run_state_machine, after_run, Finish, unexpected_transaction,
}
use aurorav1_11_0_test.Ingest.Closed.{run-closed}

after_run-closed :
    (e : Env) (r : Outcome × World) (go : Node → World → Finish) (v : World)
    → r.1.tx ≡ none
    → ((n : Node) (w : World) → w.tx ≡ none → go n w ≢ unexpected_transaction v)
    → after_run e r go ≢ unexpected_transaction v
unfolding after_run
after_run-closed e r go v h k = ground (arith, k r.0.0.node (note (sleep r.0.0.sleep_duration) r.1))

-- Started without a transaction, the machine never comes to a node with one still open.
pub run_state_machine-never_open :
    (e : Env) (fuel : ℕ) (n : Node) (w v : World)
    → w.tx ≡ none
    → run_state_machine e fuel n w ≢ unexpected_transaction v
unfolding run_state_machine
run_state_machine-never_open e zero n w v h = λ p. cc
run_state_machine-never_open e (suc fuel) n w v h =
    rw (h, run_state_machine)
      (after_run-closed e (run e n w) (run_state_machine e fuel) v (run-closed e n w h)
        (λ n' w' h'. run_state_machine-never_open e fuel n' w' v h'))
