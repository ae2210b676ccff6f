-- ===== src/Ingest/Nodes.antt =====
-- The nodes of the state machine and the transitions to them (services/aurora/internal/ingest/fsm.go).
use aurorav1_11_0_test.Base.{ℕ, Bool, false, Option, none, some}
use aurorav1_11_0_test.Ingest.World.{Error}

pub data Node : Type 0 where
  stop_state : Node
  start_state : ℕ → Node
  build_state : ℕ → Bool → Node
  resume_state : ℕ → Node
  history_range_state : ℕ → ℕ → Node
  reingest_history_range_state : ℕ → ℕ → Bool → Node
  wait_for_checkpoint_state : Node
  verify_range_state : ℕ → ℕ → Bool → Node
  stress_test_state : Node

-- A sleep is counted in seconds.
pub record Transition : Type 0 where
  pub node : Node
  pub sleep_duration : ℕ

abbrev pub default_sleep : ℕ
default_sleep = 1

abbrev pub to_node : Node → Transition
to_node n = record { node = n; sleep_duration = default_sleep }

abbrev pub stop : Transition
stop = record { node = stop_state; sleep_duration = 0 }

abbrev pub start : Transition
start = to_node (start_state 0)

abbrev pub start_suggested_checkpoint : ℕ → Transition
start_suggested_checkpoint checkpoint = to_node (start_state checkpoint)

abbrev pub rebuild : ℕ → Transition
rebuild checkpoint = to_node (build_state checkpoint false)

abbrev pub resume : ℕ → Transition
resume latest = to_node (resume_state latest)

abbrev pub resume_immediately : ℕ → Transition
resume_immediately latest = record { node = resume_state latest; sleep_duration = 0 }

-- `retryResume` of the resume state at a ledger.
abbrev pub retry_resume : ℕ → Transition
retry_resume latest = to_node (resume_state latest)

abbrev pub history_range : ℕ → ℕ → Transition
history_range from to = to_node (history_range_state from to)

abbrev pub wait_for_checkpoint : Transition
wait_for_checkpoint = record { node = wait_for_checkpoint_state; sleep_duration = 0 }

-- The pair that a node's `run` returns.
abbrev pub Outcome : Type 0
Outcome = Transition × Option Error

abbrev pub ok : Transition → Outcome
ok t = (t, none)

abbrev pub fail : Transition → Error → Outcome
fail t x = (t, some x)
