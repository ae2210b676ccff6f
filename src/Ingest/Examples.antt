-- ===== src/Ingest/Examples.antt =====
-- The machine in concrete environments.
use aurorav1_11_0_test.Base.{
  ℕ, ◌+◌, ◌<◌, true, false, none, ◌≡◌, ◌≢◌, refl, List, [], ◌∷◌, ltb, if◌then◌else◌, arith,
}
use aurorav1_11_0_test.Ingest.World.{
  World, Env, Write, all_of, transactions_of, state_of, truncate_state, current_version, note,
  prepare_bounded_range,
}
use aurorav1_11_0_test.Ingest.Nodes.{
  start_state, build_state, resume_state, history_range_state, reingest_history_range_state,
  stress_test_state,
}
use aurorav1_11_0_test.Ingest.Resume.{run_resume}
use aurorav1_11_0_test.Ingest.Machine.{
  run, run_state_machine, run_ingestion, reingest_range, unfinished, unexpected_transaction,
}
use aurorav1_11_0_test.Ingest.Closed.{run-closed}
use aurorav1_11_0_test.Ingest.Reach.{run_state_machine-never_open}
use aurorav1_11_0_test.Ingest.StartSpec.{Started, BuildRound, start-Started, build-Built, built}
use aurorav1_11_0_test.Ingest.ResumeSpec.{ResumeRound, resume-Resumed}
use aurorav1_11_0_test.Ingest.HistorySpec.{HistoryRound, history_range-CaughtUp}
use aurorav1_11_0_test.Ingest.ReingestSpec.{
  Reingested, reingest_force-Reingested, reingest_conflict,
}
use aurorav1_11_0_test.Ingest.ReingestEnds.{reingest_range-ends}
use aurorav1_11_0_test.Ingest.Advance.{undisturbed, CountsLedgers, ingest_all}
use aurorav1_11_0_test.Ingest.FromEmpty.{ingest_from_empty}

highest : List Write → ℕ
highest [] = 0
highest (all_of l ∷ ts) = let rest = highest ts in if ltb rest l then l else rest
highest (transactions_of l ∷ ts) = let rest = highest ts in if ltb rest l then l else rest
highest (x ∷ ts) = highest ts

abbrev calm : Env
calm = record {
  fails = λ cs c. false;
  latest_ledger = highest;
  latest_checkpoint = λ cs. 63;
  latest_core_ledger = λ cs. 66;
  prepared = λ cs l. true;
  others = λ cs d. d;
  cancelled = λ cs. false;
  disable_state_verification = false;
  core_cursor_used = true;
  max_reingest_retries = 2;
  reingest_retry_backoff = 1;
}

abbrev empty : World
empty = record {
  db = record { last_ingested = 0; ingest_version = 0; state_invalid = false; tables = [] };
  tx = none;
  calls = [];
}

-- The state of ledger 63 and one ledger behind it.
abbrev at_64 : World
at_64 = record {
  db = record {
    last_ingested = 64;
    ingest_version = current_version;
    state_invalid = false;
    tables = all_of 64 ∷ state_of 63 ∷ truncate_state ∷ [];
  };
  tx = none;
  calls = [];
}

-- The history is behind the state.
abbrev behind : World
behind = record {
  db = record {
    last_ingested = 64;
    ingest_version = current_version;
    state_invalid = false;
    tables = transactions_of 61 ∷ state_of 64 ∷ [];
  };
  tx = none;
  calls = [];
}

resumes_at_65 : (run calm (resume_state 64) at_64).1.db.tables ≡ all_of 65 ∷ at_64.db.tables
unfolding run highest run_resume
resumes_at_65 = refl

start-Started_example :
    Started calm 0 empty (run calm (start_state 0) empty).0 (run calm (start_state 0) empty).1.db
start-Started_example = start-Started calm 0 empty refl

build-Built_example :
    BuildRound calm 63 false empty
      (run calm (build_state 63 false) empty).0
      (run calm (build_state 63 false) empty).1
build-Built_example = build-Built calm 63 false empty refl (omega arith)

resume-Resumed_example :
    ResumeRound calm 64 at_64
      (run calm (resume_state 64) at_64).0
      (run calm (resume_state 64) at_64).1
resume-Resumed_example = resume-Resumed calm 64 at_64 refl (omega arith) (omega arith)

history_range-CaughtUp_example :
    HistoryRound calm 62 64 behind
      (run calm (history_range_state 62 64) behind).0
      (run calm (history_range_state 62 64) behind).1
history_range-CaughtUp_example =
    history_range-CaughtUp calm 62 64 behind refl (omega arith) (omega arith)

reingest_force-Reingested_example :
    Reingested 2 5 calm
      (note (prepare_bounded_range 1 5) at_64)
      (run calm (reingest_history_range_state 1 5 true) at_64).0
      (run calm (reingest_history_range_state 1 5 true) at_64).1
reingest_force-Reingested_example =
    reingest_force-Reingested calm 1 5 at_64 (omega arith) (omega arith) (omega arith) refl

reingest_conflict_example :
    ((run calm (reingest_history_range_state 3 70 false) at_64).0.1 ≢ none)
    × ((run calm (reingest_history_range_state 3 70 false) at_64).1.db ≡ at_64.db)
reingest_conflict_example = reingest_conflict calm 3 70 at_64 refl (omega arith) (omega arith)

reingest_range-ends_example : reingest_range calm 3 70 false at_64 ≢ unfinished
reingest_range-ends_example = reingest_range-ends calm 3 70 false at_64

run-closed_example : (run calm stress_test_state empty).1.tx ≡ none
run-closed_example = run-closed calm stress_test_state empty refl

run_state_machine-never_open_example :
    run_state_machine calm 9 (start_state 0) empty ≢ unexpected_transaction at_64
run_state_machine-never_open_example =
    run_state_machine-never_open calm 9 (start_state 0) empty at_64 refl

highest_all : (l : ℕ) (ts : List Write) → highest ts < l → highest (all_of l ∷ ts) ≡ l
unfolding highest
highest_all l ts h = ground arith

highest_state : (l : ℕ) (ts : List Write) → highest (state_of l ∷ ts) ≡ highest ts
unfolding highest
highest_state l ts = refl

highest_truncate : (ts : List Write) → highest (truncate_state ∷ ts) ≡ highest ts
unfolding highest
highest_truncate ts = refl

calm-CountsLedgers : CountsLedgers calm
calm-CountsLedgers = record {
  counts_all = highest_all;
  skips_state = highest_state;
  skips_truncate = highest_truncate;
}

ingest_from_empty_example :
    (w' : World) × (run_ingestion (undisturbed calm 66) (2 + 3 + 1) empty
      ≡ run_state_machine (undisturbed calm 66) 1 (resume_state (63 + 3)) w')
    × (w'.tx ≡ none)
    × (w'.db ≡ ingest_all 3 63 (built 63 empty.db))
unfolding highest
ingest_from_empty_example =
    ingest_from_empty calm 66 1 3 empty calm-CountsLedgers refl
      (record { no_state = refl; not_newer = omega arith; no_history = refl }) (omega arith)
      (omega arith) (omega arith)
