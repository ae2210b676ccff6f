-- ===== src/Ingest/World.antt =====
-- What the ingestion system talks to (services/aurora/internal/ingest/main.go, support/db/session.go):
-- the database with its session, the ledger backend, the history archive and the processor runner.
-- They answer as an environment decides, which sees every call made so far.
use aurorav1_11_0_test.Base.{ℕ, Bool, Option, none, some, List, ◌∷◌}

-- A call to a collaborator, with its arguments.
pub data Call : Type 0 where
  begin commit rollback : Call
  get_last_ledger get_last_ledger_non_blocking : Call
  get_ingest_version get_latest_ledger get_state_invalid : Call
  update_last_ledger : ℕ → Call
  update_ingest_version : ℕ → Call
  update_state_invalid : Bool → Call
  truncate_state_tables : Call
  delete_range_all : ℕ → ℕ → Call
  get_latest_checkpoint : Call
  get_latest_core_ledger : Call
  get_ledger : ℕ → Call
  is_prepared : ℕ → Call
  prepare_range : ℕ → Call
  prepare_bounded_range : ℕ → ℕ → Call
  run_history_archive_ingestion : ℕ → Call
  run_all_processors : ℕ → Call
  run_transaction_processors : ℕ → Call
  set_cursor : ℕ → Call
  verify_state : Bool → Call
  sleep : ℕ → Call

-- What the processors do to the tables of the state and of the history.
pub data Write : Type 0 where
  truncate_state : Write
  delete_range : ℕ → ℕ → Write
  state_of : ℕ → Write
  all_of : ℕ → Write
  transactions_of : ℕ → Write

-- The key-value store of the ingestion, and the tables as the writes made to them, the last one first.
pub record Db : Type 0 where
  pub last_ingested : ℕ
  pub ingest_version : ℕ
  pub state_invalid : Bool
  pub tables : List Write

-- `db` is what is committed, `tx` the copy that an open transaction works on.
pub record World : Type 0 where
  pub db : Db
  pub tx : Option Db
  pub calls : List Call

-- The environment: whether a call fails, what the other services answer, what other nodes have
-- committed when a transaction begins, and the settings of the system.
pub record Env : Type 0 where
  pub fails : List Call → Call → Bool
  pub latest_ledger : List Write → ℕ
  pub latest_checkpoint : List Call → ℕ
  pub latest_core_ledger : List Call → ℕ
  pub prepared : List Call → ℕ → Bool
  pub others : List Call → Db → Db
  pub cancelled : List Call → Bool
  pub disable_state_verification : Bool
  pub core_cursor_used : Bool
  pub max_reingest_retries : ℕ
  pub reingest_retry_backoff : ℕ

-- The version of the ingestion that this code implements.
abbrev pub current_version : ℕ
current_version = 12

-- The errors of this package, and those of a call, wrapped.
pub data Error : Type 0 where
  failed : Call → Error
  cannot_run_terminal_state unexpected_checkpoint_ledger unexpected_latest_ledger : Error
  ingest_ledger_too_far invalid_range database_not_empty ledger_not_positive : Error
  reingest_range_conflict no_transaction bad_ledger_range : Error
  -- A panic: it runs the deferred rollbacks and then ends the process.
  toid_panic : Error

abbrev pub note : Call → World → World
note c w = record w { calls = c ∷ w.calls }

-- What the session reads: the transaction's copy if there is one.
abbrev pub current : World → Db
current w = elim w.tx [ none ↦ w.db | some d ↦ d ]

-- A statement runs in the transaction if there is one, and by itself if not.
abbrev pub store : (Db → Db) → World → World
store f w = elim w.tx [ none ↦ record w { db = f w.db } | some d ↦ record w { tx = some (f d) } ]
