-- ===== src/Captive.antt =====
-- ingest/ledgerbackend/captive_core_backend.go: the ledgers that a subprocess streams over a pipe. What the
-- subprocess, the archive and the factory of runners answer is the record `Calls`. A goroutine moves the
-- ledgers from the pipe to a buffer; `stream` is what is in the buffer and what is still to come, in
-- order, and how much of it is there when it matters is an argument. A call that never returns is a value.
-- Ledger sequences are uint32.
pub mod Opening
pub mod Ledgers
pub mod Reads
pub mod Ranges
pub mod Streams
pub mod Sessions
pub mod Prepared
mod Examples
use Prim.Native.String.{String}
use aurorav1_11_0_test.Base.{
  ℕ, zero, suc, ◌+◌, ◌-◌, ◌%◌, ◌^◌, Bool, true, false, not, ◌&&◌, ltb, leb, ◌==◌, if◌then◌else◌,
  Option, none, some, List, [], ◌∷◌,
}

-- What is read of an `xdr.LedgerCloseMeta`.
pub record LedgerCloseMeta : Type 0 where
  pub ledger_sequence : ℕ

pub data Error : Type 0 where
  session_closed behind_stream unexpected_ledger missing_pipe unmarshalling end_of_file : Error
  process_exited process_failed closing_failed root_failed beyond_archive too_far : Error
  no_config_path no_runner running_failed genesis header_failed : Error

pub data MetaResult : Type 0 where
  meta : LedgerCloseMeta → MetaResult
  failure : Error → MetaResult

-- What is read from the pipe.
pub data Frame : Type 0 where
  frame : LedgerCloseMeta → Frame
  eof malformed : Frame

-- The pipe, if there is one; and whether the process exited when the reading failed, and with an error.
pub record Process : Type 0 where
  pub meta_pipe : Option (List Frame)
  pub exited : Option Bool

pub record Calls : Type 0 where
  pub close_fails : Bool
  pub root_ledger : Option ℕ
  pub previous_hash : ℕ → Option String
  pub runner_fails : Bool
  pub catchup : ℕ → ℕ → Option Process
  pub run_from : ℕ → String → Option Process

-- The runner is there or not, and the shutdown channel open or not.
pub record Captive : Type 0 where
  pub has_config : Bool
  pub has_runner : Bool
  pub has_pipe : Bool
  pub running : Bool
  pub stream : List MetaResult
  pub exit_error : Option Error
  pub cached_meta : Option LedgerCloseMeta
  pub blocking : Bool
  pub next_ledger : ℕ
  pub last_ledger : Option ℕ

abbrev pub exit_of : Option Bool → Option Error
exit_of none = none
exit_of (some true) = some process_failed
exit_of (some false) = some process_exited

-- The error that the goroutine sends.
abbrev read_error : Option Error → Error → Error
read_error none e = e
read_error (some exit) e = exit

-- All that the goroutine sends, unless it is shut down. With no more frames it waits for ever.
unfoldable pub send_ledger_meta : ℕ → Option Error → List Frame → List MetaResult
send_ledger_meta until_sequence exit [] = []
send_ledger_meta until_sequence exit (eof ∷ frames) = failure (read_error exit end_of_file) ∷ []
send_ledger_meta until_sequence exit (malformed ∷ frames) =
    failure (read_error exit unmarshalling) ∷ []
send_ledger_meta until_sequence exit (frame m ∷ frames) =
    let rest = send_ledger_meta until_sequence exit frames in
    meta m
    ∷ (if not (until_sequence == 0) && leb until_sequence m.ledger_sequence then [] else rest)

abbrev pub sends : ℕ → Process → List MetaResult
sends until_sequence p = elim p.meta_pipe [
  | none ↦ failure (read_error (exit_of p.exited) missing_pipe) ∷ []
  | some frames ↦ send_ledger_meta until_sequence (exit_of p.exited) frames
]

abbrev pub is_some {ℓ} : {A : Type ℓ} → Option A → Bool
is_some none = false
is_some (some a) = true

-- The error is that of the runner, if there is one.
unfoldable pub close : Calls → Captive → Option Error × Captive
close e c = (
  (if c.has_runner && e.close_fails then some closing_failed else none),
  record c {
    next_ledger = 0;
    last_ledger = none;
    running = false;
    stream = [];
    has_runner = false;
    has_pipe = false;
  },
)

abbrev pub is_closed : Captive → Bool
is_closed c = c.next_ledger == 0

-- `not_yet` is the answer false without an error; `blocked` waits for a ledger that never comes.
pub data Got : Type 0 where
  found : LedgerCloseMeta → Got
  not_yet blocked : Got
  failed : Error → Got

abbrev pub same_ledger : Option ℕ → ℕ → Bool
same_ledger none seq = false
same_ledger (some last) seq = last == seq

abbrev pub closed_with : LedgerCloseMeta → Option Error × Captive → Got × Captive
closed_with m (none, c) = (found m, c)
closed_with m (some e, c) = (failed e, c)

module _ (e : Calls) where
  -- The end of a loop by an error; an error of `Close` is not looked at.
  abbrev pub reset : Error → Captive → Got × Captive
  reset x c = (failed x, (close e c).1)

  -- The requested ledger; after the last one of a segment the session is closed.
  abbrev pub take_ledger : LedgerCloseMeta → Captive → Got × Captive
  take_ledger m c =
      let c' = record c { cached_meta = some m } in
      if same_ledger c.last_ledger m.ledger_sequence
      then closed_with m (close e c')
      else (found m, c')

  -- The loop, on the stream that is left. `ready` is how many ledgers it finds in the buffer.
  unfoldable pub get_loop : ℕ → ℕ → Captive → List MetaResult → Got × Captive
  unfolding close
  get_loop sequence ready c [] =
      ((if c.blocking then blocked else not_yet), record c { stream = [] })
  get_loop sequence ready c (failure x ∷ s) =
      if not c.blocking && ready == 0
      then (not_yet, record c { stream = failure x ∷ s })
      else reset x (record c { stream = s })
  get_loop sequence ready c (meta m ∷ s) =
      let c' = record c { next_ledger = (c.next_ledger + 1) % 2 ^ 32; stream = s } in
      let rest = get_loop sequence (ready - 1) c' s in
      if not c.blocking && ready == 0
      then (not_yet, record c { stream = meta m ∷ s })
      else if not (m.ledger_sequence == c.next_ledger)
      then reset unexpected_ledger (record c { stream = s })
      else if m.ledger_sequence == sequence
      then take_ledger m c'
      else rest

  -- The session is looked at when the ledger is not the cached one.
  abbrev pub get_new : ℕ → ℕ → Captive → Got × Captive
  get_new sequence ready c =
      if is_closed c
      then (failed session_closed, c)
      else if ltb sequence c.next_ledger
      then (failed behind_stream, c)
      else get_loop sequence ready c c.stream

  unfoldable pub get_ledger : ℕ → ℕ → Captive → Got × Captive
  unfolding get_loop
  get_ledger sequence ready c = elim c.cached_meta [
    | none ↦ get_new sequence ready c
    | some m ↦ if sequence == m.ledger_sequence then (found m, c) else get_new sequence ready c
  ]

-- `buffered` is how many ledgers are in the buffer.
unfoldable pub get_latest_ledger_sequence : ℕ → Captive → Option ℕ
get_latest_ledger_sequence buffered c = if is_closed c then none else elim c.last_ledger [
  | none ↦ some ((c.next_ledger + 2 ^ 32 - 1 + buffered) % 2 ^ 32)
  | some last ↦ some last
]
