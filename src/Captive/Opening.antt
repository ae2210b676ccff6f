-- ===== src/Captive/Opening.antt =====
-- ingest/ledgerbackend/captive_core_backend.go and ledger_backend.go: the opening of a session and
-- `PrepareRange`.
use Prim.Native.String.{String}
use aurorav1_11_0_test.Base.{
  ℕ, ◌+◌, ◌-◌, ◌*◌, ◌/◌, ◌%◌, ◌^◌, Bool, true, false, not, ◌&&◌, ltb, leb, ◌==◌, if◌then◌else◌,
  Option, none, some, List, [], ◌∷◌,
}
use aurorav1_11_0_test.Checkpoints.{is_checkpoint, prev_checkpoint}
use aurorav1_11_0_test.Captive.{
  Captive, Calls, Process, Error, Got, MetaResult, found, not_yet, blocked, sends, exit_of, is_some,
  close, get_ledger, closing_failed, root_failed, beyond_archive, too_far, no_config_path,
  no_runner, running_failed, genesis, header_failed, missing_pipe,
}
use aurorav1_11_0_test.Captive

pub record Range : Type 0 where
  pub from : ℕ
  pub to : ℕ
  pub bounded : Bool

unfoldable pub contains : Range → Range → Bool
contains r other =
    if r.bounded && not other.bounded
    then false
    else if r.bounded && other.bounded
    then leb r.from other.from && leb other.to r.to
    else leb r.from other.from

abbrev ledgers_per_checkpoint : ℕ
ledgers_per_checkpoint = 64

unfoldable pub round_down : ℕ → ℕ
round_down ledger =
    let v = ledger / ledgers_per_checkpoint * ledgers_per_checkpoint in if v == 0 then 2 else v

pub data RunParams : Type 0 where
  params : (run_from : ℕ) (ledger_hash : String) (next_ledger : ℕ) → RunParams
  err : Error → RunParams

-- The header of `from` is looked up.
abbrev pub with_header : ℕ → ℕ → Option String → RunParams
with_header from next none = err header_failed
with_header from next (some hash) = params (from - 1) hash next

abbrev pub checkpoint_below : ℕ → ℕ
checkpoint_below from = if is_checkpoint from then from else prev_checkpoint from

abbrev next_after : ℕ → ℕ
next_after from = if ltb (from - 63) 2 then 2 else from - 63

unfoldable pub run_from_params : (ℕ → Option String) → ℕ → RunParams
unfolding is_checkpoint prev_checkpoint
run_from_params previous_hash from =
    let from' = checkpoint_below from in
    if from == 1
    then err genesis
    else if leb from 63
    then with_header 3 2 (previous_hash 3)
    else with_header from' (next_after from') (previous_hash from')

-- How an opening ends: with an error, or without one, or never.
pub data Opened : Type 0 where
  opened : Captive → Opened
  failed : Error → Captive → Opened
  hangs : Captive → Opened

-- The session with the process that was started.
abbrev pub started : ℕ → ℕ → Option ℕ → Bool → Process → Captive → Captive
started until_sequence next last blocks p c = record c {
  has_runner = true;
  has_pipe = is_some p.meta_pipe;
  running = true;
  stream = sends until_sequence p;
  exit_error = exit_of p.exited;
  blocking = blocks;
  next_ledger = next;
  last_ledger = last;
}

module _ (e : Calls) where
  abbrev run_offline : ℕ → ℕ → Captive → Option Process → Opened
  run_offline from to c none = failed running_failed (record c { has_runner = true })
  run_offline from to c (some p) = opened (started to (round_down from) (some to) true p c)

  -- Once the old session is closed and the archive's last ledger known.
  abbrev pub offline_until : ℕ → ℕ → Captive → Option ℕ → Opened
  offline_until from to c none = failed root_failed c
  offline_until from to c (some latest) =
      let to' = if ltb latest to then latest else to in
      if ltb latest from
      then failed beyond_archive c
      else if e.runner_fails
      then failed no_runner c
      else run_offline from to' c (e.catchup from to')

  abbrev pub after_close : Option Error × Captive → (Captive → Opened) → Opened
  after_close (some x, c) next = failed closing_failed c
  after_close (none, c) next = next c

  unfoldable pub open_offline_replay_subprocess : ℕ → ℕ → Captive → Opened
  unfolding close round_down
  open_offline_replay_subprocess from to c =
      after_close (close e c) (λ c'. offline_until from to c' e.root_ledger)

  -- The fast-forward, which blocks meanwhile.
  abbrev pub forwarded : Got × Captive → Opened
  forwarded (found m, c) = opened (record c { blocking = false })
  forwarded (not_yet, c) = opened (record c { blocking = false })
  forwarded (blocked, c) = hangs c
  forwarded (Captive.failed x, c) = failed x (record c { blocking = false })

  abbrev pub fast_forward : ℕ → Captive → Opened
  fast_forward from c =
      if ltb c.next_ledger from
      then forwarded (get_ledger e from 0 (record c { blocking = true }))
      else opened c

  abbrev run_online : ℕ → ℕ → Captive → Option Process → Opened
  run_online from next c none = failed running_failed c
  run_online from next c (some p) = fast_forward from (started 0 next none false p c)

  abbrev online_by : ℕ → Captive → RunParams → Opened
  online_by from c (err x) = failed x c
  online_by from c (params run_from hash next) = run_online from next c (e.run_from run_from hash)

  abbrev pub online_from : ℕ → Captive → Option ℕ → Opened
  online_from from c none = failed root_failed c
  online_from from c (some latest) =
      if ltb ((latest + 2 * 64) % 2 ^ 32) from
      then failed too_far c
      else if not c.has_config
      then failed no_config_path c
      else if e.runner_fails
      then failed no_runner c
      else online_by from (record c { has_runner = true }) (run_from_params e.previous_hash from)

  abbrev pub continues : ℕ → Captive → Bool
  continues from c =
      not (is_some c.last_ledger) && (not (c.next_ledger == 0) && leb c.next_ledger from)

  unfoldable pub open_online_replay_subprocess : ℕ → Captive → Opened
  unfolding close get_ledger run_from_params
  open_online_replay_subprocess from c =
      if continues from c
      then opened c
      else after_close (close e c) (λ c'. online_from from c' e.root_ledger)

  -- `exit_seen` is whether the goroutine met the exit of the process when the first ledger is there.
  abbrev pub first_ledger : Bool → Captive → List MetaResult → Opened
  first_ledger exit_seen c [] = hangs c
  first_ledger exit_seen c (r ∷ s) = elim c.exit_error [
    | none ↦ opened c
    | some x ↦ if exit_seen then failed x c else opened c
  ]

  abbrev pub wait_for_first : Bool → Opened → Opened
  wait_for_first exit_seen (opened c) =
      if c.has_pipe then first_ledger exit_seen c c.stream else failed missing_pipe c
  wait_for_first exit_seen other = other

  unfoldable pub is_prepared : Range → Captive → Bool
  is_prepared r c = if c.next_ledger == 0 then false else elim c.last_ledger [
    | none ↦ leb c.next_ledger r.from
    | some last ↦ if r.bounded then leb c.next_ledger r.from && leb c.next_ledger last else false
  ]

  unfoldable pub prepare_range : Bool → Range → Captive → Opened
  unfolding is_prepared open_offline_replay_subprocess open_online_replay_subprocess
  prepare_range exit_seen r c =
      if is_prepared r c
      then opened c
      else wait_for_first exit_seen (
          if r.bounded
          then open_offline_replay_subprocess r.from r.to c
          else open_online_replay_subprocess r.from c)
