-- ===== src/Captive/Sessions.antt =====
-- A session from `PrepareRange` to the last ledger of its range.
use aurorav1_11_0_test.Base.{
  ℕ, suc, ◌<◌, ◌≤◌, ◌+◌, ◌-◌, ◌^◌, ◌≡◌, refl, ap, ◌∙◌, Bool, true, false, ltb, ◌==◌, none, some,
  List, ◌∷◌, ◌++◌, arith,
}
use aurorav1_11_0_test.Captive.{
  Captive, Calls, Process, Frame, MetaResult, meta, close, is_closed, send_ledger_meta,
  get_latest_ledger_sequence,
}
use aurorav1_11_0_test.Captive.Opening.{
  Range, opened, round_down, is_prepared, started, open_offline_replay_subprocess, offline_until,
  after_close, wait_for_first, prepare_range,
}
use aurorav1_11_0_test.Captive.Ledgers.{ledger, ledgers}
use aurorav1_11_0_test.Captive.Streams.{
  frames, founds, read_all, Fresh, sends-last, round_down_le, closes, read_on,
}

abbrev pub bounded_range : ℕ → ℕ → Range
bounded_range from to = record { from = from; to = to; bounded = true }

-- A process that runs as long as its frames are read.
abbrev pub streaming : List Frame → Process
streaming frames = record { meta_pipe = some frames; exited = none }

module _ (e : Calls) (stays : e.close_fails ≡ false) where
  -- The session that is opened for a bounded range.
  abbrev session : ℕ → ℕ → Captive → List Frame → Captive
  session from to c frames =
      started to (round_down from) (some to) true (streaming frames) (close e c).1

  opens_session :
      (from to latest : ℕ) (c : Captive) (frames : List Frame)
      → e.runner_fails ≡ false
      → e.root_ledger ≡ some latest
      → from ≤ to
      → to ≤ latest
      → e.catchup from to ≡ some (streaming frames)
      → open_offline_replay_subprocess e from to c ≡ opened (session from to c frames)
  unfolding open_offline_replay_subprocess
  opens_session from to latest c frames runs root le known caught =
      let c' = (close e c).1 in
      let late : ltb latest to ≡ false = ground (arith, known) in
      let later : ltb latest from ≡ false = ground (arith, le, known) in
      ap (λ x. after_close e (x, c') (λ q. offline_until e from to q e.root_ledger))
        (closes e stays c)
      ∙ rw (root, late, later, runs, caught) refl

  -- A first ledger that is there, of a process that runs, ends the waiting.
  wait_for_session :
      (exit_seen : Bool) (from to : ℕ) (c : Captive) (frames : List Frame) (r : MetaResult)
      (s : List MetaResult)
      → send_ledger_meta to none frames ≡ r ∷ s
      → wait_for_first e exit_seen (opened (session from to c frames))
        ≡ opened (record (session from to c frames) { stream = r ∷ s })
  wait_for_session exit_seen from to c frames r s sent = rw sent refl

  -- A bounded range that is not prepared yet, with no ledger of it in the cache, and a subprocess that
  -- streams the ledgers up to its end and closes without an error: `PrepareRange` succeeds, the latest
  -- ledger is then the last one of the range, and `GetLedger` gives its ledgers in order, after which
  -- the session is closed.
  pub prepare_range-reads :
      (exit_seen : Bool) (from k latest : ℕ) (c : Captive) (rest : List Frame)
      → is_prepared e (bounded_range from (from + k)) c ≡ false
      → Fresh from c.cached_meta
      → e.runner_fails ≡ false
      → e.root_ledger ≡ some latest
      → from + k ≤ latest
      → 1 < from
      → from + k + 1 < 2 ^ 32
      → e.catchup from (from + k)
        ≡ some (streaming (frames (round_down from) (suc (from + k - round_down from)) ++ rest))
      → (c' : Captive) × (prepare_range e exit_seen (bounded_range from (from + k)) c ≡ opened c')
        × (get_latest_ledger_sequence 0 c' ≡ some (from + k))
        × ((read_all e from (suc k) c').0 ≡ founds from (suc k))
        × (is_closed (read_all e from (suc k) c').1 ≡ true)
  unfolding prepare_range get_latest_ledger_sequence close
  prepare_range-reads exit_seen from k latest c rest new fresh runs root known two fits caught =
      let (below, low) = round_down_le from two in
      let n = round_down from in
      let j = suc (from + k - n) in
      let fs = frames n j ++ rest in
      let sent =
        sends-last (from + k - n) n (from + k) none rest (omega (arith, below))
          (omega (arith, two)) in
      let is_open : (n == 0) ≡ false = ground (arith, low) in
      let (gives, ends) =
        read_on e stays k n (from - n) from j (session from (from + k) c fs) (omega (arith, below))
          (omega (arith, below)) refl fresh (omega (arith, low)) fits in
      (
        record (session from (from + k) c fs) { stream = ledgers n j },
        rw new (
            ap (wait_for_first e exit_seen)
              (opens_session from (from + k) latest c fs runs root (omega arith) known caught)
            ∙ wait_for_session exit_seen from (from + k) c fs (meta (ledger n))
                (ledgers (n + 1) (from + k - n)) sent),
        rw is_open refl,
        gives,
        ends,
      )
