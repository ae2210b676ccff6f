-- ===== src/Captive/Prepared.antt =====
-- What `IsPrepared` takes for prepared.
use Prim.Native.String.{String}
use aurorav1_11_0_test.Base.{
  ℕ, zero, suc, ◌<◌, ◌≤◌, ◌+◌, ◌-◌, ◌%◌, ◌^◌, ◌≡◌, refl, sym, ap, ◌∙◌, Bool, true, false, not, ◌&&◌,
  leb, ltb, ◌==◌, if-cases, Option, none, some, List, [], ◌∷◌, arith,
}
use aurorav1_11_0_test.Captive.{
  Captive, Calls, is_some, Frame, meta, found, blocked, Error, close, send_ledger_meta, get_ledger,
}
use aurorav1_11_0_test.Captive.Opening.{
  Range, opened, contains, is_prepared, started, params, run_from_params, continues, online_from,
  fast_forward, forwarded, open_online_replay_subprocess, after_close, wait_for_first,
  prepare_range,
}
use aurorav1_11_0_test.Captive.Ledgers.{ledger, ledgers, at, same_number, get_loop-blocks}
use aurorav1_11_0_test.Captive.Streams.{frames, Fresh, closes, get_ledger-reads, get_ledger-finds}
use aurorav1_11_0_test.Captive.Sessions.{streaming, bounded_range}

abbrev pub unbounded_range : ℕ → Range
unbounded_range from = record { from = from; to = 0; bounded = false }

module _ (e : Calls) (stays : e.close_fails ≡ false) where
  -- In a session of a bounded range, any bounded range that begins in what is left counts as prepared,
  -- also where it ends after the session does and is not contained in it. A request for a ledger after
  -- the end of the session then waits for ever.
  pub get_ledger-is_prepared :
      (n from k sequence : ℕ) (c : Captive)
      → c.last_ledger ≡ some (n + k)
      → Fresh sequence c.cached_meta
      → 0 < n
      → n ≤ from
      → from ≤ sequence
      → n + k < sequence
      → sequence < 2 ^ 32
      → let c' = at n (ledgers n (suc k)) c in
        (contains (bounded_range n (n + k)) (bounded_range from sequence) ≡ false)
        × (is_prepared e (bounded_range from sequence) c' ≡ true)
        × (get_ledger e sequence 0 c' ≡ (blocked, at (n + suc k) [] c))
  unfolding is_prepared contains
  get_ledger-is_prepared n from k sequence c last fresh pos le le' past fits =
      let is_open : (n == 0) ≡ false = ground (arith, pos) in
      let begins : leb n from ≡ true = ground (arith, le) in
      let in_it : leb n (n + k) ≡ true = ground arith in
      let not_in : leb sequence (n + k) ≡ false = ground (arith, past) in
      (
        rw (begins, not_in) refl,
        rw (is_open, last, begins, in_it) refl,
        get_ledger-reads e stays n sequence (ledgers n (suc k)) c fresh pos (omega (arith, le, le'))
            ∙ get_loop-blocks e (suc k) n sequence 0 c (ledgers n (suc k)) (omega (arith, past))
                fits,
      )

  -- An unbounded range is prepared in a session that goes on.
  is_prepared-continues :
      (from : ℕ) (c : Captive) → is_prepared e (unbounded_range from) c ≡ continues e from c
  unfolding is_prepared
  is_prepared-continues from c =
      if-cases (λ b. b ≡ continues e from c) (c.next_ledger == 0)
        (λ h.
          elim c.last_ledger
            as (λ o.
              false ≡ (not (is_some o) && (not (c.next_ledger == 0) && leb c.next_ledger from))) [
                | none ↦ rw h refl
                | some last ↦ refl
              ])
        (λ h.
          elim c.last_ledger
            as (λ o.
              (elim o [ none ↦ leb c.next_ledger from | some last ↦ false ])
              ≡ (not (is_some o) && (not (c.next_ledger == 0) && leb c.next_ledger from))) [
                | none ↦ rw h refl
                | some last ↦ refl
              ])

  -- An unbounded stream is sent as long as it lasts.
  sends-all : (k n : ℕ) (exit : Option Error) → send_ledger_meta 0 exit (frames n k) ≡ ledgers n k
  unfolding send_ledger_meta
  sends-all zero n exit = refl
  sends-all (suc k) n exit = ap (λ s. meta (ledger n) ∷ s) (sends-all k (n + 1) exit)

  -- The session that is opened for an unbounded range, before the fast-forward and after it.
  abbrev online : ℕ → Captive → List Frame → Captive
  online next c fs =
      started 0 next none false (streaming fs) (record (close e c).1 { has_runner = true })

  abbrev forward : ℕ → ℕ → Captive → List Frame → Captive
  forward from k c fs = record (online 0 c fs) {
    next_ledger = from + 1;
    stream = ledgers (from + 1) k;
    cached_meta = some (ledger from);
  }

  -- The requested ledger is the last one that the fast-forward reads, and it is kept.
  forwards :
      (from next k : ℕ) (c : Captive)
      → next < from
      → 0 < next
      → from + 1 < 2 ^ 32
      → Fresh from c.cached_meta
      → let fs = frames next (from - next + suc k) in
        fast_forward e from (online next c fs) ≡ opened (forward from k c fs)
  unfolding close
  forwards from next k c before pos fits fresh =
      let fs = frames next (from - next + suc k) in
      let behind : ltb next from ≡ true = ground (arith, before) in
      rw (behind, sends-all (from - next + suc k) next none)
        (ap (forwarded e) (
          get_ledger-finds e stays next (from - next) from (from - next + suc k) k (online 0 c fs)
            (omega (arith, before)) refl fresh pos fits))

  opens_online :
      (from latest run_from next : ℕ) (hash : String) (c : Captive) (fs : List Frame)
      → e.runner_fails ≡ false
      → e.root_ledger ≡ some latest
      → from ≤ latest + 128
      → latest + 128 < 2 ^ 32
      → c.has_config ≡ true
      → run_from_params e.previous_hash from ≡ params run_from hash next
      → e.run_from run_from hash ≡ some (streaming fs)
      → continues e from c ≡ false
      → open_online_replay_subprocess e from c ≡ fast_forward e from (online next c fs)
  unfolding open_online_replay_subprocess close
  opens_online from latest run_from next hash c fs runs root near fits configured starts runs_from
        new =
      let not_far : ltb ((latest + 128) % 2 ^ 32) from ≡ false = ground (arith, near, fits) in
      let c' = (close e c).1 in
      let unset : not c.has_config ≡ false = ap not configured in
      rw new (
        ap (λ x. after_close e (x, c') (λ q. online_from e from q e.root_ledger)) (closes e stays c)
        ∙ simp (root, not_far, unset, runs, starts, runs_from) refl)

  -- An unbounded range whose stream begins before its first ledger, and goes on after it: `PrepareRange`
  -- succeeds after a fast-forward, and the first ledger is then read and kept. That range is not
  -- prepared any more then, the one that begins a ledger later is.
  pub is_prepared-prepare_range :
      (exit_seen : Bool) (from latest run_from next k ready : ℕ) (hash : String) (c : Captive)
      → is_prepared e (unbounded_range from) c ≡ false
      → Fresh from c.cached_meta
      → e.runner_fails ≡ false
      → e.root_ledger ≡ some latest
      → from ≤ latest + 128
      → latest + 128 < 2 ^ 32
      → c.has_config ≡ true
      → from + 1 < 2 ^ 32
      → 0 < next
      → next < from
      → run_from_params e.previous_hash from ≡ params run_from hash next
      → e.run_from run_from hash ≡ some (streaming (frames next (from - next + suc (suc k))))
      → (c' : Captive) × (prepare_range e exit_seen (unbounded_range from) c ≡ opened c')
        × (get_ledger e from ready c' ≡ (found (ledger from), c'))
        × (is_prepared e (unbounded_range from) c' ≡ false)
        × (is_prepared e (unbounded_range (from + 1)) c' ≡ true)
  unfolding prepare_range is_prepared get_ledger
  is_prepared-prepare_range exit_seen from latest run_from next k ready hash c new fresh runs root
        near fits configured small pos before starts runs_from =
      let fs = frames next (from - next + suc (suc k)) in
      let stops = sym (is_prepared-continues from c) ∙ new in
      let kept : (from == from) ≡ true = same_number from from refl in
      let is_open : (from + 1 == 0) ≡ false = ground arith in
      let after : leb (from + 1) from ≡ false = ground arith in
      let later : leb (from + 1) (from + 1) ≡ true = ground arith in
      (
        forward from (suc k) c fs,
        rw new (
            ap (wait_for_first e exit_seen) (
              opens_online from latest run_from next hash c fs runs root near fits configured starts
                runs_from stops
              ∙ forwards from next (suc k) c before pos small fresh)),
        rw kept refl,
        rw (is_open, after) refl,
        rw (is_open, later) refl,
      )
