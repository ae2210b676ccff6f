-- ===== src/Captive/Examples.antt =====
-- Sessions of an archive with 200 ledgers.
use Prim.Native.String.{String}
use aurorav1_11_0_test.Base.{
  ℕ, suc, ◌-◌, ◌≡◌, refl, true, false, Option, none, some, [], ◌++◌, arith,
}
use aurorav1_11_0_test.Captive.{
  Captive, Calls, found, blocked, is_closed, get_ledger, get_latest_ledger_sequence,
}
use aurorav1_11_0_test.Captive.Opening.{
  opened, round_down, contains, params, is_prepared, prepare_range, run_from_params,
}
use aurorav1_11_0_test.Captive.Ledgers.{ledger, ledgers, at}
use aurorav1_11_0_test.Captive.Reads.{Answers, get_ledger-Answers}
use aurorav1_11_0_test.Captive.Ranges.{Starts, run_from_params-Starts}
use aurorav1_11_0_test.Captive.Streams.{frames, founds, read_all}
use aurorav1_11_0_test.Captive.Sessions.{streaming, bounded_range, prepare_range-reads}
use aurorav1_11_0_test.Captive.Prepared.{
  unbounded_range, get_ledger-is_prepared, is_prepared-prepare_range,
}

abbrev hashes : ℕ → Option String
hashes n = some "hash"

abbrev calls : Calls
calls = record {
  close_fails = false;
  root_ledger = some 200;
  previous_hash = hashes;
  runner_fails = false;
  catchup = λ from to. some (streaming (frames 64 (suc (to - 64)) ++ []));
  run_from = λ from hash. some (streaming (frames 2 65));
}

abbrev idle : Captive
idle = record {
  has_config = true;
  has_runner = false;
  has_pipe = false;
  running = false;
  stream = [];
  exit_error = none;
  cached_meta = none;
  blocking = false;
  next_ledger = 0;
  last_ledger = none;
}

-- A session of the ledgers 64 to 66.
abbrev segment : Captive
segment = record idle { has_runner = true; has_pipe = true; running = true; last_ledger = some 66 }

get_ledger-Answers_example :
    Answers 65 (at 64 (ledgers 64 3) segment) (get_ledger calls 65 0 (at 64 (ledgers 64 3) segment))
get_ledger-Answers_example = get_ledger-Answers calls 65 0 (at 64 (ledgers 64 3) segment)

run_from_params-Starts_example : Starts hashes 130 (run_from_params hashes 130)
run_from_params-Starts_example = run_from_params-Starts hashes 130 (omega arith)

-- The stream begins at ledger 64, and the request fast-forwards to 130.
run_from_130 : run_from_params hashes 130 ≡ params 126 "hash" 64
unfolding run_from_params
run_from_130 = refl

segment_new : is_prepared calls (bounded_range 65 66) idle ≡ false
unfolding is_prepared
segment_new = refl

segment_frames :
    calls.catchup 65 66 ≡ some (streaming (frames (round_down 65) (suc (66 - round_down 65)) ++ []))
unfolding round_down
segment_frames = refl

prepare_range-reads_example :
    (c' : Captive) × (prepare_range calls false (bounded_range 65 66) idle ≡ opened c')
    × (get_latest_ledger_sequence 0 c' ≡ some 66)
    × ((read_all calls 65 2 c').0 ≡ founds 65 2)
    × (is_closed (read_all calls 65 2 c').1 ≡ true)
prepare_range-reads_example =
    prepare_range-reads calls refl false 65 1 200 idle [] segment_new tt refl refl (omega arith)
      (omega arith) (omega arith) segment_frames

get_ledger-is_prepared_example :
    (contains (bounded_range 64 66) (bounded_range 65 70) ≡ false)
    × (is_prepared calls (bounded_range 65 70) (at 64 (ledgers 64 3) segment) ≡ true)
    × (get_ledger calls 70 0 (at 64 (ledgers 64 3) segment) ≡ (blocked, at 67 [] segment))
get_ledger-is_prepared_example =
    get_ledger-is_prepared calls refl 64 65 2 70 segment refl tt (omega arith) (omega arith)
      (omega arith) (omega arith) (omega arith)

network_new : is_prepared calls (unbounded_range 65) idle ≡ false
unfolding is_prepared
network_new = refl

starts_at_65 : run_from_params hashes 65 ≡ params 62 "hash" 2
unfolding run_from_params
starts_at_65 = refl

is_prepared-prepare_range_example :
    (c' : Captive) × (prepare_range calls false (unbounded_range 65) idle ≡ opened c')
    × (get_ledger calls 65 0 c' ≡ (found (ledger 65), c'))
    × (is_prepared calls (unbounded_range 65) c' ≡ false)
    × (is_prepared calls (unbounded_range 66) c' ≡ true)
is_prepared-prepare_range_example =
    is_prepared-prepare_range calls refl false 65 200 62 2 0 0 "hash" idle network_new tt refl refl
      (omega arith) (omega arith) refl (omega arith) (omega arith) (omega arith) starts_at_65 refl
