-- ===== src/Txsub/Rounds.antt =====
-- services/aurora/internal/txsub/system.go: a round of the system, `Tick`. A second one at the same time does
-- nothing. The database is read in one transaction.
use Prim.Native.String.{String}
use aurorav1_11_0_test.Base.{ℕ, Bool, true, false, Option, none, some, List, [], ◌∷◌, ◌++◌, map}
use aurorav1_11_0_test.Base.Maps.{Map}
use aurorav1_11_0_test.Submission.{Heap, Answer}
use aurorav1_11_0_test.Submission.Manager.{Manager, addresses, update}
use aurorav1_11_0_test.OpenSubmissions.{Submissions, pending, clean}
use aurorav1_11_0_test.OpenSubmissions
use aurorav1_11_0_test.Txsub.{
  Transaction, Error, Result, Lookup, Decoded, System, failed_transaction, timeout, failure,
  looked_up, tx_result_by_hash,
}

-- A listener with its result.
abbrev pub Sent : Type 0
Sent = List (ℕ × Result)

-- The sequence numbers in the order of the map, each with the time of its turn.
abbrev pub turns : ℕ → Map ℕ → List (String × ℕ × ℕ)
turns now cur_seq = map (λ e. (e.0, e.1, now)) cur_seq

module _ (unmarshal : String → Option Decoded) (h : Heap) where
  -- What is done with an open submission once it is looked up; other errors are logged.
  unfoldable pub finish_by :
      String → Option Transaction → Option Error → Submissions → Sent × Submissions
  unfolding OpenSubmissions.finish
  finish_by hash tx none m = OpenSubmissions.finish hash (looked_up (tx, none)) m
  finish_by hash tx (some (failed_transaction x)) m =
      OpenSubmissions.finish hash (looked_up (tx, some (failed_transaction x))) m
  finish_by hash tx (some e) m = ([], m)

  abbrev pub finish_open : String → Lookup → Submissions → Sent × Submissions
  finish_open hash l m = let r = tx_result_by_hash unmarshal l in finish_by hash r.0 r.1 m

  -- The loop over the hashes that were open at its start.
  unfoldable pub finish_each : (String → Lookup) → List String → Submissions → Sent × Submissions
  unfolding finish_by
  finish_each lookups [] m = ([], m)
  finish_each lookups (hash ∷ hashes) m =
      let r = finish_open hash (lookups hash) m in
      let rest = finish_each lookups hashes r.1 in (r.0 ++ rest.0, rest.1)

  -- `none` is an error of the database, which ends the round.
  abbrev pub update_all :
      ℕ → Option (Map ℕ) → List String → Manager → Option (List Answer × Manager)
  update_all now cur_seq [] m = some ([], m)
  update_all now none (a ∷ addys) m = none
  update_all now (some cur_seq) (a ∷ addys) m = some (update h (turns now cur_seq) m)

  -- What comes after the queues were updated.
  abbrev pub round_with :
      ℕ
      → ℕ
      → (String → Lookup)
      → System
      → Option (List Answer × Manager)
      → Sent × List Answer × System
  round_with submission_timeout now lookups sys none = ([], [], sys)
  round_with submission_timeout now lookups sys (some (answers, queue)) =
      let finished = finish_each lookups (pending sys.pending) sys.pending in
      let cleaned = clean (failure timeout) now submission_timeout finished.1 in
      (
        finished.0 ++ cleaned.0,
        answers,
        record sys { pending = cleaned.2; submission_queue = queue },
      )

  -- `begins` is whether the read transaction could be started. The flag is set meanwhile.
  unfoldable pub tick :
      ℕ → ℕ → Bool → Option (Map ℕ) → (String → Lookup) → System → Sent × List Answer × System
  unfolding update pending clean finish_each
  tick submission_timeout now begins cur_seq lookups sys = elim sys.tick_in_progress [
    | true ↦ ([], [], sys)
    | false ↦ elim begins [
      | false ↦ ([], [], sys)
      | true ↦
          round_with submission_timeout now lookups sys
            (update_all now cur_seq (addresses sys.submission_queue) sys.submission_queue)
    ]
  ]
