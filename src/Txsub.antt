-- ===== src/Txsub.antt =====
-- services/aurora/internal/txsub (system.go, results.go, main.go): the submission of transactions over the
-- queues of Submission and the list of OpenSubmissions. What the database and the core answer are arguments,
-- and so is how a transaction's result is decoded. A request ends with one result on its channel, which is a
-- number, buffered for one result and then closed.
pub mod Counts
pub mod Lists
pub mod Rounds
pub mod Runs
pub mod Parts
pub mod Turns
pub mod Answered
pub mod Answers
pub mod Ticks
mod Examples
use Prim.Native.String.{String}
use aurorav1_11_0_test.Base.{
  ℕ, Bool, true, false, leb, if◌then◌else◌, Option, none, some, List, [], ◌∷◌, ◌++◌, map,
}
use aurorav1_11_0_test.Base.Maps.{Map, lookup}
use aurorav1_11_0_test.Submission.{Heap, Answer}
use aurorav1_11_0_test.Submission
use aurorav1_11_0_test.Submission.Manager.{Manager, push, update}
use aurorav1_11_0_test.OpenSubmissions.{Submissions, Added}
use aurorav1_11_0_test.OpenSubmissions

-- The field of `history.Transaction` that is read; an empty one is `none`.
pub record Transaction : Type 0 where
  pub tx_result : String

pub data Error : Type 0 where
  no_results canceled timeout no_more_room wrapped : Error
  failed_transaction : String → Error

abbrev pub bad_sequence : Error
bad_sequence = failed_transaction "AAAAAAAAAAD////7AAAAAA=="

abbrev pub no_account : Error
no_account = failed_transaction "AAAAAAAAAAD////4AAAAAA=="

pub record Result : Type 0 where
  pub transaction : Option Transaction
  pub error : Option Error

abbrev pub failure : Error → Result
failure e = record { transaction = none; error = some e }

abbrev pub looked_up : Option Transaction × Option Error → Result
looked_up r = record { transaction = r.0; error = r.1 }

-- What the history database answers.
pub data Lookup : Type 0 where
  row : Transaction → Lookup
  no_rows lookup_failed : Lookup

-- What the core answers.
pub data SubmissionResult : Type 0 where
  accepted : SubmissionResult
  refused : Error → SubmissionResult

-- A result that is decoded: whether it is successful, and whether its code is txBAD_SEQ.
pub record Decoded : Type 0 where
  pub successful : Bool
  pub bad_seq : Bool

pub record System : Type 0 where
  pub tick_in_progress : Bool
  pub pending : Submissions
  pub submission_queue : Manager

-- A call of `Submit` under way: it waits for its turn, or for the sequence number of the account after the
-- core's error.
pub data Phase : Type 0 where
  waiting : (seq_channel : ℕ) → Phase
  polling : Error → Phase

pub record Request : Type 0 where
  pub response : ℕ
  pub hash : String
  pub source_address : String
  pub seq_num : ℕ

-- How a part of `Submit` ends: with a result, under way, or without a result, with the listener taken or not.
pub data Next : Type 0 where
  finished : Result → Next
  stays : Phase → Next
  listed lost : Next

module _ (unmarshal : String → Option Decoded) where
  abbrev pub tx_result_from_history : Transaction → Option Transaction × Option Error
  tx_result_from_history tx = elim (unmarshal tx.tx_result) [
    | none ↦ (some tx, some wrapped)
    | some r ↦ (some tx, if r.successful then none else some (failed_transaction tx.tx_result))
  ]

  abbrev pub tx_result_by_hash : Lookup → Option Transaction × Option Error
  tx_result_by_hash (row tx) = tx_result_from_history tx
  tx_result_by_hash no_rows = (none, some no_results)
  tx_result_by_hash lookup_failed = (none, some wrapped)

  abbrev pub number_of : String → Option (Map ℕ) → Option Transaction × ℕ × Option Error
  number_of source_address none = (none, 0, some wrapped)
  number_of source_address (some numbers) = elim (lookup source_address numbers) [
    | none ↦ (none, 0, some no_account)
    | some num ↦ (none, num, some no_results)
  ]

  -- The sequence number is asked for where there is no result.
  abbrev pub checked :
      Option Transaction
      → Option Error
      → Option Transaction × ℕ × Option Error
      → Option Transaction × ℕ × Option Error
  checked tx (some no_results) number = number
  checked tx e number = (tx, 0, e)

  -- `begins` is whether the read transaction could be started.
  abbrev pub check_tx_already_exists :
      Bool → Lookup → Option (Map ℕ) → String → Option Transaction × ℕ × Option Error
  check_tx_already_exists false l numbers source_address = (none, 0, some wrapped)
  check_tx_already_exists true l numbers source_address =
      let found = tx_result_by_hash l in checked found.0 found.1 (number_of source_address numbers)

  -- `none` where the error cannot be decoded.
  abbrev pub is_bad_seq : Error → Option Bool
  is_bad_seq (failed_transaction x) = elim (unmarshal x) [ none ↦ none | some r ↦ some r.bad_seq ]
  is_bad_seq e = some false

  module _ (h : Heap) where
    -- What follows the check: the submission is pushed where there is no result, and its queue updated.
    unfoldable pub queue_up :
        ℕ
        → Request
        → ℕ
        → System
        → Option Transaction
        → ℕ
        → Option Error
        → Next × List Answer × System
    unfolding push update
    queue_up now r ch sys tx num none = (finished (looked_up (tx, none)), [], sys)
    queue_up now r ch sys tx num (some no_results) =
        let pushed = push h now r.source_address r.seq_num ch sys.submission_queue in
        let updated = update h ((r.source_address, num, now) ∷ []) pushed.1 in
        (stays (waiting ch), pushed.0 ++ updated.0, record sys { submission_queue = updated.1 })
    queue_up now r ch sys tx num (some e) = (finished (looked_up (tx, some e)), [], sys)

    -- `Submit` up to its `select`; `ch` is the channel that `Push` makes.
    unfoldable pub submit :
        ℕ → Request → ℕ → Bool → Lookup → Option (Map ℕ) → System → Next × List Answer × System
    unfolding lookup queue_up
    submit now r ch begins l numbers sys =
        let c = check_tx_already_exists begins l numbers r.source_address in
        queue_up now r ch sys c.0 c.1 c.2

    -- After an error of the core.
    abbrev pub refused_by : Error → Option Bool → Next
    refused_by e none = finished (failure wrapped)
    refused_by e (some false) = finished (failure e)
    refused_by e (some true) = stays (polling e)

    -- The error of `Pending.Add` is not looked at, and nothing is left to answer the call.
    abbrev pub list_or_drop : Added → System → Next × System
    list_or_drop (OpenSubmissions.added m) sys = (listed, record sys { pending = m })
    list_or_drop other sys = (lost, sys)

    -- `Submit` after its turn has come, with the answer of the core.
    abbrev pub submit_once : ℕ → Request → SubmissionResult → System → Next × List Answer × System
    submit_once now r (refused e) sys = (refused_by e (is_bad_seq e), [], sys)
    submit_once now r accepted sys =
        let open_list =
          list_or_drop (OpenSubmissions.add now 1 r.hash r.response sys.pending) sys in
        let updated = update h ((r.source_address, r.seq_num, now) ∷ []) sys.submission_queue in
        (open_list.0, updated.0, record open_list.1 { submission_queue = updated.1 })

    -- The message of the queue; `core` is what the core answers if it is asked.
    unfoldable pub receive :
        ℕ
        → Request
        → Option Submission.Error
        → SubmissionResult
        → System
        → Next × List Answer × System
    unfolding update OpenSubmissions.add
    receive now r (some Submission.bad_sequence) core sys =
        (finished (failure bad_sequence), [], sys)
    receive now r (some Submission.no_more_room) core sys =
        (finished (failure no_more_room), [], sys)
    receive now r none core sys = submit_once now r core sys

    -- A missing account has the number 0.
    abbrev pub number_or_zero : Option ℕ → ℕ
    number_or_zero none = 0
    number_or_zero (some n) = n

    -- Whether a round of `waitUntilAccountSequence` is the last one.
    abbrev pub is_reached : Request → Option (Map ℕ) → Bool
    is_reached r none = false
    is_reached r (some numbers) = leb r.seq_num (number_or_zero (lookup r.source_address numbers))

    abbrev pub second_attempt : Error → Option Transaction × Option Error → Result
    second_attempt sr (tx, none) = looked_up (tx, none)
    second_attempt sr (tx, some e) = failure sr

    unfoldable pub poll : Request → Error → Option (Map ℕ) → Lookup → Next
    unfolding lookup
    poll r sr numbers l =
        if is_reached r numbers
        then finished (second_attempt sr (tx_result_by_hash l))
        else stays (polling sr)
