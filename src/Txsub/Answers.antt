-- ===== src/Txsub/Answers.antt =====
-- What a round is to send to the listeners of open submissions, and which of them it is to keep.
use Prim.Native.String.{String}
use aurorav1_11_0_test.Base.{
  ℕ, ◌-◌, ◌<◌, ◌≤◌, ◌≡◌, true, false, Option, none, some, [], ◌∷◌, ◌++◌, map,
}
use aurorav1_11_0_test.OpenSubmissions.{OpenSubmission, Submissions}
use aurorav1_11_0_test.Txsub.{
  Transaction, Result, Lookup, row, no_rows, lookup_failed, Decoded, failed_transaction, timeout,
}
use aurorav1_11_0_test.Txsub.Rounds.{Sent}

-- What is found of a transaction: its result if that can be decoded, without an error where it is
-- successful and else with its failure; nothing if it is not there, or cannot be read or decoded.
pub data IsAnswer (unmarshal : String → Option Decoded) : Lookup → Option Result → Type 0 where
  success :
      {tx : Transaction} (d : Decoded)
      → unmarshal tx.tx_result ≡ some d
      → d.successful ≡ true
      → IsAnswer unmarshal (row tx) (some (record { transaction = some tx; error = none }))
  failed :
      {tx : Transaction} (d : Decoded)
      → unmarshal tx.tx_result ≡ some d
      → d.successful ≡ false
      → IsAnswer unmarshal
          (row tx)
          (some (record { transaction = some tx; error = some (failed_transaction tx.tx_result) }))
  undecoded : {tx : Transaction} → unmarshal tx.tx_result ≡ none → IsAnswer unmarshal (row tx) none
  missing : IsAnswer unmarshal no_rows none
  unread : IsAnswer unmarshal lookup_failed none

-- The results that are sent to the listeners of open submissions, and those that stay open.
pub data Answered (unmarshal : String → Option Decoded) (lookups : String → Lookup)
    : Submissions → Sent → Submissions → Type 0 where
  nothing : Answered unmarshal lookups [] [] []
  final :
      {k : String} {os : OpenSubmission} {m left : Submissions} {sent : Sent} (r : Result)
      → IsAnswer unmarshal (lookups k) (some r)
      → Answered unmarshal lookups m sent left
      → Answered unmarshal lookups ((k, os) ∷ m) (map (λ l. (l, r)) os.listeners ++ sent) left
  still_open :
      {k : String} {os : OpenSubmission} {m left : Submissions} {sent : Sent}
      → IsAnswer unmarshal (lookups k) none
      → Answered unmarshal lookups m sent left
      → Answered unmarshal lookups ((k, os) ∷ m) sent ((k, os) ∷ left)

-- The timeouts that are sent to the listeners of those over the age, and the others.
pub data TimedOut (max_age now : ℕ) : Submissions → Sent → Submissions → Type 0 where
  none_left : TimedOut max_age now [] [] []
  over :
      {k : String} {os : OpenSubmission} {m left : Submissions} {sent : Sent}
      → max_age < now - os.submitted_at
      → TimedOut max_age now m sent left
      → TimedOut max_age now
          ((k, os) ∷ m)
          (map (λ l. (l, record { transaction = none; error = some timeout })) os.listeners ++ sent)
          left
  within :
      {k : String} {os : OpenSubmission} {m left : Submissions} {sent : Sent}
      → now - os.submitted_at ≤ max_age
      → TimedOut max_age now m sent left
      → TimedOut max_age now ((k, os) ∷ m) sent ((k, os) ∷ left)
