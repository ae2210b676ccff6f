-- ===== src/Txsub/Parts.antt =====
-- What the parts of `Submit` do with the list of open submissions.
use Prim.Native.String.{String, len}
use aurorav1_11_0_test.Base.{
  ℕ, ◌+◌, ◌≡◌, refl, subst, Bool, true, false, if-holds, if-cases, not, ◌==◌, ◌≢◌, arith, Option,
  none, some, List, [], ◌∷◌,
}
use aurorav1_11_0_test.Base.Maps.{Map}
use aurorav1_11_0_test.Submission.{Heap, Answer}
use aurorav1_11_0_test.Submission
use aurorav1_11_0_test.OpenSubmissions.{Submissions, Added, add}
use aurorav1_11_0_test.OpenSubmissions
use aurorav1_11_0_test.OpenSubmissions.Clean.{WellFormed}
use aurorav1_11_0_test.OpenSubmissions.Shape.{Step-WellFormed, adds}
use aurorav1_11_0_test.Txsub.{
  Transaction, Error, Result, Lookup, Decoded, System, SubmissionResult, accepted, refused, Request,
  Phase, Next, finished, stays, listed, failure, timeout, canceled, no_results, failed_transaction,
  submit, receive, poll, queue_up, refused_by, list_or_drop, is_bad_seq, looked_up, is_reached,
  second_attempt, tx_result_by_hash, polling, waiting,
}
use aurorav1_11_0_test.Txsub
use aurorav1_11_0_test.Txsub.Counts.{count}
use aurorav1_11_0_test.Txsub.Lists.{all_listeners, OneMore, count-add}

-- What a part of `Submit` does with the list: it adds the listener just where it says so. It is not added
-- only for a hash of another length than 64.
abbrev pub Lists : Request → Submissions → Next → Submissions → Type 0
Lists r m listed m' =
    (n : ℕ) → count n (all_listeners m') ≡ count n (r.response ∷ []) + count n (all_listeners m)
Lists r m Txsub.lost m' = (m' ≡ m) × (len r.hash ≢ 64)
Lists r m other m' = m' ≡ m

abbrev pub Part : Request → System → Next × List Answer × System → Type 0
Part r sys p =
    (WellFormed sys.pending → WellFormed p.2.pending) × Lists r sys.pending p.0 p.2.pending

module _ (unmarshal : String → Option Decoded) (h : Heap) where
  queue_up-Part :
      (now ch : ℕ) (r : Request) (sys : System) (tx : Option Transaction) (num : ℕ)
      (e : Option Error)
      → Part r sys (queue_up unmarshal h now r ch sys tx num e)
  unfolding queue_up
  queue_up-Part now ch r sys tx num none = (λ w. w, refl)
  queue_up-Part now ch r sys tx num (some no_results) = (λ w. w, refl)
  queue_up-Part now ch r sys tx num (some Txsub.canceled) = (λ w. w, refl)
  queue_up-Part now ch r sys tx num (some Txsub.timeout) = (λ w. w, refl)
  queue_up-Part now ch r sys tx num (some Txsub.no_more_room) = (λ w. w, refl)
  queue_up-Part now ch r sys tx num (some Txsub.wrapped) = (λ w. w, refl)
  queue_up-Part now ch r sys tx num (some (failed_transaction x)) = (λ w. w, refl)

  pub submit-Part :
      (now ch : ℕ) (r : Request) (begins : Bool) (l : Lookup) (numbers : Option (Map ℕ))
      (sys : System)
      → Part r sys (submit unmarshal h now r ch begins l numbers sys)
  unfolding submit
  submit-Part now ch r begins l numbers sys = queue_up-Part now ch r sys _ _ _

  refused-Lists :
      (r : Request) (m : Submissions) (e : Error) (b : Option Bool)
      → Lists r m (refused_by unmarshal h e b) m
  refused-Lists r m e none = refl
  refused-Lists r m e (some false) = refl
  refused-Lists r m e (some true) = refl

  -- Why a listener is not added.
  abbrev Refused : String → Added → Type 0
  Refused hash (OpenSubmissions.added m) = Unit {0}
  Refused hash other = len hash ≢ 64

  add-Refused : (now l : ℕ) (hash : String) (m : Submissions) → Refused hash (add now 1 hash l m)
  unfolding add
  add-Refused now l hash m =
      if-cases (Refused hash) (not (len hash == 64)) (λ e. ground (arith, e)) (λ e. tt)

  listed-Part :
      (now : ℕ) (r : Request) (sys : System)
      → let p = list_or_drop unmarshal h (add now 1 r.hash r.response sys.pending) sys in
        (WellFormed sys.pending → WellFormed p.1.pending) × Lists r sys.pending p.0 p.1.pending
  listed-Part now r sys =
      elim (add now 1 r.hash r.response sys.pending)
          as (λ a.
            add now 1 r.hash r.response sys.pending ≡ a
            → (let p = list_or_drop unmarshal h a sys in
                (WellFormed sys.pending → WellFormed p.1.pending)
                × Lists r sys.pending p.0 p.1.pending)) [
                  | OpenSubmissions.added m ↦ λ e. (
                    Step-WellFormed {R = Result} (adds now 1 r.response r.hash sys.pending m e),
                    λ n.
                        subst (OneMore n r.response sys.pending) e
                          (count-add n now 1 r.response r.hash sys.pending),
                  )
                  | OpenSubmissions.unbuffered_listener ↦ λ e. (
                    λ w. w,
                    (
                      refl,
                      subst (Refused r.hash) e (add-Refused now r.response r.hash sys.pending),
                    ),
                  )
                  | OpenSubmissions.unexpected_hash_length ↦ λ e. (
                    λ w. w,
                    (
                      refl,
                      subst (Refused r.hash) e (add-Refused now r.response r.hash sys.pending),
                    ),
                  )
                ]
        refl

  pub receive-Part :
      (now : ℕ) (r : Request) (a : Option Submission.Error) (core : SubmissionResult) (sys : System)
      → Part r sys (receive unmarshal h now r a core sys)
  unfolding receive
  receive-Part now r (some Submission.bad_sequence) core sys = (λ w. w, refl)
  receive-Part now r (some Submission.no_more_room) core sys = (λ w. w, refl)
  receive-Part now r none (refused e) sys =
      (λ w. w, refused-Lists r sys.pending e (is_bad_seq unmarshal e))
  receive-Part now r none accepted sys = listed-Part now r sys

  pub poll-Lists :
      (r : Request) (e : Error) (numbers : Option (Map ℕ)) (l : Lookup) (m : Submissions)
      → Lists r m (poll unmarshal h r e numbers l) m
  unfolding poll
  poll-Lists r e numbers l m =
      if-holds (λ x. Lists r m x m) (is_reached unmarshal h r numbers)
        {x = finished (second_attempt unmarshal h e (tx_result_by_hash unmarshal l))}
        {y = stays (polling e)} refl refl
