-- ===== src/Txsub/Ticks.antt =====
-- What a round does with the list of open submissions.
use Prim.Native.String.{String}
use mathlib.Core.List.{append_assoc}
use text.Mathlib.TextEquality.{eq_iff}
use aurorav1_11_0_test.Base.{
  ℕ, ◌-◌, ltb, Bool-cases, if◌then◌else◌, ◌≡◌, refl, sym, ap, subst, ◌∙◌, Bool, true, false, Option,
  none, some, Option-cases, inl, inr, List, [], ◌∷◌, ◌++◌, select, arith,
}
use aurorav1_11_0_test.Base.Maps.{Map, lookup, Distinct, delete-Distinct}
use aurorav1_11_0_test.Submission.{Heap, Answer}
use aurorav1_11_0_test.Submission.Manager.{Manager, addresses}
use aurorav1_11_0_test.OpenSubmissions.{OpenSubmission, Submissions, send, pending, clean}
use aurorav1_11_0_test.OpenSubmissions
use aurorav1_11_0_test.OpenSubmissions.Clean.{
  WellFormed, Lacks-middle, delete-middle, old, young, time_out, clean-splits,
}
use aurorav1_11_0_test.Txsub.{
  Transaction, Error, Result, Lookup, row, no_rows, lookup_failed, Decoded, System,
  failed_transaction, no_results, failure, timeout, looked_up, tx_result_by_hash,
}
use aurorav1_11_0_test.Txsub
use aurorav1_11_0_test.Txsub.Rounds.{Sent, finish_by, finish_each, update_all, round_with, tick}
use aurorav1_11_0_test.Txsub.Answers.{
  IsAnswer, success, failed, undecoded, missing, unread, Answered, nothing, final, still_open,
  TimedOut, none_left, over, within,
}
use aurorav1_11_0_test.Txsub.Answered.{finish_by-Keeps}

lookup-middle :
    {V : Type 0} (k : String) (v : V) (before m : Map V)
    → Distinct (before ++ (k, v) ∷ m)
    → lookup k (before ++ (k, v) ∷ m) ≡ some v
unfolding lookup
lookup-middle k v [] m d = ground (arith, eq_iff k k)
lookup-middle k v ((j, w) ∷ before) m d =
    ground (
      arith,
      lookup-middle k v before m d.1,
      Lacks-middle j k v before m d.0,
      eq_iff j k,
      eq_iff k j,
    )

-- The result that a lookup gives to the listeners: that of the transaction, or its failure.
abbrev answer_of : Option Transaction → Option Error → Option Result
answer_of tx none = some (looked_up (tx, none))
answer_of tx (some (failed_transaction x)) = some (looked_up (tx, some (failed_transaction x)))
answer_of tx (some e) = none

abbrev is_none {ℓ} : {A : Type ℓ} → Option A → Bool
is_none none = true
is_none (some x) = false

abbrev finish_or_keep : String → Submissions → Option Result → Sent × Submissions
finish_or_keep hash m none = ([], m)
finish_or_keep hash m (some r) = OpenSubmissions.finish hash r m

abbrev send_or_not : List ℕ → Option Result → Sent
send_or_not ls none = []
send_or_not ls (some r) = send r ls

module _ (unmarshal : String → Option Decoded) (h : Heap) where
  finish_by_answer :
      (hash : String) (tx : Option Transaction) (e : Option Error) (m : Submissions)
      → finish_by unmarshal h hash tx e m ≡ finish_or_keep hash m (answer_of tx e)
  unfolding finish_by
  finish_by_answer hash tx none m = refl
  finish_by_answer hash tx (some (failed_transaction x)) m = refl
  finish_by_answer hash tx (some no_results) m = refl
  finish_by_answer hash tx (some Txsub.canceled) m = refl
  finish_by_answer hash tx (some Txsub.timeout) m = refl
  finish_by_answer hash tx (some Txsub.no_more_room) m = refl
  finish_by_answer hash tx (some Txsub.wrapped) m = refl

  module _ (lookups : String → Lookup) where
    abbrev answer_to : String → Option Result
    answer_to hash = let r = tx_result_by_hash unmarshal (lookups hash) in answer_of r.0 r.1

    -- The open submissions that have no answer, and what is sent to the listeners of the others.
    abbrev unanswered : Submissions → Submissions
    unanswered m = select (λ e. is_none (answer_to e.0)) m

    abbrev answers : Submissions → Sent
    answers [] = []
    answers ((k, os) ∷ m) = send_or_not os.listeners (answer_to k) ++ answers m

    finish-middle :
        (k : String) (os : OpenSubmission) (before m : Submissions) (r : Result)
        → Distinct (before ++ (k, os) ∷ m)
        → OpenSubmissions.finish k r (before ++ (k, os) ∷ m) ≡ (send r os.listeners, before ++ m)
    unfolding OpenSubmissions.finish
    finish-middle k os before m r d =
        rw (lookup-middle k os before m d, delete-middle k os before m d, OpenSubmissions.finish)
          refl

    finish_each-splits :
        (m before : Submissions)
        → Distinct (before ++ m)
        → finish_each unmarshal h lookups (pending m) (before ++ m)
          ≡ (answers m, before ++ unanswered m)
    unfolding finish_each pending select
    finish_each-splits [] before d = refl
    finish_each-splits ((k, os) ∷ m) before d =
        let first : Submissions = (k, os) ∷ [] in
        let r = tx_result_by_hash unmarshal (lookups k) in
        let by = finish_by_answer k r.0 r.1 (before ++ (k, os) ∷ m) in
        elim (Option-cases (answer_to k)) [
          | inr (x, e) ↦
              let gone = delete-middle k os before m d in
              let d' = subst Distinct gone (delete-Distinct k (before ++ (k, os) ∷ m) d) in
              rw e (
                ap then_rest (
                  by
                  ∙ ap (finish_or_keep k (before ++ (k, os) ∷ m)) e
                  ∙ finish-middle k os before m x d)
                ∙ ap (λ q. (send x os.listeners ++ q.0, q.1)) (finish_each-splits m before d'))
          | inl e ↦
              let moved = append_assoc before first m in
              let rest = finish_each-splits m (before ++ first) (subst Distinct (sym moved) d) in
              rw e (
                ap then_rest (by ∙ ap (finish_or_keep k (before ++ (k, os) ∷ m)) e)
                ∙ subst
                    (λ l.
                      finish_each unmarshal h lookups (pending m) l
                      ≡ (answers m, before ++ (k, os) ∷ unanswered m))
                    moved
                    (rest ∙ ap (λ l. (answers m, l)) (append_assoc before first (unanswered m))))
        ]
      where
        then_rest : Sent × Submissions → Sent × Submissions
        then_rest q =
            let rest = finish_each unmarshal h lookups (pending m) q.1 in (q.0 ++ rest.0, rest.1)

    finish_each-WellFormed :
        (hashes : List String) (m : Submissions)
        → WellFormed m
        → WellFormed (finish_each unmarshal h lookups hashes m).1
    unfolding finish_each
    finish_each-WellFormed [] m w = w
    finish_each-WellFormed (hash ∷ hashes) m w =
        finish_each-WellFormed hashes _ (finish_by-Keeps unmarshal h hash _ _ m w).0

    tick-sends :
        (max_age now : ℕ) (cur_seq : Option (Map ℕ)) (sys : System) (messages : List Answer)
        (queue : Manager)
        → sys.tick_in_progress ≡ false
        → update_all unmarshal h now cur_seq (addresses sys.submission_queue) sys.submission_queue
          ≡ some (messages, queue)
        → WellFormed sys.pending
        → let left = unanswered sys.pending in
          tick unmarshal h max_age now true cur_seq lookups sys ≡ (
            answers sys.pending
                ++ time_out (failure timeout) now max_age (old (failure timeout) now max_age left),
            messages,
            record sys {
              pending = young (failure timeout) now max_age left;
              submission_queue = queue;
            },
          )
    unfolding tick
    tick-sends max_age now cur_seq sys messages queue free updated w =
        let each = finish_each-splits sys.pending [] w.0 in
        let left = unanswered sys.pending in
        let w' =
          subst (λ r. WellFormed r.1) each
            (finish_each-WellFormed (pending sys.pending) sys.pending w) in
        let timed = clean-splits (failure timeout) now max_age left w' in
        ap started free
        ∙ ap (round_with unmarshal h max_age now lookups sys) updated
        ∙ ap after_each each
        ∙ ap (after_clean (answers sys.pending)) timed
      where
        started : Bool → Sent × List Answer × System
        started b = elim b [
          | true ↦ ([], [], sys)
          | false ↦ round_with unmarshal h max_age now lookups sys (
              update_all unmarshal h now cur_seq (addresses sys.submission_queue)
                sys.submission_queue)
        ]

        after_clean : Sent → Sent × ℕ × Submissions → Sent × List Answer × System
        after_clean sent c =
            (sent ++ c.0, messages, record sys { pending = c.2; submission_queue = queue })

        after_each : Sent × Submissions → Sent × List Answer × System
        after_each q = after_clean q.0 (clean (failure timeout) now max_age q.1)

    answer_of_lookup :
        (l : Lookup)
        → let r = tx_result_by_hash unmarshal l in IsAnswer unmarshal l (answer_of r.0 r.1)
    answer_of_lookup no_rows = missing
    answer_of_lookup lookup_failed = unread
    answer_of_lookup (row tx) =
        elim (unmarshal tx.tx_result)
            as (λ d.
              unmarshal tx.tx_result ≡ d
              → (let r = result_of tx d in IsAnswer unmarshal (row tx) (answer_of r.0 r.1))) [
                | none ↦ λ e. undecoded e
                | some d ↦ λ e. decided tx d e
              ]
          refl
      where
        result_of : Transaction → Option Decoded → Option Transaction × Option Error
        result_of tx d = elim d [
          | none ↦ (some tx, some Txsub.wrapped)
          | some r ↦
              (some tx, if r.successful then none else some (failed_transaction tx.tx_result))
        ]

        decided :
            (tx : Transaction) (d : Decoded)
            → unmarshal tx.tx_result ≡ some d
            → (let r = result_of tx (some d) in IsAnswer unmarshal (row tx) (answer_of r.0 r.1))
        decided tx d e = elim (Bool-cases d.successful) [
          | inl h ↦ rw h (success d e h)
          | inr h ↦ rw h (failed d e h)
        ]

    answers-Answered : (m : Submissions) → Answered unmarshal lookups m (answers m) (unanswered m)
    unfolding select
    answers-Answered [] = nothing
    answers-Answered ((k, os) ∷ m) =
        let rest = answers-Answered m in
        let is_answer = answer_of_lookup (lookups k) in
        elim (answer_to k)
            as (λ o.
              IsAnswer unmarshal (lookups k) o
              → Answered unmarshal lookups ((k, os) ∷ m) (send_or_not os.listeners o ++ answers m)
                  (if is_none o then (k, os) ∷ unanswered m else unanswered m)) [
                    | none ↦ λ a. still_open a rest
                    | some r ↦ λ a. final r a rest
                  ]
          is_answer

    old-TimedOut :
        (max_age now : ℕ) (m : Submissions)
        → TimedOut max_age now m
            (time_out (failure timeout) now max_age (old (failure timeout) now max_age m))
            (young (failure timeout) now max_age m)
    unfolding select
    old-TimedOut max_age now [] = none_left
    old-TimedOut max_age now ((k, os) ∷ m) =
        let rest = old-TimedOut max_age now m in
        elim (Bool-cases (ltb max_age (now - os.submitted_at))) [
          | inl e ↦ rw e (over (ground (arith, e)) rest)
          | inr e ↦ rw e (within (ground (arith, e)) rest)
        ]

    -- A round that starts and can read the database, over open submissions that are listed under their hashes
    -- and once, sends to the listeners of each the result of its transaction once it is found and can
    -- be decoded, without an error if it is successful and else with its failure; keeps the others; of
    -- these it sends a timeout to the listeners of those over the age and keeps the rest.
    pub tick-answers :
        (max_age now : ℕ) (cur_seq : Option (Map ℕ)) (sys : System) (messages : List Answer)
        (queue : Manager)
        → sys.tick_in_progress ≡ false
        → update_all unmarshal h now cur_seq (addresses sys.submission_queue) sys.submission_queue
          ≡ some (messages, queue)
        → WellFormed sys.pending
        → (results : Sent) × (left : Submissions) × (late : Sent) × (kept : Submissions) × Answered
            unmarshal lookups sys.pending results left
          × TimedOut max_age now left late kept
          × (tick unmarshal h max_age now true cur_seq lookups sys ≡ (
            results ++ late,
            messages,
            record sys { pending = kept; submission_queue = queue },
          ))
    tick-answers max_age now cur_seq sys messages queue free updated w =
        let left = unanswered sys.pending in
        (
          answers sys.pending,
          left,
          time_out (failure timeout) now max_age (old (failure timeout) now max_age left),
          young (failure timeout) now max_age left,
          answers-Answered sys.pending,
          old-TimedOut max_age now left,
          tick-sends max_age now cur_seq sys messages queue free updated w,
        )
