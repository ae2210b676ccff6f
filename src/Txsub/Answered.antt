-- ===== src/Txsub/Answered.antt =====
-- Every call of `Submit` gets one result, or is under way, or has its listener in the list; or it is lost,
-- for its hash.
use Prim.Native.String.{String, len}
use aurorav1_11_0_test.Base.{
  ℕ, ◌+◌, ◌≡◌, ◌≢◌, refl, ap, ◌∙◌, Option, none, some, List, [], ◌∷◌, ◌++◌, map, arith,
}
use aurorav1_11_0_test.Submission.{Heap, Answer}
use aurorav1_11_0_test.OpenSubmissions.{Submissions}
use aurorav1_11_0_test.OpenSubmissions.Clean.{WellFormed}
use aurorav1_11_0_test.OpenSubmissions.Shape.{Step-WellFormed, adds}
use aurorav1_11_0_test.OpenSubmissions.Shape
use aurorav1_11_0_test.Txsub.{
  Transaction, Error, Result, Lookup, Decoded, System, SubmissionResult, accepted, refused, Request,
  Phase, Next, finished, stays, listed, failure, timeout, canceled, no_results, failed_transaction,
  submit, receive, poll, queue_up, refused_by, list_or_drop, is_bad_seq, looked_up, is_reached,
  second_attempt, tx_result_by_hash, polling, waiting,
}
use aurorav1_11_0_test.Txsub
use aurorav1_11_0_test.Txsub.Counts.{count, count-append}
use aurorav1_11_0_test.Txsub.Lists.{
  all_listeners, receivers, receivers-append, count-finish, count-clean,
}
use aurorav1_11_0_test.Txsub.Rounds.{Sent, finish_by, finish_open}
use aurorav1_11_0_test.Txsub.Runs.{
  World, new_world, Step, Run, settle, with_pending, with_queue, cleaned,
}
use aurorav1_11_0_test.Txsub.Runs
use aurorav1_11_0_test.Txsub.Turns.{AreWaiting, queue_channels, Run-AreWaiting}
use aurorav1_11_0_test.Txsub.Parts.{Part, submit-Part, receive-Part, poll-Lists}

abbrev pub responses : List (Request × Phase) → List ℕ
responses rs = map (λ e. e.0.response) rs

responses-append :
    (xs ys : List (Request × Phase)) → responses (xs ++ ys) ≡ responses xs ++ responses ys
responses-append [] ys = refl
responses-append (x ∷ xs) ys = ap (λ l. x.0.response ∷ l) (responses-append xs ys)

-- The channels of calls, and that the hash of each has another length than 64.
abbrev pub channels : List Request → List ℕ
channels rs = map (λ r. r.response) rs

abbrev pub AreUnlistable : List Request → Type 0
AreUnlistable [] = Unit {0}
AreUnlistable (r ∷ rs) = (len r.hash ≢ 64) × AreUnlistable rs

-- The results, the calls under way, the listeners and the lost calls are together the calls so far.
abbrev pub Conserves : World → Type 0
Conserves w =
    WellFormed w.system.pending
    × ((n : ℕ)
        → count n (receivers w.sent)
            + (count n (responses w.requests)
                + (count n (all_listeners w.system.pending) + count n (channels w.lost)))
          ≡ count n w.asked)
    × AreUnlistable w.lost

-- A part of `Submit` that takes the call out of the others.
settle-Conserves :
    (r : Request) (p : Next × List Answer × System) (others : List (Request × Phase)) (w : World)
    → WellFormed w.system.pending
    → Part r w.system p
    → ((n : ℕ)
        → count n (receivers w.sent)
            + ((count n (r.response ∷ []) + count n (responses others))
                + (count n (all_listeners w.system.pending) + count n (channels w.lost)))
          ≡ count n w.asked)
    → AreUnlistable w.lost
    → Conserves (settle r p others w)
settle-Conserves r (finished x, answers, sys) others w f (g, l) c u = (
  g f,
  λ n.
      let same_list = ap (λ m. count n (all_listeners m)) l in
      let one_more =
        ap (count n) (receivers-append w.sent ((r.response, x) ∷ []))
        ∙ count-append n (receivers w.sent) (r.response ∷ []) in
      omega (arith, same_list, one_more, c n),
  u,
)
settle-Conserves r (stays p, answers, sys) others w f (g, l) c u = (
  g f,
  λ n.
      let same_list = ap (λ m. count n (all_listeners m)) l in
      omega (arith, same_list, count-append n (r.response ∷ []) (responses others), c n),
  u,
)
settle-Conserves r (listed, answers, sys) others w f (g, l) c u =
    (g f, λ n. omega (arith, l n, c n), u)
settle-Conserves r (Txsub.lost, answers, sys) others w f (g, (l, wrong)) c u = (
  g f,
  λ n.
      let same_list = ap (λ m. count n (all_listeners m)) l in
      omega (arith, same_list, count-append n (r.response ∷ []) (channels w.lost), c n),
  (wrong, u),
)

-- The call that is taken out.
taken_out :
    (n : ℕ) (e : Request × Phase) (before after rs : List (Request × Phase))
    → rs ≡ before ++ e ∷ after
    → count n (responses rs) ≡ count n (e.0.response ∷ []) + count n (responses (before ++ after))
taken_out n e before after rs h =
    let all = ap (λ l. count n (responses l)) h in
    let with_it = ap (count n) (responses-append before (e ∷ after)) in
    let without = ap (count n) (responses-append before after) in
    omega (
      arith,
      all,
      with_it,
      without,
      count-append n (responses before) (e.0.response ∷ responses after),
      count-append n (e.0.response ∷ []) (responses after),
      count-append n (responses before) (responses after),
    )

module _ (unmarshal : String → Option Decoded) (h : Heap) where
  -- A part of a call that is under way.
  moved :
      (r : Request) (ph : Phase) (before after : List (Request × Phase)) (w : World)
      (p : Next × List Answer × System)
      → w.requests ≡ before ++ (r, ph) ∷ after
      → Part r w.system p
      → Conserves w
      → Conserves (settle r p (before ++ after) w)
  moved r ph before after w p e part c =
      settle-Conserves r p (before ++ after) w c.0 part
        (λ n. omega (arith, c.1 n, taken_out n (r, ph) before after w.requests e)) c.2

  -- Results for listeners.
  with_pending-Conserves :
      (w : World) (r : Sent × Submissions)
      → WellFormed r.1
      → ((n : ℕ)
          → count n (receivers r.0) + count n (all_listeners r.1)
            ≡ count n (all_listeners w.system.pending))
      → Conserves w
      → Conserves (with_pending w r)
  with_pending-Conserves w r f l c = (
    f,
    λ n.
        let more =
          ap (count n) (receivers-append w.sent r.0)
          ∙ count-append n (receivers w.sent) (receivers r.0) in
        omega (arith, more, l n, c.1 n),
    c.2,
  )

  pub finish_by-Keeps :
      (hash : String) (tx : Option Transaction) (e : Option Error) (m : Submissions)
      → WellFormed m
      → let r = finish_by unmarshal h hash tx e m in
        WellFormed r.1
        × ((n : ℕ)
            → count n (receivers r.0) + count n (all_listeners r.1) ≡ count n (all_listeners m))
  unfolding finish_by count
  finish_by-Keeps hash tx none m w = (
    Step-WellFormed (Shape.finishes hash (looked_up (tx, none)) m) w,
    λ n. count-finish n hash (looked_up (tx, none)) m w.0,
  )
  finish_by-Keeps hash tx (some (failed_transaction x)) m w = (
    Step-WellFormed (Shape.finishes hash (looked_up (tx, some (failed_transaction x))) m) w,
    λ n. count-finish n hash (looked_up (tx, some (failed_transaction x))) m w.0,
  )
  finish_by-Keeps hash tx (some no_results) m w = (w, λ n. omega arith)
  finish_by-Keeps hash tx (some Txsub.canceled) m w = (w, λ n. omega arith)
  finish_by-Keeps hash tx (some Txsub.timeout) m w = (w, λ n. omega arith)
  finish_by-Keeps hash tx (some Txsub.no_more_room) m w = (w, λ n. omega arith)
  finish_by-Keeps hash tx (some Txsub.wrapped) m w = (w, λ n. omega arith)

  Step-Conserves : {w w' : World} → Step unmarshal h w w' → Conserves w → Conserves w'
  Step-Conserves (Runs.submits now ch r begins l numbers w) c =
      settle-Conserves r _ w.requests (record w { asked = r.response ∷ w.asked }) c.0
        (submit-Part unmarshal h now ch r begins l numbers w.system)
        (λ n. omega (arith, c.1 n, count-append n (r.response ∷ []) w.asked)) c.2
  Step-Conserves (Runs.receives now ch a core r before after w e m) c =
      moved r (waiting ch) before after w _ e (receive-Part unmarshal h now r a core w.system) c
  Step-Conserves (Runs.polls x numbers l r before after w e) c =
      moved r (polling x) before after w _ e
        (λ f. f, poll-Lists unmarshal h r x numbers l w.system.pending) c
  Step-Conserves (Runs.cancels r p before after w e) c =
      moved r p before after w (finished (failure canceled), [], w.system) e (λ f. f, refl) c
  Step-Conserves (Runs.ticking flag w) c = c
  Step-Conserves (Runs.updates turns w) c = c
  Step-Conserves (Runs.finishes hash l w) c =
      let k = finish_by-Keeps hash _ _ w.system.pending c.0 in
      with_pending-Conserves w (finish_open unmarshal h hash l w.system.pending) k.0 k.1 c
  Step-Conserves (Runs.cleans now max_age w) c =
      with_pending-Conserves w (cleaned now max_age w.system.pending)
        (Step-WellFormed (Shape.cleans (failure timeout) now max_age w.system.pending) c.0)
        (λ n. count-clean n (failure timeout) now max_age w.system.pending c.0) c

  Run-Conserves : {w w' : World} → Run unmarshal h w w' → Conserves w → Conserves w'
  Run-Conserves Runs.done c = c
  Run-Conserves (Runs.after s rest) c = Run-Conserves rest (Step-Conserves s c)

  -- In every run of the system from its start, the calls of `Submit` and the rounds taking turns in any
  -- order and whatever the database and the core answer, each call got one result, or is under way, or
  -- its listener is in the list, or it was accepted and its listener is not in the list, and only one
  -- of these: counted for each channel, these are the calls. The last are calls with a hash of another
  -- length than 64 only. Each call that waits for its turn has its channel in a queue, or a message was
  -- sent on it.
  pub Run-answered :
      (w : World)
      → Run unmarshal h new_world w
      → (n : ℕ)
      → count n (receivers w.sent)
            + (count n (responses w.requests)
                + (count n (all_listeners w.system.pending) + count n (channels w.lost)))
          ≡ count n w.asked
        × AreUnlistable w.lost
        × AreWaiting (queue_channels w) w.requests
  unfolding count
  Run-answered w r n =
      let (f, conserved, u) = Run-Conserves r ((tt, tt), λ k. omega arith, tt) in
      (conserved n, u, Run-AreWaiting unmarshal h w r)
