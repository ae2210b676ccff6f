-- ===== src/Txsub/Turns.antt =====
-- Every call of `Submit` that waits for its turn is in a queue, or its turn has been sent.
use mathlib.Core.List.{Mem, mem-append_left, mem-append_right, mem-cons_self}
use mathlib.Core.List.Memᴰ
use mathlib.Core.List.Perm
use mathlib.Core.Logic.{∥∥₁_map}
use Prim.Native.String.{String}
use aurorav1_11_0_test.Base.{
  ℕ, ◌≡◌, refl, ap, subst, Option, none, some, true, false, Bool, if-holds, inl, inr, List, [], ◌∷◌,
  ◌++◌, Perm, arith,
}
use aurorav1_11_0_test.Base.Maps.{Map}
use aurorav1_11_0_test.Submission.{Heap, Answer}
use aurorav1_11_0_test.Submission
use aurorav1_11_0_test.Submission.Drain.{answered}
use aurorav1_11_0_test.Submission.Store.{all_waiting}
use aurorav1_11_0_test.Submission.Manager.{new_manager, push}
use aurorav1_11_0_test.Submission.Answers.{answered_then}
use aurorav1_11_0_test.Submission.Runs.{WellFormed, push-Serves, update-Serves}
use aurorav1_11_0_test.Txsub.{
  Transaction, Error, Result, Lookup, Decoded, System, SubmissionResult, accepted, refused, Request,
  Phase, Next, finished, stays, listed, lost, no_results, failed_transaction, submit, receive, poll,
  queue_up, refused_by, is_bad_seq, is_reached, second_attempt, tx_result_by_hash, polling, waiting,
  failure, canceled, list_or_drop,
}
use aurorav1_11_0_test.Txsub
use aurorav1_11_0_test.OpenSubmissions.{Added, add}
use aurorav1_11_0_test.OpenSubmissions
use aurorav1_11_0_test.Txsub.Runs.{World, new_world, Step, Run, settle}
use aurorav1_11_0_test.Txsub.Runs

-- The channels that wait in a queue, or on which a message was sent.
abbrev pub queue_channels : World → List ℕ
queue_channels w = answered w.messages ++ all_waiting w.system.submission_queue.queues

-- The channels of the calls that wait for their turn are among these.
abbrev pub AreWaiting : List ℕ → List (Request × Phase) → Type 0
AreWaiting chs [] = Unit {0}
AreWaiting chs ((r, waiting ch) ∷ rs) = Mem ch chs × AreWaiting chs rs
AreWaiting chs ((r, polling e) ∷ rs) = AreWaiting chs rs

still-AreWaiting :
    (a b : List ℕ) (rs : List (Request × Phase))
    → ((ch : ℕ) → Mem ch a → Mem ch b)
    → AreWaiting a rs
    → AreWaiting b rs
still-AreWaiting a b [] f h = tt
still-AreWaiting a b ((r, waiting ch) ∷ rs) f h = (f ch h.0, still-AreWaiting a b rs f h.1)
still-AreWaiting a b ((r, polling e) ∷ rs) f h = still-AreWaiting a b rs f h

others-AreWaiting :
    (a : List ℕ) (x : Request × Phase) (before after : List (Request × Phase))
    → AreWaiting a (before ++ x ∷ after)
    → AreWaiting a (before ++ after)
others-AreWaiting a (r, waiting ch) [] after h = h.1
others-AreWaiting a (r, polling e) [] after h = h
others-AreWaiting a x ((r, waiting ch) ∷ before) after h =
    (h.0, others-AreWaiting a x before after h.1)
others-AreWaiting a x ((r, polling e) ∷ before) after h = others-AreWaiting a x before after h

answered-append : (s t : List Answer) → answered (s ++ t) ≡ answered s ++ answered t
answered-append [] t = refl
answered-append (a ∷ s) t = ap (λ l. a.0 ∷ l) (answered-append s t)

-- What was in a queue is there or sent after a part of a call or of a round, and so is what is new.
module _ (messages answers : List Answer) (new before left : List ℕ)
    (p : Perm (answered answers ++ left) (new ++ before)) where
  after_it :
      (ch : ℕ)
      → Mem ch (answered messages ++ (new ++ before))
      → Mem ch (answered (messages ++ answers) ++ left)
  after_it ch h = (Perm.mem_iff (answered_then messages answers left (new ++ before) p)).1 h

  moved_on :
      (ch : ℕ)
      → Mem ch (answered messages ++ before)
      → Mem ch (answered (messages ++ answers) ++ left)
  moved_on ch h = after_it ch (
      ∥∥₁_map h (λ d. elim (Memᴰ.append_cases (answered messages) d) [
        | inl x ↦ Memᴰ.append_left (new ++ before) x
        | inr y ↦ Memᴰ.append_right (answered messages) (Memᴰ.append_right new y)
      ]))

  new_there : (ch : ℕ) → Mem ch new → Mem ch (answered (messages ++ answers) ++ left)
  new_there ch h = after_it ch (mem-append_right (answered messages) (mem-append_left before h))

-- The new channel of a part of `Submit`.
abbrev Waits : List ℕ → Next → Type 0
Waits new (stays (waiting ch)) = Mem ch new
Waits new other = Unit {0}

-- What a part of `Submit` does with the queues: the channels that it makes come to those there are.
abbrev Queues : Heap → System → Next × List Answer × System → Type 0
Queues h sys p =
    (new : List ℕ) × Perm (answered p.1 ++ all_waiting p.2.submission_queue.queues)
      (new ++ all_waiting sys.submission_queue.queues)
    × WellFormed h p.2.submission_queue
    × Waits new p.0

module _ (unmarshal : String → Option Decoded) (h : Heap) where
  abbrev HasTurns : World → Type 0
  HasTurns w = WellFormed h w.system.submission_queue × AreWaiting (queue_channels w) w.requests

  unchanged :
      (sys : System) (r : Result)
      → WellFormed h sys.submission_queue
      → Queues h sys (finished r, [], sys)
  unchanged sys r w = ([], Perm.rfl, w, tt)

  queue_up-Queues :
      (now ch : ℕ) (r : Request) (sys : System) (tx : Option Transaction) (num : ℕ)
      (e : Option Error)
      → WellFormed h sys.submission_queue
      → Queues h sys (queue_up unmarshal h now r ch sys tx num e)
  unfolding queue_up
  queue_up-Queues now ch r sys tx num none w = ([], Perm.rfl, w, tt)
  queue_up-Queues now ch r sys tx num (some no_results) w =
      let pushed = push h now r.source_address r.seq_num ch sys.submission_queue in
      let first = push-Serves h now r.source_address r.seq_num ch sys.submission_queue w in
      let then = update-Serves h ((r.source_address, num, now) ∷ []) pushed.1 first.1 in
      (ch ∷ [], Perm.trans (answered_then pushed.0 _ _ _ then.0) first.0, then.1, mem-cons_self)
  queue_up-Queues now ch r sys tx num (some Txsub.canceled) w = ([], Perm.rfl, w, tt)
  queue_up-Queues now ch r sys tx num (some Txsub.timeout) w = ([], Perm.rfl, w, tt)
  queue_up-Queues now ch r sys tx num (some Txsub.no_more_room) w = ([], Perm.rfl, w, tt)
  queue_up-Queues now ch r sys tx num (some Txsub.wrapped) w = ([], Perm.rfl, w, tt)
  queue_up-Queues now ch r sys tx num (some (failed_transaction x)) w = ([], Perm.rfl, w, tt)

  refused-Waits : (e : Error) (b : Option Bool) → Waits [] (refused_by unmarshal h e b)
  refused-Waits e none = tt
  refused-Waits e (some false) = tt
  refused-Waits e (some true) = tt

  listed-Waits : (a : Added) (sys : System) → Waits [] (list_or_drop unmarshal h a sys).0
  listed-Waits (OpenSubmissions.added m) sys = tt
  listed-Waits OpenSubmissions.unbuffered_listener sys = tt
  listed-Waits OpenSubmissions.unexpected_hash_length sys = tt

  receive-Queues :
      (now : ℕ) (r : Request) (a : Option Submission.Error) (core : SubmissionResult) (sys : System)
      → WellFormed h sys.submission_queue
      → Queues h sys (receive unmarshal h now r a core sys)
  unfolding receive
  receive-Queues now r (some Submission.bad_sequence) core sys w = ([], Perm.rfl, w, tt)
  receive-Queues now r (some Submission.no_more_room) core sys w = ([], Perm.rfl, w, tt)
  receive-Queues now r none (refused e) sys w =
      ([], Perm.rfl, w, refused-Waits e (is_bad_seq unmarshal e))
  receive-Queues now r none accepted sys w =
      let updated =
        update-Serves h ((r.source_address, r.seq_num, now) ∷ []) sys.submission_queue w in
      ([], updated.0, updated.1, listed-Waits (add now 1 r.hash r.response sys.pending) sys)

  poll-Waits :
      (r : Request) (e : Error) (numbers : Option (Map ℕ)) (l : Lookup)
      → Waits [] (poll unmarshal h r e numbers l)
  unfolding poll
  poll-Waits r e numbers l =
      if-holds (Waits []) (is_reached unmarshal h r numbers)
        {x = finished (second_attempt unmarshal h e (tx_result_by_hash unmarshal l))}
        {y = stays (polling e)} tt tt

  settle-HasTurns :
      (r : Request) (p : Next × List Answer × System) (others : List (Request × Phase)) (w : World)
      → Queues h w.system p
      → AreWaiting (queue_channels w) others
      → HasTurns (settle r p others w)
  settle-HasTurns r (finished x, answers, sys) others w (new, moves, f, t) a =
      (f, still-AreWaiting _ _ others (moved_on w.messages answers new _ _ moves) a)
  settle-HasTurns r (listed, answers, sys) others w (new, moves, f, t) a =
      (f, still-AreWaiting _ _ others (moved_on w.messages answers new _ _ moves) a)
  settle-HasTurns r (lost, answers, sys) others w (new, moves, f, t) a =
      (f, still-AreWaiting _ _ others (moved_on w.messages answers new _ _ moves) a)
  settle-HasTurns r (stays (polling e), answers, sys) others w (new, moves, f, t) a =
      (f, still-AreWaiting _ _ others (moved_on w.messages answers new _ _ moves) a)
  settle-HasTurns r (stays (waiting ch), answers, sys) others w (new, moves, f, t) a = (
    f,
    (
      new_there w.messages answers new _ _ moves ch t,
      still-AreWaiting _ _ others (moved_on w.messages answers new _ _ moves) a,
    ),
  )

  without :
      (x : Request × Phase) (before after rs : List (Request × Phase)) (chs : List ℕ)
      → rs ≡ before ++ x ∷ after
      → AreWaiting chs rs
      → AreWaiting chs (before ++ after)
  without x before after rs chs e a =
      others-AreWaiting chs x before after (subst (AreWaiting chs) e a)

  Step-HasTurns : {w w' : World} → Step unmarshal h w w' → HasTurns w → HasTurns w'
  unfolding submit
  Step-HasTurns (Runs.submits now ch r begins l numbers w) t =
      settle-HasTurns r _ w.requests (record w { asked = r.response ∷ w.asked })
        (queue_up-Queues now ch r w.system _ _ _ t.0) t.1
  Step-HasTurns (Runs.receives now ch a core r before after w e m) t =
      settle-HasTurns r _ (before ++ after) w (receive-Queues now r a core w.system t.0)
        (without _ before after w.requests _ e t.1)
  Step-HasTurns (Runs.polls x numbers l r before after w e) t =
      settle-HasTurns r _ (before ++ after) w ([], Perm.rfl, t.0, poll-Waits r x numbers l)
        (without _ before after w.requests _ e t.1)
  Step-HasTurns (Runs.cancels r p before after w e) t =
      settle-HasTurns r (finished (failure canceled), [], w.system) (before ++ after) w
        (unchanged w.system (failure canceled) t.0) (without _ before after w.requests _ e t.1)
  Step-HasTurns (Runs.ticking flag w) t = t
  Step-HasTurns (Runs.updates turns w) t =
      let u = update-Serves h turns w.system.submission_queue t.0 in
      (u.1, still-AreWaiting _ _ w.requests (moved_on w.messages _ [] _ _ u.0) t.1)
  Step-HasTurns (Runs.finishes hash l w) t = t
  Step-HasTurns (Runs.cleans now max_age w) t = t

  Run-HasTurns : {w w' : World} → Run unmarshal h w w' → HasTurns w → HasTurns w'
  Run-HasTurns Runs.done t = t
  Run-HasTurns (Runs.after s rest) t = Run-HasTurns rest (Step-HasTurns s t)

  pub Run-AreWaiting :
      (w : World) → Run unmarshal h new_world w → AreWaiting (queue_channels w) w.requests
  unfolding new_manager
  Run-AreWaiting w r = (Run-HasTurns r (((tt, tt), omega arith), tt)).1
