-- ===== src/Txsub/Runs.antt =====
-- Runs of the system: the calls of `Submit` and the rounds take turns in any order.
use Prim.Native.String.{String}
use mathlib.Core.List.{Memᴰ}
use aurorav1_11_0_test.Base.{ℕ, ◌≡◌, Bool, false, Option, List, [], ◌∷◌, ◌++◌}
use aurorav1_11_0_test.Base.Maps.{Map}
use aurorav1_11_0_test.Submission.{Heap, Answer}
use aurorav1_11_0_test.Submission
use aurorav1_11_0_test.Submission.Manager.{Manager, new_manager, update}
use aurorav1_11_0_test.OpenSubmissions.{Submissions, clean}
use aurorav1_11_0_test.Txsub.{
  Transaction, Error, Result, Lookup, Decoded, System, SubmissionResult, accepted, refused, Request,
  Phase, waiting, polling, Next, finished, stays, listed, failure, timeout, canceled, submit,
  receive, poll,
}
use aurorav1_11_0_test.Txsub
use aurorav1_11_0_test.Txsub.Rounds.{Sent, finish_open}

-- The system, the calls of `Submit` under way, what the queues sent, the results, the calls that returned
-- without a listener, and all calls so far.
pub record World : Type 0 where
  pub system : System
  pub requests : List (Request × Phase)
  pub messages : List Answer
  pub sent : Sent
  pub lost : List Request
  pub asked : List ℕ

abbrev pub new_world : World
new_world = record {
  system = record { tick_in_progress = false; pending = []; submission_queue = new_manager };
  requests = [];
  messages = [];
  sent = [];
  lost = [];
  asked = [];
}

-- A part of `Submit` is done: the request ends with a result, goes on, is listed, or is not.
abbrev pub settle : Request → Next × List Answer × System → List (Request × Phase) → World → World
settle r (finished x, answers, sys) others w = record w {
  system = sys;
  requests = others;
  messages = w.messages ++ answers;
  sent = w.sent ++ (r.response, x) ∷ [];
}
settle r (stays p, answers, sys) others w = record w {
  system = sys;
  requests = (r, p) ∷ others;
  messages = w.messages ++ answers;
}
settle r (listed, answers, sys) others w = record w {
  system = sys;
  requests = others;
  messages = w.messages ++ answers;
}
settle r (Txsub.lost, answers, sys) others w = record w {
  system = sys;
  requests = others;
  messages = w.messages ++ answers;
  lost = r ∷ w.lost;
}

-- The list of open submissions, with what is sent to listeners.
abbrev pub with_pending : World → Sent × Submissions → World
with_pending w r = record w { system = record w.system { pending = r.1 }; sent = w.sent ++ r.0 }

abbrev pub with_queue : World → List Answer × Manager → World
with_queue w r = record w {
  system = record w.system { submission_queue = r.1 };
  messages = w.messages ++ r.0;
}

abbrev pub cleaned : ℕ → ℕ → Submissions → Sent × Submissions
cleaned now max_age m = let r = clean (failure timeout) now max_age m in (r.0, r.2)

module _ (unmarshal : String → Option Decoded) (h : Heap) where
  -- What happens between two calls that lock: the first three and the cancellation are parts of `Submit`,
  -- the others of `Tick`.
  pub data Step : World → World → Type 0 where
    submits :
        (now ch : ℕ) (r : Request) (begins : Bool) (l : Lookup) (numbers : Option (Map ℕ))
        (w : World)
        → Step w (
            settle r
              (submit unmarshal h now r ch begins l numbers w.system)
              w.requests
              (record w { asked = r.response ∷ w.asked }))
    receives :
        (now ch : ℕ) (a : Option Submission.Error) (core : SubmissionResult) (r : Request)
        (before after : List (Request × Phase)) (w : World)
        → w.requests ≡ before ++ (r, waiting ch) ∷ after
        → Memᴰ (ch, a) w.messages
        → Step w (settle r (receive unmarshal h now r a core w.system) (before ++ after) w)
    polls :
        (e : Error) (numbers : Option (Map ℕ)) (l : Lookup) (r : Request)
        (before after : List (Request × Phase)) (w : World)
        → w.requests ≡ before ++ (r, polling e) ∷ after
        → Step w (settle r (poll unmarshal h r e numbers l, [], w.system) (before ++ after) w)
    cancels :
        (r : Request) (p : Phase) (before after : List (Request × Phase)) (w : World)
        → w.requests ≡ before ++ (r, p) ∷ after
        → Step w (settle r (finished (failure canceled), [], w.system) (before ++ after) w)
    ticking :
        (flag : Bool) (w : World)
        → Step w (record w { system = record w.system { tick_in_progress = flag } })
    updates :
        (turns : List (String × ℕ × ℕ)) (w : World)
        → Step w (with_queue w (update h turns w.system.submission_queue))
    finishes :
        (hash : String) (l : Lookup) (w : World)
        → Step w (with_pending w (finish_open unmarshal h hash l w.system.pending))
    cleans :
        (now max_age : ℕ) (w : World)
        → Step w (with_pending w (cleaned now max_age w.system.pending))

  pub data Run : World → World → Type 0 where
    done : {w : World} → Run w w
    after : {w w' w'' : World} → Step w w' → Run w' w'' → Run w w''
