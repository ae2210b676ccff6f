-- ===== src/Txsub/Examples.antt =====
-- A submission that is accepted, listed and answered.
use Prim.Native.String.{String}
use mathlib.Core.List.{Memᴰ}
use text.Mathlib.Text.{◌==◌ as same}
use aurorav1_11_0_test.OpenSubmissions.{Submissions}
use aurorav1_11_0_test.Txsub.Answers.{Answered, TimedOut}
use aurorav1_11_0_test.Txsub.Turns.{AreWaiting, queue_channels}
use aurorav1_11_0_test.Txsub.Ticks.{tick-answers}
use aurorav1_11_0_test.Base.{
  ◌++◌, if◌then◌else◌, ◌+◌, ◌≡◌, refl, true, false, none, some, Option, [], ◌∷◌,
}
use aurorav1_11_0_test.Submission.SortedHeap.{sorted, insert}
use aurorav1_11_0_test.Submission.Manager.{new_manager}
use aurorav1_11_0_test.Txsub.{
  System, Lookup, failure, timeout, Request, Decoded, submit, receive, row, no_rows, accepted,
  looked_up,
}
use aurorav1_11_0_test.Txsub.Counts.{count}
use aurorav1_11_0_test.Txsub.Lists.{receivers, all_listeners}
use aurorav1_11_0_test.Txsub.Rounds.{Sent, finish_open, tick}
use aurorav1_11_0_test.Txsub.Rounds
use aurorav1_11_0_test.Txsub.Runs.{
  World, new_world, settle, with_pending, Run, after, done, submits, receives, finishes,
}
use aurorav1_11_0_test.Txsub.Answered.{responses, channels, AreUnlistable, Run-answered}

abbrev hash : String
hash = "0123456789abcdef0123456789abcdef0123456789abcdef0123456789abcdef"

abbrev request : Request
request = record { response = 7; hash = hash; source_address = "account"; seq_num = 5 }

unmarshal : String → Option Decoded
unmarshal x = some (record { successful = true; bad_seq = false })

abbrev queued : World
queued =
    settle request
      (submit unmarshal sorted 3 request 1 true no_rows (some (("account", 4) ∷ []))
        new_world.system)
      [] (record new_world { asked = 7 ∷ [] })

abbrev opened : World
opened = settle request (receive unmarshal sorted 4 request none accepted queued.system) [] queued

abbrev answered : World
answered =
    with_pending opened
      (finish_open unmarshal sorted hash (row (record { tx_result = "ok" })) opened.system.pending)

accepted-Run : Run unmarshal sorted new_world answered
unfolding submit receive insert new_manager
accepted-Run = after (submits 3 1 request true no_rows (some (("account", 4) ∷ [])) new_world) (
    after (receives 4 1 none accepted request [] [] queued refl (Memᴰ.head refl))
      (after (finishes hash (row (record { tx_result = "ok" })) opened) done))

Run-answered_example :
    count 7 (receivers answered.sent)
        + (count 7 (responses answered.requests)
            + (count 7 (all_listeners answered.system.pending) + count 7 (channels answered.lost)))
      ≡ count 7 (7 ∷ [])
    × AreUnlistable answered.lost
    × AreWaiting (queue_channels answered) answered.requests
unfolding submit receive
Run-answered_example = Run-answered unmarshal sorted answered accepted-Run 7

sent : answered.sent ≡ (7, looked_up (some (record { tx_result = "ok" }), none)) ∷ []
unfolding submit receive insert new_manager Rounds.finish_by unmarshal
sent = refl

abbrev two_open : System
two_open = record {
  tick_in_progress = false;
  pending =
      ("a", record { hash = "a"; submitted_at = 90; listeners = 1 ∷ 2 ∷ [] })
      ∷ ("b", record { hash = "b"; submitted_at = 10; listeners = 3 ∷ [] })
      ∷ ("c", record { hash = "c"; submitted_at = 90; listeners = 4 ∷ [] })
      ∷ [];
  submission_queue = new_manager;
}

abbrev lookups : String → Lookup
lookups x = if same x "a" then row (record { tx_result = "ok" }) else no_rows

tick-answers_example :
    (results : Sent) × (left : Submissions) × (late : Sent) × (kept : Submissions) × Answered
      unmarshal lookups two_open.pending results left
    × TimedOut 30 100 left late kept
    × (tick unmarshal sorted 30 100 true none lookups two_open
        ≡ (results ++ late, [], record two_open { pending = kept; submission_queue = new_manager }))
unfolding new_manager
tick-answers_example =
    tick-answers unmarshal sorted lookups 30 100 none two_open [] new_manager refl refl
      (((refl, (refl, tt)), ((refl, tt), (tt, tt))), (refl, (refl, (refl, tt))))

timed_out :
    (tick unmarshal sorted 30 100 true none lookups two_open).0
    ≡ (1, looked_up (some (record { tx_result = "ok" }), none))
      ∷ (2, looked_up (some (record { tx_result = "ok" }), none))
      ∷ (3, failure timeout)
      ∷ []
unfolding tick Rounds.finish_each unmarshal new_manager
timed_out = refl
