-- ===== src/Submission/Manager.antt =====
-- services/aurora/internal/txsub/sequence/manager.go: the queues of all accounts. The mutex makes
-- every method atomic.
use Prim.Native.String.{String}
use aurorav1_11_0_test.Base.{
  ℕ, ◌+◌, leb, ◌==◌, if◌then◌else◌, Option, none, some, List, [], ◌∷◌, ◌++◌, map,
}
use aurorav1_11_0_test.Base.Maps.{Map, lookup, put, delete}
use aurorav1_11_0_test.Submission.{Heap, Answer, no_more_room}
use aurorav1_11_0_test.Submission.Queue.{Queue, new_queue}
use aurorav1_11_0_test.Submission.Queue

pub record Manager : Type 0 where
  pub max_size : ℕ
  pub queues : Map Queue

unfoldable pub new_manager : Manager
new_manager = record { max_size = 1024; queues = [] }

abbrev pub total : Map Queue → ℕ
total [] = 0
total ((k, q) ∷ m) = Queue.size q + total m

abbrev pub size : Manager → ℕ
size m = total m.queues

abbrev pub addresses : Manager → List String
addresses m = map (λ e. e.0) m.queues

-- A channel that holds an error already.
abbrev pub get_error : ℕ → Answer
get_error ch = (ch, some no_more_room)

-- The queue of an address, or a new one.
abbrev pub queue_or_new : ℕ → Option Queue → Queue
queue_or_new now none = new_queue now
queue_or_new now (some q) = q

module _ (h : Heap) where
  unfoldable pub push : ℕ → String → ℕ → ℕ → Manager → List Answer × Manager
  unfolding lookup put new_queue Queue.push
  push now address sequence ch m = if leb m.max_size (size m) then (get_error ch ∷ [], m) else (
    [],
    record m {
      queues =
          put address (Queue.push h sequence ch (queue_or_new now (lookup address m.queues)))
            m.queues;
    },
  )

  -- The queue of one address; without submissions it is deleted.
  unfoldable pub update_queue : ℕ → String → ℕ → Map Queue → Option Queue → List Answer × Map Queue
  unfolding put delete Queue.update
  update_queue now address sequence m none = ([], m)
  update_queue now address sequence m (some q) =
      let r = Queue.update h now sequence q in
      let m' = put address r.1 m in (r.0, if Queue.size r.1 == 0 then delete address m' else m')

  -- The addresses with their sequence numbers come in any order, each with the time of its turn.
  unfoldable pub update_queues : List (String × ℕ × ℕ) → Map Queue → List Answer × Map Queue
  unfolding lookup update_queue
  update_queues [] m = ([], m)
  update_queues ((address, sequence, now) ∷ updates) m =
      let r = update_queue now address sequence m (lookup address m) in
      let rest = update_queues updates r.1 in (r.0 ++ rest.0, rest.1)

  unfoldable pub update : List (String × ℕ × ℕ) → Manager → List Answer × Manager
  unfolding update_queues
  update updates m = let r = update_queues updates m.queues in (r.0, record m { queues = r.1 })
