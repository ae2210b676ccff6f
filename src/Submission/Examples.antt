-- ===== src/Submission/Examples.antt =====
-- Queues and a manager on a sorted heap.
use aurorav1_11_0_test.Base.{ℕ, some, none, ◌≡◌, refl, List, [], ◌∷◌, arith}
use aurorav1_11_0_test.Submission.{Item, bad_sequence}
use aurorav1_11_0_test.Submission.Queue.{Queue, new_queue, advance, verdict}
use aurorav1_11_0_test.Submission.SortedHeap.{Sorted, insert, sorted}
use aurorav1_11_0_test.Submission.Queue
use aurorav1_11_0_test.Submission.Updates.{Follows, Updated, update-Updated}
use aurorav1_11_0_test.Submission.Manager.{new_manager}
use aurorav1_11_0_test.Submission.Runs.{
  submission, sequences, Operation, serve_all, Serves, WellFormed, serve_all-Serves,
}

item : ℕ → ℕ → Item
item s c = record { sequence = s; chan = c }

abbrev three : Queue
three = record {
  last_active_at = 0;
  timeout = 10;
  next_sequence = 5;
  queue =
      record { sequence = 4; chan = 1 }
      ∷ record { sequence = 6; chan = 2 }
      ∷ record { sequence = 9; chan = 3 }
      ∷ [];
}

three-Sorted : Sorted three.queue
three-Sorted = ((omega arith, (omega arith, tt)), ((omega arith, tt), (tt, tt)))

update-Updated_example :
    let r = Queue.update sorted 7 5 three in
    Follows 5 5 r.1.next_sequence × Updated 7 r.1.next_sequence three r.0 r.1
update-Updated_example = update-Updated sorted 7 5 three three-Sorted

three_answers : (Queue.update sorted 7 5 three).0 ≡ (1, some bad_sequence) ∷ (2, none) ∷ []
unfolding Queue.update Queue.release Queue.finish advance
three_answers = refl

advance_example : advance 7 5 ≡ 8
unfolding advance
advance_example = refl

new_manager-WellFormed : WellFormed sorted new_manager
unfolding new_manager
new_manager-WellFormed = ((tt, tt), omega arith)

abbrev calls : List Operation
calls =
    submission 0 "a" 6 1
    ∷ submission 1 "b" 3 2
    ∷ submission 1 "a" 5 3
    ∷ sequences (("a", 4, 2) ∷ ("c", 1, 2) ∷ ("b", 7, 2) ∷ [])
    ∷ []

serve_all-Serves_example :
    Serves sorted (1 ∷ 2 ∷ 3 ∷ []) new_manager (serve_all sorted calls new_manager)
serve_all-Serves_example = serve_all-Serves sorted calls new_manager new_manager-WellFormed

calls_answers : (serve_all sorted calls new_manager).0 ≡ (3, none) ∷ (2, some bad_sequence) ∷ []
unfolding serve_all new_manager insert
calls_answers = refl
