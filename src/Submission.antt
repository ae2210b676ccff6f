-- ===== src/Submission.antt =====
-- The queues of submissions by account: services/aurora/internal/txsub/sequence (queue.go, manager.go,
-- errors.go). A channel is a number: its buffer holds the one message that is ever sent.
pub mod Queue
pub mod SortedHeap
pub mod Drain
pub mod Updates
pub mod Manager
pub mod Store
pub mod Answers
pub mod Runs
mod Examples
use aurorav1_11_0_test.Base.{ℕ, ◌≤◌, Option, List, [], ◌∷◌, Perm, length}

pub record Item : Type 0 where
  pub sequence : ℕ
  pub chan : ℕ

pub data Error : Type 0 where
  no_more_room bad_sequence : Error

-- What is sent on a channel before it is closed.
abbrev pub Answer : Type 0
Answer = ℕ × Option Error

-- No submission is of an earlier sequence.
abbrev pub NoneBefore : ℕ → List Item → Type 0
NoneBefore n [] = Unit {0}
NoneBefore n (i ∷ q) = (n ≤ i.sequence) × NoneBefore n q

-- The package container/heap over a slice ordered by `Less`: a heap has a least element at its
-- front, and `push` and `pop` move the elements in some order that keeps it a heap.
pub record Heap : Type 1 where
  pub IsHeap : List Item → Type 0
  pub push : Item → List Item → List Item
  pub pop : Item → List Item → List Item
  pub nil-IsHeap : IsHeap []
  pub push-IsHeap : (x : Item) (q : List Item) → IsHeap q → IsHeap (push x q)
  pub push-Perm : (x : Item) (q : List Item) → Perm (push x q) (x ∷ q)
  pub pop-IsHeap : (x : Item) (q : List Item) → IsHeap (x ∷ q) → IsHeap (pop x q)
  pub pop-Perm : (x : Item) (q : List Item) → Perm (pop x q) q
  pub front_least : (x : Item) (q : List Item) → IsHeap (x ∷ q) → NoneBefore x.sequence q
