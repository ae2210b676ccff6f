-- ===== src/Submission/Runs.antt =====
-- Runs of a manager, as sequences of the calls of its methods.
use Prim.Native.String.{String}
use aurorav1_11_0_test.Base.{
  ℕ, ◌≤◌, sym, subst, leb, Bool-cases, inl, inr, List, [], ◌∷◌, ◌++◌, Perm, exchange, arith,
}
use mathlib.Core.List.{append_assoc}
use mathlib.Core.List.Perm
use aurorav1_11_0_test.Base.Maps.{lookup, put}
use aurorav1_11_0_test.Submission.Queue
use aurorav1_11_0_test.Submission.{Heap, Answer}
use aurorav1_11_0_test.Submission.Drain.{answered}
use aurorav1_11_0_test.Submission.Manager.{Manager, size, queue_or_new, push, update_queues, update}
use aurorav1_11_0_test.Submission.Store.{all_waiting, total_bound}
use aurorav1_11_0_test.Submission.Answers.{Busies, put-Takes, update_queues-Keeps, answered_then}

pub data Operation : Type 0 where
  submission : (now : ℕ) (address : String) (sequence chan : ℕ) → Operation
  sequences : List (String × ℕ × ℕ) → Operation

-- The channels that an operation makes.
abbrev pub asked : Operation → List ℕ
asked (submission now address sequence ch) = ch ∷ []
asked (sequences updates) = []

abbrev pub all_asked : List Operation → List ℕ
all_asked [] = []
all_asked (o ∷ os) = asked o ++ all_asked os

module _ (h : Heap) where
  unfoldable pub serve : Operation → Manager → List Answer × Manager
  unfolding push update
  serve (submission now address sequence ch) m = push h now address sequence ch m
  serve (sequences updates) m = update h updates m

  -- The answers come in the order of the operations.
  unfoldable pub serve_all : List Operation → Manager → List Answer × Manager
  unfolding serve
  serve_all [] m = ([], m)
  serve_all (o ∷ os) m = let r = serve o m in let rest = serve_all os r.1 in (r.0 ++ rest.0, rest.1)

  -- The queues, and the room that they take.
  abbrev pub WellFormed : Manager → Type 0
  WellFormed m = Busies h m.queues × (size m ≤ m.max_size)

  abbrev pub Serves : List ℕ → Manager → List Answer × Manager → Type 0
  Serves new m r =
      Perm (answered r.0 ++ all_waiting r.1.queues) (new ++ all_waiting m.queues) × WellFormed r.1

  pub push-Serves :
      (now : ℕ) (address : String) (sequence ch : ℕ) (m : Manager)
      → WellFormed m
      → Serves (ch ∷ []) m (push h now address sequence ch m)
  unfolding push
  push-Serves now address sequence ch m (b, room) = elim (Bool-cases (leb m.max_size (size m))) [
    | inl e ↦ rw e (Perm.rfl, (b, room))
    | inr e ↦
        let q = queue_or_new now (lookup address m.queues) in
        let m' = put address (Queue.push h sequence ch q) m.queues in
        let taken = put-Takes h now address sequence ch m.queues b in
        rw e (taken.0, (taken.1, ground (arith, e, total_bound [] (ch ∷ []) m.queues m' taken.0)))
  ]

  pub update-Serves :
      (updates : List (String × ℕ × ℕ)) (m : Manager)
      → WellFormed m
      → Serves [] m (update h updates m)
  unfolding update
  update-Serves updates m (b, room) =
      let kept = update_queues-Keeps h updates m.queues b in
      let r = update_queues h updates m.queues in
      (kept.0, (kept.1, omega (arith, room, total_bound (answered r.0) [] m.queues r.1 kept.0)))

  serve-Serves : (o : Operation) (m : Manager) → WellFormed m → Serves (asked o) m (serve o m)
  unfolding serve
  serve-Serves (submission now address sequence ch) m w = push-Serves now address sequence ch m w
  serve-Serves (sequences updates) m w = update-Serves updates m w

  -- Over any calls of a manager that is well formed, the channels that are answered and those that
  -- wait at the end are together the channels that were made and those that waited before; no queue
  -- is empty or listed twice, each is a heap, and no more submissions wait than the bound.
  pub serve_all-Serves :
      (os : List Operation) (m : Manager) → WellFormed m → Serves (all_asked os) m (serve_all os m)
  unfolding serve_all
  serve_all-Serves [] m w = (Perm.rfl, w)
  serve_all-Serves (o ∷ os) m w =
      let first = serve-Serves o m w in
      let rest = serve_all-Serves os (serve o m).1 first.1 in
      let s = serve o m in
      let t = serve_all os s.1 in
      let now_waiting = all_waiting m.queues in
      (
        subst (λ l. Perm (answered (s.0 ++ t.0) ++ all_waiting t.1.queues) l)
            (sym (append_assoc (asked o) (all_asked os) now_waiting))
            (Perm.trans (answered_then s.0 t.0 (all_waiting t.1.queues) _ rest.0) (
              Perm.trans (exchange (answered s.0) (all_asked os) (all_waiting s.1.queues)) (
                Perm.trans (Perm.append_left (all_asked os) first.0)
                  (exchange (all_asked os) (asked o) now_waiting)))),
        rest.1,
      )
