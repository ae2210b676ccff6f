-- ===== src/Submission/Answers.antt =====
-- Runs of a manager: every submission is answered once or waits, and there is room for it.
use Prim.Native.String.{String}
use aurorav1_11_0_test.Base.{
  ℕ, ◌≡◌, ◌≢◌, refl, sym, ap, subst, ◌∙◌, false, ◌==◌, ==_iff, Bool-cases, inl, inr, Option, none,
  some, List, [], ◌∷◌, ◌++◌, length, empty_of_length, length-Perm, Perm, arith,
}
use aurorav1_11_0_test.Base.Maps.{
  Map, lookup, put, Distinct, put-Distinct, delete-Distinct, found_put, delete-put, Every, Found,
  lookup-Every, put-Every, delete-Every,
}
use mathlib.Core.List.Perm
use aurorav1_11_0_test.Submission.{Heap, Item, Answer}
use aurorav1_11_0_test.Submission.Queue.{Queue, new_queue}
use aurorav1_11_0_test.Submission.Queue
use aurorav1_11_0_test.Submission.Drain.{answered, waiting}
use aurorav1_11_0_test.Submission.Updates.{update-keeps, update-IsHeap}
use aurorav1_11_0_test.Submission.Manager.{queue_or_new, update_queue, update_queues}
use aurorav1_11_0_test.Submission.Store.{all_waiting, held, all_waiting-put, all_waiting-delete}

-- Answers before others.
pub answered_then :
    (sent sent' : List Answer) (left before : List ℕ)
    → Perm (answered sent' ++ left) before
    → Perm (answered (sent ++ sent') ++ left) (answered sent ++ before)
answered_then [] sent' left before p = p
answered_then (a ∷ sent) sent' left before p =
    Perm.cons a.0 (answered_then sent sent' left before p)

busy : {q : List Item} → (length q == 0) ≡ false → q ≢ []
busy {q} z e = ground (arith, z, ap length e)

module _ (h : Heap) where
  open h use {IsHeap, nil-IsHeap, push-IsHeap, push-Perm}

  -- A queue that the manager keeps is a heap with a submission.
  abbrev pub Busy : Queue → Type 0
  Busy q = IsHeap q.queue × (q.queue ≢ [])

  abbrev pub Busies : Map Queue → Type 0
  Busies m = Distinct m × Every Busy m

  -- What an update at an address keeps: channels are answered or wait, and no queue is idle.
  abbrev pub Keeps : Map Queue → List Answer × Map Queue → Type 0
  Keeps m r = Perm (answered r.0 ++ all_waiting r.1) (all_waiting m) × Busies r.1

  update_queue-Keeps :
      (now : ℕ) (address : String) (sequence : ℕ) (m : Map Queue) (q : Queue)
      → Busies m
      → lookup address m ≡ some q
      → IsHeap q.queue
      → Keeps m (update_queue h now address sequence m (some q))
  unfolding update_queue
  update_queue-Keeps now address sequence m q (d, b) e heap =
      let r = Queue.update h now sequence q in
      let m' = put address r.1 m in
      let d' : Distinct m' = put-Distinct address r.1 m d in
      let moved : Perm (answered r.0 ++ all_waiting m') (all_waiting m) =
        all_waiting-put address r.1 (answered r.0) [] m (
          subst (λ o. Perm (answered r.0 ++ waiting r.1.queue) (held o)) (sym e)
            (update-keeps h now sequence q)) in
      elim (Bool-cases (Queue.size r.1 == 0)) [
        | inl z ↦
            let none_left = ap waiting (empty_of_length r.1.queue ((==_iff _ 0).0 z)) in
            let same_channels =
              all_waiting-delete address m' d' (ap held (found_put address r.1 m) ∙ none_left) in
            rw z (
              subst (λ l. Perm (answered r.0 ++ l) (all_waiting m)) (sym same_channels) moved,
              (
                delete-Distinct address m' d',
                subst (Every Busy) (sym (delete-put address r.1 m)) (delete-Every Busy address m b),
              ),
            )
        | inr z ↦ rw z (
          moved,
          (d', put-Every Busy address r.1 m (update-IsHeap h now sequence q heap, busy z) b),
        )
      ]

  looked_up-Keeps :
      (now : ℕ) (address : String) (sequence : ℕ) (m : Map Queue) (o : Option Queue)
      → Busies m
      → lookup address m ≡ o
      → Found Busy o
      → Keeps m (update_queue h now address sequence m o)
  unfolding update_queue
  looked_up-Keeps now address sequence m none b e f = (Perm.rfl, b)
  looked_up-Keeps now address sequence m (some q) b e f =
      update_queue-Keeps now address sequence m q b e f.0

  pub update_queues-Keeps :
      (updates : List (String × ℕ × ℕ)) (m : Map Queue)
      → Busies m
      → Keeps m (update_queues h updates m)
  unfolding update_queues
  update_queues-Keeps [] m b = (Perm.rfl, b)
  update_queues-Keeps ((address, sequence, now) ∷ updates) m b =
      let first =
        looked_up-Keeps now address sequence m (lookup address m) b refl
          (lookup-Every Busy address m b.1) in
      let rest = update_queues-Keeps updates _ first.1 in
      (Perm.trans (answered_then _ _ _ _ rest.0) first.0, rest.1)

  -- Some channels `new` have come.
  abbrev pub Takes : List ℕ → Map Queue → List Answer × Map Queue → Type 0
  Takes new m r = Perm (answered r.0 ++ all_waiting r.1) (new ++ all_waiting m) × Busies r.1

  queue_or_new-IsHeap :
      (now : ℕ) (o : Option Queue) → Found Busy o → IsHeap (queue_or_new now o).queue
  unfolding new_queue
  queue_or_new-IsHeap now none f = nil-IsHeap
  queue_or_new-IsHeap now (some q) f = f.0

  waiting-queue_or_new : (now : ℕ) (o : Option Queue) → waiting (queue_or_new now o).queue ≡ held o
  unfolding new_queue
  waiting-queue_or_new now none = refl
  waiting-queue_or_new now (some q) = refl

  enqueued :
      (now sequence ch : ℕ) (o : Option Queue)
      → Found Busy o
      → let q = Queue.push h sequence ch (queue_or_new now o) in
        Busy q × Perm (waiting q.queue) (ch ∷ held o)
  unfolding Queue.push
  enqueued now sequence ch o f =
      let i : Item = record { sequence = sequence; chan = ch } in
      let q = queue_or_new now o in
      let p = push-Perm i q.queue in
      (
        (
          push-IsHeap i q.queue (queue_or_new-IsHeap now o f),
          λ e. absurd (omega (arith, length-Perm p, ap length e)),
        ),
        subst (λ l. Perm (waiting (h.push i q.queue)) (ch ∷ l)) (waiting-queue_or_new now o)
            (Perm.map (λ j. j.chan) p),
      )

  pub put-Takes :
      (now : ℕ) (address : String) (sequence ch : ℕ) (m : Map Queue)
      → Busies m
      → Takes
          (ch ∷ [])
          m
          ([], put address (Queue.push h sequence ch (queue_or_new now (lookup address m))) m)
  put-Takes now address sequence ch m (d, b) =
      let q = Queue.push h sequence ch (queue_or_new now (lookup address m)) in
      let e = enqueued now sequence ch (lookup address m) (lookup-Every Busy address m b) in
      (
        all_waiting-put address q [] (ch ∷ []) m e.1,
        (put-Distinct address q m d, put-Every Busy address q m e.0 b),
      )
