-- ===== src/Submission/Updates.antt =====
-- An update of a queue, against the submissions as a collection: which are answered, and how.
use aurorav1_11_0_test.Base.{
  ℕ, ◌+◌, ◌-◌, ◌%◌, ◌^◌, ◌⊎◌, some, ap, ◌≤◌, ◌<◌, ◌≡◌, ◌≢◌, inl, inr, refl, sym, subst, ltb, tests,
  Bool-cases, List, [], ◌∷◌, ◌++◌, map, length, Perm, select, none, length-Perm, arith,
}
use mathlib.Core.List.Perm
use aurorav1_11_0_test.Submission.{Heap, Item, Answer, bad_sequence}
use aurorav1_11_0_test.Submission.Queue.{
  Queue, verdict, reject, clear, release, finish, advance, update,
}
use aurorav1_11_0_test.Submission.Drain.{
  due, later, answered, waiting, release-splits, clear-empties, release-keeps, clear-keeps,
}

later_of_none : (next : ℕ) (q : List Item) → due next q ≡ [] → later next q ≡ q
unfolding select
later_of_none next [] e = refl
later_of_none next (x ∷ q) e = ground (arith, e, later_of_none next q)

none_of_map : (next : ℕ) (q : List Item) → Perm [] (map (verdict next) q) → q ≡ []
none_of_map next [] p = refl
none_of_map next (x ∷ q) p = absurd (omega (arith, length-Perm p))

-- The next sequence number after an update: a number below the account's is behind it, where the
-- uint64 wraps, and any other stays.
abbrev pub Follows : ℕ → ℕ → ℕ → Type 0
Follows sequence before next =
    (before ≤ sequence) × (next ≡ (sequence + 1) % 2 ^ 64) ⊎ (sequence < before) × (next ≡ before)

-- An error for the submissions of an earlier sequence number, leave to go on for those of the next one, no
-- answer to the others.
pub data Answers (next : ℕ) : List Item → List Answer → Type 0 where
  nothing : Answers next [] []
  behind :
      {i : Item} {q : List Item} {sent : List Answer}
      → i.sequence < next
      → Answers next q sent
      → Answers next (i ∷ q) ((i.chan, some bad_sequence) ∷ sent)
  exactly :
      {i : Item} {q : List Item} {sent : List Answer}
      → i.sequence ≡ next
      → Answers next q sent
      → Answers next (i ∷ q) ((i.chan, none) ∷ sent)
  ahead :
      {i : Item} {q : List Item} {sent : List Answer}
      → next < i.sequence
      → Answers next q sent
      → Answers next (i ∷ q) sent

-- An error for every submission.
abbrev pub all_rejected : List Item → List Answer
all_rejected [] = []
all_rejected (i ∷ q) = (i.chan, some bad_sequence) ∷ all_rejected q

-- The outcomes of an update, with the submissions as a collection in no order.
pub data Updated (now next : ℕ) (q : Queue) : List Answer → Queue → Type 0 where
  released :
      (sent all_sent : List Answer) (left : List Item)
      → due next q.queue ≢ []
      → Answers next q.queue all_sent
      → Perm sent all_sent
      → Perm left (later next q.queue)
      → Updated now next q sent
          (record q { last_active_at = now; next_sequence = next; queue = left })
  expired :
      (sent : List Answer)
      → due next q.queue ≡ []
      → q.timeout < now - q.last_active_at
      → Perm sent (all_rejected q.queue)
      → Updated now next q sent (record q { next_sequence = next; queue = [] })
  kept :
      (left : List Item)
      → due next q.queue ≡ []
      → now - q.last_active_at ≤ q.timeout
      → Perm left q.queue
      → Updated now next q [] (record q { next_sequence = next; queue = left })

advance-Follows : (sequence before : ℕ) → Follows sequence before (advance sequence before)
unfolding advance
advance-Follows sequence before = ground arith

rejected_all : (q : List Item) → map reject q ≡ all_rejected q
rejected_all [] = refl
rejected_all (i ∷ q) = ap (λ l. reject i ∷ l) (rejected_all q)

-- The answers of the loop.
verdicts-Answers : (next : ℕ) (q : List Item) → Answers next q (map (verdict next) (due next q))
unfolding select
verdicts-Answers next [] = nothing
verdicts-Answers next (i ∷ q) =
    let rest = verdicts-Answers next q in
    elim (Bool-cases (ltb next i.sequence)) [
      | inl e ↦ rw e (ahead (omega (tests, e)) rest)
      | inr e ↦ elim (Bool-cases (ltb i.sequence next)) [
        | inl f ↦ rw (e, f) (behind (omega (tests, f)) rest)
        | inr f ↦ rw (e, f) (exactly (ground (arith, e, f)) rest)
      ]
    ]

module _ (h : Heap) where
  open h use {IsHeap, nil-IsHeap, push-IsHeap, push-Perm}

  finished :
      (now next : ℕ) (q : Queue) (sent : List Answer) (left : List Item)
      → Perm sent (map (verdict next) (due next q.queue))
      → Perm left (later next q.queue)
      → let r = finish h now (record q { next_sequence = next }) (sent, left) in
        Updated now next q r.0 r.1
  unfolding finish clear
  finished now next q (a ∷ sent) left s l =
      released (a ∷ sent) _ left
        (λ e.
          absurd
            (omega (arith, length-Perm (subst (λ d. Perm (a ∷ sent) (map (verdict next) d)) e s))))
        (verdicts-Answers next q.queue) s l
  finished now next q [] left s l =
      let none_due = none_of_map next (due next q.queue) s in
      let all_left = subst (λ m. Perm left m) (later_of_none next q.queue none_due) l in
      elim (Bool-cases (ltb q.timeout (now - q.last_active_at))) [
        | inl e ↦
            let cleared = clear-empties h (length left) left (omega arith) in
            rw e (
              rw (cleared.1) (
                expired _ none_due (omega (tests, e)) (
                  subst (Perm _) (rejected_all q.queue)
                    (Perm.trans cleared.0 (Perm.map reject all_left)))))
        | inr e ↦ rw e (kept left none_due (ground (arith, e)) all_left)
      ]

  finish-next :
      (now : ℕ) (q : Queue) (r : List Answer × List Item)
      → (finish h now q r).1.next_sequence ≡ q.next_sequence
  unfolding finish
  finish-next now q (a ∷ sent, left) = refl
  finish-next now q ([], left) = elim (Bool-cases (ltb q.timeout (now - q.last_active_at))) [
    | inl e ↦ rw e refl
    | inr e ↦ rw e refl
  ]

  -- The next sequence number after an update is the one behind that of the account, modulo 2 ^ 64, if it
  -- was not past that, and else stays. An update of a queue that is a heap answers every submission that
  -- is due then, once: those of an earlier sequence number with an error, those of the next one
  -- with leave to go on. If none is due it empties a queue that is idle for longer than its timeout,
  -- with an error for each submission, and otherwise keeps the submissions.
  pub update-Updated :
      (now sequence : ℕ) (q : Queue)
      → IsHeap q.queue
      → let r = update h now sequence q in
        Follows sequence q.next_sequence r.1.next_sequence × Updated now r.1.next_sequence q r.0 r.1
  unfolding update
  update-Updated now sequence q heap =
      let next = advance sequence q.next_sequence in
      let splits = release-splits h (length q.queue) next q.queue heap (omega arith) in
      let r =
        finish h now (record q { next_sequence = next })
          (release h (length q.queue) next q.queue) in
      let same =
        finish-next now (record q { next_sequence = next })
          (release h (length q.queue) next q.queue) in
      (
        subst (λ n. Follows sequence q.next_sequence n) (sym same)
            (advance-Follows sequence q.next_sequence),
        subst (λ n. Updated now n q r.0 r.1) (sym same) (finished now next q _ _ splits.0 splits.1),
      )

  finish-keeps :
      (now : ℕ) (q : Queue) (sent : List Answer) (left : List Item) (chans : List ℕ)
      → Perm (answered sent ++ waiting left) chans
      → let r = finish h now q (sent, left) in Perm (answered r.0 ++ waiting r.1.queue) chans
  unfolding finish
  finish-keeps now q (a ∷ sent) left chans p = p
  finish-keeps now q [] left chans p = elim (Bool-cases (ltb q.timeout (now - q.last_active_at))) [
    | inl e ↦ rw e (Perm.trans (clear-keeps h (length left) left) p)
    | inr e ↦ rw e p
  ]

  -- Each channel that waited is answered or still waits.
  pub update-keeps :
      (now sequence : ℕ) (q : Queue)
      → let r = update h now sequence q in
        Perm (answered r.0 ++ waiting r.1.queue) (waiting q.queue)
  unfolding update advance
  update-keeps now sequence q =
      let next = advance sequence q.next_sequence in
      let r = release h (length q.queue) next q.queue in
      finish-keeps now (record q { next_sequence = next }) r.0 r.1 (waiting q.queue)
        (release-keeps h (length q.queue) next q.queue)

  finish-IsHeap :
      (now : ℕ) (q : Queue) (sent : List Answer) (left : List Item)
      → IsHeap left
      → IsHeap (finish h now q (sent, left)).1.queue
  unfolding finish
  finish-IsHeap now q (a ∷ sent) left heap = heap
  finish-IsHeap now q [] left heap = elim (Bool-cases (ltb q.timeout (now - q.last_active_at))) [
    | inl e ↦ rw e (rw ((clear-empties h (length left) left (omega arith)).1) nil-IsHeap)
    | inr e ↦ rw e heap
  ]

  pub update-IsHeap :
      (now sequence : ℕ) (q : Queue) → IsHeap q.queue → IsHeap (update h now sequence q).1.queue
  unfolding update advance
  update-IsHeap now sequence q heap =
      let next = advance sequence q.next_sequence in
      let r = release h (length q.queue) next q.queue in
      finish-IsHeap now (record q { next_sequence = next }) r.0 r.1
        (release-splits h (length q.queue) next q.queue heap (omega arith)).2
