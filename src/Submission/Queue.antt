-- ===== src/Submission/Queue.antt =====
-- services/aurora/internal/txsub/sequence/queue.go: the queue of one account. Times are counted in
-- nanoseconds on a clock that does not go back, which is an argument.
use aurorav1_11_0_test.Base.{
  ℕ, zero, suc, ◌+◌, ◌-◌, ◌*◌, ◌%◌, ◌^◌, ltb, leb, if◌then◌else◌, none, some, List, [], ◌∷◌, length,
}
use aurorav1_11_0_test.Submission.{Heap, Item, Answer, bad_sequence}

pub record Queue : Type 0 where
  pub last_active_at : ℕ
  pub timeout : ℕ
  pub next_sequence : ℕ
  pub queue : List Item

unfoldable pub new_queue : ℕ → Queue
new_queue now = record {
  last_active_at = now;
  timeout = 10 * 10 ^ 9;
  next_sequence = 0;
  queue = [];
}

abbrev pub size : Queue → ℕ
size q = length q.queue

-- The uint64 wraps.
unfoldable pub advance : ℕ → ℕ → ℕ
advance sequence next = if leb next sequence then (sequence + 1) % 2 ^ 64 else next

-- The answer to a submission that leaves the queue.
abbrev pub verdict : ℕ → Item → Answer
verdict next i = (i.chan, if ltb i.sequence next then some bad_sequence else none)

abbrev pub reject : Item → Answer
reject i = (i.chan, some bad_sequence)

module _ (h : Heap) where
  unfoldable pub push : ℕ → ℕ → Queue → Queue
  push sequence ch q = record q {
    queue = h.push (record { sequence = sequence; chan = ch }) q.queue;
  }

  -- The loop over the submissions that are due: the answers, and what stays. Each round takes one
  -- off, so the number of rounds is the length of the queue.
  unfoldable pub release : ℕ → ℕ → List Item → List Answer × List Item
  release zero next q = ([], q)
  release (suc rounds) next [] = ([], [])
  release (suc rounds) next (x ∷ q) =
      let rest = release rounds next (h.pop x q) in
      if ltb next x.sequence then ([], x ∷ q) else (verdict next x ∷ rest.0, rest.1)

  -- The loop that empties the queue.
  unfoldable pub clear : ℕ → List Item → List Answer × List Item
  clear zero q = ([], q)
  clear (suc rounds) [] = ([], [])
  clear (suc rounds) (x ∷ q) = let rest = clear rounds (h.pop x q) in (reject x ∷ rest.0, rest.1)

  -- After the loop: `time.Since` is the difference.
  unfoldable pub finish : ℕ → Queue → List Answer × List Item → List Answer × Queue
  unfolding clear
  finish now q (a ∷ sent, left) = (a ∷ sent, record q { last_active_at = now; queue = left })
  finish now q ([], left) =
      let cleared = clear (length left) left in
      if ltb q.timeout (now - q.last_active_at)
      then (cleared.0, record q { queue = cleared.1 })
      else ([], record q { queue = left })

  unfoldable pub update : ℕ → ℕ → Queue → List Answer × Queue
  unfolding advance release finish
  update now sequence q =
      let next = advance sequence q.next_sequence in
      finish now (record q { next_sequence = next }) (release (length q.queue) next q.queue)
