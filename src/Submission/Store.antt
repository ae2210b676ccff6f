-- ===== src/Submission/Store.antt =====
-- The channels that wait in the queues of a manager.
use Prim.Native.String.{String}
use aurorav1_11_0_test.Base.{
  ℕ, ◌+◌, ◌≤◌, ◌≡◌, refl, sym, subst, Bool, true, false, if◌then◌else◌, Option, none, some, List,
  [], ◌∷◌, ◌++◌, length, length-append, length-map, length-Perm, Perm, exchange, arith,
}
use aurorav1_11_0_test.Base.Maps.{Map, lookup, put, delete, Lacks, Distinct}
use mathlib.Core.List.{append_assoc, append-nil}
use mathlib.Core.List.Perm
use text.Mathlib.TextEquality.{eq_iff}
use text.Mathlib.Text.{◌==◌ as same}
use aurorav1_11_0_test.Submission.{Item}
use aurorav1_11_0_test.Submission.Queue.{Queue}
use aurorav1_11_0_test.Submission.Manager.{total}
use aurorav1_11_0_test.Submission.Drain.{waiting}

abbrev pub all_waiting : Map Queue → List ℕ
all_waiting [] = []
all_waiting ((k, q) ∷ m) = waiting q.queue ++ all_waiting m

-- The channels of the queue of an address, if it has one.
abbrev pub held : Option Queue → List ℕ
held none = []
held (some q) = waiting q.queue

-- A queue takes the place of the one before it: the channels `sent` are gone, and `new` have come.
module _ (k : String) (q : Queue) (sent new : List ℕ) where
  put_at :
      (b : Bool) (j : String) (w : Queue) (o : Option Queue) (m m' : Map Queue)
      → (Perm (sent ++ waiting q.queue) (new ++ held o)
          → Perm (sent ++ all_waiting m') (new ++ all_waiting m))
      → Perm (sent ++ waiting q.queue) (new ++ held (if b then some w else o))
      → Perm
          (sent ++ all_waiting (if b then (k, q) ∷ m else (j, w) ∷ m'))
          (new ++ (waiting w.queue ++ all_waiting m))
  put_at true j w o m m' rest p =
      subst (λ l. Perm l (new ++ (waiting w.queue ++ all_waiting m)))
        (append_assoc sent (waiting q.queue) (all_waiting m))
        (subst (λ l. Perm ((sent ++ waiting q.queue) ++ all_waiting m) l)
          (append_assoc new (waiting w.queue) (all_waiting m))
          (Perm.append_right (all_waiting m) p))
  put_at false j w o m m' rest p = Perm.trans (exchange sent (waiting w.queue) (all_waiting m')) (
      Perm.trans (Perm.append_left (waiting w.queue) (rest p))
        (exchange (waiting w.queue) new (all_waiting m)))

  pub all_waiting-put :
      (m : Map Queue)
      → Perm (sent ++ waiting q.queue) (new ++ held (lookup k m))
      → Perm (sent ++ all_waiting (put k q m)) (new ++ all_waiting m)
  unfolding lookup put
  all_waiting-put [] p =
      subst (λ l. Perm (sent ++ l) (new ++ [])) (sym (append-nil (waiting q.queue))) p
  all_waiting-put ((j, w) ∷ m) p =
      put_at (same j k) j w (lookup k m) m (put k q m) (all_waiting-put m) p

delete-Lacks : (k : String) (m : Map Queue) → Lacks k m → delete k m ≡ m
unfolding delete
delete-Lacks k [] l = refl
delete-Lacks k ((j, w) ∷ m) l = ground (arith, l.0, delete-Lacks k m l.1)

-- A queue that is empty can go.
pub all_waiting-delete :
    (k : String) (m : Map Queue)
    → Distinct m
    → held (lookup k m) ≡ []
    → all_waiting (delete k m) ≡ all_waiting m
unfolding lookup delete
all_waiting-delete k [] d e = refl
all_waiting-delete k ((j, w) ∷ m) d e =
    ground (arith, e, delete-Lacks k m, d.0, all_waiting-delete k m d.1, eq_iff j k)

pub total-all_waiting : (m : Map Queue) → total m ≡ length (all_waiting m)
total-all_waiting [] = refl
total-all_waiting ((k, q) ∷ m) = omega (
  arith,
  total-all_waiting m,
  length-append (waiting q.queue) (all_waiting m),
  length-map (λ (i : Item). i.chan) q.queue,
)

-- No more wait than before and have come.
pub total_bound :
    (sent new : List ℕ) (m m' : Map Queue)
    → Perm (sent ++ all_waiting m') (new ++ all_waiting m)
    → total m' ≤ length new + total m
total_bound sent new m m' p = omega (
  arith,
  length-Perm p,
  length-append sent (all_waiting m'),
  length-append new (all_waiting m),
  total-all_waiting m,
  total-all_waiting m',
)
