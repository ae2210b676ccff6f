-- ===== src/Submission/Drain.antt =====
-- What an update of a queue answers, and what it leaves.
use aurorav1_11_0_test.Base.{
  ℕ, zero, suc, ◌≤◌, ◌<◌, not, ltb, tests, ◌≡◌, refl, List, [], ◌∷◌, ◌++◌, map, length, Perm,
  select, select-Perm, length-Perm, Bool-cases, inl, inr, arith,
}
use mathlib.Core.List.Perm
use aurorav1_11_0_test.Submission.{Heap, Item, Answer, NoneBefore}
use aurorav1_11_0_test.Submission.Queue.{verdict, reject, release, clear}

-- The submissions that are due, and those of a later sequence.
abbrev pub due : ℕ → List Item → List Item
due next q = select (λ i. not (ltb next i.sequence)) q

abbrev pub later : ℕ → List Item → List Item
later next q = select (λ i. ltb next i.sequence) q

-- The channels of the answers, and of the submissions.
abbrev pub answered : List Answer → List ℕ
answered sent = map (λ a. a.0) sent

abbrev pub waiting : List Item → List ℕ
waiting q = map (λ i. i.chan) q

-- Nothing is due where all is after a sequence.
later_all :
    (next n : ℕ) (q : List Item)
    → next < n
    → NoneBefore n q
    → (due next q ≡ []) × (later next q ≡ q)
unfolding select
later_all next n [] lt b = (refl, refl)
later_all next n (x ∷ q) lt b =
    let rest = later_all next n q lt b.1 in ground (arith, rest.0, rest.1)

module _ (h : Heap) where
  open h use {IsHeap, pop, pop-IsHeap, pop-Perm, front_least}

  -- The loop splits the queue: every submission that is due is answered, the others stay.
  pub release-splits :
      (rounds next : ℕ) (q : List Item)
      → IsHeap q
      → length q ≤ rounds
      → let r = release h rounds next q in
        Perm r.0 (map (verdict next) (due next q)) × Perm r.1 (later next q) × IsHeap r.1
  unfolding release select
  release-splits zero next [] heap le = (Perm.rfl, Perm.rfl, heap)
  release-splits zero next (x ∷ q) heap le = absurd (omega (arith, le))
  release-splits (suc rounds) next [] heap le = (Perm.rfl, Perm.rfl, heap)
  release-splits (suc rounds) next (x ∷ q) heap le =
      let popped = pop-Perm x q in
      let rest =
        release-splits rounds next (pop x q) (pop-IsHeap x q heap)
          (omega (arith, le, length-Perm popped)) in
      elim (Bool-cases (ltb next x.sequence)) [
        | inl e ↦
            let behind = later_all next x.sequence q (omega (tests, e)) (front_least x q heap) in
            rw (e, behind.0, behind.1) (Perm.rfl, Perm.rfl, heap)
        | inr e ↦ rw e (
          Perm.cons (verdict next x)
              (Perm.trans rest.0 (Perm.map (verdict next) (select-Perm _ popped))),
          Perm.trans rest.1 (select-Perm _ popped),
          rest.2,
        )
      ]

  pub clear-empties :
      (rounds : ℕ) (q : List Item)
      → length q ≤ rounds
      → let r = clear h rounds q in Perm r.0 (map reject q) × (r.1 ≡ [])
  unfolding clear
  clear-empties zero [] le = (Perm.rfl, refl)
  clear-empties zero (x ∷ q) le = absurd (omega (arith, le))
  clear-empties (suc rounds) [] le = (Perm.rfl, refl)
  clear-empties (suc rounds) (x ∷ q) le =
      let popped = pop-Perm x q in
      let rest = clear-empties rounds (pop x q) (omega (arith, le, length-Perm popped)) in
      (Perm.cons (reject x) (Perm.trans rest.0 (Perm.map reject popped)), rest.1)

  -- No channel is lost, and none is answered twice.
  pub release-keeps :
      (rounds next : ℕ) (q : List Item)
      → let r = release h rounds next q in Perm (answered r.0 ++ waiting r.1) (waiting q)
  unfolding release
  release-keeps zero next q = Perm.rfl
  release-keeps (suc rounds) next [] = Perm.rfl
  release-keeps (suc rounds) next (x ∷ q) =
      let rest =
        Perm.trans (release-keeps rounds next (pop x q)) (Perm.map (λ i. i.chan) (pop-Perm x q)) in
      elim (Bool-cases (ltb next x.sequence)) [
        | inl e ↦ rw e Perm.rfl
        | inr e ↦ rw e (Perm.cons x.chan rest)
      ]

  pub clear-keeps :
      (rounds : ℕ) (q : List Item)
      → let r = clear h rounds q in Perm (answered r.0 ++ waiting r.1) (waiting q)
  unfolding clear
  clear-keeps zero q = Perm.rfl
  clear-keeps (suc rounds) [] = Perm.rfl
  clear-keeps (suc rounds) (x ∷ q) =
      Perm.cons x.chan
        (Perm.trans (clear-keeps rounds (pop x q)) (Perm.map (λ i. i.chan) (pop-Perm x q)))
