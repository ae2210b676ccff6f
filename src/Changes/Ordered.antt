-- ===== src/Changes/Ordered.antt =====
-- A call of the reader of a ledger's changes gives the first of those that are left.
use aurorav1_11_0_test.Base.{
  ℕ, zero, suc, ◌+◌, ◌≤◌, ◌≡◌, inl, inr, refl, sym, ap, subst, ◌∙◌, ◌==◌, if-cases, Option, none,
  some, List, [], ◌∷◌, length, drop, nth, length-drop, empty_of_length, drop-nth, drop-end,
  nth_below, arith,
}
use aurorav1_11_0_test.Changes.{Entries, Change}
use aurorav1_11_0_test.Changes.Transactions.{and_then}
use aurorav1_11_0_test.Changes.Reader.{
  State, fee_changes_state, meta_changes_state, upgrade_changes_state, LedgerChangeReader,
  ReadResult, change, eof, failed, exhausted, new_ledger_change_reader, take_pending, pend,
  read_fees, read_meta, read_upgrade, fetch, read,
}
use aurorav1_11_0_test.Changes.Reader
use aurorav1_11_0_test.Changes.Left.{left_in, left, turns, Ready, then_assoc, then_nothing}
use aurorav1_11_0_test.Changes.Fetching.{Reads, GoesOn, fetch-Reads}

module _ {x : Entries} where
  Reads-more : (n : ℕ) (cs : List (Change x)) (r : ReadResult x) → Reads n cs r → Reads (suc n) cs r
  unfolding Reads
  Reads-more n [] (change d r) h = h
  Reads-more n [] (eof r) h = h
  Reads-more n [] (failed r) h = h
  Reads-more n [] Reader.panicked h = h
  Reads-more n [] exhausted h = h
  Reads-more n (c ∷ cs) (change d r) (same, ready, rest, le) =
      (same, ready, rest, omega (arith, le))
  Reads-more n (c ∷ cs) (eof r) h = h
  Reads-more n (c ∷ cs) (failed r) h = h
  Reads-more n (c ∷ cs) Reader.panicked h = h
  Reads-more n (c ∷ cs) exhausted h = h

  nothing_pending :
      (r : LedgerChangeReader x)
      → Ready r
      → nth r.pending_index r.pending ≡ none
      → (r.pending ≡ []) × (r.pending_index ≡ 0)
  nothing_pending r (inl idle) h = idle
  nothing_pending r (inr lt) h = absurd (
      omega (
        arith,
        lt,
        length-drop r.pending_index r.pending,
        ap length (drop-end r.pending_index r.pending h),
      ))

  -- The first change is taken off what is left.
  abbrev Taken : LedgerChangeReader x → Change x → LedgerChangeReader x → Type 0
  Taken r c r' = Ready r' × (left r ≡ and_then (some (c ∷ [])) (left r')) × (turns r' ≡ turns r)

  take_pending-Taken :
      (r : LedgerChangeReader x) (c : Change x)
      → nth r.pending_index r.pending ≡ some c
      → Taken r c (take_pending r)
  take_pending-Taken r c h =
      let more = left_in r r.state in
      let first = drop-nth r.pending_index r.pending c h in
      let lt = nth_below r.pending_index r.pending c h in
      if-cases (Taken r c) (r.pending_index + 1 == length r.pending)
        (λ last.
          let at_end : length (drop (r.pending_index + 1) r.pending) ≡ 0 =
            ground (arith, last, length-drop (r.pending_index + 1) r.pending) in
          let none_left = empty_of_length (drop (r.pending_index + 1) r.pending) at_end in
          (
            inl (refl, refl),
            ap (λ l. and_then (some l) more) (first ∙ ap (λ l. c ∷ l) none_left)
                ∙ ap (and_then (some (c ∷ []))) (then_nothing more),
            refl,
          ))
        (λ inside. (
          inr (ground (arith, lt, inside)),
          ap (λ l. and_then (some l) more) first
              ∙ then_assoc (some (c ∷ [])) (some (drop (r.pending_index + 1) r.pending)) more,
          refl,
        ))

  some_same_list : (a b : List (Change x)) → some a ≡ some b → a ≡ b
  some_same_list a b h = cc h

  cons_left :
      (c : Change x) (cs : List (Change x)) (o : Option (List (Change x)))
      → and_then (some (c ∷ [])) o ≡ some cs
      → (ds : List (Change x)) × (o ≡ some ds) × (c ∷ ds ≡ cs)
  cons_left c cs none h = cc h
  cons_left c cs (some ds) h = (ds, refl, some_same_list (c ∷ ds) cs h)

  read-by :
      (n : ℕ) (r : LedgerChangeReader x) (cs : List (Change x))
      → GoesOn (λ r'. read n r') n cs
      → Ready r
      → left r ≡ some cs
      → turns r ≤ n
      → Reads n cs (read (suc n) r)
  unfolding read Reads
  read-by n r cs more ready h le =
      elim (nth r.pending_index r.pending)
          as (λ o.
            nth r.pending_index r.pending ≡ o
            → Reads n cs (elim o [
              | some c ↦ change c (take_pending r)
              | none ↦ fetch (λ r'. read n r') r r.state
            ])) [
              | none ↦ λ e.
                  let (p, q) = nothing_pending r ready e in
                  let here =
                    then_nothing (left_in r r.state)
                    ∙ (ap (λ l. and_then (some l) (left_in r r.state))
                          (sym (drop-end r.pending_index r.pending e))
                        ∙ h) in
                  fetch-Reads (λ r'. read n r') n cs more r r.state refl p q here le
              | some c ↦ λ e.
                  let (ready', same, held) = take_pending-Taken r c e in
                  let (ds, rest, whole) = cons_left c cs (left (take_pending r)) (sym same ∙ h) in
                  subst (λ l. Reads n l (change c (take_pending r))) whole
                    (refl, ready', rest, omega (arith, held, le))
            ]
        refl

  -- A call of `Read` gives the first of the changes that are left, and leaves the others.
  pub read-Reads :
      (n : ℕ) (r : LedgerChangeReader x) (cs : List (Change x))
      → Ready r
      → left r ≡ some cs
      → turns r ≤ n
      → Reads n cs (read (suc n) r)
  read-Reads zero r cs ready h le =
      read-by zero r cs (λ r' k e lt. absurd (omega (arith, lt))) ready h le
  read-Reads (suc n) r cs ready h le =
      read-by (suc n) r cs
        (λ r' k e lt.
          Reads-more n cs (read (suc n) r') (read-Reads n r' cs k e (omega (arith, lt))))
        ready h le
