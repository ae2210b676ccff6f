-- ===== src/Changes/Fetching.antt =====
-- What the reader of a ledger's changes fetches when nothing is pending.
use aurorav1_11_0_test.Base.{
  ℕ, ◌+◌, ◌<◌, ◌≤◌, ◌≡◌, inl, inr, refl, sym, ap, subst, ◌∙◌, Option, none, some, List, [], ◌∷◌,
  ◌++◌, drop, nth, length-append, nth_below, arith,
}
use aurorav1_11_0_test.Changes.{Entries, Change, EntryChange}
use aurorav1_11_0_test.Changes.Transactions.{
  LedgerTransaction, Fetched, fetched, not_supported, or_panicked, and_then, get_fee_changes,
  get_changes,
}
use aurorav1_11_0_test.Changes.Transactions
use aurorav1_11_0_test.Changes.Reader.{
  State, fee_changes_state, meta_changes_state, upgrade_changes_state, LedgerChangeReader,
  ReadResult, change, eof, pend, read_fees, read_meta, read_upgrade, fetch,
}
use aurorav1_11_0_test.Changes.Left.{
  before, all_changes, upgrade_changes, upgrades_left, left_in, left, turns_in, turns, Ready,
  then_nothing, before-then, all_changes-step, all_changes-end,
}

module _ {x : Entries} where
  -- A call gives the first of these changes, and the others are left; or it ends.
  unfoldable pub Reads : ℕ → List (Change x) → ReadResult x → Type 0
  Reads n [] (eof r) = Ready r × (left r ≡ some [])
  Reads n (c ∷ cs) (change d r) = (d ≡ c) × Ready r × (left r ≡ some cs) × (turns r ≤ n)
  Reads n cs other = ⊥

  Ready-pend :
      (r : LedgerChangeReader x) (cs : List (Change x))
      → r.pending ≡ []
      → r.pending_index ≡ 0
      → Ready (record r { pending = r.pending ++ cs })
  Ready-pend r [] p q = inl (ap (λ l. l ++ []) p, q)
  Ready-pend r (c ∷ cs) p q = inr (omega (arith, q, length-append r.pending (c ∷ cs)))

  -- The call that follows a fetch, in whatever state.
  abbrev pub GoesOn : (LedgerChangeReader x → ReadResult x) → ℕ → List (Change x) → Type 0
  GoesOn next n cs =
      (r : LedgerChangeReader x) → Ready r → left r ≡ some cs → turns r < n → Reads n cs (next r)

  pend-Reads :
      (next : LedgerChangeReader x → ReadResult x) (n : ℕ) (cs : List (Change x))
      (r : LedgerChangeReader x) (f : Fetched x)
      → GoesOn next n cs
      → r.pending ≡ []
      → r.pending_index ≡ 0
      → before f (left_in r r.state) ≡ some cs
      → turns r < n
      → Reads n cs (pend next r f)
  pend-Reads next n cs r (fetched ds) more p q h lt =
      let all : drop r.pending_index (r.pending ++ ds) ≡ ds = rw (p, q) refl in
      more (record r { pending = r.pending ++ ds }) (Ready-pend r ds p q)
        (ap (λ l. and_then (some l) (left_in r r.state)) all ∙ h) lt
  pend-Reads next n cs r not_supported more p q h lt = cc h
  pend-Reads next n cs r Transactions.panicked more p q h lt = cc h

  module _ (next : LedgerChangeReader x → ReadResult x) (n : ℕ) (cs : List (Change x))
      (more : GoesOn next n cs) where
    idle :
        (r : LedgerChangeReader x)
        → r.pending ≡ []
        → r.pending_index ≡ 0
        → drop r.pending_index r.pending ≡ []
    idle r p q = rw (p, q) refl

    -- The reader turns to another state.
    turn :
        (r : LedgerChangeReader x)
        → r.pending ≡ []
        → r.pending_index ≡ 0
        → left_in r r.state ≡ some cs
        → turns r < n
        → Reads n cs (next r)
    turn r p q h lt =
        more r (inl (p, q))
          (ap (λ l. and_then (some l) (left_in r r.state)) (idle r p q)
            ∙ (sym (then_nothing (left_in r r.state)) ∙ h))
          lt

    read_fees-Reads :
        (r : LedgerChangeReader x) (o : Option (LedgerTransaction x))
        → nth r.read_idx r.transactions ≡ o
        → r.state ≡ fee_changes_state
        → r.pending ≡ []
        → r.pending_index ≡ 0
        → left_in r fee_changes_state ≡ some cs
        → turns_in r fee_changes_state ≤ n
        → Reads n cs (read_fees next r o)
    read_fees-Reads r none e st p q h lt =
        turn (record r { read_idx = 0; state = meta_changes_state }) p q
          (then_nothing (left_in (record r { read_idx = 0 }) meta_changes_state)
            ∙ (ap (λ o. and_then o (left_in (record r { read_idx = 0 }) meta_changes_state))
                  (sym (all_changes-end get_fee_changes r.read_idx r.transactions e))
                ∙ h))
          (omega (arith, lt))
    read_fees-Reads r (some t) e st p q h lt =
        let r' : LedgerChangeReader x = record r { read_idx = r.read_idx + 1 } in
        let after = and_then (all_changes get_changes r.transactions) (upgrades_left r) in
        let here =
          sym (
            before-then (get_fee_changes t)
              (all_changes get_fee_changes (drop (r.read_idx + 1) r.transactions)) after)
          ∙ (ap (λ o. and_then o after)
                (sym (all_changes-step get_fee_changes r.read_idx r.transactions t e))
              ∙ h) in
        pend-Reads next n cs r' (get_fee_changes t) more p q
          (subst (λ s. before (get_fee_changes t) (left_in r' s) ≡ some cs) (sym st) here)
          (subst (λ s. turns_in r' s < n) (sym st)
            (omega (arith, lt, nth_below r.read_idx r.transactions t e)))

    read_meta-Reads :
        (r : LedgerChangeReader x) (o : Option (LedgerTransaction x))
        → nth r.read_idx r.transactions ≡ o
        → r.state ≡ meta_changes_state
        → r.pending ≡ []
        → r.pending_index ≡ 0
        → left_in r meta_changes_state ≡ some cs
        → turns_in r meta_changes_state ≤ n
        → Reads n cs (read_meta next r o)
    read_meta-Reads r none e st p q h lt =
        turn (record r { state = upgrade_changes_state }) p q
          (then_nothing (upgrades_left r)
            ∙ (ap (λ o. and_then o (upgrades_left r))
                  (sym (all_changes-end get_changes r.read_idx r.transactions e))
                ∙ h))
          (omega (arith, lt))
    read_meta-Reads r (some t) e st p q h lt =
        let r' : LedgerChangeReader x = record r { read_idx = r.read_idx + 1 } in
        let here =
          sym (
            before-then (get_changes t)
              (all_changes get_changes (drop (r.read_idx + 1) r.transactions)) (upgrades_left r))
          ∙ (ap (λ o. and_then o (upgrades_left r))
                (sym (all_changes-step get_changes r.read_idx r.transactions t e))
              ∙ h) in
        pend-Reads next n cs r' (get_changes t) more p q
          (subst (λ s. before (get_changes t) (left_in r' s) ≡ some cs) (sym st) here)
          (subst (λ s. turns_in r' s < n) (sym st)
            (omega (arith, lt, nth_below r.read_idx r.transactions t e)))

    pub some_same : (a b : List (Change x)) → some a ≡ some b → a ≡ b
    some_same a b h = cc h

    read_upgrade-Reads :
        (r : LedgerChangeReader x) (o : Option (List (EntryChange x)))
        → nth r.upgrade_index r.upgrades_processing ≡ o
        → r.state ≡ upgrade_changes_state
        → r.pending ≡ []
        → r.pending_index ≡ 0
        → upgrades_left r ≡ some cs
        → turns_in r upgrade_changes_state ≤ n
        → Reads n cs (read_upgrade next r o)
    unfolding Reads
    read_upgrade-Reads r none e st p q h lt =
        let done = all_changes-end upgrade_changes r.upgrade_index r.upgrades_processing e in
        let same = some_same [] cs (sym done ∙ h) in
        let rest : left r ≡ some [] =
          ap (λ l. and_then (some l) (left_in r r.state)) (idle r p q)
          ∙ (sym (then_nothing (left_in r r.state))
              ∙ subst (λ s. left_in r s ≡ some []) (sym st) done) in
        subst (λ l. Reads n l (eof r)) same (inl (p, q), rest)
    read_upgrade-Reads r (some us) e st p q h lt =
        let r' : LedgerChangeReader x = record r { upgrade_index = r.upgrade_index + 1 } in
        let here =
          sym (all_changes-step upgrade_changes r.upgrade_index r.upgrades_processing us e) ∙ h in
        pend-Reads next n cs r' (upgrade_changes us) more p q
          (subst (λ s. before (upgrade_changes us) (left_in r' s) ≡ some cs) (sym st) here)
          (subst (λ s. turns_in r' s < n) (sym st)
            (omega (arith, lt, nth_below r.upgrade_index r.upgrades_processing us e)))

    pub fetch-Reads :
        (r : LedgerChangeReader x) (s : State)
        → r.state ≡ s
        → r.pending ≡ []
        → r.pending_index ≡ 0
        → left_in r s ≡ some cs
        → turns_in r s ≤ n
        → Reads n cs (fetch next r s)
    fetch-Reads r fee_changes_state st p q h lt =
        read_fees-Reads r (nth r.read_idx r.transactions) refl st p q h lt
    fetch-Reads r meta_changes_state st p q h lt =
        read_meta-Reads r (nth r.read_idx r.transactions) refl st p q h lt
    fetch-Reads r upgrade_changes_state st p q h lt =
        read_upgrade-Reads r (nth r.upgrade_index r.upgrades_processing) refl st p q h lt
