-- ===== src/Changes/ReadAll.antt =====
-- The reader of a ledger's changes gives them all, in order.
use aurorav1_11_0_test.Base.{
  ℕ, zero, suc, ◌+◌, ◌*◌, ◌<◌, ◌≤◌, ◌≡◌, inl, refl, ap, Option, none, some, List, [], ◌∷◌, ◌++◌,
  length, arith,
}
use aurorav1_11_0_test.Changes.{Entries, Change, EntryChange}
use aurorav1_11_0_test.Changes.Transactions.{
  LedgerTransaction, and_then, get_fee_changes, get_changes,
}
use aurorav1_11_0_test.Changes.Reader.{
  State, fee_changes_state, meta_changes_state, upgrade_changes_state, LedgerChangeReader,
  ReadResult, change, eof, failed, exhausted, new_ledger_change_reader, take_pending, pend,
  read_fees, read_meta, read_upgrade, fetch, read,
}
use aurorav1_11_0_test.Changes.Reader
use aurorav1_11_0_test.Changes.Left.{all_changes, upgrade_changes, left, turns, Ready}
use aurorav1_11_0_test.Changes.Fetching.{Reads}
use aurorav1_11_0_test.Changes.Ordered.{read-Reads}

module _ {x : Entries} where
  -- The caller's loop goes on after a change.
  abbrev continued :
      (LedgerChangeReader x → Option (List (Change x))) → ReadResult x → Option (List (Change x))
  continued next (change c r) = and_then (some (c ∷ [])) (next r)
  continued next (eof r) = some []
  continued next other = none

  -- Calls of `Read` until there is no change left, at most so many.
  unfoldable pub read_all : ℕ → ℕ → LedgerChangeReader x → Option (List (Change x))
  read_all zero fuel r = none
  read_all (suc k) fuel r = continued (λ r'. read_all k fuel r') (read fuel r)

  continued-Reads :
      (next : LedgerChangeReader x → Option (List (Change x))) (n : ℕ) (cs : List (Change x))
      (res : ReadResult x)
      → ((r : LedgerChangeReader x) (ds : List (Change x))
          → Ready r
          → left r ≡ some ds
          → turns r ≤ n
          → length ds < length cs
          → next r ≡ some ds)
      → Reads n cs res
      → continued next res ≡ some cs
  unfolding Reads
  continued-Reads next n [] (change c r) more h = absurd h
  continued-Reads next n [] (eof r) more h = refl
  continued-Reads next n [] (failed r) more h = absurd h
  continued-Reads next n [] Reader.panicked more h = absurd h
  continued-Reads next n [] exhausted more h = absurd h
  continued-Reads next n (c ∷ cs) (change d r) more (same, ready, rest, le) =
      rw (more r cs ready rest le (omega arith)) (ap (λ l. some (l ∷ cs)) same)
  continued-Reads next n (c ∷ cs) (eof r) more h = absurd h
  continued-Reads next n (c ∷ cs) (failed r) more h = absurd h
  continued-Reads next n (c ∷ cs) Reader.panicked more h = absurd h
  continued-Reads next n (c ∷ cs) exhausted more h = absurd h

  read_all-left :
      (k n : ℕ) (r : LedgerChangeReader x) (cs : List (Change x))
      → Ready r
      → left r ≡ some cs
      → turns r ≤ n
      → length cs < k
      → read_all k (suc n) r ≡ some cs
  unfolding read_all
  read_all-left zero n r cs ready h le lt = absurd (omega (arith, lt))
  read_all-left (suc k) n r cs ready h le lt =
      continued-Reads (λ r'. read_all k (suc n) r') n cs (read (suc n) r)
        (λ r' ds ready' h' le' shorter.
          read_all-left k n r' ds ready' h' le' (omega (arith, lt, shorter)))
        (read-Reads n r cs ready h le)

  -- A new reader, over transactions and upgrades whose changes can all be read: calls of `Read` with
  -- fuel for every transaction twice and for every upgrade give the fee changes of all transactions,
  -- then the changes of all of them, then those of the upgrades, in order, and then the end.
  pub read_all-ordered :
      (transactions : List (LedgerTransaction x)) (upgrades : List (List (EntryChange x)))
      (fees metas ups : List (Change x))
      → all_changes get_fee_changes transactions ≡ some fees
      → all_changes get_changes transactions ≡ some metas
      → all_changes upgrade_changes upgrades ≡ some ups
      → read_all
          (length (fees ++ (metas ++ ups)) + 1)
          (2 * length transactions + length upgrades + 3)
          (new_ledger_change_reader transactions upgrades)
        ≡ some (fees ++ (metas ++ ups))
  read_all-ordered transactions upgrades fees metas ups f m u =
      let fuel : 2 * length transactions + length upgrades + 3
          ≡ suc (2 * length transactions + length upgrades + 2) =
        omega arith in
      let r = new_ledger_change_reader transactions upgrades in
      let rest : left r ≡ some (fees ++ (metas ++ ups)) = rw (f, m, u) refl in
      rw fuel (
        read_all-left (length (fees ++ (metas ++ ups)) + 1)
          (2 * length transactions + length upgrades + 2) r (fees ++ (metas ++ ups))
          (inl (refl, refl)) rest (omega arith) (omega arith))
