-- ===== src/Changes/Transactions.antt =====
-- ingest/io/ledger_transaction.go: the changes of a transaction. The result and the envelope are read
-- only for whether the transaction failed with an internal error.
use aurorav1_11_0_test.Base.{ℕ, Bool, Option, none, some, List, [], ◌∷◌, ◌++◌, if◌then◌else◌}
use aurorav1_11_0_test.Changes.{Entries, Change, EntryChange, get_changes_from_ledger_entry_changes}

module _ (x : Entries) where
  -- `xdr.TransactionMeta`, with the changes of the operations; another version is `v_other`.
  pub data TransactionMeta : Type 0 where
    v0 : TransactionMeta
    v1 :
        (tx_changes : List (EntryChange x)) (operations : List (List (EntryChange x)))
        → TransactionMeta
    v2 :
        (before : List (EntryChange x)) (operations : List (List (EntryChange x)))
        (after : List (EntryChange x))
        → TransactionMeta
    v_other : ℕ → TransactionMeta

  pub record LedgerTransaction : Type 0 where
    pub index : ℕ
    pub tx_internal_error : Bool
    pub fee_changes : List (EntryChange x)
    pub tx_meta : TransactionMeta

  -- Changes, or an error for the version, or a panic.
  pub data Fetched : Type 0 where
    fetched : List (Change x) → Fetched
    not_supported panicked : Fetched

module _ {x : Entries} where
  abbrev pub and_then :
      Option (List (Change x)) → Option (List (Change x)) → Option (List (Change x))
  and_then (some cs) (some ds) = some (cs ++ ds)
  and_then (some cs) none = none
  and_then none ds = none

  abbrev pub or_panicked : Option (List (Change x)) → Fetched x
  or_panicked (some cs) = fetched cs
  or_panicked none = panicked

  unfoldable pub get_fee_changes : LedgerTransaction x → Fetched x
  get_fee_changes t = or_panicked (get_changes_from_ledger_entry_changes t.fee_changes)

  -- The loop over the operations.
  unfoldable pub operations_changes : List (List (EntryChange x)) → Option (List (Change x))
  operations_changes [] = some []
  operations_changes (cs ∷ operations) =
      and_then (get_changes_from_ledger_entry_changes cs) (operations_changes operations)

  abbrev changes_of_meta : Bool → TransactionMeta x → Fetched x
  changes_of_meta failed v0 = not_supported
  changes_of_meta failed (v1 tx_changes operations) =
      let first = get_changes_from_ledger_entry_changes tx_changes in
      or_panicked (if failed then first else and_then first (operations_changes operations))
  changes_of_meta failed (v2 before operations after) =
      let first = get_changes_from_ledger_entry_changes before in
      let last = get_changes_from_ledger_entry_changes after in
      or_panicked
        (if failed then first else and_then first (and_then (operations_changes operations) last))
  changes_of_meta failed (v_other n) = not_supported

  unfoldable pub get_changes : LedgerTransaction x → Fetched x
  unfolding operations_changes
  get_changes t = changes_of_meta t.tx_internal_error t.tx_meta
