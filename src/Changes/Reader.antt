-- ===== src/Changes/Reader.antt =====
-- ingest/io/ledger_change_reader.go over ledger_transaction_reader.go: the changes of a ledger one by
-- one. The transactions are those that `storeTransactions` makes.
use aurorav1_11_0_test.Base.{
  ℕ, zero, suc, ◌+◌, ◌==◌, if◌then◌else◌, Option, none, some, List, [], ◌++◌, length, nth,
}
use aurorav1_11_0_test.Changes.{Entries, Change, EntryChange, get_changes_from_ledger_entry_changes}
use aurorav1_11_0_test.Changes.Transactions.{
  LedgerTransaction, Fetched, fetched, not_supported, or_panicked, get_fee_changes, get_changes,
}
use aurorav1_11_0_test.Changes.Transactions

pub data State : Type 0 where
  fee_changes_state meta_changes_state upgrade_changes_state : State

module _ (x : Entries) where
  pub record LedgerChangeReader : Type 0 where
    pub transactions : List (LedgerTransaction x)
    pub read_idx : ℕ
    pub upgrades_processing : List (List (EntryChange x))
    pub state : State
    pub pending : List (Change x)
    pub pending_index : ℕ
    pub upgrade_index : ℕ

  -- `exhausted` is the lack of fuel.
  pub data ReadResult : Type 0 where
    change : Change x → LedgerChangeReader → ReadResult
    eof failed : LedgerChangeReader → ReadResult
    panicked exhausted : ReadResult

module _ {x : Entries} where
  abbrev pub new_ledger_change_reader :
      List (LedgerTransaction x) → List (List (EntryChange x)) → LedgerChangeReader x
  new_ledger_change_reader transactions upgrades = record {
    transactions = transactions;
    read_idx = 0;
    upgrades_processing = upgrades;
    state = fee_changes_state;
    pending = [];
    pending_index = 0;
    upgrade_index = 0;
  }

  -- After a pending change was taken.
  abbrev pub take_pending : LedgerChangeReader x → LedgerChangeReader x
  take_pending r =
      if r.pending_index + 1 == length r.pending
      then record r { pending_index = 0; pending = [] }
      else record r { pending_index = r.pending_index + 1 }

  -- The reader goes on after it has fetched changes.
  abbrev pub pend :
      (LedgerChangeReader x → ReadResult x) → LedgerChangeReader x → Fetched x → ReadResult x
  pend next r (fetched cs) = next (record r { pending = r.pending ++ cs })
  pend next r not_supported = failed r
  pend next r Transactions.panicked = panicked

  abbrev pub read_fees :
      (LedgerChangeReader x → ReadResult x)
      → LedgerChangeReader x
      → Option (LedgerTransaction x)
      → ReadResult x
  read_fees next r none = next (record r { read_idx = 0; state = meta_changes_state })
  read_fees next r (some t) = pend next (record r { read_idx = r.read_idx + 1 }) (get_fee_changes t)

  abbrev pub read_meta :
      (LedgerChangeReader x → ReadResult x)
      → LedgerChangeReader x
      → Option (LedgerTransaction x)
      → ReadResult x
  read_meta next r none = next (record r { state = upgrade_changes_state })
  read_meta next r (some t) = pend next (record r { read_idx = r.read_idx + 1 }) (get_changes t)

  abbrev pub read_upgrade :
      (LedgerChangeReader x → ReadResult x)
      → LedgerChangeReader x
      → Option (List (EntryChange x))
      → ReadResult x
  read_upgrade next r none = eof r
  read_upgrade next r (some cs) =
      pend next (record r { upgrade_index = r.upgrade_index + 1 })
        (or_panicked (get_changes_from_ledger_entry_changes cs))

  -- Nothing is pending.
  abbrev pub fetch :
      (LedgerChangeReader x → ReadResult x) → LedgerChangeReader x → State → ReadResult x
  fetch next r fee_changes_state = read_fees next r (nth r.read_idx r.transactions)
  fetch next r meta_changes_state = read_meta next r (nth r.read_idx r.transactions)
  fetch next r upgrade_changes_state =
      read_upgrade next r (nth r.upgrade_index r.upgrades_processing)

  -- `Read` calls itself until something is pending, which the fuel bounds.
  unfoldable pub read : ℕ → LedgerChangeReader x → ReadResult x
  read zero r = exhausted
  read (suc n) r = elim (nth r.pending_index r.pending) [
    | some c ↦ change c (take_pending r)
    | none ↦ fetch (λ r'. read n r') r r.state
  ]
