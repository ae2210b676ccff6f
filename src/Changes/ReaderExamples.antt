-- ===== src/Changes/ReaderExamples.antt =====
-- A ledger with two transactions and an upgrade.
use Prim.Native.String.{String}
use aurorav1_11_0_test.Base.{ℕ, some, true, false, List, [], ◌∷◌, ◌++◌, ◌≡◌, refl}
use aurorav1_11_0_test.Changes.{
  Entries, Change, EntryChange, created, updated, state, create, update,
  get_changes_from_ledger_entry_changes,
}
use aurorav1_11_0_test.Changes.Transactions.{
  LedgerTransaction, v1, v2, get_fee_changes, get_changes,
}
use aurorav1_11_0_test.Changes.Reader.{new_ledger_change_reader}
use aurorav1_11_0_test.Changes.Left.{all_changes, upgrade_changes}
use aurorav1_11_0_test.Changes.ReadAll.{read_all, read_all-ordered}

abbrev pairs : Entries
pairs = record {
  Entry = String × ℕ;
  Key = String;
  Kind = Unit {0};
  ledger_key = λ e. e.0;
  marshal = λ k. some k;
  key_kind = λ k. tt;
  kind = λ e. tt;
}

-- A payment, and a transaction that failed with an internal error after its fee was taken.
abbrev transactions : List (LedgerTransaction pairs)
transactions =
    record {
      index = 1;
      tx_internal_error = false;
      fee_changes = state ("alice", 9) ∷ updated ("alice", 8) ∷ [];
      tx_meta =
          v2 [] ((state ("alice", 8) ∷ updated ("alice", 5) ∷ []) ∷ []) (created ("bob", 3) ∷ []);
    }
    ∷ record {
      index = 2;
      tx_internal_error = true;
      fee_changes = state ("carol", 4) ∷ updated ("carol", 3) ∷ [];
      tx_meta =
          v1 (state ("carol", 3) ∷ updated ("carol", 3) ∷ []) ((created ("dave", 1) ∷ []) ∷ []);
    }
    ∷ []

abbrev upgrades : List (List (EntryChange pairs))
upgrades = (created ("fees", 1) ∷ []) ∷ []

abbrev fees : List (Change pairs)
fees = update ("alice", 9) ("alice", 8) ∷ update ("carol", 4) ("carol", 3) ∷ []

-- The operation of the transaction that failed is left out.
abbrev metas : List (Change pairs)
metas = update ("alice", 8) ("alice", 5) ∷ create ("bob", 3) ∷ update ("carol", 3) ("carol", 3) ∷ []

abbrev ups : List (Change pairs)
ups = create ("fees", 1) ∷ []

fees_read : all_changes get_fee_changes transactions ≡ some fees
unfolding all_changes get_fee_changes get_changes_from_ledger_entry_changes
fees_read = refl

metas_read : all_changes get_changes transactions ≡ some metas
unfolding all_changes get_changes get_changes_from_ledger_entry_changes
metas_read = refl

ups_read : all_changes upgrade_changes upgrades ≡ some ups
unfolding all_changes get_changes_from_ledger_entry_changes
ups_read = refl

read_all-ordered_example :
    read_all 7 8 (new_ledger_change_reader transactions upgrades) ≡ some (fees ++ (metas ++ ups))
read_all-ordered_example =
    read_all-ordered transactions upgrades fees metas ups fees_read metas_read ups_read
