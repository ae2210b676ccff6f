-- ===== src/Changes/Left.antt =====
-- What the reader of a ledger's changes still has to give.
use aurorav1_11_0_test.Base.{
  ℕ, ◌+◌, ◌-◌, ◌<◌, ◌≡◌, ◌⊎◌, refl, ap, Option, none, some, List, [], ◌∷◌, length, drop, nth,
  append_assoc, drop-nth, drop-end,
}
use aurorav1_11_0_test.Changes.{Entries, Change, EntryChange, get_changes_from_ledger_entry_changes}
use aurorav1_11_0_test.Changes.Transactions.{
  LedgerTransaction, Fetched, fetched, not_supported, or_panicked, and_then, get_fee_changes,
  get_changes,
}
use aurorav1_11_0_test.Changes.Transactions
use aurorav1_11_0_test.Changes.Reader.{
  State, fee_changes_state, meta_changes_state, upgrade_changes_state, LedgerChangeReader,
}

module _ {x : Entries} where
  abbrev pub before : Fetched x → Option (List (Change x)) → Option (List (Change x))
  before (fetched cs) o = and_then (some cs) o
  before not_supported o = none
  before Transactions.panicked o = none

  -- The changes of all, one after the other, if all have them.
  unfoldable pub all_changes : {A : Type 0} → (A → Fetched x) → List A → Option (List (Change x))
  all_changes f [] = some []
  all_changes f (a ∷ rest) = before (f a) (all_changes f rest)

  abbrev pub upgrade_changes : List (EntryChange x) → Fetched x
  upgrade_changes cs = or_panicked (get_changes_from_ledger_entry_changes cs)

  abbrev pub upgrades_left : LedgerChangeReader x → Option (List (Change x))
  upgrades_left r = all_changes upgrade_changes (drop r.upgrade_index r.upgrades_processing)

  abbrev pub left_in : LedgerChangeReader x → State → Option (List (Change x))
  left_in r fee_changes_state =
      and_then (all_changes get_fee_changes (drop r.read_idx r.transactions))
        (and_then (all_changes get_changes r.transactions) (upgrades_left r))
  left_in r meta_changes_state =
      and_then (all_changes get_changes (drop r.read_idx r.transactions)) (upgrades_left r)
  left_in r upgrade_changes_state = upgrades_left r

  -- What is still to be read.
  abbrev pub left : LedgerChangeReader x → Option (List (Change x))
  left r = and_then (some (drop r.pending_index r.pending)) (left_in r r.state)

  -- A bound of the calls to come.
  abbrev pub turns_in : LedgerChangeReader x → State → ℕ
  turns_in r fee_changes_state =
      length r.transactions
      - r.read_idx
      + length r.transactions
      + 2
      + (length r.upgrades_processing - r.upgrade_index)
  turns_in r meta_changes_state =
      length r.transactions - r.read_idx + 1 + (length r.upgrades_processing - r.upgrade_index)
  turns_in r upgrade_changes_state = length r.upgrades_processing - r.upgrade_index

  abbrev pub turns : LedgerChangeReader x → ℕ
  turns r = turns_in r r.state

  -- The index is inside what is pending, if anything is.
  abbrev pub Ready : LedgerChangeReader x → Type 0
  Ready r = ((r.pending ≡ []) × (r.pending_index ≡ 0)) ⊎ (r.pending_index < length r.pending)

  pub then_assoc :
      (a b c : Option (List (Change x))) → and_then (and_then a b) c ≡ and_then a (and_then b c)
  then_assoc none b c = refl
  then_assoc (some ks) none c = refl
  then_assoc (some ks) (some bs) none = refl
  then_assoc (some ks) (some bs) (some cs) = ap some (append_assoc ks bs cs)

  pub then_nothing : (o : Option (List (Change x))) → o ≡ and_then (some []) o
  then_nothing none = refl
  then_nothing (some cs) = refl

  pub before-then :
      (f : Fetched x) (a b : Option (List (Change x)))
      → and_then (before f a) b ≡ before f (and_then a b)
  before-then (fetched cs) a b = then_assoc (some cs) a b
  before-then not_supported a b = refl
  before-then Transactions.panicked a b = refl

  pub all_changes-step :
      {A : Type 0} (f : A → Fetched x) (n : ℕ) (xs : List A) (a : A)
      → nth n xs ≡ some a
      → all_changes f (drop n xs) ≡ before (f a) (all_changes f (drop (n + 1) xs))
  unfolding all_changes
  all_changes-step f n xs a h = ap (all_changes f) (drop-nth n xs a h)

  pub all_changes-end :
      {A : Type 0} (f : A → Fetched x) (n : ℕ) (xs : List A)
      → nth n xs ≡ none
      → all_changes f (drop n xs) ≡ some []
  unfolding all_changes
  all_changes-end f n xs h = ap (all_changes f) (drop-end n xs h)
