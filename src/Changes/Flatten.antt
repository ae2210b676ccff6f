-- ===== src/Changes/Flatten.antt =====
-- The changes that the core writes for a list of changes are read back as that list.
use aurorav1_11_0_test.Base.{Option, none, some, List, [], ◌∷◌, ◌≡◌, refl}
use aurorav1_11_0_test.Changes.{
  Entries, Change, EntryChange, created, updated, state, removed, changes_after, create, update,
  remove, get_changes_from_ledger_entry_changes,
}

module _ (x : Entries) where
  open x use {Entry}

  -- The three kinds of a change, without the type that is derived from the entry.
  pub data Pair : Type 0 where
    creates : Entry → Pair
    updates : Entry → Entry → Pair
    removes : Entry → Pair

module _ {x : Entries} where
  open x use {ledger_key}

  pub change_of : Pair x → Change x
  change_of (creates b) = create b
  change_of (updates a b) = update a b
  change_of (removes a) = remove a

  -- As the core writes it: an update and a removal follow the state that they replace.
  pub written : List (Pair x) → List (EntryChange x)
  written [] = []
  written (creates b ∷ ps) = created b ∷ written ps
  written (updates a b ∷ ps) = state a ∷ updated b ∷ written ps
  written (removes a ∷ ps) = state a ∷ removed (ledger_key a) ∷ written ps

  pub changes_of : List (Pair x) → List (Change x)
  changes_of [] = []
  changes_of (p ∷ ps) = change_of p ∷ changes_of ps

  after-written :
      (previous : Option (EntryChange x)) (ps : List (Pair x))
      → changes_after previous (written ps) ≡ some (changes_of ps)
  unfolding changes_after written changes_of change_of
  after-written previous [] = refl
  after-written previous (creates b ∷ ps) = rw (after-written (some (created b)) ps)
  after-written previous (updates a b ∷ ps) = rw (after-written (some (updated b)) ps)
  after-written previous (removes a ∷ ps) = rw (after-written (some (removed (ledger_key a))) ps)

  -- What the core writes for a list of creations, updates and removals is read back as those changes,
  -- in their order, without a panic.
  pub get_changes-written :
      (ps : List (Pair x))
      → get_changes_from_ledger_entry_changes (written ps) ≡ some (changes_of ps)
  unfolding get_changes_from_ledger_entry_changes
  get_changes-written ps = after-written none ps
