-- ===== src/Changes.antt =====
-- ingest/io/change.go: the changes of ledger entries, as pairs of an entry before and after.
pub mod Cache
pub mod Squash
pub mod Stream
pub mod Flatten
pub mod Transactions
pub mod Reader
pub mod Left
pub mod Fetching
pub mod Ordered
pub mod ReadAll
mod ReaderExamples
mod Examples
use Prim.Native.String.{String}
use aurorav1_11_0_test.Base.{ℕ, Option, none, some, List, [], ◌∷◌}

-- What is read of an entry (xdr): its ledger key with the base64 form of that, where it can be
-- marshalled, and its type.
pub record Entries : Type 1 where
  pub Entry : Type 0
  pub Key : Type 0
  pub Kind : Type 0
  pub ledger_key : Entry → Key
  pub marshal : Key → Option String
  pub key_kind : Key → Kind
  pub kind : Entry → Kind

module _ (x : Entries) where
  open x use {Entry, Key, Kind, kind}

  pub record Change : Type 0 where
    pub type : Kind
    pub pre : Option Entry
    pub post : Option Entry

  -- An element of `xdr.LedgerEntryChanges`; `other` is a type that is none of the four.
  pub data EntryChange : Type 0 where
    created updated state : Entry → EntryChange
    removed : Key → EntryChange
    other : ℕ → EntryChange

-- `LedgerEntryChangeType`, where `none` is a panic.
pub data ChangeType : Type 0 where
  was_created was_updated was_removed : ChangeType

abbrev pub change_type {ℓ} : {A : Type ℓ} → Option A → Option A → Option ChangeType
change_type none (some b) = some was_created
change_type (some a) none = some was_removed
change_type (some a) (some b) = some was_updated
change_type none none = none

module _ {x : Entries} where
  open x use {Entry, kind}

  -- `MustState` of the element before; `none` is a panic.
  abbrev pub must_state : Option (EntryChange x) → Option Entry
  must_state (some (state e)) = some e
  must_state c = none

  abbrev pub create : Entry → Change x
  create e = record { type = kind e; pre = none; post = some e }

  abbrev pub update : Entry → Entry → Change x
  update a b = record { type = kind a; pre = some a; post = some b }

  abbrev pub remove : Entry → Change x
  remove a = record { type = kind a; pre = some a; post = none }

  abbrev pub after_state :
      Option Entry → (Entry → Change x) → Option (List (Change x)) → Option (List (Change x))
  after_state (some a) f (some rest) = some (f a ∷ rest)
  after_state (some a) f none = none
  after_state none f rest = none

  abbrev pub prepend : Change x → Option (List (Change x)) → Option (List (Change x))
  prepend c (some rest) = some (c ∷ rest)
  prepend c none = none

  -- The loop, with the element before the current one; `none` is a panic.
  unfoldable pub changes_after :
      Option (EntryChange x) → List (EntryChange x) → Option (List (Change x))
  changes_after previous [] = some []
  changes_after previous (created e ∷ cs) = prepend (create e) (changes_after (some (created e)) cs)
  changes_after previous (updated e ∷ cs) =
      after_state (must_state previous) (λ a. update a e) (changes_after (some (updated e)) cs)
  changes_after previous (removed k ∷ cs) =
      after_state (must_state previous) remove (changes_after (some (removed k)) cs)
  changes_after previous (state e ∷ cs) = changes_after (some (state e)) cs
  changes_after previous (other n ∷ cs) = none

  unfoldable pub get_changes_from_ledger_entry_changes :
      List (EntryChange x) → Option (List (Change x))
  unfolding changes_after
  get_changes_from_ledger_entry_changes = changes_after none
