-- ===== src/Changes/Cache.antt =====
-- ingest/io/ledger_entry_change_cache.go: the changes of one ledger, squashed to one for each entry.
-- The mutex makes every method atomic.
use Prim.Native.String.{String}
use aurorav1_11_0_test.Base.{ℕ, Option, none, some, List, [], ◌∷◌, length}
use aurorav1_11_0_test.Base.Maps.{Map, lookup, put, delete}
use aurorav1_11_0_test.Changes.{
  Entries, Change, ChangeType, was_created, was_updated, was_removed, change_type,
}

-- An error of `AddChange`: the last three are wrapped as a `StateError`.
pub data Error : Type 0 where
  marshal_failed unknown_change_state : Error
  already_exists update_of_removed remove_of_removed : String → Error

-- An error leaves the cache as it was.
pub data Added (x : Entries) : Type 0 where
  ok : Map (Change x) → Added x
  err : Error → Added x
  panicked : Added x

unfoldable pub new_ledger_entry_change_cache : (x : Entries) → Map (Change x)
new_ledger_entry_change_cache x = []

module _ {x : Entries} where
  open x use {Entry, ledger_key, marshal, key_kind}

  -- An existing change is replaced: it keeps what the entry was at first.
  abbrev pub squash : String → Entry → Option Entry → Change x → Map (Change x) → Added x
  squash k typed post old m =
      ok (put k (record { type = key_kind (ledger_key typed); pre = old.pre; post = post }) m)

  abbrev pub created_over : String → Entry → Map (Change x) → Change x → Option ChangeType → Added x
  created_over k post m old (some was_created) = err (already_exists k)
  created_over k post m old (some was_updated) = err (already_exists k)
  created_over k post m old (some was_removed) = squash k post (some post) old m
  created_over k post m old none = panicked

  abbrev pub updated_over : String → Entry → Map (Change x) → Change x → Option ChangeType → Added x
  updated_over k post m old (some was_created) = squash k post (some post) old m
  updated_over k post m old (some was_updated) = squash k post (some post) old m
  updated_over k post m old (some was_removed) = err (update_of_removed k)
  updated_over k post m old none = panicked

  abbrev pub removed_over : String → Entry → Map (Change x) → Change x → Option ChangeType → Added x
  removed_over k pre m old (some was_created) = ok (delete k m)
  removed_over k pre m old (some was_updated) = squash k pre none old m
  removed_over k pre m old (some was_removed) = err (remove_of_removed k)
  removed_over k pre m old none = panicked

  -- The shape of the three methods: the key, and what is cached there.
  abbrev pub at_key :
      Option String
      → Map (Change x)
      → Change x
      → (String → Change x → Option ChangeType → Added x)
      → Added x
  at_key none m c over = err marshal_failed
  at_key (some k) m c over = elim (lookup k m) [
    | none ↦ ok (put k c m)
    | some old ↦ over k old (change_type old.pre old.post)
  ]

  unfoldable pub add_created_change : Change x → Entry → Map (Change x) → Added x
  unfolding lookup
  add_created_change c post m = at_key (marshal (ledger_key post)) m c (λ k. created_over k post m)

  unfoldable pub add_updated_change : Change x → Entry → Map (Change x) → Added x
  unfolding lookup
  add_updated_change c post m = at_key (marshal (ledger_key post)) m c (λ k. updated_over k post m)

  unfoldable pub add_removed_change : Change x → Entry → Map (Change x) → Added x
  unfolding lookup
  add_removed_change c pre m = at_key (marshal (ledger_key pre)) m c (λ k. removed_over k pre m)

  abbrev pub add_by : Option Entry → Option Entry → Change x → Map (Change x) → Added x
  add_by none (some post) c m = add_created_change c post m
  add_by (some pre) (some post) c m = add_updated_change c post m
  add_by (some pre) none c m = add_removed_change c pre m
  add_by none none c m = err unknown_change_state

  unfoldable pub add_change : Change x → Map (Change x) → Added x
  unfolding add_created_change add_updated_change add_removed_change
  add_change c m = add_by c.pre c.post c m

  -- The values of the map: their order is not specified.
  unfoldable pub get_changes : Map (Change x) → List (Change x)
  get_changes [] = []
  get_changes ((k, c) ∷ m) = c ∷ get_changes m

  unfoldable pub size : Map (Change x) → ℕ
  size m = length m

  -- A ledger's changes are added one after the other; the first error stops the processing.
  unfoldable pub add_changes : List (Change x) → Map (Change x) → Added x
  add_changes [] m = ok m
  add_changes (c ∷ cs) m = elim (add_change c m) [
    | ok m' ↦ add_changes cs m'
    | err e ↦ err e
    | panicked ↦ panicked
  ]
