-- ===== src/Changes/Examples.antt =====
-- Changes of entries that are a key and a balance.
use Prim.Native.String.{String}
use text.Mathlib.Text.{◌==◌ as same}
use text.Mathlib.TextEquality.{eq_iff}
use aurorav1_11_0_test.Base.{ℕ, none, some, List, [], ◌∷◌, ◌≡◌, ◌↔◌, refl, arith, if◌then◌else◌}
use aurorav1_11_0_test.Base.Maps.{Map, lookup, put, delete}
use aurorav1_11_0_test.Changes.{
  Entries, Change, create, update, remove, get_changes_from_ledger_entry_changes,
}
use aurorav1_11_0_test.Changes.Cache.{
  ok, add_change, add_changes, get_changes, size, new_ledger_entry_change_cache,
}
use aurorav1_11_0_test.Changes.Squash.{Ledger, Applies, Squashed, Leads, add_change-Leads}
use aurorav1_11_0_test.Changes.Stream.{
  done, follow, add_changes-new, add_change-Refused, Contradicts, Refused,
}
use aurorav1_11_0_test.Changes.Flatten.{
  Pair, creates, updates, removes, written, changes_of, get_changes-written,
}

abbrev pairs : Entries
pairs = record {
  Entry = String × ℕ;
  Key = String;
  Kind = Unit {0};
  ledger_key = λ e. e.0;
  marshal = λ k. some k;
  key_kind = λ k. tt;
  kind = λ e. tt;
}

abbrev alice_1 : String × ℕ
alice_1 = ("alice", 1)

abbrev alice_2 : String × ℕ
alice_2 = ("alice", 2)

abbrev creation : Change pairs
creation = create alice_1

abbrev payment : Change pairs
payment = update alice_1 alice_2

-- An account that is made and paid in one ledger.
abbrev two_changes : List (Change pairs)
two_changes = creation ∷ payment ∷ []

abbrev paid_cache : Map (Change pairs)
paid_cache = ("alice", create alice_2) ∷ []

squashed_to_one : add_changes two_changes (new_ledger_entry_change_cache pairs) ≡ ok paid_cache
unfolding add_changes add_change new_ledger_entry_change_cache put
squashed_to_one = refl

one_change : get_changes paid_cache ≡ create alice_2 ∷ []
unfolding get_changes
one_change = refl

one_entry : size paid_cache ≡ 1
unfolding size
one_entry = refl

removed_again :
    add_changes (create alice_1 ∷ remove alice_1 ∷ []) (new_ledger_entry_change_cache pairs) ≡ ok []
unfolding add_changes add_change new_ledger_entry_change_cache put delete
removed_again = refl

abbrev nobody : Ledger pairs
nobody k = none

abbrev only : String × ℕ → Ledger pairs
only e k = if same e.0 k then some e else none

creation-Applies : Applies creation "alice" nobody (only alice_1)
creation-Applies = record {
  pre_key = tt;
  post_key = refl;
  proper = λ z. cc;
  before = refl;
  after = refl;
  elsewhere = λ j e. rw e;
}

payment-Applies : Applies payment "alice" (only alice_1) (only alice_2)
payment-Applies = record {
  pre_key = refl;
  post_key = refl;
  proper = λ z. cc;
  before = refl;
  after = refl;
  elsewhere = λ j e. rw e;
}

nothing_cached : Squashed {x = pairs} nobody nobody []
unfolding lookup
nothing_cached j = refl

add_change-Leads_example : Leads nobody (only alice_1) (add_change creation [])
add_change-Leads_example =
    add_change-Leads creation "alice" [] nobody nobody (only alice_1) nothing_cached
      creation-Applies

add_changes-new_example :
    Leads nobody (only alice_2) (add_changes two_changes (new_ledger_entry_change_cache pairs))
add_changes-new_example =
    add_changes-new nobody (only alice_2) two_changes
      (follow "alice" creation-Applies (follow "alice" payment-Applies done))

paid_cache-Squashed : Squashed {x = pairs} nobody (only alice_2) paid_cache
unfolding lookup
paid_cache-Squashed j = ground (arith, eq_iff "alice" j)

add_change-Refused_example :
    Refused (add_change creation paid_cache) ↔ Contradicts creation (only alice_2 "alice")
unfolding lookup
add_change-Refused_example =
    add_change-Refused creation "alice" paid_cache nobody (only alice_2) paid_cache-Squashed
      (create alice_2) refl (λ z. cc) tt refl

abbrev three_pairs : List (Pair pairs)
three_pairs = creates alice_1 ∷ updates alice_1 alice_2 ∷ removes alice_2 ∷ []

get_changes-written_example :
    get_changes_from_ledger_entry_changes (written three_pairs) ≡ some (changes_of three_pairs)
get_changes-written_example = get_changes-written three_pairs
