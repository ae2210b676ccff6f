-- ===== src/Changes/Stream.antt =====
-- The changes of a whole ledger, added one after the other to a new cache.
use Prim.Native.String.{String}
use aurorav1_11_0_test.Base.{
  Option, none, some, List, [], ◌∷◌, ◌≡◌, ◌≢◌, ◌↔◌, ◌⊎◌, inl, inr, refl, sym, subst, ◌∙◌,
}
use aurorav1_11_0_test.Base.Maps.{Map, lookup}
use aurorav1_11_0_test.Changes.{Entries, Change, change_type}
use aurorav1_11_0_test.Changes.Cache.{
  Added, ok, err, panicked, created_over, updated_over, removed_over, at_key, add_by,
  add_created_change, add_updated_change, add_removed_change, add_change, add_changes,
  new_ledger_entry_change_cache,
}
use aurorav1_11_0_test.Changes.Squash.{
  Ledger, HasKey, Applies, SquashedAt, Squashed, Leads, add_change-Leads,
}

-- The changes lead from ledger to ledger.
pub data Trail {x : Entries} : Ledger x → List (Change x) → Ledger x → Type 0 where
  done : {s : Ledger x} → Trail s [] s
  follow :
      {c : Change x} {cs : List (Change x)} {s s' s'' : Ledger x} (k : String)
      → Applies c k s s'
      → Trail s' cs s''
      → Trail s (c ∷ cs) s''

next-Leads :
    {x : Entries} (cs : List (Change x)) (s s' s'' : Ledger x) (r : Added x)
    → ((m : Map (Change x)) → Squashed s s' m → Leads s s'' (add_changes cs m))
    → Leads s s' r
    → Leads s s'' (elim r [ ok m ↦ add_changes cs m | err e ↦ err e | panicked ↦ panicked ])
next-Leads cs s s' s'' (ok m) f h = f m h
next-Leads cs s s' s'' (err e) f h = elim h [ ]
next-Leads cs s s' s'' panicked f h = elim h [ ]

add_changes-Leads :
    {x : Entries} (m : Map (Change x)) (s : Ledger x) {s' s'' : Ledger x} {cs : List (Change x)}
    → Squashed s s' m
    → Trail s' cs s''
    → Leads s s'' (add_changes cs m)
unfolding add_changes
add_changes-Leads m s h done = h
add_changes-Leads m s {s'} {s''} h (follow {c} {cs} {s' = t} k a rest) =
    next-Leads cs s t s'' (add_change c m) (λ m' h'. add_changes-Leads m' s h' rest)
      (add_change-Leads c k m s s' t h a)

nothing-Squashed : (x : Entries) (s : Ledger x) → Squashed {x = x} s s []
unfolding lookup
nothing-Squashed x s j = refl

-- Changes that lead from one ledger to another, added to a new cache one after the other, are accepted
-- without an error, and the cache holds for each entry that has changed one change that leads from
-- what the entry was in the first ledger to what it is in the last.
pub add_changes-new :
    {x : Entries} (s s'' : Ledger x) (cs : List (Change x))
    → Trail s cs s''
    → Leads s s'' (add_changes cs (new_ledger_entry_change_cache x))
unfolding new_ledger_entry_change_cache
add_changes-new {x} s s'' cs t = add_changes-Leads [] s (nothing-Squashed x s) t

-- Whether the change expects its entry to be there differs from whether it is there.
abbrev pub Contradicts : {x : Entries} → Change x → Option x.Entry → Type 0
Contradicts c o = (c.pre ≡ none) × (o ≢ none) ⊎ (c.pre ≢ none) × (o ≡ none)

abbrev pub Refused : {x : Entries} → Added x → Type 0
Refused (ok m) = ⊥
Refused (err e) = Unit {0}
Refused panicked = ⊥

expected_none :
    {x : Entries} (c : Change x) {o : Option x.Entry} → c.pre ≡ none → Contradicts c o → o ≢ none
expected_none c e (inl (a, b)) = b
expected_none c e (inr (a, b)) = absurd (a e)

expected_some :
    {x : Entries} (c : Change x) {o : Option x.Entry} {a : x.Entry}
    → c.pre ≡ some a
    → Contradicts c o
    → o ≡ none
expected_some c e (inl (a, b)) = cc
expected_some c e (inr (a, b)) = b

module _ {x : Entries} (c : Change x) (k : String) (m : Map (Change x)) (s s' : Ledger x)
    (h : Squashed s s' m) (old : Change x) (e : lookup k m ≡ some old) where
  open x use {Entry}

  cached : (old.pre ≡ s k) × (old.post ≡ s' k) × (change_type old.pre old.post ≢ none)
  cached = subst (SquashedAt (s k) (s' k)) e (h k)

  -- What is cached says whether the entry is there.
  there : {q : Option Entry} → old.post ≡ q → s' k ≡ q
  there eq = sym cached.1 ∙ eq

  created-Refused :
      (post : Entry) (p q : Option Entry)
      → old.pre ≡ p
      → old.post ≡ q
      → Refused (created_over k post m old (change_type p q)) ↔ (s' k ≢ none)
  created-Refused post none none ep eq = absurd (cached.2 (rw (ep, eq)))
  created-Refused post (some a) none ep eq = (λ r. elim r [ ], λ n. absurd (n (there eq)))
  created-Refused post none (some b) ep eq = (λ r z. cc (there eq), λ n. tt)
  created-Refused post (some a) (some b) ep eq = (λ r z. cc (there eq), λ n. tt)

  updated-Refused :
      (post : Entry) (p q : Option Entry)
      → old.pre ≡ p
      → old.post ≡ q
      → Refused (updated_over k post m old (change_type p q)) ↔ (s' k ≡ none)
  updated-Refused post none none ep eq = absurd (cached.2 (rw (ep, eq)))
  updated-Refused post (some a) none ep eq = (λ r. there eq, λ n. tt)
  updated-Refused post none (some b) ep eq = (λ r. elim r [ ], λ n. cc (there eq))
  updated-Refused post (some a) (some b) ep eq = (λ r. elim r [ ], λ n. cc (there eq))

  removed-Refused :
      (pre : Entry) (p q : Option Entry)
      → old.pre ≡ p
      → old.post ≡ q
      → Refused (removed_over k pre m old (change_type p q)) ↔ (s' k ≡ none)
  removed-Refused pre none none ep eq = absurd (cached.2 (rw (ep, eq)))
  removed-Refused pre (some a) none ep eq = (λ r. there eq, λ n. tt)
  removed-Refused pre none (some b) ep eq = (λ r. elim r [ ], λ n. cc (there eq))
  removed-Refused pre (some a) (some b) ep eq = (λ r. elim r [ ], λ n. cc (there eq))

  add_by-Refused :
      (p q : Option Entry)
      → c.pre ≡ p
      → c.post ≡ q
      → change_type p q ≢ none
      → HasKey x k p
      → HasKey x k q
      → Refused (add_by p q c m) ↔ Contradicts c (s' k)
  unfolding add_created_change add_updated_change add_removed_change
  add_by-Refused none none hp hq proper kp kq = absurd (proper refl)
  add_by-Refused none (some post) hp hq proper kp kq =
      let iff = created-Refused post old.pre old.post refl refl in
      rw kq (rw (e, at_key) ((λ r. inl (hp, iff.0 r)), (λ t. iff.1 (expected_none c hp t))))
  add_by-Refused (some pre) (some post) hp hq proper kp kq =
      let iff = updated-Refused post old.pre old.post refl refl in
      rw kq (rw (e, at_key) ((λ r. inr ((λ z. cc), iff.0 r)), (λ t. iff.1 (expected_some c hp t))))
  add_by-Refused (some pre) none hp hq proper kp kq =
      let iff = removed-Refused pre old.pre old.post refl refl in
      rw kp (rw (e, at_key) ((λ r. inr ((λ z. cc), iff.0 r)), (λ t. iff.1 (expected_some c hp t))))

  -- A change of an entry that is cached already is refused exactly when it creates an entry that is
  -- there, or updates or removes one that is not there.
  pub add_change-Refused :
      change_type c.pre c.post ≢ none
      → HasKey x k c.pre
      → HasKey x k c.post
      → Refused (add_change c m) ↔ Contradicts c (s' k)
  unfolding add_change
  add_change-Refused proper kp kq = add_by-Refused c.pre c.post refl refl proper kp kq
