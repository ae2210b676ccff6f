-- ===== src/Changes/Squash.antt =====
-- The squashed changes do to the database what the changes of the ledger do one after the other.
use Prim.Native.String.{String}
use text.Mathlib.Text.{◌==◌ as same}
use text.Mathlib.TextEquality.{eq_iff}
use aurorav1_11_0_test.Base.{
  Bool, true, false, Option, none, some, ◌≡◌, ◌≢◌, refl, sym, subst, ◌∙◌, if◌then◌else◌,
}
use aurorav1_11_0_test.Base.Maps.{Map, lookup, put, delete, lookup-put, lookup-delete}
use aurorav1_11_0_test.Changes.{Entries, Change, ChangeType, change_type}
use aurorav1_11_0_test.Changes.Cache.{
  Added, ok, err, panicked, created_over, updated_over, removed_over, squash, add_by,
  add_created_change, add_updated_change, add_removed_change, add_change,
}

-- A ledger: the entry under each key.
abbrev pub Ledger : Entries → Type 0
Ledger x = String → Option x.Entry

-- The entry of a change, if any, has this key.
abbrev pub HasKey : (x : Entries) → String → Option x.Entry → Type 0
HasKey x k none = Unit {0}
HasKey x k (some e) = x.marshal (x.ledger_key e) ≡ some k

-- The change leads from one ledger to the other.
pub record Applies {x : Entries} (c : Change x) (k : String) (s s' : Ledger x) : Type 0 where
  pub pre_key : HasKey x k c.pre
  pub post_key : HasKey x k c.post
  pub proper : change_type c.pre c.post ≢ none
  pub before : s k ≡ c.pre
  pub after : s' k ≡ c.post
  pub elsewhere : (j : String) → same k j ≡ false → s' j ≡ s j

-- Under one key: what is cached leads from the first entry to the last, and nothing is cached only
-- where they are the same.
abbrev pub SquashedAt : {x : Entries} → Option x.Entry → Option x.Entry → Option (Change x) → Type 0
SquashedAt a b none = b ≡ a
SquashedAt a b (some c) = (c.pre ≡ a) × (c.post ≡ b) × (change_type c.pre c.post ≢ none)

abbrev pub Squashed : {x : Entries} → Ledger x → Ledger x → Map (Change x) → Type 0
Squashed s s' m = (j : String) → SquashedAt (s j) (s' j) (lookup j m)

module _ {x : Entries} where
  open x use {Entry, ledger_key, marshal}

  pick :
      (b : Bool) {a a' : Option Entry} (c : Change x) (o : Option (Change x))
      → (b ≡ true → SquashedAt {x = x} a a' (some c))
      → (b ≡ false → SquashedAt {x = x} a a' o)
      → SquashedAt {x = x} a a' (if b then some c else o)
  pick true c o f g = f refl
  pick false c o f g = g refl

  drop :
      (b : Bool) {a a' : Option Entry} (o : Option (Change x))
      → (b ≡ true → a' ≡ a)
      → (b ≡ false → SquashedAt {x = x} a a' o)
      → SquashedAt {x = x} a a' (if b then none else o)
  drop true o f g = f refl
  drop false o f g = g refl

  module _ (k : String) (m : Map (Change x)) (s s' s'' : Ledger x) (h : Squashed {x = x} s s' m)
      (rest : (i : String) → same k i ≡ false → s'' i ≡ s' i) where
    put-Squashed :
        (c : Change x)
        → (c.pre ≡ s k) × (c.post ≡ s'' k) × (change_type c.pre c.post ≢ none)
        → Squashed {x = x} s s'' (put k c m)
    put-Squashed c here j = rw (lookup-put k j c m) (
        pick (same k j) _ _
          (λ e.
            subst (λ i. (c.pre ≡ s i) × (c.post ≡ s'' i) × (change_type c.pre c.post ≢ none))
              ((eq_iff k j).0 e) here)
          (λ e. subst (λ b. SquashedAt {x = x} (s j) b (lookup j m)) (sym (rest j e)) (h j)))

    delete-Squashed : s'' k ≡ s k → Squashed {x = x} s s'' (delete k m)
    delete-Squashed here j = rw (lookup-delete k j m) (
        drop (same k j) _ (λ e. subst (λ i. s'' i ≡ s i) ((eq_iff k j).0 e) here)
          (λ e. subst (λ b. SquashedAt {x = x} (s j) b (lookup j m)) (sym (rest j e)) (h j)))

  -- The call succeeds, with a cache that leads from the first ledger to the last.
  abbrev pub Leads : Ledger x → Ledger x → Added x → Type 0
  Leads s s'' (ok m) = Squashed {x = x} s s'' m
  Leads s s'' (err e) = ⊥
  Leads s s'' panicked = ⊥

  module _ (c : Change x) (k : String) (m : Map (Change x)) (s s' s'' : Ledger x)
      (h : Squashed {x = x} s s' m) (a : Applies c k s' s'') where
    first-Leads : lookup k m ≡ none → Leads s s'' (ok (put k c m))
    first-Leads e =
        put-Squashed k m s s' s'' h a.elsewhere c
          (sym a.before ∙ subst (SquashedAt {x = x} (s k) (s' k)) e (h k), sym a.after, a.proper)

    cached :
        (old : Change x)
        → lookup k m ≡ some old
        → (old.pre ≡ s k) × (old.post ≡ c.pre) × (change_type old.pre old.post ≢ none)
    cached old e =
        let (p, q, r) = subst (SquashedAt {x = x} (s k) (s' k)) e (h k) in (p, q ∙ a.before, r)

    squash-Leads :
        (typed : Entry) (post : Option Entry) (old : Change x)
        → lookup k m ≡ some old
        → c.post ≡ post
        → change_type old.pre post ≢ none
        → Leads s s'' (squash k typed post old m)
    squash-Leads typed post old e q proper =
        put-Squashed k m s s' s'' h a.elsewhere _ ((cached old e).0, sym q ∙ sym a.after, proper)

    created-Leads :
        (post : Entry) (old : Change x) (p q : Option Entry)
        → c.pre ≡ none
        → c.post ≡ some post
        → lookup k m ≡ some old
        → old.pre ≡ p
        → old.post ≡ q
        → Leads s s'' (created_over k post m old (change_type p q))
    created-Leads post old none none hp hq e ep eq = (cached old e).2 (rw (ep, eq))
    created-Leads post old none (some b) hp hq e ep eq = cc ((cached old e).1)
    created-Leads post old (some b) (some b') hp hq e ep eq = cc ((cached old e).1)
    created-Leads post old (some b) none hp hq e ep eq =
        squash-Leads post (some post) old e hq (rw ep (λ z. cc))

    updated-Leads :
        (pre post : Entry) (old : Change x) (p q : Option Entry)
        → c.pre ≡ some pre
        → c.post ≡ some post
        → lookup k m ≡ some old
        → old.pre ≡ p
        → old.post ≡ q
        → Leads s s'' (updated_over k post m old (change_type p q))
    updated-Leads pre post old none none hp hq e ep eq = cc ((cached old e).1)
    updated-Leads pre post old (some b) none hp hq e ep eq = cc ((cached old e).1)
    updated-Leads pre post old none (some b) hp hq e ep eq =
        squash-Leads post (some post) old e hq (rw ep (λ z. cc))
    updated-Leads pre post old (some b) (some b') hp hq e ep eq =
        squash-Leads post (some post) old e hq (rw ep (λ z. cc))

    removed-Leads :
        (pre : Entry) (old : Change x) (p q : Option Entry)
        → c.pre ≡ some pre
        → c.post ≡ none
        → lookup k m ≡ some old
        → old.pre ≡ p
        → old.post ≡ q
        → Leads s s'' (removed_over k pre m old (change_type p q))
    removed-Leads pre old none none hp hq e ep eq = cc ((cached old e).1)
    removed-Leads pre old (some b) none hp hq e ep eq = cc ((cached old e).1)
    removed-Leads pre old none (some b) hp hq e ep eq =
        delete-Squashed k m s s' s'' h a.elsewhere (a.after ∙ hq ∙ sym ep ∙ (cached old e).0)
    removed-Leads pre old (some b) (some b') hp hq e ep eq =
        squash-Leads pre none old e hq (rw ep (λ z. cc))

    -- The methods look the key up, and go by what they find.
    at_key-Leads :
        (o : Option (Change x)) (over : String → Change x → Option ChangeType → Added x)
        → lookup k m ≡ o
        → ((old : Change x)
            → lookup k m ≡ some old
            → Leads s s'' (over k old (change_type old.pre old.post)))
        → Leads s s'' (elim o [
          | none ↦ ok (put k c m)
          | some old ↦ over k old (change_type old.pre old.post)
        ])
    at_key-Leads none over e f = first-Leads e
    at_key-Leads (some old) over e f = f old e

    add_by-Leads : (p q : Option Entry) → c.pre ≡ p → c.post ≡ q → Leads s s'' (add_by p q c m)
    unfolding add_created_change add_updated_change add_removed_change
    add_by-Leads none none hp hq = a.proper (rw (hp, hq))
    add_by-Leads none (some post) hp hq =
        let key : marshal (ledger_key post) ≡ some k = subst (HasKey x k) hq a.post_key in
        rw key (
          at_key-Leads (lookup k m) (λ k. created_over k post m) refl
            (λ old e. created-Leads post old old.pre old.post hp hq e refl refl))
    add_by-Leads (some pre) (some post) hp hq =
        let key : marshal (ledger_key post) ≡ some k = subst (HasKey x k) hq a.post_key in
        rw key (
          at_key-Leads (lookup k m) (λ k. updated_over k post m) refl
            (λ old e. updated-Leads pre post old old.pre old.post hp hq e refl refl))
    add_by-Leads (some pre) none hp hq =
        let key : marshal (ledger_key pre) ≡ some k = subst (HasKey x k) hp a.pre_key in
        rw key (
          at_key-Leads (lookup k m) (λ k. removed_over k pre m) refl
            (λ old e. removed-Leads pre old old.pre old.post hp hq e refl refl))

    -- Where the cache leads from a first ledger to the current one, a change that applies to the
    -- current ledger is added without an error, and the new cache leads to the ledger after it.
    pub add_change-Leads : Leads s s'' (add_change c m)
    unfolding add_change
    add_change-Leads = add_by-Leads c.pre c.post refl refl
