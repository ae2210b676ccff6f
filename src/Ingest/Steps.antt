-- ===== src/Ingest/Steps.antt =====
-- The calls as steps of a run. A Go `return t, err` ends the run by `exit`; a step that does not
-- return goes on with a value. A step takes the value that its caller returns when the call fails.
use aurorav1_11_0_test.Base.{ℕ, Bool, true, false, none, some, ◌∷◌, if◌then◌else◌}
use aurorav1_11_0_test.Ingest.World.{
  Call, World, Env, Write, begin, commit, rollback, get_last_ledger, get_ingest_version,
  get_latest_ledger, update_last_ledger, note, current, store,
}

pub data Flow (T A : Type 0) : Type 0 where
  next : A → Flow T A
  exit : T → Flow T A

abbrev pub M : Type 0 → Type 0 → Type 0
M T A = World → Flow T A × World

abbrev pub go_on : {T A B : Type 0} → Flow T A × World → (A → M T B) → Flow T B × World
go_on (next a, w) f = f a w
go_on (exit t, w) f = (exit t, w)

infixl 5 ◌>>=◌ ◌>>◌
abbrev pub ◌>>=◌ : {T A B : Type 0} → M T A → (A → M T B) → M T B
◌>>=◌ m f w = go_on (m w) f

abbrev pub ◌>>◌ : {T B : Type 0} → M T (Unit {0}) → M T B → M T B
m >> k = m >>= λ _. k

abbrev pub return : {T A : Type 0} → A → M T A
return a w = (next a, w)

abbrev pub exits : {T A : Type 0} → T → M T A
exits t w = (exit t, w)

-- `if test { return t }`
abbrev pub exit_if : {T : Type 0} → Bool → T → M T (Unit {0})
exit_if true t w = (exit t, w)
exit_if false t w = (next tt, w)

-- The value of a function that has run to its end or returned early.
abbrev pub returned : {T : Type 0} → Flow T T × World → T × World
returned (next t, w) = (t, w)
returned (exit t, w) = (t, w)

module _ (e : Env) {T : Type 0} where
  -- A call with its effect; where it fails there is none.
  unfoldable pub perform : Call → (World → World) → T → M T (Unit {0})
  perform c effect t w =
      if e.fails w.calls c then (exit t, note c w) else (next tt, effect (note c w))

  -- A call that reads a value.
  unfoldable pub ask : {A : Type 0} → Call → (World → A) → T → M T A
  ask c read t w = if e.fails w.calls c then (exit t, note c w) else (next (read w), note c w)

  -- A call whose error is only logged.
  unfoldable pub try : Call → M T (Unit {0})
  try c w = (next tt, note c w)

-- A new transaction works on a copy of what this and the other nodes have committed.
abbrev pub open_tx : Env → World → World
open_tx e w = let d = e.others w.calls w.db in record w { db = d; tx = some d }

module _ (e : Env) {T : Type 0} where
  -- `Session.Begin`, which refuses to nest.
  unfoldable pub begins : T → M T (Unit {0})
  begins t w = elim w.tx [ none ↦ perform e begin (open_tx e) t w | some d ↦ (exit t, w) ]

  -- `Session.Commit`: the transaction is over also where the commit fails.
  unfoldable pub commits : T → M T (Unit {0})
  commits t w = elim w.tx [
    | none ↦ (exit t, w)
    | some d ↦
        if e.fails w.calls commit
        then (exit t, record w { tx = none; calls = commit ∷ w.calls })
        else (next tt, record w { db = d; tx = none; calls = commit ∷ w.calls })
  ]

  abbrev pub last_ledger : T → M T ℕ
  last_ledger = ask e get_last_ledger (λ w. (current w).last_ingested)

  abbrev pub ingest_version : T → M T ℕ
  ingest_version = ask e get_ingest_version (λ w. (current w).ingest_version)

  abbrev pub latest_ledger : T → M T ℕ
  latest_ledger = ask e get_latest_ledger (λ w. e.latest_ledger (current w).tables)

  abbrev pub set_last_ledger : ℕ → T → M T (Unit {0})
  set_last_ledger l = perform e (update_last_ledger l) (store (λ d. record d { last_ingested = l }))

  abbrev pub writes : Call → Write → T → M T (Unit {0})
  writes c x = perform e c (store (λ d. record d { tables = x ∷ d.tables }))

-- `Session.Rollback`; without a transaction it is an error that the callers ignore.
abbrev pub roll_back : World → World
roll_back w = record w { tx = none; calls = rollback ∷ w.calls }

-- `defer s.historyQ.Rollback()` behind what follows it in the function.
abbrev pub deferring_rollback : {T A : Type 0} → M T A → M T A
deferring_rollback m w = let (r, w') = m w in (r, roll_back w')
