-- ===== src/Ingest/FromEmpty.antt =====
-- From an empty database the machine builds the state and then ingests ledger after ledger.
use aurorav1_11_0_test.Base.{
  ℕ, suc, ◌+◌, ◌≤◌, ◌<◌, ◌^◌, false, none, some, ◌≡◌, ◌≢◌, refl, ap, subst, sym, ◌∙◌, inl, ◌∷◌,
  arith, ◌==◌,
}
use aurorav1_11_0_test.Ingest.World.{World, Db, Env, current_version, truncate_state, note, sleep}
use aurorav1_11_0_test.Ingest.Nodes.{
  Node, Transition, Outcome, ok, rebuild, resume, resume_state, start_state, build_state,
}
use aurorav1_11_0_test.Ingest.Start.{
  start_body, run_start, build_checks, build_clear, build_ingest, build_body, run_build,
}
use aurorav1_11_0_test.Ingest.StartSpec.{before_checkpoint, built}
use aurorav1_11_0_test.Ingest.Machine.{is_stop, run, run_state_machine, run_ingestion}
use aurorav1_11_0_test.Ingest.Closed.{run-closed}
use aurorav1_11_0_test.Ingest.Advance.{
  undisturbed, Known, CountsLedgers, ingest_all, turn, AfterRounds, resume_catches_up,
}
use aurorav1_11_0_test.Ingest.Triples.{
  Holds, Ensures, Inside, Begun, bind, weaken, in_open_transaction, past_guard, returned-Holds,
}

-- No ledger is ingested, and the history has none either.
pub record IsEmpty (e : Env) (d : Db) : Type 0 where
  pub no_state : d.last_ingested ≡ 0
  pub not_newer : d.ingest_version ≤ current_version
  pub no_history : e.latest_ledger d.tables ≡ 0

-- The archive's latest checkpoint, when the start state asks for it.
abbrev pub checkpoint_of : Env → World → ℕ
checkpoint_of e w = e.latest_checkpoint (before_checkpoint w)

abbrev Rebuilds : Env → World → Outcome → World → Type 0
Rebuilds e w o w' = (o ≡ ok (rebuild (checkpoint_of e w))) × (w'.db ≡ w.db)

start_body-Rebuilds :
    (e : Env) (core : ℕ) (w : World)
    → IsEmpty e w.db
    → Ensures
        (Begun (undisturbed e core) w)
        (start_body (undisturbed e core) 0)
        (Rebuilds e w)
        (Rebuilds e w)
unfolding start_body
start_body-Rebuilds e core w h = record { holds = λ v p. ground arith }

start-Rebuilds :
    (e : Env) (core : ℕ) (w : World)
    → w.tx ≡ none
    → IsEmpty e w.db
    → Rebuilds e w
        (run (undisturbed e core) (start_state 0) w).0
        (run (undisturbed e core) (start_state 0) w).1
unfolding run run_start
start-Rebuilds e core w closed h =
    returned-Holds (Rebuilds e w) (run_start (undisturbed e core) 0 w) (
      in_open_transaction _ _ (undisturbed e core) w _ (start_body (undisturbed e core) 0) closed
        refl (start_body-Rebuilds e core w h) (λ o w' r. r))

module _ (e : Env) (core c : ℕ) (d : Db) where
  abbrev Builds : Outcome → World → Type 0
  Builds o w = (o ≡ ok (resume c)) × (w.db ≡ built c d)

  abbrev Cleared : World → Type 0
  Cleared w =
      (w.db ≡ d)
      × (w.tx
          ≡ some (record d {
            last_ingested = 0;
            state_invalid = false;
            tables = truncate_state ∷ d.tables;
          }))

  checks-Ensures :
      d.last_ingested ≡ 0
      → Ensures (Inside d) (build_checks (undisturbed e core) c false) Builds (λ _ w. Inside d w)
  unfolding build_checks
  checks-Ensures h = record { holds = λ w p. ground arith }

  clear-Ensures :
      Ensures (Inside d) (build_clear (undisturbed e core) c false) Builds (λ _ w. Cleared w)
  unfolding build_clear
  clear-Ensures = record { holds = λ w p. ground arith }

  ingest-Ensures : c ≢ 0 → Ensures Cleared (build_ingest (undisturbed e core) c false) Builds Builds
  unfolding build_ingest
  ingest-Ensures pos = record { holds = λ w p. ground arith }

  body-Ensures :
      c ≢ 0
      → d.last_ingested ≡ 0
      → Ensures (Inside d) (build_body (undisturbed e core) c false) Builds Builds
  unfolding build_body
  body-Ensures pos h = bind (checks-Ensures h) λ _. bind clear-Ensures λ _. ingest-Ensures pos

run_build-Builds :
    (e : Env) (core c : ℕ) (w : World)
    → c ≢ 0
    → w.tx ≡ none
    → w.db.last_ingested ≡ 0
    → Holds (Builds e core c w.db) (Builds e core c w.db) (run_build (undisturbed e core) c false w)
unfolding run_build
run_build-Builds e core c w pos closed h = past_guard _ (c == 0) _ _ w (ground arith) (
    in_open_transaction _ _ (undisturbed e core) w _ (build_body (undisturbed e core) c false)
      closed refl (weaken (λ v b. b.0) (body-Ensures e core c w.db pos h)) (λ o w' r. r))

build-Builds :
    (e : Env) (core c : ℕ) (w : World)
    → c ≢ 0
    → w.tx ≡ none
    → w.db.last_ingested ≡ 0
    → Builds e core c w.db
        (run (undisturbed e core) (build_state c false) w).0
        (run (undisturbed e core) (build_state c false) w).1
unfolding run
build-Builds e core c w pos closed h =
    returned-Holds (Builds e core c w.db) (run_build (undisturbed e core) c false w)
      (run_build-Builds e core c w pos closed h)

Known-built : (e : Env) (c : ℕ) (d : Db) → CountsLedgers e → IsEmpty e d → Known e c (built c d)
Known-built e c d counts h = record {
  last = refl;
  version = refl;
  history = inl (
      counts.skips_state c (truncate_state ∷ d.tables)
      ∙ counts.skips_truncate d.tables
      ∙ h.no_history);
}

-- One turn more, in front.
one_more :
    (e : Env) (core rounds fuel l : ℕ) (n : Node) (w : World) (t : Transition) (d : Db)
    → w.tx ≡ none
    → (run (undisturbed e core) n w).0 ≡ ok t
    → is_stop t.node ≡ false
    → AfterRounds
        (undisturbed e core)
        rounds
        fuel
        l
        t.node
        (note (sleep t.sleep_duration) (run (undisturbed e core) n w).1)
        d
    → AfterRounds (undisturbed e core) (suc rounds) fuel l n w d
one_more e core rounds fuel l n w t d closed same go (w', path, c, q) = (
  w',
  ap (λ (k : ℕ). run_state_machine (undisturbed e core) k n w) (omega arith)
      ∙ turn e core (rounds + fuel) n w t t.node closed same go refl
      ∙ path,
  c,
  q,
)

built_catches_up :
    (e : Env) (core fuel n c : ℕ) (d : Db) (w : World)
    → CountsLedgers e
    → IsEmpty e d
    → 0 < c
    → c + n ≤ core
    → core < 2 ^ 32
    → w.tx ≡ none
    → w.db ≡ built c d
    → AfterRounds
        (undisturbed e core)
        n
        fuel
        (c + n)
        (resume_state c)
        w
        (ingest_all n c (built c d))
built_catches_up e core fuel n c d w counts h pos le word closed q =
    subst
      (λ d'. AfterRounds (undisturbed e core) n fuel (c + n) (resume_state c) w (ingest_all n c d'))
      q
      (resume_catches_up e core fuel n c w counts pos le word closed
        (subst (Known e c) (sym q) (Known-built e c d counts h)))

-- From an empty database with no transaction open, where the archive has a checkpoint, where the reads
-- of the ledgers count them, no call fails, the backend counts every range as prepared already, no
-- other node commits, and the backend's latest ledger fits 32 bits and is at least `n` past the
-- archive's latest checkpoint: 2 + n turns of `Run` build the state of that checkpoint and ingest the
-- `n` ledgers after it, each once and in order, and the machine is ready to resume after them.
pub ingest_from_empty :
    (e : Env) (core fuel n : ℕ) (w : World)
    → CountsLedgers e
    → w.tx ≡ none
    → IsEmpty e w.db
    → 0 < checkpoint_of e w
    → checkpoint_of e w + n ≤ core
    → core < 2 ^ 32
    → (w' : World) × (run_ingestion (undisturbed e core) (2 + n + fuel) w
        ≡ run_state_machine (undisturbed e core) fuel (resume_state (checkpoint_of e w + n)) w')
      × (w'.tx ≡ none)
      × (w'.db ≡ ingest_all n (checkpoint_of e w) (built (checkpoint_of e w) w.db))
unfolding run_ingestion
ingest_from_empty e core fuel n w counts closed h pos le word =
    let c = checkpoint_of e w in
    let u = undisturbed e core in
    let first = start-Rebuilds e core w closed h in
    let v = note (sleep 1) (run u (start_state 0) w).1 in
    let shut : v.tx ≡ none = run-closed u (start_state 0) w closed in
    let empty : v.db.last_ingested ≡ 0 = ap (λ (d : Db). d.last_ingested) first.1 ∙ h.no_state in
    let second = build-Builds e core c v (omega arith) shut empty in
    let rest =
      built_catches_up e core fuel n c w.db (note (sleep 1) (run u (build_state c false) v).1)
        counts h pos le word (run-closed u (build_state c false) v shut)
        (second.1 ∙ ap (built c) first.1) in
    let (w', path, c', q) =
      one_more e core (suc n) fuel (c + n) (start_state 0) w (rebuild c) _ closed first.0 refl (
        one_more e core n fuel (c + n) (build_state c false) v (resume c) _ shut second.0 refl
          rest) in
    (w', ap (λ (k : ℕ). run_state_machine u k (start_state 0) w) (omega arith) ∙ path, c', q)
