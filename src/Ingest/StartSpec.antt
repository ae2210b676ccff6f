-- ===== src/Ingest/StartSpec.antt =====
-- What a round in the start state and in the build state does.
use aurorav1_11_0_test.Base.{
  ℕ, ◌+◌, ◌<◌, ◌≤◌, not, ◌||◌, ltb, Bool, false, none, some, ◌≡◌, ◌≢◌, ◌⊎◌, inl, ◌∷◌, arith, ◌==◌,
  if◌then◌else◌, List,
}
use aurorav1_11_0_test.Ingest.World.{
  World, Db, Env, Call, current_version, begin, get_last_ledger, get_ingest_version,
  get_latest_ledger, state_of, truncate_state, current, failed,
}
use aurorav1_11_0_test.Ingest.Nodes.{
  Outcome, ok, fail, start, stop, rebuild, wait_for_checkpoint, resume, history_range, start_state,
  build_state, start_suggested_checkpoint,
}
use aurorav1_11_0_test.Ingest.Start.{
  start_without_state, start_with_state, start_by, start_body, run_start, next_fail_state,
  build_checks, build_clear, build_ingest, build_body, run_build,
}
use aurorav1_11_0_test.Ingest.Steps.{ask}
use aurorav1_11_0_test.Ingest.Machine.{run}
use aurorav1_11_0_test.Ingest.Triples.{
  Holds, Ensures, frame, if-Ensures, exit_if-Ensures, found, Inside, Begun, bind, weaken,
  in_transaction, past_guard, returned-Holds,
}

-- The calls made in a start round before the archive is asked for its latest checkpoint.
abbrev pub before_checkpoint : World → List Call
before_checkpoint w = get_latest_ledger ∷ get_ingest_version ∷ get_last_ledger ∷ begin ∷ w.calls

abbrev pub checkpoint_for : Env → ℕ → World → ℕ
checkpoint_for e suggested w =
    if suggested == 0 then e.latest_checkpoint (before_checkpoint w) else suggested

-- The state is missing, or of an older version.
abbrev pub NeedsState : Db → Type 0
NeedsState d = (d.ingest_version < current_version) ⊎ (d.last_ingested ≡ 0)

-- The state is to be built from the checkpoint: at once if the history is empty or ends there, after
-- the next checkpoint if the history is past it, and after catching up if it is not there yet.
abbrev pub TowardsState : ℕ → ℕ → Outcome → Type 0
TowardsState history checkpoint o =
    (o ≡ ok (rebuild checkpoint)) × ((history ≡ 0) ⊎ (history ≡ checkpoint))
    ⊎ (o ≡ ok wait_for_checkpoint) × (checkpoint < history)
    ⊎ (o ≡ ok (history_range (history + 1) checkpoint)) × (0 < history) × (history < checkpoint)

-- The round fails and returns to the start; or the database is of a later version and the machine
-- stops; or the state is to be built, after what the checkpoint asks for; or, at the current version
-- and with a state, the history is ahead of the state, which is dropped, or it is behind and catches
-- up, or ingestion resumes. Only the drop changes the database.
abbrev pub Started : Env → ℕ → World → Outcome → Db → Type 0
Started e suggested w o d' =
    let d = found e w in
    let history = e.latest_ledger d.tables in
    (o.1 ≢ none) × (o.0 ≡ start) × ((d' ≡ d) ⊎ (d' ≡ w.db))
    ⊎ (o ≡ ok stop) × (current_version < d.ingest_version) × (d' ≡ d)
    ⊎ TowardsState history (checkpoint_for e suggested w) o × NeedsState d × (d' ≡ d)
    ⊎ (o ≡ ok start)
      × (d.ingest_version ≡ current_version)
      × (0 < d.last_ingested)
      × (d.last_ingested < history)
      × (d' ≡ record d { last_ingested = 0 })
    ⊎ (o ≡ ok (history_range (history + 1) d.last_ingested))
      × (d.ingest_version ≡ current_version)
      × (0 < history)
      × (history < d.last_ingested)
      × (d' ≡ d)
    ⊎ (o ≡ ok (resume d.last_ingested))
      × (d.ingest_version ≡ current_version)
      × (0 < d.last_ingested)
      × ((history ≡ 0) ⊎ (history ≡ d.last_ingested))
      × (d' ≡ d)

module _ (e : Env) (suggested : ℕ) (w : World) where
  abbrev StartPost : Outcome → World → Type 0
  StartPost o v = Started e suggested w o v.db

  -- In the new transaction, with these calls behind it.
  abbrev Reading : List Call → World → Type 0
  Reading cs v = Inside (found e w) v × (v.calls ≡ cs)

  -- A read fails or gives the value of the transaction.
  read-Ensures :
      {A : Type 0} (c : Call) (cs : List Call) (f : Db → A)
      → Ensures
          (Reading cs)
          (ask e c (λ v. f (current v)) (fail start (failed c)))
          StartPost
          (λ a v. Reading (c ∷ cs) v × (a ≡ f (found e w)))
  unfolding ask
  read-Ensures c cs f = record { holds = λ v p. ground arith }

  -- What the three reads give.
  abbrev ReadAll : ℕ → ℕ → ℕ → World → Type 0
  ReadAll last version history v =
      Reading (before_checkpoint w) v
      × (last ≡ (found e w).last_ingested)
      × (version ≡ (found e w).ingest_version)
      × (version ≤ current_version)
      × (history ≡ e.latest_ledger (found e w).tables)

  without_state-Ensures :
      (last version history : ℕ)
      → (version < current_version) ⊎ (last ≡ 0)
      → Ensures
          (ReadAll last version history)
          (start_without_state e suggested history)
          StartPost
          StartPost
  unfolding start_without_state
  without_state-Ensures last version history h = record { holds = λ v p. ground arith }

  with_state-Ensures :
      (last version history : ℕ)
      → last ≢ 0
      → version ≡ current_version
      → Ensures (ReadAll last version history) (start_with_state e history last) StartPost StartPost
  unfolding start_with_state
  with_state-Ensures last version history h same = record { holds = λ v p. ground arith }

  choice-Ensures :
      (last version history : ℕ)
      → Ensures
          (ReadAll last version history)
          (start_by e suggested last version history)
          StartPost
          StartPost
  unfolding start_by
  choice-Ensures last version history =
      if-Ensures (not (version == current_version) || last == 0)
        (λ b. record {
          holds = λ v p. (without_state-Ensures last version history (ground arith)).holds v p;
        })
        (λ b. record {
          holds = λ v p.
              (with_state-Ensures last version history (ground arith) (ground arith)).holds v p;
        })

  start_body-Ensures : Ensures (Begun e w) (start_body e suggested) StartPost StartPost
  unfolding start_body
  start_body-Ensures =
      bind (read-Ensures get_last_ledger (begin ∷ w.calls) (λ d. d.last_ingested)) λ last.
        bind
          (frame (last ≡ (found e w).last_ingested) (
            read-Ensures get_ingest_version (get_last_ledger ∷ begin ∷ w.calls)
              (λ d. d.ingest_version)))
          λ version.
            bind (exit_if-Ensures (ltb current_version version) (ok stop) (λ v p b. ground arith))
              λ _.
                bind
                  (weaken (λ v p. (p.0.0.0, (p.0.1, p.0.0.1, p.1)))
                    (frame
                      ((last ≡ (found e w).last_ingested)
                        × (version ≡ (found e w).ingest_version)
                        × (ltb current_version version ≡ false))
                      (read-Ensures get_latest_ledger
                        (get_ingest_version ∷ get_last_ledger ∷ begin ∷ w.calls)
                        (λ d. e.latest_ledger d.tables))))
                  λ history.
                    weaken (λ v p. (p.0.0, p.1.0, p.1.1, ground arith, p.0.1))
                      (choice-Ensures last version history)

-- A round in the start state, from a world with no transaction open, is a case of `Started`.
pub start-Started :
    (e : Env) (suggested : ℕ) (w : World)
    → w.tx ≡ none
    → Started e suggested w
        (run e (start_state suggested) w).0
        (run e (start_state suggested) w).1.db
unfolding run run_start
start-Started e suggested w closed =
    returned-Holds (λ o v. Started e suggested w o v.db) (run_start e suggested w)
      (in_transaction (λ o v. Started e suggested w o v.db) (λ o v. Started e suggested w o v.db) e
        w _ (start_body e suggested) closed (ground arith) (start_body-Ensures e suggested w)
        (λ o v r. r))

-- What the build state leaves: the state tables hold the checkpoint and nothing else.
abbrev pub built : ℕ → Db → Db
built checkpoint d = record d {
  last_ingested = checkpoint;
  ingest_version = current_version;
  state_invalid = false;
  tables = state_of checkpoint ∷ truncate_state ∷ d.tables;
}

-- The round fails; or another node has built the state; or the lock was released to prepare the
-- range; or the state of the checkpoint is built. Only the last changes the database.
abbrev pub Built : ℕ → Bool → Db → Outcome → Db → Type 0
Built checkpoint stops d o d' =
    (o.1 ≢ none) × (o.0 ≡ next_fail_state stops) × (d' ≡ d)
    ⊎ (o ≡ ok (next_fail_state stops))
      × (d.ingest_version ≡ current_version)
      × (0 < d.last_ingested)
      × (d' ≡ d)
    ⊎ (o ≡ ok (start_suggested_checkpoint checkpoint)) × (checkpoint ≢ 1) × (d' ≡ d)
    ⊎ (o ≡ ok (if stops then stop else resume checkpoint)) × (d' ≡ built checkpoint d)

module _ (e : Env) (checkpoint : ℕ) (stops : Bool) (d : Db) where
  abbrev Post : Outcome → World → Type 0
  Post o w = Built checkpoint stops d o w.db

  abbrev Cleared : World → Type 0
  Cleared w =
      (w.db ≡ d)
      × (w.tx
          ≡ some (record d {
            last_ingested = 0;
            state_invalid = false;
            tables = truncate_state ∷ d.tables;
          }))

  build_clear-Ensures : Ensures (Inside d) (build_clear e checkpoint stops) Post (λ _ w. Cleared w)
  unfolding build_clear
  build_clear-Ensures = record { holds = λ w p. ground arith }

  build_ingest-Ensures : Ensures Cleared (build_ingest e checkpoint stops) Post Post
  unfolding build_ingest
  build_ingest-Ensures = record { holds = λ w p. ground arith }

  build_checks-Ensures :
      Ensures (Inside d) (build_checks e checkpoint stops) Post (λ _ w. Inside d w)
  unfolding build_checks
  build_checks-Ensures = record { holds = λ w p. ground arith }

  build_body-Ensures : Ensures (Inside d) (build_body e checkpoint stops) Post Post
  unfolding build_body
  build_body-Ensures =
      bind build_checks-Ensures λ _. bind build_clear-Ensures λ _. build_ingest-Ensures

-- The outcome of a round: one of the cases of `Built`, or no transaction could be opened.
abbrev pub BuildRound : Env → ℕ → Bool → World → Outcome → World → Type 0
BuildRound e checkpoint stops w o w' =
    Built checkpoint stops (found e w) o w'.db
    ⊎ (o.1 ≢ none) × (o.0 ≡ next_fail_state stops) × (w'.db ≡ w.db)

run_build-Round :
    (e : Env) (checkpoint : ℕ) (stops : Bool) (w : World)
    → w.tx ≡ none
    → checkpoint ≢ 0
    → Holds
        (BuildRound e checkpoint stops w)
        (BuildRound e checkpoint stops w)
        (run_build e checkpoint stops w)
unfolding run_build
run_build-Round e checkpoint stops w closed pos =
    past_guard _ (checkpoint == 0) _ _ w (ground arith) (
      in_transaction (BuildRound e checkpoint stops w) (Post e checkpoint stops (found e w)) e w _
        (build_body e checkpoint stops) closed (ground arith)
        (weaken (λ v b. b.0) (build_body-Ensures e checkpoint stops (found e w))) (λ o w' r. inl r))

-- A round in the build state, from a world with no transaction open and for a checkpoint other than
-- 0, opens no transaction and fails, or is a case of `Built`.
pub build-Built :
    (e : Env) (checkpoint : ℕ) (stops : Bool) (w : World)
    → w.tx ≡ none
    → checkpoint ≢ 0
    → BuildRound e checkpoint stops w
        (run e (build_state checkpoint stops) w).0
        (run e (build_state checkpoint stops) w).1
unfolding run
build-Built e checkpoint stops w closed pos =
    returned-Holds (BuildRound e checkpoint stops w) (run_build e checkpoint stops w)
      (run_build-Round e checkpoint stops w closed pos)
