-- ===== src/Ingest/Advance.antt =====
-- What the machine gets done where nothing stands in its way.
use aurorav1_11_0_test.Base.{
  ℕ, zero, suc, ◌+◌, ◌≤◌, ◌<◌, ◌^◌, true, false, none, ◌≡◌, refl, ap, ◌∙◌, ◌⊎◌, inr, List, ◌∷◌,
  arith, ltb, ◌==◌, tests, if◌then◌else◌,
}
use aurorav1_11_0_test.Ingest.World.{
  World, Db, Env, Write, current_version, all_of, state_of, truncate_state, note, sleep,
  get_latest_core_ledger, failed,
}
use aurorav1_11_0_test.Ingest.Nodes.{
  Node, Transition, Outcome, ok, fail, start, resume_immediately, retry_resume, resume_state,
}
use aurorav1_11_0_test.Ingest.Steps.{ask}
use aurorav1_11_0_test.Ingest.Helpers.{maybe_prepare_range}
use aurorav1_11_0_test.Ingest.Resume.{
  run_resume, resume_checks, ingest_ledger, fast_forward, resume_body,
}
use aurorav1_11_0_test.Ingest.Machine.{is_stop, run, run_state_machine, after_run}
use aurorav1_11_0_test.Ingest.Closed.{run-closed}
use aurorav1_11_0_test.Ingest.Triples.{
  Holds, Ensures, Inside, bind, weaken, if-Ensures, exit_if-Ensures, in_open_transaction,
  past_guard, returned-Holds,
}

-- No call fails, the backend has its range prepared up to the ledger `core`, no other node commits
-- and nobody shuts the system down.
abbrev pub undisturbed : Env → ℕ → Env
undisturbed e core = record e {
  fails = λ cs c. false;
  prepared = λ cs from. true;
  latest_core_ledger = λ cs. core;
  others = λ cs d. d;
  cancelled = λ cs. false;
}

-- The state is that of the ledger, and the history is empty or ends there too.
pub record Known (e : Env) (l : ℕ) (d : Db) : Type 0 where
  pub last : d.last_ingested ≡ l
  pub version : d.ingest_version ≡ current_version
  pub history : (e.latest_ledger d.tables ≡ 0) ⊎ (e.latest_ledger d.tables ≡ l)

abbrev pub ingest_next : ℕ → Db → Db
ingest_next l d = record d { last_ingested = l + 1; tables = all_of (l + 1) ∷ d.tables }

module _ (e : Env) (core l : ℕ) (d : Db) (lt : l < core) (word : core < 2 ^ 32) where
  abbrev Advanced : Outcome → World → Type 0
  Advanced o w = (o ≡ ok (resume_immediately (l + 1))) × (w.db ≡ ingest_next l d)

  checks-Ensures :
      Known e l d
      → Ensures
          (Inside d)
          (resume_checks (undisturbed e core) l)
          Advanced
          (λ l' w. Inside d w × (l' ≡ l + 1))
  unfolding resume_checks
  checks-Ensures h = record { holds = λ w p. ground arith }

  ready-Ensures :
      (l' : ℕ)
      → Ensures
          (λ w. Inside d w × (l' ≡ l + 1))
          (maybe_prepare_range (undisturbed e core) (fail start) l')
          Advanced
          (λ released w. (Inside d w × (l' ≡ l + 1)) × (released ≡ false))
  unfolding maybe_prepare_range
  ready-Ensures l' = record { holds = λ w p. ground arith }

  ingest_ledger-Ensures :
      (l' : ℕ)
      → Ensures
          (λ w. Inside d w × (l' ≡ l + 1))
          (ingest_ledger (undisturbed e core) l l')
          Advanced
          Advanced
  unfolding ingest_ledger
  ingest_ledger-Ensures l' = record { holds = λ w p. ground arith }

  core-Ensures :
      (l' : ℕ)
      → Ensures
          (λ w. Inside d w × (l' ≡ l + 1))
          (ask
            (undisturbed e core)
            get_latest_core_ledger
            (λ w. (undisturbed e core).latest_core_ledger w.calls)
            (fail (retry_resume l) (failed get_latest_core_ledger)))
          Advanced
          (λ c w. (Inside d w × (l' ≡ l + 1)) × (c ≡ core))
  unfolding ask
  core-Ensures l' = record { holds = λ w p. ground arith }

  close-Ensures :
      (l' c : ℕ)
      → Ensures
          (λ w. (Inside d w × (l' ≡ l + 1)) × (c ≡ core))
          (if ltb c l'
            then fast_forward (undisturbed e core) l c
            else ingest_ledger (undisturbed e core) l l')
          Advanced
          Advanced
  close-Ensures l' c =
      if-Ensures (ltb c l') (λ b. record { holds = λ w p. absurd (omega (tests, p)) })
        (λ b. weaken (λ w p. p.0) (ingest_ledger-Ensures l'))

  body-Ensures :
      Known e l d → Ensures (Inside d) (resume_body (undisturbed e core) l) Advanced Advanced
  unfolding resume_body
  body-Ensures h = bind (checks-Ensures h) λ l'. bind (ready-Ensures l') λ released.
      bind (exit_if-Ensures released (ok start) (λ w p b. ground arith))
        λ _. bind (weaken (λ w p. p.0.0) (core-Ensures l')) λ c. close-Ensures l' c

run_resume-Advanced :
    (e : Env) (core l : ℕ) (w : World) (lt : l < core) (word : core < 2 ^ 32)
    → 0 < l
    → w.tx ≡ none
    → Known e l w.db
    → Holds
        (Advanced e core l w.db lt word)
        (Advanced e core l w.db lt word)
        (run_resume (undisturbed e core) l w)
unfolding run_resume
run_resume-Advanced e core l w lt word pos closed h = past_guard _ (l == 0) _ _ w (ground arith) (
    in_open_transaction _ _ (undisturbed e core) w _ (resume_body (undisturbed e core) l) closed
      refl (weaken (λ v b. b.0) (body-Ensures e core l w.db lt word h)) (λ o w' r. r))

-- A round of the resume state that nothing disturbs, from a ledger that the backend is past, ingests
-- the next ledger and resumes from there at once, with no transaction open.
pub resume_advances :
    (e : Env) (core l : ℕ) (w : World)
    → 0 < l
    → l < core
    → core < 2 ^ 32
    → w.tx ≡ none
    → Known e l w.db
    → ((run (undisturbed e core) (resume_state l) w).0 ≡ ok (resume_immediately (l + 1)))
      × ((run (undisturbed e core) (resume_state l) w).1.db ≡ ingest_next l w.db)
unfolding run
resume_advances e core l w pos lt word closed h =
    returned-Holds _ (run_resume (undisturbed e core) l w)
      (run_resume-Advanced e core l w lt word pos closed h)

-- The latest ledger of the history is the highest one that was written, and the state's tables do not
-- count: this is the query for the maximum in the table of ledgers.
pub record CountsLedgers (e : Env) : Type 0 where
  pub counts_all :
      (l : ℕ) (ts : List Write) → e.latest_ledger ts < l → e.latest_ledger (all_of l ∷ ts) ≡ l
  pub skips_state :
      (l : ℕ) (ts : List Write) → e.latest_ledger (state_of l ∷ ts) ≡ e.latest_ledger ts
  pub skips_truncate :
      (ts : List Write) → e.latest_ledger (truncate_state ∷ ts) ≡ e.latest_ledger ts

-- The ledgers after `l` one by one, in ascending order.
pub ingest_all : ℕ → ℕ → Db → Db
ingest_all zero l d = d
ingest_all (suc n) l d = ingest_all n (l + 1) (ingest_next l d)

Known-next :
    (e : Env) (l : ℕ) (d : Db)
    → 0 < l
    → CountsLedgers e
    → Known e l d
    → Known e (l + 1) (ingest_next l d)
Known-next e l d pos counts h = record {
  last = refl;
  version = h.version;
  history = inr (counts.counts_all (l + 1) d.tables (ground arith));
}

-- One turn of the loop, where the node neither stops nor panics.
pub turn :
    (e : Env) (core fuel : ℕ) (n : Node) (w : World) (t : Transition) (n' : Node)
    → w.tx ≡ none
    → (run (undisturbed e core) n w).0 ≡ ok t
    → is_stop t.node ≡ false
    → n' ≡ t.node
    → run_state_machine (undisturbed e core) (suc fuel) n w
      ≡ run_state_machine
          (undisturbed e core)
          fuel
          n'
          (note (sleep t.sleep_duration) (run (undisturbed e core) n w).1)
unfolding run_state_machine after_run
turn e core fuel n w t n' closed same go q = ground arith

abbrev pub AfterRounds : Env → ℕ → ℕ → ℕ → Node → World → Db → Type 0
AfterRounds e rounds fuel l n w d =
    (w' : World) × (run_state_machine e (rounds + fuel) n w
      ≡ run_state_machine e fuel (resume_state l) w')
    × (w'.tx ≡ none)
    × (w'.db ≡ d)

-- From the ledger `l` on, with the backend at least `n` ledgers ahead and nothing in the way, `n` turns
-- of the machine ingest the `n` ledgers after `l`, each once and in ascending order, and the machine
-- is ready to resume after the last of them.
pub resume_catches_up :
    (e : Env) (core fuel n l : ℕ) (w : World)
    → CountsLedgers e
    → 0 < l
    → l + n ≤ core
    → core < 2 ^ 32
    → w.tx ≡ none
    → Known e l w.db
    → AfterRounds (undisturbed e core) n fuel (l + n) (resume_state l) w (ingest_all n l w.db)
unfolding ingest_all
resume_catches_up e core fuel zero l w counts pos le word closed h = (w, ground arith, closed, refl)
resume_catches_up e core fuel (suc n) l w counts pos le word closed h =
    let adv = resume_advances e core l w pos (omega arith) word closed h in
    let v = (run (undisturbed e core) (resume_state l) w).1 in
    let shut = run-closed (undisturbed e core) (resume_state l) w closed in
    let (w', go, c, d) =
      resume_catches_up e core fuel n (l + 1) (note (sleep 0) v) counts (omega arith) (omega arith)
        word shut (rw (adv.1) (Known-next e l w.db pos counts h)) in
    (
      w',
      ap (λ (k : ℕ). run_state_machine (undisturbed e core) k (resume_state l) w) (omega arith)
          ∙ turn e core (n + fuel) (resume_state l) w (resume_immediately (l + 1))
              (resume_state (l + 1)) closed adv.0 refl refl
          ∙ go
          ∙ ap (λ (k : ℕ). run_state_machine (undisturbed e core) fuel (resume_state k) w')
              (omega arith),
      c,
      d ∙ ap (ingest_all n (l + 1)) adv.1,
    )
