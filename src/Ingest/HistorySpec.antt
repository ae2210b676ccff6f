-- ===== src/Ingest/HistorySpec.antt =====
-- What a round in the history range state does.
use aurorav1_11_0_test.Base.{
  ℕ, zero, suc, ◌+◌, ◌-◌, ◌≤◌, ◌<◌, false, none, some, ◌≡◌, ◌≢◌, ap, ◌⊎◌, inl, ◌∷◌, ◌++◌, [], arith,
  List, map,
}
use aurorav1_11_0_test.Ingest.World.{
  World, Db, Env, Write, transactions_of, failed, run_transaction_processors,
}
use aurorav1_11_0_test.Ingest.Nodes.{Transition, Outcome, ok, fail, start, history_range_state}
use aurorav1_11_0_test.Ingest.Steps.{perform, writes}
use aurorav1_11_0_test.Ingest.Helpers.{process_ledgers}
use aurorav1_11_0_test.Ingest.History.{
  commit_history, history_checks, history_range_body, run_history_range, bad_range,
}
use aurorav1_11_0_test.Ingest.Machine.{run}
use aurorav1_11_0_test.Ingest.Triples.{
  Holds, Ensures, found, Inside, bind, weaken, consequence, frame, past_guard, in_transaction,
  returned-Holds,
}

-- The ledgers from `from` on, the last one first.
abbrev pub newest_first : ℕ → ℕ → List ℕ
newest_first zero from = []
newest_first (suc n) from = (from + n) ∷ newest_first n from

tables-suc :
    (n from : ℕ) (ts : List Write)
    → map transactions_of (newest_first n (from + 1)) ++ (transactions_of from ∷ ts)
      ≡ map transactions_of (newest_first (suc n) from) ++ ts
tables-suc zero from ts = ground arith
tables-suc (suc n) from ts = ground (arith, tables-suc n from ts)

-- The database with the transactions of the ledgers added, in ascending order.
abbrev pub caught_up : ℕ → ℕ → Db → Db
caught_up rounds from d = record d {
  tables = map transactions_of (newest_first rounds from) ++ d.tables;
}

caught_up-suc :
    (n from : ℕ) (d : Db)
    → caught_up n (from + 1) (record d { tables = transactions_of from ∷ d.tables })
      ≡ caught_up (suc n) from d
caught_up-suc n from d =
    ap (λ (ts : List Write). record d { tables = ts }) (tables-suc n from d.tables)

module _ (e : Env) (t : Transition) (c : Db) where
  abbrev Failed : Outcome → World → Type 0
  Failed o w = (o.1 ≢ none) × (o.0 ≡ t) × (w.db ≡ c)

  step-Ensures :
      (from : ℕ) (d : Db)
      → Ensures
          (λ w. (w.db ≡ c) × (w.tx ≡ some d))
          (writes e
            (run_transaction_processors from)
            (transactions_of from)
            (fail t (failed (run_transaction_processors from))))
          Failed
          (λ _ w.
            (w.db ≡ c) × (w.tx ≡ some (record d { tables = transactions_of from ∷ d.tables })))
  unfolding perform
  step-Ensures from d = record { holds = λ w p. ground arith }

  -- The loop adds the ledgers to the transaction, or fails and leaves the database alone.
  pub process_ledgers-Ensures :
      (rounds from : ℕ) (d : Db)
      → Ensures
          (λ w. (w.db ≡ c) × (w.tx ≡ some d))
          (process_ledgers e (fail t) rounds from)
          Failed
          (λ _ w. (w.db ≡ c) × (w.tx ≡ some (caught_up rounds from d)))
  unfolding process_ledgers
  process_ledgers-Ensures zero from d = record { holds = λ w p. p }
  process_ledgers-Ensures (suc rounds) from d =
      bind (step-Ensures from d)
        (λ _. rw (← caught_up-suc rounds from d) (process_ledgers-Ensures rounds (from + 1) _))

-- The round fails and leaves the database alone; or it finds that the history does not end right
-- before the range, or that the range has to be prepared, and does nothing; or it adds the
-- transactions of every ledger of the range, in order and in one commit. It always goes to the start.
abbrev pub CaughtUp : Env → ℕ → ℕ → Db → Outcome → Db → Type 0
CaughtUp e from to d o d' =
    (o.1 ≢ none) × (o.0 ≡ start) × (d' ≡ d)
    ⊎ (o ≡ ok start) × (d' ≡ d)
    ⊎ (o ≡ ok start)
      × (e.latest_ledger d.tables ≡ from - 1)
      × (d' ≡ caught_up (to + 1 - from) from d)

module _ (e : Env) (from to : ℕ) (d : Db) where
  abbrev Post : Outcome → World → Type 0
  Post o w = CaughtUp e from to d o w.db

  abbrev Ready : World → Type 0
  Ready w = Inside d w × (e.latest_ledger d.tables ≡ from - 1)

  history_checks-Ensures : Ensures (Inside d) (history_checks e from to) Post (λ _ w. Ready w)
  unfolding history_checks
  history_checks-Ensures = record { holds = λ w p. ground arith }

  commit_history-Ensures :
      Ensures
        (λ w.
          ((w.db ≡ d) × (w.tx ≡ some (caught_up (to + 1 - from) from d)))
          × (e.latest_ledger d.tables ≡ from - 1))
        (commit_history e from to)
        Post
        Post
  unfolding commit_history
  commit_history-Ensures = record { holds = λ w p. ground arith }

  history_range_body-Ensures : Ensures (Inside d) (history_range_body e from to) Post Post
  unfolding history_range_body
  history_range_body-Ensures = bind history_checks-Ensures λ _.
      bind
        (frame (e.latest_ledger d.tables ≡ from - 1) (
          consequence (λ o w f. inl f) (λ _ w q. q)
            (process_ledgers-Ensures e start d (to + 1 - from) from d)))
        λ _. commit_history-Ensures

-- The outcome of a round: one of the cases of `CaughtUp`, or no transaction could be opened.
abbrev pub HistoryRound : Env → ℕ → ℕ → World → Outcome → World → Type 0
HistoryRound e from to w o w' =
    CaughtUp e from to (found e w) o w'.db ⊎ (o.1 ≢ none) × (o.0 ≡ start) × (w'.db ≡ w.db)

run_history_range-Round :
    (e : Env) (from to : ℕ) (w : World)
    → w.tx ≡ none
    → bad_range from to ≡ false
    → Holds (HistoryRound e from to w) (HistoryRound e from to w) (run_history_range e from to w)
unfolding run_history_range
run_history_range-Round e from to w closed good = past_guard _ (bad_range from to) _ _ w good (
    in_transaction (HistoryRound e from to w) (Post e from to (found e w)) e w _
      (history_range_body e from to) closed (ground arith)
      (weaken (λ v b. b.0) (history_range_body-Ensures e from to (found e w))) (λ o w' r. inl r))

-- A round in the history range state, from a world with no transaction open and over a range that is
-- not empty and does not begin with 0, opens no transaction and fails, or is a case of `CaughtUp`.
pub history_range-CaughtUp :
    (e : Env) (from to : ℕ) (w : World)
    → w.tx ≡ none
    → 0 < from
    → from ≤ to
    → HistoryRound e from to w
        (run e (history_range_state from to) w).0
        (run e (history_range_state from to) w).1
unfolding run
history_range-CaughtUp e from to w closed pos le =
    returned-Holds (HistoryRound e from to w) (run_history_range e from to w)
      (run_history_range-Round e from to w closed (ground arith))
