-- ===== src/Ingest/ReingestSpec.antt =====
-- What the reingestion of a range does.
use aurorav1_11_0_test.Base.{
  ℕ, ◌+◌, ◌-◌, ◌*◌, ◌^◌, ◌≤◌, ◌<◌, false, true, none, some, ◌≡◌, ◌≢◌, refl, ◌⊎◌, inl, inr, ◌∷◌,
  arith, ◌==◌, if◌then◌else◌, Bool-cases,
}
use aurorav1_11_0_test.Base.Int.{int32}
use aurorav1_11_0_test.Toid.{range, ledger_range_inclusive}
use aurorav1_11_0_test.Toid.Range.{ledger_range_value}
use aurorav1_11_0_test.Ingest.World.{
  World, Db, Env, delete_range, failed, begin, commit, get_last_ledger, note, Call,
  prepare_bounded_range,
}
use aurorav1_11_0_test.Ingest.Nodes.{Outcome, ok, fail, stop, reingest_history_range_state}
use aurorav1_11_0_test.Ingest.Steps.{perform, commits, ask, last_ledger}
use aurorav1_11_0_test.Ingest.HistorySpec.{caught_up, process_ledgers-Ensures}
use aurorav1_11_0_test.Ingest.History.{
  delete_first, ingest_range, reingest_body, reingest_locked, reingest_forced, run_reingest,
  bad_range,
}
use aurorav1_11_0_test.Ingest.Machine.{run}
use aurorav1_11_0_test.Ingest.Triples.{
  Holds, Ensures, found, Inside, bind, weaken, consequence, past_guard, returned-Holds,
  begins-Ensures, deferring_rollback-Ensures,
}

-- The ids of the ledgers from `first` to `to` are deleted, and the ledgers added in order.
abbrev pub reingested : ℕ → ℕ → Db → Db
reingested first to d =
    caught_up (to + 1 - first) first
      (record d { tables = delete_range (first * 2 ^ 32) ((to + 1) * 2 ^ 32) ∷ d.tables })

abbrev Failed : Db → Outcome → World → Type 0
Failed d o w = (o.1 ≢ none) × (o.0 ≡ stop) × (w.db ≡ d)

range_of-words :
    (first to : ℕ)
    → 2 ≤ first
    → first ≤ to
    → to + 1 < 2 ^ 31
    → ledger_range_inclusive (int32 first) (int32 to) ≡ range (first * 2 ^ 32) ((to + 1) * 2 ^ 32)
range_of-words first to two le fits = ground (arith, ledger_range_value first to)

module _ (e : Env) (first to : ℕ) (two : 2 ≤ first) (le : first ≤ to) (fits : to + 1 < 2 ^ 31)
    (d : Db) where
  delete-Ensures : Ensures (Inside d) (delete_first e first to) (Failed d) (λ _ w.
      (w.db ≡ d)
      × (w.tx
          ≡ some
              (record d { tables = delete_range (first * 2 ^ 32) ((to + 1) * 2 ^ 32) ∷ d.tables })))
  unfolding delete_first
  delete-Ensures = record { holds = λ w p. ground (arith, range_of-words first to two le fits) }

  ingest_range-Ensures :
      Ensures
        (Inside d)
        (ingest_range e first to)
        (Failed d)
        (λ _ w. (w.db ≡ d) × (w.tx ≡ some (reingested first to d)))
  unfolding ingest_range
  ingest_range-Ensures =
      bind delete-Ensures λ _. process_ledgers-Ensures e stop d (to + 1 - first) first _

  commit-Ensures :
      Ensures
        (λ w. (w.db ≡ d) × (w.tx ≡ some (reingested first to d)))
        (commits e (fail stop (failed commit)))
        (Failed d)
        (λ _ w. w.db ≡ reingested first to d)
  unfolding commits
  commit-Ensures = record { holds = λ w p. ground arith }

  lock-Ensures :
      Ensures
        (Inside d)
        (last_ledger e (fail stop (failed get_last_ledger)))
        (Failed d)
        (λ _ w. Inside d w)
  unfolding ask
  lock-Ensures = record { holds = λ w p. ground arith }

  reingest_locked-Ensures :
      Ensures
        (Inside d)
        (reingest_locked e first to)
        (Failed d)
        (λ _ w. w.db ≡ reingested first to d)
  unfolding reingest_locked reingest_body
  reingest_locked-Ensures = bind lock-Ensures λ _. bind ingest_range-Ensures λ _. commit-Ensures

-- The command fails, with the database left alone, or it has replaced the range in one commit.
abbrev pub Reingested : ℕ → ℕ → Env → World → Outcome → World → Type 0
Reingested first to e w o w' =
    (o.1 ≢ none) × (o.0 ≡ stop) × ((w'.db ≡ w.db) ⊎ (w'.db ≡ found e w))
    ⊎ (o ≡ ok stop) × (w'.db ≡ reingested first to (found e w))

reingest_forced-Reingested :
    (e : Env) (first to : ℕ) (w : World)
    → 2 ≤ first
    → first ≤ to
    → to + 1 < 2 ^ 31
    → w.tx ≡ none
    → Holds (Reingested first to e w) (Reingested first to e w) (reingest_forced e first to w)
unfolding reingest_forced
reingest_forced-Reingested e first to w two le fits closed =
    (bind (begins-Ensures e w (fail stop (failed begin)) closed (ground arith)) λ _.
        bind
          (deferring_rollback-Ensures (
            consequence {Q = λ _ v. v.db ≡ reingested first to (found e w)} (λ o v f. ground arith)
              (λ _ v q. q)
              (weaken (λ v b. b.0) (reingest_locked-Ensures e first to two le fits (found e w)))))
          λ _. (record { holds = λ v q. inr (refl, q) })).holds
      w refl

-- Where the command begins: ledger 1 is skipped.
abbrev pub first_ledger : ℕ → ℕ
first_ledger from = if from == 1 then 2 else from

prepare-Ensures :
    (e : Env) (w : World) (P : Outcome → World → Type 0) (c : Call) (t : Outcome)
    → P t (note c w)
    → Ensures (λ v. v ≡ w) (perform e c (λ v. v) t) P (λ _ v. v ≡ note c w)
unfolding perform
prepare-Ensures e w P c t p = record {
  holds = λ v q. rw q (elim (Bool-cases (e.fails w.calls c)) [
    | inl bad ↦ rw (bad, perform) p
    | inr good ↦ rw (good, perform) refl
  ]);
}

run_reingest-Reingested :
    (e : Env) (from to : ℕ) (w : World) {w₁ : World}
    → w₁ ≡ note (prepare_bounded_range from to) w
    → 0 < from
    → first_ledger from ≤ to
    → to + 1 < 2 ^ 31
    → w.tx ≡ none
    → Holds
        (Reingested (first_ledger from) to e w₁)
        (Reingested (first_ledger from) to e w₁)
        (run_reingest e from to true w)
unfolding run_reingest
run_reingest-Reingested e from to w {w₁} same positive le fits closed =
    past_guard _ (bad_range from to) _ _ w (ground arith) (
      (bind (prepare-Ensures e w _ _ _ (ground arith)) λ _. (record {
        holds = λ v q.
            rw (q, ← same)
              (reingest_forced-Reingested e (first_ledger from) to w₁ (ground arith) le fits
                (rw same closed));
      })).holds
        w refl)

-- A forced reingestion of a range that is not empty, from a world with no transaction open and up to
-- a ledger below 2 ^ 31 - 1, either fails and leaves the database as it was or as it found it, or has
-- in one commit deleted the rows of the range and added those of each of its ledgers in order.
pub reingest_force-Reingested :
    (e : Env) (from to : ℕ) (w : World)
    → 0 < from
    → first_ledger from ≤ to
    → to + 1 < 2 ^ 31
    → w.tx ≡ none
    → Reingested
        (first_ledger from)
        to
        e
        (note (prepare_bounded_range from to) w)
        (run e (reingest_history_range_state from to true) w).0
        (run e (reingest_history_range_state from to true) w).1
unfolding run
reingest_force-Reingested e from to w positive le fits closed =
    returned-Holds _ (run_reingest e from to true w)
      (run_reingest-Reingested e from to w refl positive le fits closed)

-- Without `force` a range that reaches the last ingested ledger is refused, whatever else fails, and
-- the database is left alone.
pub reingest_conflict :
    (e : Env) (from to : ℕ) (w : World)
    → w.tx ≡ none
    → 0 < w.db.last_ingested
    → w.db.last_ingested ≤ to
    → ((run e (reingest_history_range_state from to false) w).0.1 ≢ none)
      × ((run e (reingest_history_range_state from to false) w).1.db ≡ w.db)
unfolding run run_reingest
reingest_conflict e from to w closed positive le = ground arith
