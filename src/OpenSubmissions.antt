-- ===== src/OpenSubmissions.antt =====
-- services/aurora/internal/txsub/open_submission_list.go: the listeners that wait for the result of a
-- transaction. A listener is a number, with the capacity of its channel an argument; a result is sent
-- once and the channel is closed. The mutex makes every method atomic; the logging is left out.
pub mod Listeners
pub mod Clean
pub mod Shape
mod Examples
use Prim.Native.String.{String, len}
use aurorav1_11_0_test.Base.{
  ℕ, ◌-◌, Bool, not, ltb, ◌==◌, if◌then◌else◌, Option, none, some, List, [], ◌∷◌, ◌++◌, map, length,
}
use aurorav1_11_0_test.Base.Maps.{Map, lookup, put, delete}

pub record OpenSubmission : Type 0 where
  pub hash : String
  pub submitted_at : ℕ
  pub listeners : List ℕ

-- The map from the hashes.
abbrev pub Submissions : Type 0
Submissions = Map OpenSubmission

pub data Added : Type 0 where
  added : Submissions → Added
  unbuffered_listener : Added
  unexpected_hash_length : Added

abbrev pub new_default_submission_list : Submissions
new_default_submission_list = []

abbrev pub open_or_new : ℕ → String → Option OpenSubmission → OpenSubmission
open_or_new now hash none = record { hash = hash; submitted_at = now; listeners = [] }
open_or_new now hash (some os) = os

-- The panic over an unbuffered channel is a value.
unfoldable pub add : ℕ → ℕ → String → ℕ → Submissions → Added
unfolding lookup put
add now capacity hash l m =
    let os = open_or_new now hash (lookup hash m) in
    if capacity == 0
    then unbuffered_listener
    else if not (len hash == 64)
    then unexpected_hash_length
    else added (put hash (record os { listeners = os.listeners ++ l ∷ [] }) m)

-- The hashes, in no specified order.
unfoldable pub pending : Submissions → List String
pending m = map (λ e. e.0) m

module _ {R : Type 0} where
  abbrev pub send : R → List ℕ → List (ℕ × R)
  send r ls = map (λ l. (l, r)) ls

  unfoldable pub finish : String → R → Submissions → List (ℕ × R) × Submissions
  unfolding lookup delete
  finish hash r m = elim (lookup hash m) [
    | none ↦ ([], m)
    | some os ↦ (send r os.listeners, delete hash m)
  ]

  -- `Result{Err: ErrTimeout}`
  module _ (timed_out : R) (now max_age : ℕ) where
    abbrev pub is_old : OpenSubmission → Bool
    is_old os = ltb max_age (now - os.submitted_at)

    -- The loop over the entries of the map, and the map that it deletes from.
    unfoldable pub clean_each :
        List (String × OpenSubmission) → Submissions → List (ℕ × R) × Submissions
    unfolding delete
    clean_each [] m = ([], m)
    clean_each ((k, os) ∷ entries) m =
        let rest = clean_each entries (if is_old os then delete os.hash m else m) in
        ((if is_old os then send timed_out os.listeners else []) ++ rest.0, rest.1)

    -- It returns how many are left.
    unfoldable pub clean : Submissions → List (ℕ × R) × ℕ × Submissions
    unfolding clean_each
    clean m = let r = clean_each m m in (r.0, length r.1, r.1)
