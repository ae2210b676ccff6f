-- ===== src/Ingest/Triples.antt =====
-- A logic for steps: from worlds that meet a precondition, a step ends in a value and a world that
-- meet a postcondition, and every early return meets another one.
use aurorav1_11_0_test.Base.{
  Bool, true, false, some, none, inl, inr, ◌≡◌, refl, ◌∷◌, if◌then◌else◌, Bool-cases,
}
use aurorav1_11_0_test.Ingest.World.{World, Db, Env, begin, note}
use aurorav1_11_0_test.Ingest.Steps.{
  Flow, M, next, exit, go_on, ◌>>=◌, exit_if, returned, roll_back, deferring_rollback, open_tx,
  begins, perform, ◌>>◌,
}

abbrev pub Holds :
    {T A : Type 0} → (T → World → Type 0) → (A → World → Type 0) → Flow T A × World → Type 0
Holds P Q (next a, w) = Q a w
Holds P Q (exit t, w) = P t w

-- A record, so that its parts can be inferred from it.
pub record Ensures {T A : Type 0} (Pre : World → Type 0) (m : M T A) (P : T → World → Type 0)
    (Q : A → World → Type 0) : Type 0 where
  pub holds : (w : World) → Pre w → Holds P Q (m w)

deferred :
    {T A : Type 0} (P : T → World → Type 0) (Q : A → World → Type 0) (r : Flow T A × World)
    → Holds (λ t w. P t (roll_back w)) (λ a w. Q a (roll_back w)) r
    → Holds P Q (r.0, roll_back r.1)
deferred P Q (next a, w) h = h
deferred P Q (exit t, w) h = h

pub returned-Holds :
    {T : Type 0} (P : T → World → Type 0) (r : Flow T T × World)
    → Holds P P r
    → P (returned r).0 (returned r).1
returned-Holds P (next t, w) h = h
returned-Holds P (exit t, w) h = h

module _ {T : Type 0} {P : T → World → Type 0} where
  go_on-Holds :
      {A B : Type 0} {Q : A → World → Type 0} {R : B → World → Type 0} (r : Flow T A × World)
      {f : A → M T B}
      → Holds P Q r
      → ((a : A) → Ensures (Q a) (f a) P R)
      → Holds P R (go_on r f)
  go_on-Holds (next a, w) h k = (k a).holds w h
  go_on-Holds (exit t, w) h k = h

  -- The rule for `m >>= f`.
  pub bind :
      {A B : Type 0} {Pre : World → Type 0} {Q : A → World → Type 0} {R : B → World → Type 0}
      {m : M T A} {f : A → M T B}
      → Ensures Pre m P Q
      → ((a : A) → Ensures (Q a) (f a) P R)
      → Ensures Pre (m >>= f) P R
  bind {m} h k = record { holds = λ w p. go_on-Holds (m w) (h.holds w p) k }

  pub exit_if-Ensures :
      {Pre : World → Type 0} (b : Bool) (t : T)
      → ((w : World) → Pre w → b ≡ true → P t w)
      → Ensures Pre (exit_if b t) P (λ _ w. Pre w × (b ≡ false))
  exit_if-Ensures true t h = record { holds = λ w p. h w p refl }
  exit_if-Ensures false t h = record { holds = λ w p. (p, refl) }

  pub deferring_rollback-Ensures :
      {A : Type 0} {Q : A → World → Type 0} {Pre : World → Type 0} {m : M T A}
      → Ensures Pre m (λ t w. P t (roll_back w)) (λ a w. Q a (roll_back w))
      → Ensures Pre (deferring_rollback m) P Q
  deferring_rollback-Ensures {Q} {m} h = record { holds = λ w p. deferred P Q (m w) (h.holds w p) }

  pub if-Ensures :
      {A : Type 0} {Pre : World → Type 0} {Q : A → World → Type 0} {m n : M T A} (b : Bool)
      → (b ≡ true → Ensures Pre m P Q)
      → (b ≡ false → Ensures Pre n P Q)
      → Ensures Pre (if b then m else n) P Q
  if-Ensures true h k = h refl
  if-Ensures false h k = k refl

  pub weaken :
      {A : Type 0} {Pre Pre' : World → Type 0} {Q : A → World → Type 0} {m : M T A}
      → ((w : World) → Pre w → Pre' w)
      → Ensures Pre' m P Q
      → Ensures Pre m P Q
  weaken f h = record { holds = λ w p. h.holds w (f w p) }

module _ {T A : Type 0} {P P' : T → World → Type 0} {Q Q' : A → World → Type 0} where
  Holds-mono :
      ((t : T) (w : World) → P t w → P' t w)
      → ((a : A) (w : World) → Q a w → Q' a w)
      → (r : Flow T A × World) → Holds P Q r
      → Holds P' Q' r
  Holds-mono f g (next a, w) h = g a w h
  Holds-mono f g (exit t, w) h = f t w h

  pub consequence :
      {Pre : World → Type 0} {m : M T A}
      → ((t : T) (w : World) → P t w → P' t w)
      → ((a : A) (w : World) → Q a w → Q' a w)
      → Ensures Pre m P Q
      → Ensures Pre m P' Q'
  consequence {m} f g h = record { holds = λ w p. Holds-mono f g (m w) (h.holds w p) }

-- The database that a new transaction finds.
abbrev pub found : Env → World → Db
found e w = e.others (begin ∷ w.calls) w.db

-- In a transaction that has written nothing.
abbrev pub Inside : Db → World → Type 0
Inside d w = (w.db ≡ d) × (w.tx ≡ some d)

-- The same, right after `Begin`.
abbrev pub Begun : Env → World → World → Type 0
Begun e w₀ w = Inside (found e w₀) w × (w.calls ≡ begin ∷ w₀.calls)

pub begins-Ensures :
    {T : Type 0} {P : T → World → Type 0} (e : Env) (w₀ : World) (t : T)
    → w₀.tx ≡ none
    → P t (note begin w₀)
    → Ensures (λ w. w ≡ w₀) (begins e t) P (λ _ w. Begun e w₀ w)
unfolding begins perform
begins-Ensures {P} e w₀ t closed p = record {
  holds = λ w q. rw q (elim (Bool-cases (e.fails w₀.calls begin)) [
    | inl bad ↦ rw (closed, begins) (rw (bad, perform) p)
    | inr good ↦ rw (closed, begins) (rw (good, perform) ((refl, refl), refl))
  ]);
}

-- A node's shape: a transaction around its body.
pub in_transaction :
    {T : Type 0} (P R : T → World → Type 0) (e : Env) (w : World) (t : T) (body : M T T)
    → w.tx ≡ none
    → P t (note begin w)
    → Ensures (Begun e w) body R R
    → ((o : T) (w' : World) → R o w' → P o (roll_back w'))
    → Holds P P ((begins e t >> deferring_rollback body) w)
in_transaction P R e w t body closed p h f =
    (bind (begins-Ensures e w t closed p)
        (λ _. deferring_rollback-Ensures (consequence f f h))).holds
      w refl

-- The same where `Begin` does not fail.
pub in_open_transaction :
    {T : Type 0} (P R : T → World → Type 0) (e : Env) (w : World) (t : T) (body : M T T)
    → w.tx ≡ none
    → e.fails w.calls begin ≡ false
    → Ensures (Begun e w) body R R
    → ((o : T) (w' : World) → R o w' → P o (roll_back w'))
    → Holds P P ((begins e t >> deferring_rollback body) w)
unfolding begins perform
in_open_transaction P R e w t body closed good h f =
    rw (closed, begins)
      (rw (good, perform)
        ((deferring_rollback-Ensures (consequence f f h)).holds (open_tx e (note begin w))
          ((refl, refl), refl)))

-- A guard that lets the run pass.
pub past_guard :
    {T : Type 0} (P : T → World → Type 0) (b : Bool) (t : T) (m : M T T) (w : World)
    → b ≡ false
    → Holds P P (m w)
    → Holds P P ((exit_if b t >> m) w)
past_guard P true t m w h p = cc
past_guard P false t m w h p = p

-- A fact that no step touches.
pub frame :
    {T A : Type 0} {P : T → World → Type 0} {Q : A → World → Type 0} {Pre : World → Type 0}
    {m : M T A} (F : Type 0)
    → Ensures Pre m P Q
    → Ensures (λ w. Pre w × F) m P (λ a w. Q a w × F)
frame {P} {m} F h = record {
  holds = λ w p. Holds-mono {P = P} (λ t v x. x) (λ a v q. (q, p.1)) (m w) (h.holds w p.0);
}
