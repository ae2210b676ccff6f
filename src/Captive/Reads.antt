-- ===== src/Captive/Reads.antt =====
-- Every outcome of `GetLedger`.
use aurorav1_11_0_test.Base.{
  ℕ, ◌<◌, ◌≤◌, ◌+◌, ◌-◌, ◌%◌, ◌^◌, ◌≡◌, ◌≢◌, refl, sym, ap, subst, ◌∙◌, if-cases, Bool, true, false,
  not, ◌&&◌, ltb, ◌==◌, if◌then◌else◌, Bool-cases, inl, inr, none, some, List, [], ◌∷◌, arith,
}
use aurorav1_11_0_test.Captive.{
  Captive, Calls, LedgerCloseMeta, MetaResult, meta, failure, Got, found, not_yet, blocked, failed,
  Error, close, is_closed, reset, take_ledger, same_ledger, get_loop, get_new, get_ledger,
  unexpected_ledger, session_closed, behind_stream,
}

-- The ledgers that a loop passes over: they follow one another from the next one on, and the
-- requested one is not among them.
pub data Passed (sequence : ℕ) : ℕ → List MetaResult → List MetaResult → ℕ → Type 0 where
  none_passed : {n : ℕ} {s : List MetaResult} → Passed sequence n s s n
  passed :
      {n n' : ℕ} {s s' : List MetaResult} (m : LedgerCloseMeta)
      → m.ledger_sequence ≡ n
      → n ≢ sequence
      → Passed sequence ((n + 1) % 2 ^ 32) s s' n'
      → Passed sequence n (meta m ∷ s) s' n'

-- After the last ledger of a segment the session is closed, and else it goes on with the next one.
abbrev Goes : ℕ → Bool → List MetaResult → Captive → Type 0
Goes sequence true left c = is_closed c ≡ true
Goes sequence false left c = (c.stream ≡ left) × (c.next_ledger ≡ (sequence + 1) % 2 ^ 32)

-- The ledger is the requested one, and cached; or the session goes on after the ledgers that were passed
-- over; or it is closed by an error.
abbrev pub Reads : ℕ → Captive → List MetaResult → Got × Captive → Type 0
Reads sequence c s (found m, c') =
    (m.ledger_sequence ≡ sequence)
    × (c'.cached_meta ≡ some m)
    × (left : List MetaResult) × Passed sequence c.next_ledger s (meta m ∷ left) sequence
    × Goes sequence (same_ledger c.last_ledger sequence) left c'
Reads sequence c s (not_yet, c') =
    (c.blocking ≡ false) × Passed sequence c.next_ledger s c'.stream c'.next_ledger
Reads sequence c s (blocked, c') =
    (c.blocking ≡ true) × Passed sequence c.next_ledger s [] c'.next_ledger
Reads sequence c s (failed x, c') = is_closed c' ≡ true

ends :
    (sequence : ℕ) (last : Bool) (left : List MetaResult) (c : Captive)
    → last ≡ true
    → is_closed c ≡ true
    → Goes sequence last left c
ends sequence true left c l h = h
ends sequence false left c l h = cc l

left_open :
    (sequence : ℕ) (last : Bool) (left : List MetaResult) (c : Captive)
    → last ≡ false
    → (c.stream ≡ left) × (c.next_ledger ≡ (sequence + 1) % 2 ^ 32)
    → Goes sequence last left c
left_open sequence true left c l h = cc l
left_open sequence false left c l h = h

pub data Answers (sequence : ℕ) (c : Captive) : Got × Captive → Type 0 where
  cached :
      (m : LedgerCloseMeta)
      → c.cached_meta ≡ some m
      → m.ledger_sequence ≡ sequence
      → Answers sequence c (found m, c)
  closed : c.next_ledger ≡ 0 → Answers sequence c (failed session_closed, c)
  behind : sequence < c.next_ledger → Answers sequence c (failed behind_stream, c)
  reading :
      {r : Got × Captive}
      → c.next_ledger ≢ 0
      → c.next_ledger ≤ sequence
      → Reads sequence c c.stream r
      → Answers sequence c r

module _ (e : Calls) where
  reset-Reads :
      (sequence : ℕ) (c c' : Captive) (s : List MetaResult) (x : Error)
      → Reads sequence c s (reset e x c')
  unfolding close
  reset-Reads sequence c c' s x = refl

  -- The requested ledger is the next one.
  take_ledger-Reads :
      (sequence : ℕ) (c : Captive) (s : List MetaResult) (m : LedgerCloseMeta)
      → m.ledger_sequence ≡ sequence
      → m.ledger_sequence ≡ c.next_ledger
      → Reads sequence c
          (meta m ∷ s)
          (take_ledger e m (record c { next_ledger = (c.next_ledger + 1) % 2 ^ 32; stream = s }))
  unfolding close
  take_ledger-Reads sequence c s m h n =
      let here =
        subst (λ k. Passed sequence c.next_ledger (meta m ∷ s) (meta m ∷ s) k) (sym n ∙ h)
          none_passed in
      let same = ap (same_ledger c.last_ledger) h in
      let after = record c {
        next_ledger = (c.next_ledger + 1) % 2 ^ 32;
        stream = s;
        cached_meta = some m;
      } in
      if-cases (Reads sequence c (meta m ∷ s)) (same_ledger c.last_ledger m.ledger_sequence)
        (λ l. elim (Bool-cases (c.has_runner && e.close_fails)) [
          | inl b ↦ rw b refl
          | inr b ↦ rw b (h, refl, s, here, ends sequence _ s (close e after).1 (sym same ∙ l) refl)
        ])
        (λ l. (
          h,
          refl,
          s,
          here,
          left_open sequence _ s after (sym same ∙ l)
              (refl, ap (λ k. (k + 1) % 2 ^ 32) (sym n ∙ h)),
        ))

  -- One ledger is passed over.
  passes :
      (sequence : ℕ) (c c' : Captive) (m : LedgerCloseMeta) (s : List MetaResult)
      (r : Got × Captive)
      → c'.blocking ≡ c.blocking
      → c'.last_ledger ≡ c.last_ledger
      → c'.next_ledger ≡ (c.next_ledger + 1) % 2 ^ 32
      → m.ledger_sequence ≡ c.next_ledger
      → m.ledger_sequence ≢ sequence
      → Reads sequence c' s r
      → Reads sequence c (meta m ∷ s) r
  passes sequence c c' m s (found m', c'') b l n e other (h, kept, left, before, goes) = (
    h,
    kept,
    left,
    passed m e (λ q. other (e ∙ q))
        (subst (λ k. Passed sequence k s (meta m' ∷ left) sequence) n before),
    subst (λ o. Goes sequence (same_ledger o sequence) left c'') l goes,
  )
  passes sequence c c' m s (not_yet, c'') b l n e other h = (
    sym b ∙ h.0,
    passed m e (λ q. other (e ∙ q))
        (subst (λ k. Passed sequence k s c''.stream c''.next_ledger) n h.1),
  )
  passes sequence c c' m s (blocked, c'') b l n e other h = (
    sym b ∙ h.0,
    passed m e (λ q. other (e ∙ q)) (subst (λ k. Passed sequence k s [] c''.next_ledger) n h.1),
  )
  passes sequence c c' m s (failed x, c'') b l n e other h = h

  -- The loop stops at an empty buffer only where it does not block.
  stops : (b : Bool) (ready : ℕ) → (not b && ready == 0) ≡ true → b ≡ false
  stops b ready h = ground (arith, h)

  get_loop-Reads :
      (sequence ready : ℕ) (c : Captive) (s : List MetaResult)
      → Reads sequence c s (get_loop e sequence ready c s)
  unfolding get_loop
  get_loop-Reads sequence ready c [] =
      elim c.blocking
          as (λ b.
            c.blocking ≡ b
            → Reads sequence c [] ((if b then blocked else not_yet), record c { stream = [] })) [
              | true ↦ λ h. (h, none_passed)
              | false ↦ λ h. (h, none_passed)
            ]
        refl
  get_loop-Reads sequence ready c (failure x ∷ s) =
      if-cases (Reads sequence c (failure x ∷ s)) (not c.blocking && ready == 0)
        (λ h. (stops c.blocking ready h, none_passed))
        (λ h. reset-Reads sequence c (record c { stream = s }) (failure x ∷ s) x)
  get_loop-Reads sequence ready c (meta m ∷ s) =
      let c' = record c { next_ledger = (c.next_ledger + 1) % 2 ^ 32; stream = s } in
      if-cases (Reads sequence c (meta m ∷ s)) (not c.blocking && ready == 0)
        (λ h. (stops c.blocking ready h, none_passed))
        (λ h.
          if-cases (Reads sequence c (meta m ∷ s)) (not (m.ledger_sequence == c.next_ledger))
            (λ k. reset-Reads sequence c (record c { stream = s }) (meta m ∷ s) unexpected_ledger)
            (λ k.
              if-cases (Reads sequence c (meta m ∷ s)) (m.ledger_sequence == sequence)
                (λ q. take_ledger-Reads sequence c s m (ground (arith, q)) (ground (arith, k)))
                (λ q.
                  passes sequence c c' m s _ refl refl refl (ground (arith, k)) (ground (arith, q))
                    (get_loop-Reads sequence (ready - 1) c' s))))

  new_ledger-Answers :
      (sequence ready : ℕ) (c : Captive) → Answers sequence c (get_new e sequence ready c)
  new_ledger-Answers sequence ready c =
      if-cases (Answers sequence c) (is_closed c) (λ h. closed (ground (arith, h)))
        (λ h.
          if-cases (Answers sequence c) (ltb sequence c.next_ledger)
            (λ k. behind (ground (arith, k)))
            (λ k.
              reading (ground (arith, h)) (ground (arith, k))
                (get_loop-Reads sequence ready c c.stream)))

  -- A call of `GetLedger`, whatever is in the stream: it answers the cached ledger, or refuses without a
  -- change, or reads. Then the answer is the requested ledger, reached over ledgers that follow one
  -- another without a gap, after which the session goes on with the next one, or is closed at the end
  -- of its segment; or the session goes on with the ledgers that are left, nothing being there yet;
  -- or it waits for ever at the end of the stream; or an error closes it.
  pub get_ledger-Answers :
      (sequence ready : ℕ) (c : Captive) → Answers sequence c (get_ledger e sequence ready c)
  unfolding get_ledger
  get_ledger-Answers sequence ready c =
      elim c.cached_meta
          as (λ o.
            c.cached_meta ≡ o
            → Answers sequence c (elim o [
              | none ↦ get_new e sequence ready c
              | some m ↦
                  if sequence == m.ledger_sequence then (found m, c) else get_new e sequence ready c
            ])) [
              | none ↦ λ h. new_ledger-Answers sequence ready c
              | some m ↦ λ h.
                  if-cases (Answers sequence c) (sequence == m.ledger_sequence)
                    (λ k. cached m h (ground (arith, k))) (λ k. new_ledger-Answers sequence ready c)
            ]
        refl
