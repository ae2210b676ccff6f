-- ===== src/Captive/Streams.antt =====
-- The ledgers of a range are sent, and read one after the other.
use aurorav1_11_0_test.Base.{
  ℕ, zero, suc, ◌<◌, ◌≤◌, ◌+◌, ◌*◌, ◌/◌, ◌^◌, ◌≡◌, ◌≢◌, refl, sym, ap, subst, ◌∙◌, true, false,
  ◌&&◌, leb, ltb, ◌==◌, if◌then◌else◌, if-cases, Option, none, some, List, [], ◌∷◌, ◌++◌, arith,
}
use aurorav1_11_0_test.Captive.{
  Captive, Calls, LedgerCloseMeta, Frame, frame, MetaResult, meta, Got, found, Error,
  closing_failed, close, is_closed, take_ledger, closed_with, same_ledger, send_ledger_meta,
  get_loop, get_new, get_ledger,
}
use aurorav1_11_0_test.Captive.Opening.{round_down}
use aurorav1_11_0_test.Captive.Ledgers.{ledger, ledgers, at, same_number, get_loop-finds}

-- The frames of the ledgers from one on.
abbrev pub frames : ℕ → ℕ → List Frame
frames n zero = []
frames n (suc k) = frame (ledger n) ∷ frames (n + 1) k

abbrev pub founds : ℕ → ℕ → List Got
founds n zero = []
founds n (suc k) = found (ledger n) ∷ founds (n + 1) k

-- Calls of `GetLedger`, one for each ledger from one on.
unfoldable pub read_all : Calls → ℕ → ℕ → Captive → List Got × Captive
unfolding get_ledger
read_all e n zero c = ([], c)
read_all e n (suc k) c =
    let (got, c') = get_ledger e n 0 c in
    let (rest, c'') = read_all e (n + 1) k c' in (got ∷ rest, c'')

-- The cached ledger is another one.
abbrev pub Fresh : ℕ → Option LedgerCloseMeta → Type 0
Fresh n none = Unit
Fresh n (some m) = n ≢ m.ledger_sequence

-- The goroutine stops after the last ledger of the range.
pub sends-last :
    (k n until_sequence : ℕ) (exit : Option Error) (rest : List Frame)
    → until_sequence ≡ n + k
    → 0 < until_sequence
    → send_ledger_meta until_sequence exit (frames n (suc k) ++ rest) ≡ ledgers n (suc k)
unfolding send_ledger_meta
sends-last zero n until_sequence exit rest h pos =
    let some_end : (until_sequence == 0) ≡ false = ground (arith, pos) in
    let here : leb until_sequence n ≡ true = ground (arith, h) in rw (some_end, here) refl
sends-last (suc k) n until_sequence exit rest h pos =
    let later : leb until_sequence n ≡ false = ground (arith, h) in
    let next = sends-last k (n + 1) until_sequence exit rest (omega (arith, h)) pos in
    let some_end : (until_sequence == 0) ≡ false = ground (arith, pos) in
    rw (later, next, some_end) refl

ledgers-split :
    (d n k : ℕ)
    → ledgers n (d + suc k) ≡ ledgers n d ++ meta (ledger (n + d)) ∷ ledgers (n + d + 1) k
ledgers-split zero n k =
    let one : 0 + suc k ≡ suc k = omega arith in
    let here : n + 0 ≡ n = omega arith in rw (one, here) refl
ledgers-split (suc d) n k =
    let more : suc d + suc k ≡ suc (d + suc k) = omega arith in
    let there : n + 1 + d ≡ n + suc d = omega arith in
    rw more (
      ap (λ s. meta (ledger n) ∷ s)
        (ledgers-split d (n + 1) k
          ∙ ap (λ m. ledgers (n + 1) d ++ meta (ledger m) ∷ ledgers (m + 1) k) there))

pub round_down_le : (n : ℕ) → 1 < n → (round_down n ≤ n) × (1 < round_down n)
unfolding round_down
round_down_le n h =
    if-cases (λ v. (v ≤ n) × (1 < v)) (n / 64 * 64 == 0) (λ k. (omega (arith, h), omega arith))
      (λ k. let some : n / 64 * 64 ≢ 0 = ground (arith, k) in (omega arith, omega (arith, some)))

module _ (e : Calls) (stays : e.close_fails ≡ false) where
  pub closes : (c : Captive) → (close e c).0 ≡ none
  unfolding close
  closes c =
      rw stays
        (elim c.has_runner as (λ b. (if b && false then some closing_failed else none) ≡ none) [
          | true ↦ refl
          | false ↦ refl
        ])

  is_closed-close : (c : Captive) → is_closed (close e c).1 ≡ true
  unfolding close
  is_closed-close c = refl

  -- The session is closed with the last ledger, and stays open with another one.
  take_last :
      (m : LedgerCloseMeta) (c : Captive)
      → c.last_ledger ≡ some m.ledger_sequence
      → take_ledger e m c ≡ (found m, (close e (record c { cached_meta = some m })).1)
  unfolding close
  take_last m c last =
      let closed = close e (record c { cached_meta = some m }) in
      let same : same_ledger c.last_ledger m.ledger_sequence ≡ true =
        ap (λ o. same_ledger o m.ledger_sequence) last
        ∙ same_number m.ledger_sequence m.ledger_sequence refl in
      rw same (ap (λ x. closed_with m (x, closed.1)) (closes (record c { cached_meta = some m })))

  take_other :
      (m : LedgerCloseMeta) (q : ℕ) (c : Captive)
      → c.last_ledger ≡ some q
      → q ≢ m.ledger_sequence
      → take_ledger e m c ≡ (found m, record c { cached_meta = some m })
  take_other m q c last other =
      let there : (q == m.ledger_sequence) ≡ false = ground (arith, other) in rw (last, there) refl

  -- A ledger that is not the cached one is looked for in the stream.
  pub get_ledger-reads :
      (n sequence : ℕ) (s : List MetaResult) (c : Captive)
      → Fresh sequence c.cached_meta
      → 0 < n
      → n ≤ sequence
      → get_ledger e sequence 0 (at n s c) ≡ get_loop e sequence 0 (at n s c) s
  unfolding get_ledger
  get_ledger-reads n sequence s c fresh pos le =
      let is_open : (n == 0) ≡ false = ground (arith, pos) in
      let ahead : ltb sequence n ≡ false = ground (arith, le) in
      elim c.cached_meta
          as (λ o.
            Fresh sequence o
            → (elim o [
              | none ↦ get_new e sequence 0 (at n s c)
              | some m ↦
                  if sequence == m.ledger_sequence
                  then (found m, at n s c)
                  else get_new e sequence 0 (at n s c)
            ])
              ≡ get_loop e sequence 0 (at n s c) s) [
                | none ↦ λ f. rw (is_open, ahead) refl
                | some m ↦ λ f.
                    let another : (sequence == m.ledger_sequence) ≡ false = ground (arith, f) in
                    rw (another, is_open, ahead) refl
              ]
        fresh

  pub get_ledger-finds :
      (n d sequence j k : ℕ) (c : Captive)
      → sequence ≡ n + d
      → j ≡ d + suc k
      → Fresh sequence c.cached_meta
      → 0 < n
      → sequence + 1 < 2 ^ 32
      → get_ledger e sequence 0 (at n (ledgers n j) c)
        ≡ take_ledger e (ledger sequence) (at (sequence + 1) (ledgers (sequence + 1) k) c)
  get_ledger-finds n d sequence j k c hs hj fresh pos fits =
      get_ledger-reads n sequence (ledgers n j) c fresh pos (omega (arith, hs))
      ∙ rw (hj, ledgers-split d n k, hs)
          (get_loop-finds e d n 0 c _ (ledgers (n + d + 1) k) (omega (arith, hs, fits)))

  -- The first request may pass over ledgers; the others ask for the next one.
  pub read_on :
      (k n d sequence j : ℕ) (c : Captive)
      → sequence ≡ n + d
      → j ≡ d + suc k
      → c.last_ledger ≡ some (sequence + k)
      → Fresh sequence c.cached_meta
      → 0 < n
      → sequence + k + 1 < 2 ^ 32
      → let read = read_all e sequence (suc k) (at n (ledgers n j) c) in
        (read.0 ≡ founds sequence (suc k)) × (is_closed read.1 ≡ true)
  unfolding read_all
  read_on zero n d sequence j c hs hj last fresh pos fits =
      let found_it =
        get_ledger-finds n d sequence j 0 c hs hj fresh pos (omega (arith, fits))
        ∙ take_last (ledger sequence) (at (sequence + 1) [] c) (last ∙ ap some (omega arith)) in
      subst (λ r. (r.0 ∷ [] ≡ founds sequence 1) × (is_closed r.1 ≡ true)) (sym found_it)
        (
          refl,
          is_closed-close
              (record (at (sequence + 1) [] c) { cached_meta = some (ledger sequence) }),
        )
  read_on (suc k) n d sequence j c hs hj last fresh pos fits =
      let found_it =
        get_ledger-finds n d sequence j (suc k) c hs hj fresh pos (omega (arith, fits))
        ∙ take_other (ledger sequence) (sequence + suc k)
            (at (sequence + 1) (ledgers (sequence + 1) (suc k)) c) last (omega arith) in
      let (same, ended) =
        read_on k (sequence + 1) 0 (sequence + 1) (suc k)
          (record c { cached_meta = some (ledger sequence) }) (omega arith) (omega arith)
          (last ∙ ap some (omega arith)) (omega arith) (omega arith) (omega (arith, fits)) in
      subst
        (λ r.
          (r.0 ∷ (read_all e (sequence + 1) (suc k) r.1).0 ≡ founds sequence (suc (suc k)))
          × (is_closed (read_all e (sequence + 1) (suc k) r.1).1 ≡ true))
        (sym found_it) (ap (λ gs. found (ledger sequence) ∷ gs) same, ended)
