-- ===== src/Captive/Ledgers.antt =====
-- Ledgers that follow one another in the stream are read one after the other.
use aurorav1_11_0_test.Base.{
  ℕ, zero, suc, ◌<◌, ◌≤◌, ◌+◌, ◌-◌, ◌%◌, ◌^◌, ◌≡◌, refl, ap, subst, ◌∙◌, true, false, ◌==◌, List,
  [], ◌∷◌, ◌++◌, arith,
}
use aurorav1_11_0_test.Captive.{
  Captive, Calls, LedgerCloseMeta, MetaResult, meta, blocked, take_ledger, get_loop,
}

abbrev pub ledger : ℕ → LedgerCloseMeta
ledger n = record { ledger_sequence = n }

-- The ledgers from one on.
abbrev pub ledgers : ℕ → ℕ → List MetaResult
ledgers n zero = []
ledgers n (suc k) = meta (ledger n) ∷ ledgers (n + 1) k

-- A session in the middle of its stream.
abbrev pub at : ℕ → List MetaResult → Captive → Captive
at n s c = record c { next_ledger = n; stream = s; blocking = true }

pub same_number : (n m : ℕ) → n ≡ m → (n == m) ≡ true
same_number n m h = ground (arith, h)

module _ (e : Calls) where
  -- A ledger that is not the requested one is passed over, when it is the next one.
  get_loop-skips :
      (n sequence ready : ℕ) (c : Captive) (s0 s : List MetaResult)
      → n < sequence
      → sequence < 2 ^ 32
      → get_loop e sequence ready (at n s0 c) (meta (ledger n) ∷ s)
        ≡ get_loop e sequence (ready - 1) (at (n + 1) s c) s
  unfolding get_loop
  get_loop-skips n sequence ready c s0 s le fits =
      let here = same_number n n refl in
      let other : (n == sequence) ≡ false = ground (arith, le) in
      let next : (n + 1) % 2 ^ 32 ≡ n + 1 = omega (arith, le, fits) in rw (here, other, next) refl

  get_loop-takes :
      (n ready : ℕ) (c : Captive) (s0 s : List MetaResult)
      → n + 1 < 2 ^ 32
      → get_loop e n ready (at n s0 c) (meta (ledger n) ∷ s)
        ≡ take_ledger e (ledger n) (at (n + 1) s c)
  unfolding get_loop
  get_loop-takes n ready c s0 s fits =
      let here = same_number n n refl in
      let next : (n + 1) % 2 ^ 32 ≡ n + 1 = omega (arith, fits) in rw (here, next) refl

  get_loop-waits :
      (n sequence ready : ℕ) (c : Captive) (s0 : List MetaResult)
      → get_loop e sequence ready (at n s0 c) [] ≡ (blocked, at n [] c)
  unfolding get_loop
  get_loop-waits n sequence ready c s0 = refl

  -- A ledger of the stream is reached over the ones before it.
  pub get_loop-finds :
      (d n ready : ℕ) (c : Captive) (s0 left : List MetaResult)
      → n + d + 1 < 2 ^ 32
      → get_loop e (n + d) ready (at n s0 c) (ledgers n d ++ meta (ledger (n + d)) ∷ left)
        ≡ take_ledger e (ledger (n + d)) (at (n + d + 1) left c)
  get_loop-finds zero n ready c s0 left fits =
      subst
        (λ k.
          get_loop e k ready (at n s0 c) (meta (ledger k) ∷ left)
          ≡ take_ledger e (ledger k) (at (k + 1) left c))
        (omega arith) (get_loop-takes n ready c s0 left (omega (arith, fits)))
  get_loop-finds (suc d) n ready c s0 left fits =
      let there : n + 1 + d ≡ n + suc d = omega arith in
      get_loop-skips n (n + suc d) ready c s0
        (ledgers (n + 1) d ++ meta (ledger (n + suc d)) ∷ left) (omega arith) (omega (arith, fits))
      ∙ subst
          (λ k.
            get_loop e k (ready - 1) (at (n + 1) (ledgers (n + 1) d ++ meta (ledger k) ∷ left) c)
              (ledgers (n + 1) d ++ meta (ledger k) ∷ left)
            ≡ take_ledger e (ledger k) (at (k + 1) left c))
          there
          (get_loop-finds d (n + 1) (ready - 1) c
            (ledgers (n + 1) d ++ meta (ledger (n + 1 + d)) ∷ left) left (omega (arith, fits)))

  -- With only earlier ledgers in the stream, a session that blocks waits for ever.
  pub get_loop-blocks :
      (k n sequence ready : ℕ) (c : Captive) (s0 : List MetaResult)
      → n + k ≤ sequence
      → sequence < 2 ^ 32
      → get_loop e sequence ready (at n s0 c) (ledgers n k) ≡ (blocked, at (n + k) [] c)
  get_loop-blocks zero n sequence ready c s0 le fits =
      get_loop-waits n sequence ready c s0 ∙ ap (λ m. (blocked, at m [] c)) (omega arith)
  get_loop-blocks (suc k) n sequence ready c s0 le fits =
      get_loop-skips n sequence ready c s0 (ledgers (n + 1) k) (omega (arith, le)) fits
      ∙ (get_loop-blocks k (n + 1) sequence (ready - 1) c (ledgers (n + 1) k) (omega (arith, le))
            fits
          ∙ ap (λ m. (blocked, at m [] c)) (omega arith))
