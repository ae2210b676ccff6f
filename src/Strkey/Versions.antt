-- ===== src/Strkey/Versions.antt =====
-- `DecodeAny` and `Decode` of strkey/main.go.
use aurorav1_11_0_test.Base.{
  ℕ, ◌≡◌, ◌↔◌, sym, ap, ◌∙◌, true, not, ◌==◌, ==_iff, if◌then◌else◌, if-cases, Option, none, some,
  List, arith,
}
use aurorav1_11_0_test.Crc16.{validate}
use aurorav1_11_0_test.Strkey.{
  Result, ok, err, panicked, check_valid_version_byte, decode_string, Components, components,
  payload_of, any_of, decode_any, decode,
}

abbrev pair_ok : ℕ → List ℕ → Result (ℕ × List ℕ)
pair_ok v p = ok (v, p)

module _ (v : ℕ) (p : List ℕ) where
  err_ok : err ≡ ok p → ⊥
  err_ok h = cc h

  err_pair : err ≡ pair_ok v p → ⊥
  err_pair h = cc h

  panicked_ok : panicked ≡ ok p → ⊥
  panicked_ok h = cc h

  panicked_pair : panicked ≡ pair_ok v p → ⊥
  panicked_pair h = cc h

  pair_version : (w : ℕ) (q : List ℕ) → pair_ok w q ≡ pair_ok v p → w ≡ v
  pair_version w q h = cc h

  pair_payload : (w : ℕ) (q : List ℕ) → pair_ok w q ≡ pair_ok v p → q ≡ p
  pair_payload w q h = cc h

  payload_same : (q : List ℕ) → ok q ≡ ok p → q ≡ p
  payload_same q h = cc h

  -- `Decode` for this version, once the string is read.
  abbrev expecting : Result (List ℕ) → Result (List ℕ)
  expecting r = if check_valid_version_byte v then r else err

  any-expecting : (o : Option Components) → any_of o ≡ ok (v, p) → expecting (payload_of v o) ≡ ok p
  any-expecting none h = absurd (panicked_pair h)
  any-expecting (some c) h =
      let Q : Result (ℕ × List ℕ) → Type 0 =
        λ r. r ≡ ok (v, p) → expecting (payload_of v (some c)) ≡ ok p in
      if-cases Q (not (check_valid_version_byte c.version_byte)) (λ invalid e. absurd (err_pair e))
        (λ valid.
          if-cases Q (validate c.vp c.sum)
            (λ sound e.
              let same = pair_version c.version_byte c.payload e in
              let valid' : check_valid_version_byte v ≡ true =
                ap check_valid_version_byte (sym same) ∙ ground (arith, valid) in
              let there : (c.version_byte == v) ≡ true = (==_iff c.version_byte v).1 same in
              rw (valid', there, sound) (ap ok (pair_payload c.version_byte c.payload e)))
            (λ unsound e. absurd (err_pair e)))
        h

  expecting-any : (o : Option Components) → expecting (payload_of v o) ≡ ok p → any_of o ≡ ok (v, p)
  expecting-any none h =
      if-cases (λ r. r ≡ ok p → panicked ≡ pair_ok v p) (check_valid_version_byte v)
        (λ valid e. absurd (panicked_ok e)) (λ invalid e. absurd (err_ok e)) h
  expecting-any (some c) h =
      let Q : Result (List ℕ) → Type 0 = λ r. r ≡ ok p → any_of (some c) ≡ ok (v, p) in
      if-cases Q (check_valid_version_byte v)
        (λ valid.
          if-cases Q (not (c.version_byte == v)) (λ other e. absurd (err_ok e))
            (λ same.
              if-cases Q (validate c.vp c.sum)
                (λ sound e.
                  let there : c.version_byte ≡ v = ground (arith, same) in
                  let valid' : check_valid_version_byte c.version_byte ≡ true =
                    ap check_valid_version_byte there ∙ valid in
                  rw (valid', sound)
                    (ap (λ w. pair_ok w c.payload) there
                      ∙ ap (λ q. pair_ok v q) (payload_same c.payload e)))
                (λ unsound e. absurd (err_ok e))))
        (λ invalid e. absurd (err_ok e)) h

  any-read :
      (o : Option (List ℕ))
      → (elim o [ none ↦ err | some raw ↦ any_of (components raw) ]) ≡ ok (v, p)
      → expecting (elim o [ none ↦ err | some raw ↦ payload_of v (components raw) ]) ≡ ok p
  any-read none h = absurd (err_pair h)
  any-read (some raw) h = any-expecting (components raw) h

  read-any :
      (o : Option (List ℕ))
      → expecting (elim o [ none ↦ err | some raw ↦ payload_of v (components raw) ]) ≡ ok p
      → (elim o [ none ↦ err | some raw ↦ any_of (components raw) ]) ≡ ok (v, p)
  read-any none h = absurd (
      if-cases (λ r. r ≡ ok p → ⊥) (check_valid_version_byte v) (λ valid. err_ok)
        (λ invalid. err_ok) h)
  read-any (some raw) h = expecting-any (components raw) h

-- For every string, `DecodeAny` answers a version and a payload exactly when `Decode` with that version
-- expected answers the payload.
decode_any-decode :
    (v : ℕ) (s payload : List ℕ) → (decode_any s ≡ ok (v, payload)) ↔ (decode v s ≡ ok payload)
unfolding decode_any decode
decode_any-decode v s payload =
    (any-read v payload (decode_string s), read-any v payload (decode_string s))
