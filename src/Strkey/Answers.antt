-- ===== src/Strkey/Answers.antt =====
-- What `Decode` answers for a string without newlines.
use aurorav1_11_0_test.Base.{
  ℕ, suc, ◌+◌, ◌-◌, ◌≤◌, ◌≡◌, refl, sym, ap, subst, ◌∙◌, true, false, not, ltb, ◌==◌, if-cases,
  Bool-cases, inl, inr, Option, none, some, List, [], ◌∷◌, ◌++◌, length, take-drop, length-drop,
  Bytes, arith,
}
use aurorav1_11_0_test.Crc16.{checksum, validate}
use aurorav1_11_0_test.Crc16.Detection.{validate-true}
use aurorav1_11_0_test.Strkey.{
  encode_to_string, Result, ok, err, check_valid_version_byte, decode_string, Components,
  components, payload_of, decode, encode,
}
use aurorav1_11_0_test.Strkey.Values.{Plain}
use aurorav1_11_0_test.Strkey.RoundTrip.{Written, decode_string-Written}
use aurorav1_11_0_test.Strkey.Decoding.{Bytes-start, encode_raw, decode-encode}

-- Where the slices are in range, they are the parts of the bytes.
Parts : List ℕ → Option Components → Type 0
Parts raw none = ⊥
Parts raw (some c) =
    (c.vp ≡ c.version_byte ∷ c.payload) × (c.vp ++ c.sum ≡ raw) × (length c.sum ≡ 2)

components-Parts : (raw : List ℕ) → 3 ≤ length raw → Parts raw (components raw)
unfolding Parts
components-Parts [] le = absurd (omega (arith, le))
components-Parts (v ∷ raw) le =
    let k = length raw - 2 in
    let size : length raw + 1 - 2 ≡ suc k = omega (arith, le) in
    let long : ltb (length raw + 1) 3 ≡ false = ground (arith, le) in
    rw (long, size) (refl, ap (λ t. v ∷ t) (take-drop k raw), omega (arith, le, length-drop k raw))

-- The answer of `Decode` for a plain string.
pub data Decodes (v : ℕ) (s : List ℕ) : Result (List ℕ) → Type 0 where
  decoded :
      (payload : List ℕ) → encode v payload ≡ some s → Bytes payload → Decodes v s (ok payload)
  refused : ((payload : List ℕ) → encode v payload ≡ some s → ¬ Bytes payload) → Decodes v s err

-- A valid version and a payload that are told apart with the right checksum were encoded.
encode_written :
    (v : ℕ) (s raw : List ℕ) (c : Components)
    → check_valid_version_byte v ≡ true
    → Written s raw
    → Parts raw (some c)
    → c.version_byte ≡ v
    → validate c.vp c.sum ≡ true
    → (encode v c.payload ≡ some s) × Bytes c.payload
unfolding Parts
encode_written v s raw c valid (back, all, long) (front, whole, two) same sound =
    let whole' : v ∷ c.payload ++ checksum (v ∷ c.payload) ≡ raw =
      ap (λ k. k ∷ c.payload ++ checksum (k ∷ c.payload)) (sym same)
      ∙ (ap (λ t. t ++ checksum t) (sym front)
          ∙ (ap (λ t. c.vp ++ t) (validate-true c.vp c.sum sound) ∙ whole)) in
    (
      encode_raw v c.payload valid ∙ ap some (ap encode_to_string whole' ∙ back),
      Bytes-start c.payload (checksum (v ∷ c.payload)) (subst Bytes (sym whole') all).1,
    )

ok_err : (a : List ℕ) → ok a ≡ err → ⊥
ok_err a h = cc h

some_same : (a b : List ℕ) → some a ≡ some b → a ≡ b
some_same a b h = cc h

-- An encoding is never answered with the error.
not_refused :
    (v : ℕ) (s : List ℕ)
    → check_valid_version_byte v ≡ true
    → decode v s ≡ err
    → (payload : List ℕ) → encode v payload ≡ some s
    → ¬ Bytes payload
not_refused v s valid h payload e all =
    let (s', encoded, read, any, first) = decode-encode v payload valid all in
    let same = some_same s' s (sym encoded ∙ e) in
    ok_err payload (sym read ∙ (ap (decode v) same ∙ h))

payload_of-Decodes :
    (v : ℕ) (s raw : List ℕ) (o : Option Components)
    → check_valid_version_byte v ≡ true
    → Written s raw
    → Parts raw o
    → decode v s ≡ payload_of v o
    → Decodes v s (payload_of v o)
unfolding Parts
payload_of-Decodes v s raw none valid w bad eq = absurd bad
payload_of-Decodes v s raw (some c) valid w ps eq =
    let Q : Result (List ℕ) → Type 0 = λ r. decode v s ≡ r → Decodes v s r in
    if-cases Q (not (c.version_byte == v)) (λ h read. refused (not_refused v s valid read))
      (λ h.
        if-cases Q (validate c.vp c.sum)
          (λ sound read.
            let (encoded, all) = encode_written v s raw c valid w ps (ground (arith, h)) sound in
            decoded c.payload encoded all)
          (λ unsound read. refused (not_refused v s valid read)))
      eq

no_encoding :
    (v : ℕ) (s payload : List ℕ)
    → check_valid_version_byte v ≡ false
    → encode v payload ≡ some s
    → ⊥
unfolding encode
no_encoding v s payload invalid h = let bad : none ≡ some s = sym (rw invalid refl) ∙ h in cc bad

read-Decodes :
    (v : ℕ) (s : List ℕ) (o : Option (List ℕ))
    → Plain s
    → check_valid_version_byte v ≡ true
    → decode_string s ≡ o
    → (r : Result (List ℕ)) → (elim o [ none ↦ err | some raw ↦ payload_of v (components raw) ]) ≡ r
    → decode v s ≡ r
    → Decodes v s r
read-Decodes v s none plain valid h r e read =
    subst (Decodes v s) e (refused (not_refused v s valid (read ∙ sym e)))
read-Decodes v s (some raw) plain valid h r e read =
    let w = decode_string-Written s raw plain h in
    let (back, all, long) = w in
    subst (Decodes v s) e (
      payload_of-Decodes v s raw (components raw) valid w (components-Parts raw long)
        (read ∙ sym e))

decode_valid :
    (v : ℕ) (s : List ℕ)
    → check_valid_version_byte v ≡ true
    → (elim (decode_string s) [ none ↦ err | some raw ↦ payload_of v (components raw) ])
      ≡ decode v s
unfolding decode
decode_valid v s valid = rw valid refl

decode_invalid : (v : ℕ) (s : List ℕ) → check_valid_version_byte v ≡ false → err ≡ decode v s
unfolding decode
decode_invalid v s invalid = rw invalid refl

-- `Decode` of a string without newlines, and without the byte 0xff, never panics. It answers a payload
-- only if the string is the one that `Encode` writes for it, and an error only if the string is not
-- written by `Encode` for any payload.
pub decode-Decodes : (v : ℕ) (s : List ℕ) → Plain s → Decodes v s (decode v s)
decode-Decodes v s plain = elim (Bool-cases (check_valid_version_byte v)) [
  | inl valid ↦
      read-Decodes v s (decode_string s) plain valid refl (decode v s) (decode_valid v s valid) refl
  | inr invalid ↦
      subst (Decodes v s) (decode_invalid v s invalid)
        (refused (λ payload h all. no_encoding v s payload invalid h))
]
