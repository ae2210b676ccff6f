-- ===== src/Strkey/Decoding.antt =====
-- `Decode`, `DecodeAny` and `Version` on strings without newlines.
use aurorav1_11_0_test.Base.{
  ℕ, suc, ◌+◌, ◌-◌, ◌<◌, ◌≡◌, refl, ap, ◌∙◌, true, false, ltb, ◌==◌, ==_iff, if◌then◌else◌, none,
  some, List, [], ◌∷◌, ◌++◌, length, length-append, take-append, drop-append, Bytes, Bytes-append,
  arith,
}
use aurorav1_11_0_test.Crc16.{checksum, validate}
use aurorav1_11_0_test.Crc16.Detection.{
  checksum-Bytes, validate-checksum, validate-checksum_altered,
}
use aurorav1_11_0_test.Strkey.{
  encode_to_string, ok, err, panicked, check_valid_version_byte, decode_string, Components,
  components, any_of, decode_any, decode, encode, version,
}
use aurorav1_11_0_test.Strkey.RoundTrip.{decode_string-encode_to_string}

pub Bytes-start : (xs ys : List ℕ) → Bytes (xs ++ ys) → Bytes xs
Bytes-start [] ys all = tt
Bytes-start (x ∷ xs) ys (lt, all) = (lt, Bytes-start xs ys all)

parts : (v : ℕ) (body sum : List ℕ) → Components
parts v body sum = record { version_byte = v; vp = v ∷ body; payload = body; sum = sum }

-- A payload and two bytes are told apart.
components-append :
    (v : ℕ) (body sum : List ℕ)
    → length sum ≡ 2
    → components (v ∷ body ++ sum) ≡ some (parts v body sum)
unfolding parts
components-append v body sum two =
    let n = length (body ++ sum) + 1 in
    let size : n - 2 ≡ suc (length body) = omega (arith, length-append body sum, two) in
    let long : ltb n 3 ≡ false = ground (arith, length-append body sum, two) in
    rw (long, size, take-append body sum, drop-append body sum) refl

valid_byte : (v : ℕ) → check_valid_version_byte v ≡ true → v < 256
unfolding check_valid_version_byte
valid_byte v h = ground (arith, h)

raw-Bytes : (v : ℕ) (body : List ℕ) → v < 256 → Bytes body → Bytes (v ∷ body ++ checksum (v ∷ body))
raw-Bytes v body lt all =
    (lt, Bytes-append body (checksum (v ∷ body)) all (checksum-Bytes (v ∷ body) (lt, all)).0)

-- The string of a version byte, some bytes, and a checksum that is or is not theirs.
decode_string-parts :
    (v : ℕ) (body sum : List ℕ)
    → v < 256
    → Bytes body
    → Bytes sum
    → length sum ≡ 2
    → decode_string (encode_to_string (v ∷ body ++ sum)) ≡ some (v ∷ body ++ sum)
decode_string-parts v body sum lt all all' two =
    decode_string-encode_to_string (v ∷ body ++ sum) (lt, Bytes-append body sum all all')
      (omega (arith, length-append body sum, two))

decode-parts :
    (v : ℕ) (body sum : List ℕ)
    → check_valid_version_byte v ≡ true
    → Bytes body
    → Bytes sum
    → length sum ≡ 2
    → decode v (encode_to_string (v ∷ body ++ sum))
      ≡ (if validate (v ∷ body) sum then ok body else err)
unfolding decode parts
decode-parts v body sum valid all all' two =
    let same : (v == v) ≡ true = (==_iff v v).1 refl in
    rw
      (
        valid,
        decode_string-parts v body sum (valid_byte v valid) all all' two,
        components-append v body sum two,
        same,
      )
      refl

decode_any-parts :
    (v : ℕ) (body sum : List ℕ)
    → check_valid_version_byte v ≡ true
    → Bytes body
    → Bytes sum
    → length sum ≡ 2
    → decode_any (encode_to_string (v ∷ body ++ sum))
      ≡ (if validate (v ∷ body) sum then ok (v, body) else err)
unfolding decode_any parts
decode_any-parts v body sum valid all all' two =
    ap (λ o. elim o [ none ↦ err | some raw ↦ any_of (components raw) ])
      (decode_string-parts v body sum (valid_byte v valid) all all' two)
    ∙ rw (components-append v body sum two, valid) refl

version-parts :
    (v : ℕ) (body sum : List ℕ)
    → v < 256
    → Bytes body
    → Bytes sum
    → length sum ≡ 2
    → version (encode_to_string (v ∷ body ++ sum)) ≡ ok v
unfolding version
version-parts v body sum lt all all' two =
    ap (λ o. elim o [ none ↦ err | some [] ↦ panicked | some (v ∷ raw) ↦ ok v ])
      (decode_string-parts v body sum lt all all' two)

pub encode_raw :
    (v : ℕ) (payload : List ℕ)
    → check_valid_version_byte v ≡ true
    → encode v payload ≡ some (encode_to_string (v ∷ payload ++ checksum (v ∷ payload)))
unfolding encode
encode_raw v payload valid = rw valid refl

-- A payload of bytes under one of the four version bytes is encoded to a string from which `Decode`,
-- `DecodeAny` and `Version` give it back.
pub decode-encode :
    (v : ℕ) (payload : List ℕ)
    → check_valid_version_byte v ≡ true
    → Bytes payload
    → (s : List ℕ) × (encode v payload ≡ some s)
      × (decode v s ≡ ok payload)
      × (decode_any s ≡ ok (v, payload))
      × (version s ≡ ok v)
decode-encode v payload valid all =
    let lt = valid_byte v valid in
    let sum = checksum (v ∷ payload) in
    let (sum_all, two) = checksum-Bytes (v ∷ payload) (lt, all) in
    let sound = validate-checksum (v ∷ payload) in
    (
      encode_to_string (v ∷ payload ++ sum),
      encode_raw v payload valid,
      decode-parts v payload sum valid all sum_all two ∙ rw sound refl,
      decode_any-parts v payload sum valid all sum_all two ∙ rw sound refl,
      version-parts v payload sum lt all sum_all two,
    )

-- A string written with a byte of the payload altered and the old checksum is refused, and only then.
pub decode-altered :
    (v : ℕ) (before after : List ℕ) (a b : ℕ)
    → check_valid_version_byte v ≡ true
    → Bytes before
    → Bytes after
    → a < 256
    → b < 256
    → decode v (encode_to_string (v ∷ (before ++ b ∷ after) ++ checksum (v ∷ before ++ a ∷ after)))
      ≡ (if a == b then ok (before ++ b ∷ after) else err)
decode-altered v before after a b valid all all' byte byte' =
    let lt = valid_byte v valid in
    let (sum_all, two) =
      checksum-Bytes (v ∷ before ++ a ∷ after)
        (lt, Bytes-append before (a ∷ after) all (byte, all')) in
    decode-parts v (before ++ b ∷ after) (checksum (v ∷ before ++ a ∷ after)) valid
      (Bytes-append before (b ∷ after) all (byte', all')) sum_all two
    ∙ ap (λ t. if t then ok (before ++ b ∷ after) else err)
        (validate-checksum_altered (v ∷ before) after a b (lt, all) all' byte byte')
