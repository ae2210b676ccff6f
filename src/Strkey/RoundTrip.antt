-- ===== src/Strkey/RoundTrip.antt =====
-- Encoded keys are decoded, and what is decoded was encoded.
use mathlib.Core.Option.{map as map_option}
use aurorav1_11_0_test.Base.{
  ℕ, ◌≤◌, ◌≡◌, refl, sym, ap, subst, ◌∙◌, true, false, ltb, if-cases, Option, none, some, List, [],
  ◌∷◌, length, length-map, entry, map, Bytes, arith,
}
use aurorav1_11_0_test.Strkey.Base32.{alphabet, quintets}
use aurorav1_11_0_test.Strkey.{encode_to_string, is_canonical, decode_string}
use aurorav1_11_0_test.Strkey.Quintets.{
  bytes_of, Tail, bytes_of-quintets, quintets-Fives, quintets-Tail, quintets-bytes_of,
  bytes_of-Bytes,
}
use aurorav1_11_0_test.Strkey.Values.{
  Plain, values, decode_base32-values, values-encode, encode-Plain,
}
use aurorav1_11_0_test.Strkey.Canonical.{values-Valued, is_canonical-Tail, Tail-is_canonical}

quintets-length : (raw : List ℕ) → 3 ≤ length raw → 5 ≤ length (quintets raw)
unfolding quintets
quintets-length [] le = absurd (omega (arith, le))
quintets-length (b0 ∷ []) le = absurd (omega (arith, le))
quintets-length (b0 ∷ b1 ∷ []) le = absurd (omega (arith, le))
quintets-length (b0 ∷ b1 ∷ b2 ∷ []) le = omega arith
quintets-length (b0 ∷ b1 ∷ b2 ∷ b3 ∷ []) le = omega arith
quintets-length (b0 ∷ b1 ∷ b2 ∷ b3 ∷ b4 ∷ bytes) le = omega arith

bytes_of-length : (qs : List ℕ) → 5 ≤ length qs → Tail qs → 3 ≤ length (bytes_of qs)
unfolding bytes_of Tail
bytes_of-length [] le t = absurd (omega (arith, le))
bytes_of-length (q0 ∷ []) le t = absurd (omega (arith, le))
bytes_of-length (q0 ∷ q1 ∷ []) le t = absurd (omega (arith, le))
bytes_of-length (q0 ∷ q1 ∷ q2 ∷ []) le t = absurd (omega (arith, le))
bytes_of-length (q0 ∷ q1 ∷ q2 ∷ q3 ∷ []) le t = absurd (omega (arith, le))
bytes_of-length (q0 ∷ q1 ∷ q2 ∷ q3 ∷ q4 ∷ []) le t = omega arith
bytes_of-length (q0 ∷ q1 ∷ q2 ∷ q3 ∷ q4 ∷ q5 ∷ []) le t = absurd t
bytes_of-length (q0 ∷ q1 ∷ q2 ∷ q3 ∷ q4 ∷ q5 ∷ q6 ∷ []) le t = omega arith
bytes_of-length (q0 ∷ q1 ∷ q2 ∷ q3 ∷ q4 ∷ q5 ∷ q6 ∷ q7 ∷ qs) le t = omega arith

-- Three bytes or more are read back from their string.
pub decode_string-encode_to_string :
    (raw : List ℕ) → Bytes raw → 3 ≤ length raw → decode_string (encode_to_string raw) ≡ some raw
unfolding decode_string encode_to_string
decode_string-encode_to_string raw all le =
    let qs = quintets raw in
    let s = map (entry alphabet) qs in
    let fives = quintets-Fives raw all in
    let plain = encode-Plain qs fives in
    let valued = values-encode qs fives in
    let long : ltb (length s) 5 ≡ false =
      ground (arith, length-map (entry alphabet) qs, quintets-length raw le) in
    let fits = Tail-is_canonical s qs plain valued (quintets-Tail raw) in
    rw (long, fits, decode_base32-values s plain, valued) (ap some (bytes_of-quintets raw all))

-- What is read from a plain string is what it was written from.
abbrev pub Written : List ℕ → List ℕ → Type 0
Written s raw = (encode_to_string raw ≡ s) × Bytes raw × (3 ≤ length raw)

written :
    (s vs : List ℕ)
    → Plain s
    → 5 ≤ length s
    → is_canonical s ≡ true
    → values s ≡ some vs
    → Written s (bytes_of vs)
unfolding encode_to_string
written s vs plain le fits valued =
    let (long, lasts, fives, back) = values-Valued 0 s vs plain valued in
    let t = is_canonical-Tail s vs plain valued fits in
    (
      ap (map (entry alphabet)) (quintets-bytes_of vs fives t) ∙ back,
      bytes_of-Bytes vs fives,
      bytes_of-length vs (omega (arith, le, long)) t,
    )

not_none : (raw : List ℕ) → none ≡ some raw → ⊥
not_none raw h = cc h

some_same : (a b : List ℕ) → some a ≡ some b → a ≡ b
some_same a b h = cc h

written_values :
    (s raw : List ℕ) (o : Option (List ℕ))
    → ((vs : List ℕ) → o ≡ some vs → Written s (bytes_of vs))
    → map_option bytes_of o ≡ some raw
    → Written s raw
written_values s raw none w h = absurd (not_none raw h)
written_values s raw (some vs) w h = subst (Written s) (some_same (bytes_of vs) raw h) (w vs refl)

pub decode_string-Written : (s raw : List ℕ) → Plain s → decode_string s ≡ some raw → Written s raw
unfolding decode_string
decode_string-Written s raw plain =
    if-cases (λ o. o ≡ some raw → Written s raw) (ltb (length s) 5)
      (λ short h. absurd (not_none raw h))
      (λ long.
        if-cases (λ o. o ≡ some raw → Written s raw) (is_canonical s)
          (λ fits h.
            written_values s raw (values s)
              (λ vs valued. written s vs plain (ground (arith, long)) fits valued)
              (sym (decode_base32-values s plain) ∙ h))
          (λ unfit h. absurd (not_none raw h)))
