-- ===== src/Strkey/Values.antt =====
-- The decoder of base32 on strings without newlines, read one character at a time.
use mathlib.Core.Option.{map as map_option}
use aurorav1_11_0_test.Base.{
  ℕ, zero, suc, ◌+◌, ◌<◌, ◌≤◌, ◌≡◌, ◌≢◌, refl, ap, Bool, true, false, not, ◌&&◌, ◌||◌, ltb, ◌==◌,
  if◌then◌else◌, if-cases, Option, none, some, List, [], ◌∷◌, ◌++◌, map, length, all_below,
  all_below-holds, entry, arith,
}
use aurorav1_11_0_test.Strkey.Base32.{
  alphabet, decoding_table, octets, Quantum, full, short, corrupt, add_value, quantum,
  after_quantum, decode_quanta, strip_newlines, decode_base32,
}
use aurorav1_11_0_test.Strkey.Quintets.{Fives, bytes_of}

-- Neither a newline nor the byte that the decoder takes for padding.
abbrev pub PlainChar : ℕ → Type 0
PlainChar c = (c ≢ 10) × (c ≢ 13) × (c < 255)

abbrev pub Plain : List ℕ → Type 0
Plain [] = Unit
Plain (c ∷ s) = PlainChar c × Plain s

-- The groups of five bits of the characters, if all are of the alphabet.
unfoldable pub values : List ℕ → Option (List ℕ)
values [] = some []
values (c ∷ s) =
    let rest = values s in
    if decoding_table c == 0xff then none else map_option (λ vs. decoding_table c ∷ vs) rest

abbrev known_test : ℕ → Bool
known_test c = let v = decoding_table c in v == 0xff || (ltb v 32 && entry alphabet v == c)

known_tested : all_below 255 known_test ≡ true
unfolding all_below decoding_table entry
known_tested = refl

-- A character of the alphabet has a value that gives it back.
pub decoding_table-known :
    (c : ℕ)
    → c < 255
    → (decoding_table c == 0xff) ≡ false
    → (decoding_table c < 32) × (entry alphabet (decoding_table c) ≡ c)
decoding_table-known c lt known =
    let test = all_below-holds 255 known_test c known_tested lt in
    (grind (arith, test, known), grind (arith, test, known))

abbrev digit_test : ℕ → Bool
digit_test v =
    let c = entry alphabet v in
    decoding_table c == v && (not (c == 10) && (not (c == 13) && ltb c 255))

digit_tested : all_below 32 digit_test ≡ true
unfolding all_below decoding_table entry
digit_tested = refl

-- A value has a plain character that is read as that value.
decoding_table-entry :
    (v : ℕ) → v < 32 → (decoding_table (entry alphabet v) ≡ v) × PlainChar (entry alphabet v)
decoding_table-entry v lt =
    let test = all_below-holds 32 digit_test v digit_tested lt in
    (
      grind (arith, test),
      ((λ e. grind (arith, test, e)), (λ e. grind (arith, test, e)), grind (arith, test)),
    )

-- What a turn of the loop has read, in terms of the values.
abbrev Read : ℕ → List ℕ → Quantum → Type 0
Read n s corrupt = values s ≡ none
Read n s (short vs) = (values s ≡ some vs) × (length vs < n)
Read n s (full vs rest) =
    (length vs ≡ n)
    × Plain rest
    × (length s ≡ n + length rest)
    × (values s ≡ map_option (λ ws. vs ++ ws) (values rest))

map_same : (o : Option (List ℕ)) → o ≡ map_option (λ ws. [] ++ ws) o
map_same none = refl
map_same (some ws) = refl

map_cons :
    (v : ℕ) (vs : List ℕ) (o : Option (List ℕ))
    → map_option (λ ws. v ∷ ws) (map_option (λ ws. vs ++ ws) o) ≡ map_option (λ ws. v ∷ vs ++ ws) o
map_cons v vs none = refl
map_cons v vs (some ws) = refl

add_value-Read :
    (n c : ℕ) (s : List ℕ) (r : Quantum)
    → (decoding_table c == 0xff) ≡ false
    → Read n s r
    → Read (suc n) (c ∷ s) (add_value (decoding_table c) r)
unfolding values
add_value-Read n c s corrupt known h = rw (known, h) refl
add_value-Read n c s (short vs) known (h, lt) = (rw (known, h) refl, omega (arith, lt))
add_value-Read n c s (full vs rest) known (l, plain, m, h) = (
  omega (arith, l),
  plain,
  omega (arith, m),
  rw (known, h) (map_cons (decoding_table c) vs (values rest)),
)

quantum-Read : (n : ℕ) (s : List ℕ) → Plain s → Read n s (quantum n s)
unfolding quantum values
quantum-Read zero s plain = (refl, plain, omega arith, map_same (values s))
quantum-Read (suc n) [] plain = (refl, omega arith)
quantum-Read (suc n) (c ∷ s) ((not_lf, not_cr, lt), plain) =
    let not_padding : (c == 0xff) ≡ false = ground (arith, lt) in
    rw not_padding (
      if-cases (Read (suc n) (c ∷ s)) (decoding_table c == 0xff) (λ h. rw h refl)
        (λ h. add_value-Read n c s (quantum n s) h (quantum-Read n s plain)))

bytes_of-octets : (vs : List ℕ) → length vs < 8 → octets vs ≡ bytes_of vs
unfolding bytes_of
bytes_of-octets [] lt = refl
bytes_of-octets (q0 ∷ []) lt = refl
bytes_of-octets (q0 ∷ q1 ∷ []) lt = refl
bytes_of-octets (q0 ∷ q1 ∷ q2 ∷ []) lt = refl
bytes_of-octets (q0 ∷ q1 ∷ q2 ∷ q3 ∷ []) lt = refl
bytes_of-octets (q0 ∷ q1 ∷ q2 ∷ q3 ∷ q4 ∷ []) lt = refl
bytes_of-octets (q0 ∷ q1 ∷ q2 ∷ q3 ∷ q4 ∷ q5 ∷ []) lt = refl
bytes_of-octets (q0 ∷ q1 ∷ q2 ∷ q3 ∷ q4 ∷ q5 ∷ q6 ∷ []) lt = refl
bytes_of-octets (q0 ∷ q1 ∷ q2 ∷ q3 ∷ q4 ∷ q5 ∷ q6 ∷ q7 ∷ qs) lt = absurd (omega (arith, lt))

bytes_of-append : (vs ws : List ℕ) → length vs ≡ 8 → octets vs ++ bytes_of ws ≡ bytes_of (vs ++ ws)
unfolding bytes_of
bytes_of-append [] ws l = absurd (omega (arith, l))
bytes_of-append (q0 ∷ []) ws l = absurd (omega (arith, l))
bytes_of-append (q0 ∷ q1 ∷ []) ws l = absurd (omega (arith, l))
bytes_of-append (q0 ∷ q1 ∷ q2 ∷ []) ws l = absurd (omega (arith, l))
bytes_of-append (q0 ∷ q1 ∷ q2 ∷ q3 ∷ []) ws l = absurd (omega (arith, l))
bytes_of-append (q0 ∷ q1 ∷ q2 ∷ q3 ∷ q4 ∷ []) ws l = absurd (omega (arith, l))
bytes_of-append (q0 ∷ q1 ∷ q2 ∷ q3 ∷ q4 ∷ q5 ∷ []) ws l = absurd (omega (arith, l))
bytes_of-append (q0 ∷ q1 ∷ q2 ∷ q3 ∷ q4 ∷ q5 ∷ q6 ∷ []) ws l = absurd (omega (arith, l))
bytes_of-append (q0 ∷ q1 ∷ q2 ∷ q3 ∷ q4 ∷ q5 ∷ q6 ∷ q7 ∷ []) ws l = refl
bytes_of-append (q0 ∷ q1 ∷ q2 ∷ q3 ∷ q4 ∷ q5 ∷ q6 ∷ q7 ∷ q8 ∷ qs) ws l = absurd (omega (arith, l))

map_append :
    (vs : List ℕ) (o : Option (List ℕ))
    → length vs ≡ 8
    → map_option (λ bytes. octets vs ++ bytes) (map_option bytes_of o)
      ≡ map_option bytes_of (map_option (λ ws. vs ++ ws) o)
map_append vs none l = refl
map_append vs (some ws) l = ap some (bytes_of-append vs ws l)

-- A turn, once the rest of the loop is known.
after_quantum-values :
    (next : List ℕ → Option (List ℕ)) (s : List ℕ) (r : Quantum)
    → ((rest : List ℕ)
        → Plain rest
        → length s ≡ 8 + length rest
        → next rest ≡ map_option bytes_of (values rest))
    → Read 8 s r
    → after_quantum next r ≡ map_option bytes_of (values s)
after_quantum-values next s corrupt more h = rw h refl
after_quantum-values next s (short vs) more (h, lt) = rw h (ap some (bytes_of-octets vs lt))
after_quantum-values next s (full vs rest) more (l, plain, m, h) =
    rw (h, more rest plain m) (map_append vs (values rest) l)

decode_quanta-values :
    (n : ℕ) (s : List ℕ)
    → length s ≤ n
    → Plain s
    → decode_quanta n s ≡ map_option bytes_of (values s)
unfolding decode_quanta values bytes_of
decode_quanta-values zero [] le plain = refl
decode_quanta-values zero (c ∷ s) le plain = absurd (omega (arith, le))
decode_quanta-values (suc n) [] le plain = refl
decode_quanta-values (suc n) (c ∷ s) le plain =
    after_quantum-values (λ t. decode_quanta n t) (c ∷ s) (quantum 8 (c ∷ s))
      (λ rest p l. decode_quanta-values n rest (omega (arith, le, l)) p)
      (quantum-Read 8 (c ∷ s) plain)

strip_newlines-Plain : (s : List ℕ) → Plain s → strip_newlines s ≡ s
unfolding strip_newlines
strip_newlines-Plain [] plain = refl
strip_newlines-Plain (c ∷ s) ((not_lf, not_cr, lt), plain) =
    let cr : (c == 13) ≡ false = ground (arith, not_cr) in
    let lf : (c == 10) ≡ false = ground (arith, not_lf) in
    rw (cr, lf, strip_newlines-Plain s plain) refl

-- A plain string is decoded to the bytes of its values, if it has them.
pub decode_base32-values : (s : List ℕ) → Plain s → decode_base32 s ≡ map_option bytes_of (values s)
unfolding decode_base32
decode_base32-values s plain =
    rw (strip_newlines-Plain s plain) (decode_quanta-values (length s) s (omega arith) plain)

pub values-encode : (vs : List ℕ) → Fives vs → values (map (entry alphabet) vs) ≡ some vs
unfolding values
values-encode [] all = refl
values-encode (v ∷ vs) (lt, all) =
    let (same, plain) = decoding_table-entry v lt in
    let known : (v == 255) ≡ false = ground (arith, lt) in
    rw (same, known, values-encode vs all) refl

pub encode-Plain : (vs : List ℕ) → Fives vs → Plain (map (entry alphabet) vs)
encode-Plain [] all = tt
encode-Plain (v ∷ vs) (lt, all) = ((decoding_table-entry v lt).1, encode-Plain vs all)
