-- ===== src/Strkey/Newlines.antt =====
-- Newlines in the strings of strkey/main.go.
use aurorav1_11_0_test.Base.{
  ℕ, ◌*◌, ◌%◌, ◌<◌, ◌≤◌, ◌≡◌, ◌⊎◌, refl, ap, true, false, ◌||◌, ltb, ◌==◌, if◌then◌else◌, none,
  some, List, [], ◌∷◌, ◌++◌, length, length-append, arith,
}
use aurorav1_11_0_test.Strkey.Base32.{strip_newlines, decode_quanta}
use aurorav1_11_0_test.Strkey.{
  decode_base32, last, is_canonical, ok, err, panicked, check_valid_version_byte, decode_string,
  components, payload_of, any_of, valid_with, decode_any, decode, version, version_byte_account_id,
  is_valid_ed25519_public_key,
}

abbrev pub Newlines : List ℕ → Type 0
Newlines [] = Unit
Newlines (c ∷ s) = ((c ≡ 10) ⊎ (c ≡ 13)) × Newlines s

strip_newlines-append : (ls s : List ℕ) → Newlines ls → strip_newlines (ls ++ s) ≡ strip_newlines s
unfolding strip_newlines
strip_newlines-append [] s all = refl
strip_newlines-append (c ∷ ls) s (h, all) =
    let dropped : (c == 13 || c == 10) ≡ true = ground (arith, h) in
    rw dropped (strip_newlines-append ls s all)

last-append : (d e : ℕ) (ls s : List ℕ) → 0 < length s → last d (ls ++ s) ≡ last e s
last-append d e [] [] some_left = absurd (omega (arith, some_left))
last-append d e [] (c ∷ s) some_left = refl
last-append d e (l ∷ ls) s some_left = last-append l e ls s some_left

-- Eight characters more leave the bits of the last one where they were.
is_canonical-append :
    (ls s : List ℕ) → length ls % 8 ≡ 0 → 0 < length s → is_canonical (ls ++ s) ≡ is_canonical s
unfolding is_canonical
is_canonical-append ls s eight some_left =
    let same : length (ls ++ s) * 5 % 8 ≡ length s * 5 % 8 =
      omega (arith, length-append ls s, eight) in
    rw (same, last-append 0 0 ls s some_left) refl

decode_string-append :
    (ls s : List ℕ)
    → Newlines ls
    → length ls % 8 ≡ 0
    → 5 ≤ length s
    → decode_string (ls ++ s) ≡ decode_string s
unfolding decode_string decode_base32
decode_string-append ls s all eight long =
    let enough : ltb (length s) 5 ≡ false = ground (arith, long) in
    let more : ltb (length (ls ++ s)) 5 ≡ false = ground (arith, long, length-append ls s) in
    rw
      (
        enough,
        more,
        is_canonical-append ls s eight (omega (arith, long)),
        strip_newlines-append ls s all,
      )
      refl

-- Newlines before a string, eight of them or a multiple of that, change nothing: a string that is not
-- the one that `Encode` writes is accepted like that one.
pub decode-Newlines :
    (ls s : List ℕ) (v : ℕ)
    → Newlines ls
    → length ls % 8 ≡ 0
    → 5 ≤ length s
    → (decode v (ls ++ s) ≡ decode v s) × (decode_any (ls ++ s) ≡ decode_any s)
unfolding decode decode_any
decode-Newlines ls s v all eight long =
    let same = decode_string-append ls s all eight long in
    (
      ap
          (λ o.
            if check_valid_version_byte v
            then elim o [ none ↦ err | some raw ↦ payload_of v (components raw) ]
            else err)
          same,
      ap (λ o. elim o [ none ↦ err | some raw ↦ any_of (components raw) ]) same,
    )

account_id_valid : check_valid_version_byte version_byte_account_id ≡ true
unfolding check_valid_version_byte
account_id_valid = refl

strip_newlines-all : (ls : List ℕ) → Newlines ls → strip_newlines ls ≡ []
unfolding strip_newlines
strip_newlines-all [] all = refl
strip_newlines-all (c ∷ ls) (h, all) =
    let dropped : (c == 13 || c == 10) ≡ true = ground (arith, h) in
    rw dropped (strip_newlines-all ls all)

decode_string-Newlines :
    (ls : List ℕ) → Newlines ls → length ls % 8 ≡ 0 → 0 < length ls → decode_string ls ≡ some []
unfolding decode_string decode_base32 is_canonical decode_quanta
decode_string-Newlines ls all eight some_there =
    let enough : ltb (length ls) 5 ≡ false = ground (arith, eight, some_there) in
    let bits : length ls * 5 % 8 ≡ 0 = omega (arith, eight) in
    rw (enough, bits, strip_newlines-all ls all) refl

-- A string of newlines alone, eight of them or a multiple of that, passes the tests on its length and
-- is decoded to no bytes, so that taking the version byte panics, in `Decode` with every version that
-- is valid, `DecodeAny`, `Version` and the validation of a public key.
pub decode-panicked :
    (ls : List ℕ) (v : ℕ)
    → Newlines ls
    → length ls % 8 ≡ 0
    → 0 < length ls
    → check_valid_version_byte v ≡ true
    → (decode v ls ≡ panicked)
      × (decode_any ls ≡ panicked)
      × (version ls ≡ panicked)
      × (is_valid_ed25519_public_key ls ≡ panicked)
unfolding decode decode_any version is_valid_ed25519_public_key
decode-panicked ls v all eight some_there valid =
    let nothing = decode_string-Newlines ls all eight some_there in
    let reads : (w : ℕ) → check_valid_version_byte w ≡ true → decode w ls ≡ panicked = λ w h.
      rw h (ap (λ o. elim o [ none ↦ err | some raw ↦ payload_of w (components raw) ]) nothing) in
    (
      reads v valid,
      ap (λ o. elim o [ none ↦ err | some raw ↦ any_of (components raw) ]) nothing,
      ap (λ o. elim o [ none ↦ err | some [] ↦ panicked | some (b ∷ raw) ↦ ok b ]) nothing,
      ap valid_with (reads version_byte_account_id account_id_valid),
    )
