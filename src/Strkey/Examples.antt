-- ===== src/Strkey/Examples.antt =====
-- A key of three bytes.
use aurorav1_11_0_test.Base.{
  ℕ, ◌<◌, ◌≡◌, refl, inl, inr, true, some, List, [], ◌∷◌, ◌++◌, entry, Bytes, arith,
}
use aurorav1_11_0_test.Crc16.{crc16tab, update, checksum}
use aurorav1_11_0_test.Strkey.{
  encode_to_string, ok, err, panicked, check_valid_version_byte, version_byte_account_id,
  decode_any, decode, encode, version, is_valid_ed25519_public_key,
}
use aurorav1_11_0_test.Strkey.Values.{PlainChar, Plain}
use aurorav1_11_0_test.Strkey.Decoding.{decode-encode, decode-altered}
use aurorav1_11_0_test.Strkey.Answers.{Decodes, decode-Decodes}
use aurorav1_11_0_test.Strkey.Newlines.{Newlines, decode-Newlines, decode-panicked}

-- "GAAQEA6YJU"
abbrev key : List ℕ
key = 71 ∷ 65 ∷ 65 ∷ 81 ∷ 69 ∷ 65 ∷ 54 ∷ 89 ∷ 74 ∷ 85 ∷ []

account_id_valid : check_valid_version_byte version_byte_account_id ≡ true
unfolding check_valid_version_byte
account_id_valid = refl

key_encoded : encode version_byte_account_id (1 ∷ 2 ∷ 3 ∷ []) ≡ some key
unfolding encode checksum entry crc16tab update
key_encoded = refl

payload_Bytes : Bytes (1 ∷ 2 ∷ 3 ∷ [])
payload_Bytes = (omega arith, (omega arith, (omega arith, tt)))

decode-encode_example :
    (s : List ℕ) × (encode version_byte_account_id (1 ∷ 2 ∷ 3 ∷ []) ≡ some s)
    × (decode version_byte_account_id s ≡ ok (1 ∷ 2 ∷ 3 ∷ []))
    × (decode_any s ≡ ok (version_byte_account_id, 1 ∷ 2 ∷ 3 ∷ []))
    × (version s ≡ ok version_byte_account_id)
decode-encode_example =
    decode-encode version_byte_account_id (1 ∷ 2 ∷ 3 ∷ []) account_id_valid payload_Bytes

plain_char : (c : ℕ) → 13 < c → c < 255 → PlainChar c
plain_char c low high = ((λ e. omega (arith, e, low)), (λ e. omega (arith, e, low)), high)

key-Plain : Plain key
key-Plain = (
  plain_char 71 (omega arith) (omega arith),
  (
    plain_char 65 (omega arith) (omega arith),
    (
      plain_char 65 (omega arith) (omega arith),
      (
        plain_char 81 (omega arith) (omega arith),
        (
          plain_char 69 (omega arith) (omega arith),
          (
            plain_char 65 (omega arith) (omega arith),
            (
              plain_char 54 (omega arith) (omega arith),
              (
                plain_char 89 (omega arith) (omega arith),
                (
                  plain_char 74 (omega arith) (omega arith),
                  (plain_char 85 (omega arith) (omega arith), tt),
                ),
              ),
            ),
          ),
        ),
      ),
    ),
  ),
)

decode-Decodes_example : Decodes version_byte_account_id key (decode version_byte_account_id key)
decode-Decodes_example = decode-Decodes version_byte_account_id key key-Plain

-- The 2 is altered to a 7.
decode-altered_example :
    decode version_byte_account_id (
      encode_to_string (
        version_byte_account_id ∷ (1 ∷ 7 ∷ 3 ∷ [])
        ++ checksum (version_byte_account_id ∷ 1 ∷ 2 ∷ 3 ∷ [])))
    ≡ err
decode-altered_example =
    decode-altered version_byte_account_id (1 ∷ []) (3 ∷ []) 2 7 account_id_valid (omega arith, tt)
      (omega arith, tt) (omega arith) (omega arith)

abbrev newlines : List ℕ
newlines = 10 ∷ 10 ∷ 10 ∷ 10 ∷ 13 ∷ 10 ∷ 13 ∷ 10 ∷ []

newlines-Newlines : Newlines newlines
newlines-Newlines = (
  inl refl,
  (inl refl, (inl refl, (inl refl, (inr refl, (inl refl, (inr refl, (inl refl, tt))))))),
)

decode-Newlines_example :
    (decode version_byte_account_id (newlines ++ key) ≡ decode version_byte_account_id key)
    × (decode_any (newlines ++ key) ≡ decode_any key)
decode-Newlines_example =
    decode-Newlines newlines key version_byte_account_id newlines-Newlines (omega arith)
      (omega arith)

decode-panicked_example :
    (decode version_byte_account_id newlines ≡ panicked)
    × (decode_any newlines ≡ panicked)
    × (version newlines ≡ panicked)
    × (is_valid_ed25519_public_key newlines ≡ panicked)
decode-panicked_example =
    decode-panicked newlines version_byte_account_id newlines-Newlines (omega arith) (omega arith)
      account_id_valid
