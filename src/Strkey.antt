-- ===== src/Strkey.antt =====
-- strkey/main.go: keys written with a version byte and a checksum. A string is the list of its bytes.
mod Base32
pub mod Quintets
pub mod Values
pub mod Canonical
pub mod RoundTrip
pub mod Decoding
pub mod Answers
pub mod Versions
pub mod Newlines
mod Examples
unfoldable pub use Base32.{decoding_table, encode_to_string, decode_base32}
use Prim.Native.Nat.{bit_and}
use aurorav1_11_0_test.Base.{
  ℕ, zero, suc, ◌+◌, ◌-◌, ◌*◌, ◌/◌, ◌%◌, ◌^◌, Bool, true, false, not, ◌&&◌, ◌||◌, leb, ltb, ◌==◌,
  if◌then◌else◌, Option, none, some, List, [], ◌∷◌, ◌++◌, length, take, drop,
}
use aurorav1_11_0_test.Crc16.{checksum, validate}

-- A slice expression out of range panics.
pub data Result {ℓ} (A : Type ℓ) : Type ℓ where
  ok : A → Result A
  err panicked : Result A

abbrev pub version_byte_account_id : ℕ
version_byte_account_id = 6 * 8

abbrev pub version_byte_seed : ℕ
version_byte_seed = 18 * 8

abbrev pub version_byte_hash_tx : ℕ
version_byte_hash_tx = 19 * 8

abbrev pub version_byte_hash_x : ℕ
version_byte_hash_x = 23 * 8

unfoldable pub check_valid_version_byte : ℕ → Bool
check_valid_version_byte v =
    v == version_byte_account_id
    || (v == version_byte_seed || (v == version_byte_hash_tx || v == version_byte_hash_x))

-- The last character; the string is not empty where it is asked for.
abbrev pub last : ℕ → List ℕ → ℕ
last d [] = d
last d (c ∷ s) = last c s

abbrev leftover_bits : List ℕ → ℕ
leftover_bits s = length s * 5 % 8

-- The bits of the last character that are not used.
abbrev unused_bits : List ℕ → ℕ
unused_bits s = bit_and (decoding_table (last 0 s)) (0x0f / 2 ^ (4 - leftover_bits s))

-- No unused character, and no unused bit that is set.
unfoldable pub is_canonical : List ℕ → Bool
is_canonical s =
    not (leb 5 (leftover_bits s)) && not (ltb 0 (leftover_bits s) && not (unused_bits s == 0))

unfoldable pub decode_string : List ℕ → Option (List ℕ)
unfolding decode_base32 is_canonical
decode_string s =
    if ltb (length s) 5 then none else if is_canonical s then decode_base32 s else none

-- Version, versioned payload, payload and checksum, unless a slice is out of range.
pub record Components : Type 0 where
  pub version_byte : ℕ
  pub vp : List ℕ
  pub payload : List ℕ
  pub sum : List ℕ

abbrev pub components : List ℕ → Option Components
components [] = none
components (v ∷ raw) =
    let n = length raw + 1 in
    if ltb n 3
    then none
    else some (record {
      version_byte = v;
      vp = take (n - 2) (v ∷ raw);
      payload = drop 1 (take (n - 2) (v ∷ raw));
      sum = drop (n - 2) (v ∷ raw);
    })

abbrev pub any_of : Option Components → Result (ℕ × List ℕ)
any_of none = panicked
any_of (some c) =
    if not (check_valid_version_byte c.version_byte)
    then err
    else if validate c.vp c.sum
    then ok (c.version_byte, c.payload)
    else err

unfoldable pub decode_any : List ℕ → Result (ℕ × List ℕ)
unfolding decode_string check_valid_version_byte
decode_any s = elim (decode_string s) [ none ↦ err | some raw ↦ any_of (components raw) ]

abbrev pub payload_of : ℕ → Option Components → Result (List ℕ)
payload_of expected none = panicked
payload_of expected (some c) =
    if not (c.version_byte == expected)
    then err
    else if validate c.vp c.sum
    then ok c.payload
    else err

unfoldable pub decode : ℕ → List ℕ → Result (List ℕ)
unfolding decode_string check_valid_version_byte
decode expected s =
    if check_valid_version_byte expected
    then elim (decode_string s) [ none ↦ err | some raw ↦ payload_of expected (components raw) ]
    else err

unfoldable pub encode : ℕ → List ℕ → Option (List ℕ)
unfolding encode_to_string check_valid_version_byte
encode v payload =
    if check_valid_version_byte v
    then some (encode_to_string (v ∷ payload ++ checksum (v ∷ payload)))
    else none

unfoldable pub version : List ℕ → Result ℕ
unfolding decode_string
version s = elim (decode_string s) [ none ↦ err | some [] ↦ panicked | some (v ∷ raw) ↦ ok v ]

abbrev pub valid_with : Result (List ℕ) → Result Bool
valid_with (ok payload) = ok true
valid_with err = ok false
valid_with panicked = panicked

unfoldable pub is_valid_ed25519_public_key : List ℕ → Result Bool
unfolding decode
is_valid_ed25519_public_key s = valid_with (decode version_byte_account_id s)

unfoldable pub is_valid_ed25519_secret_seed : List ℕ → Result Bool
unfolding decode
is_valid_ed25519_secret_seed s = valid_with (decode version_byte_seed s)
