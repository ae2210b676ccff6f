-- ===== src/Strkey/Base32.antt =====
-- The table of strkey/main.go, and Go's base32 without padding (`EncodeToString` and `Decode` of
-- `base32.StdEncoding.WithPadding(base32.NoPadding)`), which has the same table. A string is the list
-- of its bytes.
use mathlib.Core.Option.{map as map_option}
use aurorav1_11_0_test.Base.{
  ℕ, zero, suc, ◌+◌, ◌-◌, ◌*◌, ◌/◌, ◌%◌, Bool, true, not, ◌&&◌, ◌||◌, leb, ltb, ◌==◌, if◌then◌else◌,
  Option, none, some, List, [], ◌∷◌, ◌++◌, map, length, entry,
}

-- "ABCDEFGHIJKLMNOPQRSTUVWXYZ234567"
abbrev pub alphabet : List ℕ
alphabet =
    65 ∷ 66 ∷ 67 ∷ 68 ∷ 69 ∷ 70 ∷ 71 ∷ 72 ∷ 73 ∷ 74 ∷ 75 ∷ 76 ∷ 77 ∷ 78 ∷ 79 ∷ 80 ∷ 81 ∷ 82 ∷ 83
    ∷ 84 ∷ 85 ∷ 86 ∷ 87 ∷ 88 ∷ 89 ∷ 90 ∷ 50 ∷ 51 ∷ 52 ∷ 53 ∷ 54 ∷ 55 ∷ []

-- The second loop that fills the table.
unfoldable pub fill : ℕ → List ℕ → (ℕ → ℕ) → ℕ → ℕ
fill i [] table = table
fill i (ch ∷ chars) table = fill (i + 1) chars (λ c. if c == ch then i else table c)

unfoldable pub decoding_table : ℕ → ℕ
unfolding fill
decoding_table = fill 0 alphabet (λ c. 0xff)

-- Five bytes are eight groups of five bits; the last group is filled with zeros.
unfoldable pub quintets : List ℕ → List ℕ
quintets [] = []
quintets (b0 ∷ []) = b0 / 8 ∷ b0 % 8 * 4 ∷ []
quintets (b0 ∷ b1 ∷ []) = b0 / 8 ∷ (b0 % 8 * 4 + b1 / 64) ∷ b1 / 2 % 32 ∷ b1 % 2 * 16 ∷ []
quintets (b0 ∷ b1 ∷ b2 ∷ []) =
    b0 / 8 ∷ (b0 % 8 * 4 + b1 / 64) ∷ b1 / 2 % 32 ∷ (b1 % 2 * 16 + b2 / 16) ∷ b2 % 16 * 2 ∷ []
quintets (b0 ∷ b1 ∷ b2 ∷ b3 ∷ []) =
    b0 / 8
    ∷ (b0 % 8 * 4 + b1 / 64)
    ∷ b1 / 2 % 32
    ∷ (b1 % 2 * 16 + b2 / 16)
    ∷ (b2 % 16 * 2 + b3 / 128)
    ∷ b3 / 4 % 32
    ∷ b3 % 4 * 8
    ∷ []
quintets (b0 ∷ b1 ∷ b2 ∷ b3 ∷ b4 ∷ bytes) =
    b0 / 8
    ∷ (b0 % 8 * 4 + b1 / 64)
    ∷ b1 / 2 % 32
    ∷ (b1 % 2 * 16 + b2 / 16)
    ∷ (b2 % 16 * 2 + b3 / 128)
    ∷ b3 / 4 % 32
    ∷ (b3 % 4 * 8 + b4 / 32)
    ∷ b4 % 32
    ∷ quintets bytes

unfoldable pub encode_to_string : List ℕ → List ℕ
unfolding quintets
encode_to_string bytes = map (entry alphabet) (quintets bytes)

-- What a turn of the decoder's loop reads: eight characters, or the last ones, or a wrong one.
pub data Quantum : Type 0 where
  full : List ℕ → List ℕ → Quantum
  short : List ℕ → Quantum
  corrupt : Quantum

abbrev pub add_value : ℕ → Quantum → Quantum
add_value v (full vs s) = full (v ∷ vs) s
add_value v (short vs) = short (v ∷ vs)
add_value v corrupt = corrupt

-- The next characters are padding.
abbrev all_padding : ℕ → List ℕ → Bool
all_padding zero s = true
all_padding (suc n) [] = true
all_padding (suc n) (c ∷ s) = c == 0xff && all_padding n s

-- Padding after `7 - n` characters, with `n` more to come. The byte of the padding character is 0xff,
-- since `NoPadding` is -1.
abbrev read_padding : ℕ → List ℕ → Quantum
read_padding n s =
    if ltb (length s + (7 - n)) 7 || (not (all_padding n s) || (n == 6 || (n == 4 || n == 1)))
    then corrupt
    else short []

unfoldable pub quantum : ℕ → List ℕ → Quantum
quantum zero s = full [] s
quantum (suc n) [] = short []
quantum (suc n) (c ∷ s) =
    let rest = quantum n s in
    if c == 0xff && (leb n 5 && ltb (length s) 8)
    then read_padding n s
    else if decoding_table c == 0xff
    then corrupt
    else add_value (decoding_table c) rest

-- The bytes of a turn, for the numbers of characters that the decoder's switch has.
abbrev pub octets : List ℕ → List ℕ
octets (q0 ∷ q1 ∷ []) = (q0 * 8 + q1 / 4) ∷ []
octets (q0 ∷ q1 ∷ q2 ∷ q3 ∷ []) = (q0 * 8 + q1 / 4) ∷ (q1 % 4 * 64 + q2 * 2 + q3 / 16) ∷ []
octets (q0 ∷ q1 ∷ q2 ∷ q3 ∷ q4 ∷ []) =
    (q0 * 8 + q1 / 4) ∷ (q1 % 4 * 64 + q2 * 2 + q3 / 16) ∷ (q3 % 16 * 16 + q4 / 2) ∷ []
octets (q0 ∷ q1 ∷ q2 ∷ q3 ∷ q4 ∷ q5 ∷ q6 ∷ []) =
    (q0 * 8 + q1 / 4)
    ∷ (q1 % 4 * 64 + q2 * 2 + q3 / 16)
    ∷ (q3 % 16 * 16 + q4 / 2)
    ∷ (q4 % 2 * 128 + q5 * 4 + q6 / 8)
    ∷ []
octets (q0 ∷ q1 ∷ q2 ∷ q3 ∷ q4 ∷ q5 ∷ q6 ∷ q7 ∷ []) =
    (q0 * 8 + q1 / 4)
    ∷ (q1 % 4 * 64 + q2 * 2 + q3 / 16)
    ∷ (q3 % 16 * 16 + q4 / 2)
    ∷ (q4 % 2 * 128 + q5 * 4 + q6 / 8)
    ∷ (q6 % 8 * 32 + q7)
    ∷ []
octets other = []

abbrev pub after_quantum : (List ℕ → Option (List ℕ)) → Quantum → Option (List ℕ)
after_quantum next corrupt = none
after_quantum next (short vs) = some (octets vs)
after_quantum next (full vs s) = map_option (λ bytes. octets vs ++ bytes) (next s)

-- The decoder's loop; every turn takes eight characters or ends it.
unfoldable pub decode_quanta : ℕ → List ℕ → Option (List ℕ)
unfolding quantum
decode_quanta zero s = some []
decode_quanta (suc n) [] = some []
decode_quanta (suc n) (c ∷ s) = after_quantum (λ t. decode_quanta n t) (quantum 8 (c ∷ s))

unfoldable pub strip_newlines : List ℕ → List ℕ
strip_newlines [] = []
strip_newlines (c ∷ s) =
    let rest = strip_newlines s in if c == 13 || c == 10 then rest else c ∷ rest

unfoldable pub decode_base32 : List ℕ → Option (List ℕ)
unfolding decode_quanta strip_newlines
decode_base32 s = let t = strip_newlines s in decode_quanta (length t) t
