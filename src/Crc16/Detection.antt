-- ===== src/Crc16/Detection.antt =====
-- What the checksum of crc16/main.go detects.
use Prim.Native.Nat.{bit_xor, compare, Ordering}
use aurorav1_11_0_test.Base.{
  ℕ, suc, ◌*◌, ◌/◌, ◌%◌, ◌^◌, ◌<◌, ◌≡◌, refl, sym, ap, ◌∙◌, Bool, true, ◌&&◌, ◌==◌, ltb, ==_iff,
  Bool-cases, inl, inr, List, [], ◌∷◌, ◌++◌, length, all_below, all_below-holds, entry, Bytes,
  arith,
}
use aurorav1_11_0_test.Crc16.{crc16tab, update, crc_from, checksum, equal_bytes, validate}
use aurorav1_11_0_test.Crc16.Xor.{xor_cancel, xor_cancel_right, xor_bound, xor_256, and_mask}

-- The place of the entry with this low byte.
low_index : List ℕ → ℕ → ℕ
low_index [] x = 0
low_index (e ∷ es) x = elim (compare (e % 256) x) [ Ordering.eq ↦ 0 | _ ↦ suc (low_index es x) ]

abbrev table_test : ℕ → Bool
table_test i = let e = entry crc16tab i in low_index crc16tab (e % 256) == i && ltb e (2 ^ 16)

table_tested : all_below 256 table_test ≡ true
unfolding all_below entry crc16tab low_index
table_tested = refl

entry_index : (i : ℕ) → i < 256 → low_index crc16tab (entry crc16tab i % 256) ≡ i
entry_index i lt = (==_iff _ i).0 (grind (arith, all_below-holds 256 table_test i table_tested lt))

entry_bound : (i : ℕ) → i < 256 → entry crc16tab i < 2 ^ 16
entry_bound i lt = grind (arith, all_below-holds 256 table_test i table_tested lt)

-- The low bytes of the entries are different.
entry_injective :
    (i j : ℕ) → i < 256 → j < 256 → entry crc16tab i % 256 ≡ entry crc16tab j % 256 → i ≡ j
entry_injective i j p q e = sym (entry_index i p) ∙ (ap (low_index crc16tab) e ∙ entry_index j q)

-- The shifted low byte, and the entry for the high one.
pub update-entry :
    (crc b : ℕ)
    → crc < 2 ^ 16
    → b < 256
    → update crc b ≡ bit_xor (crc % 256 * 256) (entry crc16tab (bit_xor (crc / 256) b))
unfolding update
update-entry crc b small byte =
    let shift : crc * 2 ^ 8 % 2 ^ 16 ≡ crc % 256 * 256 = omega (arith, small) in
    let kept = and_mask 16 (crc % 256 * 256) (omega arith) in
    let index =
      and_mask 8 (bit_xor (crc / 256) b)
        (xor_bound 8 (crc / 256) b (omega (arith, small)) (omega (arith, byte))) in
    rw (shift, kept, index) refl

pub index_below : (crc b : ℕ) → crc < 2 ^ 16 → b < 256 → bit_xor (crc / 256) b < 256
index_below crc b small byte =
    omega (arith, xor_bound 8 (crc / 256) b (omega (arith, small)) (omega (arith, byte)))

pub update_bound : (crc b : ℕ) → crc < 2 ^ 16 → b < 256 → update crc b < 2 ^ 16
update_bound crc b small byte =
    let e = entry crc16tab (bit_xor (crc / 256) b) in
    let e_small = entry_bound (bit_xor (crc / 256) b) (index_below crc b small byte) in
    omega (
      arith,
      update-entry crc b small byte,
      xor_256 (crc % 256) e,
      xor_bound 8 (crc % 256) (e / 256) (omega arith) (omega (arith, e_small)),
    )

-- The new checksum gives back the index of the entry, and the low byte that was shifted.
update_inverse :
    (c c' a b : ℕ)
    → c < 2 ^ 16
    → c' < 2 ^ 16
    → a < 256
    → b < 256
    → update c a ≡ update c' b
    → (bit_xor (c / 256) a ≡ bit_xor (c' / 256) b) × (c % 256 ≡ c' % 256)
update_inverse c c' a b small small' byte byte' h =
    let t = entry crc16tab (bit_xor (c / 256) a) in
    let t' = entry crc16tab (bit_xor (c' / 256) b) in
    let e : bit_xor (c % 256 * 256) t ≡ bit_xor (c' % 256 * 256) t' =
      sym (update-entry c a small byte) ∙ (h ∙ update-entry c' b small' byte') in
    let low : t % 256 ≡ t' % 256 = omega (arith, e, xor_256 (c % 256) t, xor_256 (c' % 256) t') in
    let same =
      entry_injective (bit_xor (c / 256) a) (bit_xor (c' / 256) b) (index_below c a small byte)
        (index_below c' b small' byte') low in
    let shifted =
      xor_cancel_right (c % 256 * 256) (c' % 256 * 256) t
        (e ∙ ap (λ i. bit_xor (c' % 256 * 256) (entry crc16tab i)) (sym same)) in
    (same, omega (arith, shifted))

update_cancel :
    (c c' b : ℕ) → c < 2 ^ 16 → c' < 2 ^ 16 → b < 256 → update c b ≡ update c' b → c ≡ c'
update_cancel c c' b small small' byte h =
    let (same, low) = update_inverse c c' b b small small' byte byte h in
    let high = xor_cancel_right (c / 256) (c' / 256) b same in omega (arith, high, low)

update_byte : (c a b : ℕ) → c < 2 ^ 16 → a < 256 → b < 256 → update c a ≡ update c b → a ≡ b
update_byte c a b small byte byte' h =
    xor_cancel (c / 256) a b (update_inverse c c a b small small byte byte' h).0

crc_from_cancel :
    (bytes : List ℕ) (c c' : ℕ)
    → Bytes bytes
    → c < 2 ^ 16
    → c' < 2 ^ 16
    → crc_from c bytes ≡ crc_from c' bytes
    → c ≡ c'
unfolding crc_from
crc_from_cancel [] c c' all small small' h = h
crc_from_cancel (b ∷ bytes) c c' (byte, all) small small' h =
    update_cancel c c' b small small' byte (
      crc_from_cancel bytes (update c b) (update c' b) all (update_bound c b small byte)
        (update_bound c' b small' byte) h)

crc_from_byte :
    (before after : List ℕ) (c a b : ℕ)
    → Bytes before
    → Bytes after
    → c < 2 ^ 16
    → a < 256
    → b < 256
    → crc_from c (before ++ a ∷ after) ≡ crc_from c (before ++ b ∷ after)
    → a ≡ b
unfolding crc_from
crc_from_byte [] after c a b all all' small byte byte' h = update_byte c a b small byte byte' (
    crc_from_cancel after (update c a) (update c b) all' (update_bound c a small byte)
      (update_bound c b small byte') h)
crc_from_byte (x ∷ before) after c a b (x_byte, all) all' small byte byte' h =
    crc_from_byte before after (update c x) a b all all' (update_bound c x small x_byte) byte byte'
      h

crc_from_bound : (bytes : List ℕ) (c : ℕ) → Bytes bytes → c < 2 ^ 16 → crc_from c bytes < 2 ^ 16
unfolding crc_from
crc_from_bound [] c all small = small
crc_from_bound (b ∷ bytes) c (byte, all) small =
    crc_from_bound bytes (update c b) all (update_bound c b small byte)

equal_bytes-same : (xs : List ℕ) → equal_bytes xs xs ≡ true
equal_bytes-same [] = refl
equal_bytes-same (x ∷ xs) = rw ((==_iff x x).1 refl) (equal_bytes-same xs)

pub validate-checksum : (bytes : List ℕ) → validate bytes (checksum bytes) ≡ true
unfolding validate
validate-checksum bytes = equal_bytes-same (checksum bytes)

-- The two bytes of the checksum decide it.
validate-sums :
    (bytes other : List ℕ)
    → validate bytes (checksum other) ≡ true
    → crc_from 0 bytes ≡ crc_from 0 other
unfolding validate checksum
validate-sums bytes other h =
    let c = crc_from 0 bytes in
    let c' = crc_from 0 other in
    let low : c % 256 ≡ c' % 256 = ground (arith, h) in
    let high : c / 256 ≡ c' / 256 = ground (arith, h) in omega (arith, low, high)

-- The checksum of some bytes is the one of those in which a byte is replaced exactly when it is the
-- same byte: a single altered byte is always detected.
pub validate-checksum_altered :
    (before after : List ℕ) (a b : ℕ)
    → Bytes before
    → Bytes after
    → a < 256
    → b < 256
    → validate (before ++ b ∷ after) (checksum (before ++ a ∷ after)) ≡ (a == b)
validate-checksum_altered before after a b all all' byte byte' = elim (Bool-cases (a == b)) [
  | inl h ↦ rw (h, (==_iff a b).0 h) (validate-checksum (before ++ b ∷ after))
  | inr h ↦
      rw h (elim (Bool-cases (validate (before ++ b ∷ after) (checksum (before ++ a ∷ after)))) [
        | inl v ↦ absurd (
            ground (
              arith,
              h,
              crc_from_byte before after 0 b a all all' (omega arith) byte' byte
                  (validate-sums (before ++ b ∷ after) (before ++ a ∷ after) v),
            ))
        | inr v ↦ v
      ])
]

pub checksum-Bytes :
    (bytes : List ℕ) → Bytes bytes → Bytes (checksum bytes) × (length (checksum bytes) ≡ 2)
unfolding checksum
checksum-Bytes bytes all =
    let small = crc_from_bound bytes 0 all (omega arith) in
    ((omega arith, (omega (arith, small), tt)), refl)

both : (a b : Bool) → (a && b) ≡ true → (a ≡ true) × (b ≡ true)
both a b h = (ground (arith, h), ground (arith, h))

equal_bytes-true : (xs ys : List ℕ) → equal_bytes xs ys ≡ true → xs ≡ ys
equal_bytes-true [] [] h = refl
equal_bytes-true [] (y ∷ ys) h = cc h
equal_bytes-true (x ∷ xs) [] h = cc h
equal_bytes-true (x ∷ xs) (y ∷ ys) h =
    let (first, rest) = both (x == y) (equal_bytes xs ys) h in
    ap (λ z. z ∷ xs) ((==_iff x y).0 first) ∙ ap (λ zs. y ∷ zs) (equal_bytes-true xs ys rest)

pub validate-true :
    (bytes expected : List ℕ) → validate bytes expected ≡ true → checksum bytes ≡ expected
unfolding validate
validate-true bytes expected h = equal_bytes-true (checksum bytes) expected h
