-- ===== src/Strkey/Quintets.antt =====
-- Bytes and groups of five bits, and back.
use aurorav1_11_0_test.Base.{ℕ, ◌%◌, ◌<◌, ◌≡◌, refl, ap, ◌∙◌, List, [], ◌∷◌, ◌++◌, Bytes, arith}
use aurorav1_11_0_test.Strkey.Base32.{quintets, octets}

-- Groups of five bits.
abbrev pub Fives : List ℕ → Type 0
Fives [] = Unit
Fives (q ∷ qs) = (q < 32) × Fives qs

-- All turns of the decoder's loop, for characters that are right.
unfoldable pub bytes_of : List ℕ → List ℕ
bytes_of (q0 ∷ q1 ∷ q2 ∷ q3 ∷ q4 ∷ q5 ∷ q6 ∷ q7 ∷ qs) =
    octets (q0 ∷ q1 ∷ q2 ∷ q3 ∷ q4 ∷ q5 ∷ q6 ∷ q7 ∷ []) ++ bytes_of qs
bytes_of other = octets other

-- No character that is not used, and no unused bit that is set.
unfoldable pub Tail : List ℕ → Type 0
Tail [] = Unit
Tail (q0 ∷ []) = ⊥
Tail (q0 ∷ q1 ∷ []) = q1 % 4 ≡ 0
Tail (q0 ∷ q1 ∷ q2 ∷ []) = ⊥
Tail (q0 ∷ q1 ∷ q2 ∷ q3 ∷ []) = q3 % 16 ≡ 0
Tail (q0 ∷ q1 ∷ q2 ∷ q3 ∷ q4 ∷ []) = q4 % 2 ≡ 0
Tail (q0 ∷ q1 ∷ q2 ∷ q3 ∷ q4 ∷ q5 ∷ []) = ⊥
Tail (q0 ∷ q1 ∷ q2 ∷ q3 ∷ q4 ∷ q5 ∷ q6 ∷ []) = q6 % 8 ≡ 0
Tail (q0 ∷ q1 ∷ q2 ∷ q3 ∷ q4 ∷ q5 ∷ q6 ∷ q7 ∷ qs) = Tail qs

cons : (x y : ℕ) (xs ys : List ℕ) → x ≡ y → xs ≡ ys → x ∷ xs ≡ y ∷ ys
cons x y xs ys p q = ap (λ z. z ∷ xs) p ∙ ap (λ zs. y ∷ zs) q

pub bytes_of-quintets : (bytes : List ℕ) → Bytes bytes → bytes_of (quintets bytes) ≡ bytes
unfolding bytes_of quintets
bytes_of-quintets [] all = refl
bytes_of-quintets (b0 ∷ []) (h0, all) = cons _ _ _ _ (omega (arith, h0)) refl
bytes_of-quintets (b0 ∷ b1 ∷ []) (h0, (h1, all)) =
    cons _ _ _ _ (omega (arith, h0, h1)) (cons _ _ _ _ (omega (arith, h1)) refl)
bytes_of-quintets (b0 ∷ b1 ∷ b2 ∷ []) (h0, (h1, (h2, all))) =
    cons _ _ _ _ (omega (arith, h0, h1))
      (cons _ _ _ _ (omega (arith, h1, h2)) (cons _ _ _ _ (omega (arith, h2)) refl))
bytes_of-quintets (b0 ∷ b1 ∷ b2 ∷ b3 ∷ []) (h0, (h1, (h2, (h3, all)))) =
    cons _ _ _ _ (omega (arith, h0, h1)) (
      cons _ _ _ _ (omega (arith, h1, h2))
        (cons _ _ _ _ (omega (arith, h2, h3)) (cons _ _ _ _ (omega (arith, h3)) refl)))
bytes_of-quintets (b0 ∷ b1 ∷ b2 ∷ b3 ∷ b4 ∷ bytes) (h0, (h1, (h2, (h3, (h4, all))))) =
    cons _ _ _ _ (omega (arith, h0, h1)) (
      cons _ _ _ _ (omega (arith, h1, h2)) (
        cons _ _ _ _ (omega (arith, h2, h3)) (
          cons _ _ _ _ (omega (arith, h3, h4))
            (cons _ _ _ _ (omega (arith, h4)) (bytes_of-quintets bytes all)))))

pub quintets-Fives : (bytes : List ℕ) → Bytes bytes → Fives (quintets bytes)
unfolding quintets
quintets-Fives [] all = tt
quintets-Fives (b0 ∷ []) (h0, all) = (omega (arith, h0), (omega (arith, h0), tt))
quintets-Fives (b0 ∷ b1 ∷ []) (h0, (h1, all)) = (
  omega (arith, h0, h1),
  (omega (arith, h0, h1), (omega (arith, h0, h1), (omega (arith, h0, h1), tt))),
)
quintets-Fives (b0 ∷ b1 ∷ b2 ∷ []) (h0, (h1, (h2, all))) = (
  omega (arith, h0, h1, h2),
  (
    omega (arith, h0, h1, h2),
    (omega (arith, h0, h1, h2), (omega (arith, h0, h1, h2), (omega (arith, h0, h1, h2), tt))),
  ),
)
quintets-Fives (b0 ∷ b1 ∷ b2 ∷ b3 ∷ []) (h0, (h1, (h2, (h3, all)))) = (
  omega (arith, h0, h1, h2, h3),
  (
    omega (arith, h0, h1, h2, h3),
    (
      omega (arith, h0, h1, h2, h3),
      (
        omega (arith, h0, h1, h2, h3),
        (
          omega (arith, h0, h1, h2, h3),
          (omega (arith, h0, h1, h2, h3), (omega (arith, h0, h1, h2, h3), tt)),
        ),
      ),
    ),
  ),
)
quintets-Fives (b0 ∷ b1 ∷ b2 ∷ b3 ∷ b4 ∷ bytes) (h0, (h1, (h2, (h3, (h4, all))))) = (
  omega (arith, h0, h1, h2, h3, h4),
  (
    omega (arith, h0, h1, h2, h3, h4),
    (
      omega (arith, h0, h1, h2, h3, h4),
      (
        omega (arith, h0, h1, h2, h3, h4),
        (
          omega (arith, h0, h1, h2, h3, h4),
          (
            omega (arith, h0, h1, h2, h3, h4),
            (
              omega (arith, h0, h1, h2, h3, h4),
              (omega (arith, h0, h1, h2, h3, h4), quintets-Fives bytes all),
            ),
          ),
        ),
      ),
    ),
  ),
)

pub quintets-Tail : (bytes : List ℕ) → Tail (quintets bytes)
unfolding quintets Tail
quintets-Tail [] = tt
quintets-Tail (b0 ∷ []) = omega arith
quintets-Tail (b0 ∷ b1 ∷ []) = omega arith
quintets-Tail (b0 ∷ b1 ∷ b2 ∷ []) = omega arith
quintets-Tail (b0 ∷ b1 ∷ b2 ∷ b3 ∷ []) = omega arith
quintets-Tail (b0 ∷ b1 ∷ b2 ∷ b3 ∷ b4 ∷ bytes) = quintets-Tail bytes

pub quintets-bytes_of : (qs : List ℕ) → Fives qs → Tail qs → quintets (bytes_of qs) ≡ qs
unfolding bytes_of quintets Tail
quintets-bytes_of [] all t = refl
quintets-bytes_of (q0 ∷ []) (h0, all) t = absurd t
quintets-bytes_of (q0 ∷ q1 ∷ []) (h0, (h1, all)) t =
    cons _ _ _ _ (omega (arith, h0, h1, t)) (cons _ _ _ _ (omega (arith, h0, h1, t)) refl)
quintets-bytes_of (q0 ∷ q1 ∷ q2 ∷ []) (h0, (h1, (h2, all))) t = absurd t
quintets-bytes_of (q0 ∷ q1 ∷ q2 ∷ q3 ∷ []) (h0, (h1, (h2, (h3, all)))) t =
    cons _ _ _ _ (omega (arith, h0, h1, h2, t)) (
      cons _ _ _ _ (omega (arith, h0, h1, h2, h3, t)) (
        cons _ _ _ _ (omega (arith, h1, h2, h3, t)) (cons _ _ _ _ (omega (arith, h2, h3, t)) refl)))
quintets-bytes_of (q0 ∷ q1 ∷ q2 ∷ q3 ∷ q4 ∷ []) (h0, (h1, (h2, (h3, (h4, all))))) t =
    cons _ _ _ _ (omega (arith, h0, h1, h2, t)) (
      cons _ _ _ _ (omega (arith, h0, h1, h2, h3, t)) (
        cons _ _ _ _ (omega (arith, h1, h2, h3, h4, t)) (
          cons _ _ _ _ (omega (arith, h2, h3, h4, t))
            (cons _ _ _ _ (omega (arith, h3, h4, t)) refl))))
quintets-bytes_of (q0 ∷ q1 ∷ q2 ∷ q3 ∷ q4 ∷ q5 ∷ []) (h0, (h1, (h2, (h3, (h4, (h5, all)))))) t =
    absurd t
quintets-bytes_of (q0 ∷ q1 ∷ q2 ∷ q3 ∷ q4 ∷ q5 ∷ q6 ∷ [])
      (h0, (h1, (h2, (h3, (h4, (h5, (h6, all))))))) t =
    cons _ _ _ _ (omega (arith, h0, h1, h2, t)) (
      cons _ _ _ _ (omega (arith, h0, h1, h2, h3, t)) (
        cons _ _ _ _ (omega (arith, h1, h2, h3, h4, t)) (
          cons _ _ _ _ (omega (arith, h2, h3, h4, h5, t)) (
            cons _ _ _ _ (omega (arith, h3, h4, h5, h6, t)) (
              cons _ _ _ _ (omega (arith, h4, h5, h6, t))
                (cons _ _ _ _ (omega (arith, h5, h6, t)) refl))))))
quintets-bytes_of (q0 ∷ q1 ∷ q2 ∷ q3 ∷ q4 ∷ q5 ∷ q6 ∷ q7 ∷ qs)
      (h0, (h1, (h2, (h3, (h4, (h5, (h6, (h7, all)))))))) t =
    cons _ _ _ _ (omega (arith, h0, h1, h2)) (
      cons _ _ _ _ (omega (arith, h0, h1, h2, h3)) (
        cons _ _ _ _ (omega (arith, h1, h2, h3, h4)) (
          cons _ _ _ _ (omega (arith, h2, h3, h4, h5)) (
            cons _ _ _ _ (omega (arith, h3, h4, h5, h6)) (
              cons _ _ _ _ (omega (arith, h4, h5, h6, h7)) (
                cons _ _ _ _ (omega (arith, h5, h6, h7))
                  (cons _ _ _ _ (omega (arith, h6, h7)) (quintets-bytes_of qs all t))))))))

pub bytes_of-Bytes : (qs : List ℕ) → Fives qs → Bytes (bytes_of qs)
unfolding bytes_of
bytes_of-Bytes [] all = tt
bytes_of-Bytes (q0 ∷ []) (h0, all) = tt
bytes_of-Bytes (q0 ∷ q1 ∷ []) (h0, (h1, all)) = (omega (arith, h0, h1), tt)
bytes_of-Bytes (q0 ∷ q1 ∷ q2 ∷ []) (h0, (h1, (h2, all))) = tt
bytes_of-Bytes (q0 ∷ q1 ∷ q2 ∷ q3 ∷ []) (h0, (h1, (h2, (h3, all)))) =
    (omega (arith, h0, h1, h2, h3), (omega (arith, h0, h1, h2, h3), tt))
bytes_of-Bytes (q0 ∷ q1 ∷ q2 ∷ q3 ∷ q4 ∷ []) (h0, (h1, (h2, (h3, (h4, all))))) = (
  omega (arith, h0, h1, h2, h3, h4),
  (omega (arith, h0, h1, h2, h3, h4), (omega (arith, h0, h1, h2, h3, h4), tt)),
)
bytes_of-Bytes (q0 ∷ q1 ∷ q2 ∷ q3 ∷ q4 ∷ q5 ∷ []) (h0, (h1, (h2, (h3, (h4, (h5, all)))))) = tt
bytes_of-Bytes (q0 ∷ q1 ∷ q2 ∷ q3 ∷ q4 ∷ q5 ∷ q6 ∷ [])
      (h0, (h1, (h2, (h3, (h4, (h5, (h6, all))))))) =
    (
      omega (arith, h0, h1, h2, h3, h4, h5, h6),
      (
        omega (arith, h0, h1, h2, h3, h4, h5, h6),
        (
          omega (arith, h0, h1, h2, h3, h4, h5, h6),
          (omega (arith, h0, h1, h2, h3, h4, h5, h6), tt),
        ),
      ),
    )
bytes_of-Bytes (q0 ∷ q1 ∷ q2 ∷ q3 ∷ q4 ∷ q5 ∷ q6 ∷ q7 ∷ qs)
      (h0, (h1, (h2, (h3, (h4, (h5, (h6, (h7, all)))))))) =
    (
      omega (arith, h0, h1, h2, h3, h4, h5, h6, h7),
      (
        omega (arith, h0, h1, h2, h3, h4, h5, h6, h7),
        (
          omega (arith, h0, h1, h2, h3, h4, h5, h6, h7),
          (
            omega (arith, h0, h1, h2, h3, h4, h5, h6, h7),
            (omega (arith, h0, h1, h2, h3, h4, h5, h6, h7), bytes_of-Bytes qs all),
          ),
        ),
      ),
    )
