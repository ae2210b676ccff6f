-- ===== src/OpenSubmissions/Listeners.antt =====
-- Listeners from their registration to the result, and the shape of the list.
use Prim.Native.String.{String, len}
use aurorav1_11_0_test.Base.{
  ℕ, ◌≡◌, ◌≢◌, refl, sym, ap, subst, ◌∙◌, false, Option, none, some, Option-cases, inl, inr, List,
  [], ◌∷◌, ◌++◌, map, arith,
}
use aurorav1_11_0_test.Base.Maps.{lookup, put, found_put, lookup-put, lookup-delete}
use mathlib.Core.List.{append_assoc, append-nil}
use text.Mathlib.TextEquality.{eq_iff}
use text.Mathlib.Text.{◌==◌ as same}
use aurorav1_11_0_test.OpenSubmissions.{
  OpenSubmission, Submissions, Added, added, add, finish, send, open_or_new,
}

-- The listeners of a hash.
abbrev pub waiting_for : Option OpenSubmission → List ℕ
waiting_for none = []
waiting_for (some os) = os.listeners

-- Listeners added one after the other; each has a time and a capacity.
unfoldable pub add_each : String → List (ℕ × ℕ × ℕ) → Submissions → Added
unfolding add
add_each hash [] m = added m
add_each hash ((now, capacity, l) ∷ ls) m = elim (add now capacity hash l m) [
  | added m' ↦ add_each hash ls m'
  | other ↦ other
]

abbrev pub Buffered : List (ℕ × ℕ × ℕ) → Type 0
Buffered [] = Unit {0}
Buffered ((now, capacity, l) ∷ ls) = (capacity ≢ 0) × Buffered ls

abbrev pub channels : List (ℕ × ℕ × ℕ) → List ℕ
channels ls = map (λ a. a.2) ls

-- What is listed under the other hashes.
abbrev pub Others : String → Submissions → Submissions → Type 0
Others hash m m' = (j : String) → same hash j ≡ false → lookup j m' ≡ lookup j m

listeners-open_or_new :
    (now : ℕ) (hash : String) (o : Option OpenSubmission)
    → (open_or_new now hash o).listeners ≡ waiting_for o
listeners-open_or_new now hash none = refl
listeners-open_or_new now hash (some os) = refl

add-adds :
    (now capacity : ℕ) (hash : String) (l : ℕ) (m : Submissions)
    → capacity ≢ 0
    → len hash ≡ 64
    → (m' : Submissions) × (add now capacity hash l m ≡ added m')
      × (waiting_for (lookup hash m') ≡ waiting_for (lookup hash m) ++ l ∷ [])
      × Others hash m m'
unfolding add
add-adds now capacity hash l m c e =
    let os = open_or_new now hash (lookup hash m) in
    let m' = put hash (record os { listeners = os.listeners ++ l ∷ [] }) m in
    (
      m',
      ground (arith, c, e),
      ap waiting_for (found_put hash _ m)
          ∙ ap (λ ls. ls ++ l ∷ []) (listeners-open_or_new now hash (lookup hash m)),
      λ j d.
          ground (arith, d, lookup-put hash j (record os { listeners = os.listeners ++ l ∷ [] }) m),
    )

add_each-adds :
    (hash : String) (ls : List (ℕ × ℕ × ℕ)) (m : Submissions)
    → Buffered ls
    → len hash ≡ 64
    → (m' : Submissions) × (add_each hash ls m ≡ added m')
      × (waiting_for (lookup hash m') ≡ waiting_for (lookup hash m) ++ channels ls)
      × Others hash m m'
unfolding add_each
add_each-adds hash [] m b e = (m, refl, sym (append-nil (waiting_for (lookup hash m))), λ j d. refl)
add_each-adds hash ((now, capacity, l) ∷ ls) m b e =
    let first = add-adds now capacity hash l m b.0 e in
    let rest = add_each-adds hash ls first.0 b.1 e in
    (
      rest.0,
      subst (λ a. (elim a [ added m' ↦ add_each hash ls m' | other ↦ other ]) ≡ added rest.0)
          (sym first.1) rest.1,
      rest.2 ∙ (ap (λ l'. l' ++ channels ls) first.2 ∙ append_assoc _ (l ∷ []) (channels ls)),
      λ j d. rest.3 j d ∙ first.3 j d,
    )

finish-sends :
    {R : Type 0} (hash : String) (r : R) (m : Submissions)
    → (finish hash r m).0 ≡ send r (waiting_for (lookup hash m))
      × (lookup hash (finish hash r m).1 ≡ none)
      × Others hash m (finish hash r m).1
unfolding finish
finish-sends hash r m = elim (Option-cases (lookup hash m)) [
  | inl e ↦ rw (e, finish) (refl, e, λ j d. refl)
  | inr (os, e) ↦
      rw (e, finish)
        (
          refl,
          ground (arith, lookup-delete hash hash m, eq_iff hash hash),
          λ j d. ground (arith, d, lookup-delete hash j m),
        )
]

-- Where the channels are buffered and the hash has 64 bytes, listeners are added without an error, and
-- each gets the result once, after those that waited already; the submission is closed then, and no
-- other is touched.
finish-add_each :
    {R : Type 0} (hash : String) (r : R) (ls : List (ℕ × ℕ × ℕ)) (m : Submissions)
    → Buffered ls
    → len hash ≡ 64
    → (m' : Submissions) × (add_each hash ls m ≡ added m')
      × ((finish hash r m').0 ≡ send r (waiting_for (lookup hash m) ++ channels ls))
      × (lookup hash (finish hash r m').1 ≡ none)
      × Others hash m (finish hash r m').1
finish-add_each hash r ls m b e =
    let a = add_each-adds hash ls m b e in
    let f = finish-sends hash r a.0 in
    (a.0, a.1, f.0 ∙ ap (send r) a.2, f.1, λ j d. f.2 j d ∙ a.3 j d)
