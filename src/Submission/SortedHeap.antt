-- ===== src/Submission/SortedHeap.antt =====
-- A heap that keeps its elements sorted.
use aurorav1_11_0_test.Base.{ℕ, ◌≤◌, ltb, if◌then◌else◌, if-holds, List, [], ◌∷◌, Perm, arith}
use mathlib.Core.List.Perm
use aurorav1_11_0_test.Submission.{Heap, Item, NoneBefore}

abbrev pub Sorted : List Item → Type 0
Sorted [] = Unit {0}
Sorted (x ∷ q) = NoneBefore x.sequence q × Sorted q

unfoldable pub insert : Item → List Item → List Item
insert x [] = x ∷ []
insert x (y ∷ q) =
    let rest = insert x q in if ltb x.sequence y.sequence then x ∷ y ∷ q else y ∷ rest

pub insert-Perm : (x : Item) (q : List Item) → Perm (insert x q) (x ∷ q)
unfolding insert
insert-Perm x [] = Perm.rfl
insert-Perm x (y ∷ q) =
    if-holds (λ l. Perm l (x ∷ y ∷ q)) (ltb x.sequence y.sequence) Perm.rfl
      (Perm.trans (Perm.cons y (insert-Perm x q)) (Perm.swap x y q))

insert-NoneBefore :
    (n : ℕ) (x : Item) (q : List Item) → n ≤ x.sequence → NoneBefore n q → NoneBefore n (insert x q)
unfolding insert
insert-NoneBefore n x [] le b = (le, tt)
insert-NoneBefore n x (y ∷ q) le b = ground (arith, le, b.0, b.1, insert-NoneBefore n x q le b.1)

none_before : (m n : ℕ) (q : List Item) → m ≤ n → NoneBefore n q → NoneBefore m q
none_before m n [] le b = tt
none_before m n (x ∷ q) le b = (omega (arith, le, b.0), none_before m n q le b.1)

pub insert-Sorted : (x : Item) (q : List Item) → Sorted q → Sorted (insert x q)
unfolding insert
insert-Sorted x [] s = (tt, tt)
insert-Sorted x (y ∷ q) s = ground (
  arith,
  s.0,
  s.1,
  insert-Sorted x q s.1,
  none_before x.sequence y.sequence q,
  insert-NoneBefore y.sequence x q,
)

abbrev pub sorted : Heap
sorted = record {
  IsHeap = Sorted;
  push = insert;
  pop = λ x q. q;
  nil-IsHeap = tt;
  push-IsHeap = insert-Sorted;
  push-Perm = insert-Perm;
  pop-IsHeap = λ x q s. s.1;
  pop-Perm = λ x q. Perm.rfl;
  front_least = λ x q s. s.0;
}
