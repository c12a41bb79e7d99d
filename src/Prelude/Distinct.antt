-- ===== src/Prelude/Distinct.antt =====
-- Lists of numbers as sets: membership, `distinct`, and counting.
use Prim.Native.Nat.{ℕ, suc, ◌≤◌}
use mathlib.Core.Path.{◌≡◌, refl}
use mathlib.Core.Logic.{inl, inr}
use mathlib.Core.Bool.{true, false}
use mathlib.Core.List.{List, [], ◌∷◌}
use native.Mathlib.Omega.{arith}
use canals_assessment.Prelude.Tests.{if◌then◌else◌, ◌==◌, ==_iff, Bool-cases}
use canals_assessment.Prelude.Lists.{length, contains, distinct}

abbrev pub IsSubset : List ℕ → List ℕ → Type 0
IsSubset xs ys = (a : ℕ) → contains a xs ≡ true → contains a ys ≡ true

-- No number stands twice.
abbrev pub IsDistinctList : List ℕ → Type 0
IsDistinctList [] = Unit
IsDistinctList (x ∷ xs) = (contains x xs ≡ false) × IsDistinctList xs

pub contains-distinct : (a : ℕ) (xs : List ℕ) → contains a (distinct xs) ≡ contains a xs
contains-distinct a [] = refl
contains-distinct a (x ∷ xs) = elim (Bool-cases (contains x (distinct xs))) [
  | inr f ↦ rw (f, contains-distinct a xs) refl
  | inl t ↦ elim (Bool-cases (a == x)) [
    | inl same ↦ rw (t, same, (==_iff a x).0 same) t
    | inr other ↦ rw (t, other) (contains-distinct a xs)
  ]
]

pub distinct-IsDistinctList : (xs : List ℕ) → IsDistinctList (distinct xs)
distinct-IsDistinctList [] = tt
distinct-IsDistinctList (x ∷ xs) = elim (Bool-cases (contains x (distinct xs))) [
  | inl t ↦ rw t (distinct-IsDistinctList xs)
  | inr f ↦ rw f (f, distinct-IsDistinctList xs)
]

abbrev remove : ℕ → List ℕ → List ℕ
remove a [] = []
remove a (x ∷ xs) = let rest = remove a xs in if a == x then xs else x ∷ rest

length-remove :
    (a : ℕ) (xs : List ℕ) → contains a xs ≡ true → suc (length (remove a xs)) ≡ length xs
length-remove a [] h = cc
length-remove a (x ∷ xs) h = ground (arith, length-remove a xs)

contains-remove :
    (a b : ℕ) (xs : List ℕ)
    → (b == a) ≡ false
    → contains b xs ≡ true
    → contains b (remove a xs) ≡ true
contains-remove a b [] n h = cc
contains-remove a b (x ∷ xs) n h = ground (arith, contains-remove a b xs n)

other_of_absent :
    (x a : ℕ) (xs : List ℕ) → contains x xs ≡ false → contains a xs ≡ true → (a == x) ≡ false
other_of_absent x a [] h k = cc
other_of_absent x a (y ∷ ys) h k = ground (arith, other_of_absent x a ys)

-- A set within a list is no longer than the list.
pub length-le : (xs ys : List ℕ) → IsDistinctList xs → IsSubset xs ys → length xs ≤ length ys
length-le [] ys u h = omega arith
length-le (x ∷ xs) ys u h =
    let here : contains x (x ∷ xs) ≡ true = ground arith in
    omega (
      arith,
      length-remove x ys (h x here),
      length-le xs (remove x ys) u.1
          (λ a k. contains-remove x a ys (other_of_absent x a xs u.0 k) (h a (ground (arith, k)))),
    )

-- A set within a list that is as long as the list has all of it.
pub IsSubset-length :
    (xs ys : List ℕ) → IsDistinctList xs → IsSubset xs ys → length xs ≡ length ys → IsSubset ys xs
IsSubset-length xs ys u h e a k = elim (Bool-cases (contains a xs)) [
  | inl t ↦ t
  | inr f ↦ absurd (omega (arith, length-le (a ∷ xs) ys (f, u) (λ b m. member b m), e))
]
  where
    member : (b : ℕ) → contains b (a ∷ xs) ≡ true → contains b ys ≡ true
    member b m = elim (Bool-cases (b == a)) [
      | inl same ↦ rw ((==_iff b a).0 same) k
      | inr other ↦ h b (rw other at m)
    ]
