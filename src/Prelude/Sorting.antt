-- ===== src/Prelude/Sorting.antt =====
-- Python's `sorted` and SQL's ORDER BY as a stable insertion sort over a test `le`.
use canals_assessment.Prelude.Tests.{if◌then◌else◌, Bool-cases}
use canals_assessment.Prelude.Lists.{All, sum_by, length}
use Prim.Native.Nat.{ℕ, suc, ◌+◌}
use mathlib.Core.Path.{◌≡◌, refl, sym, ap, ◌∙◌}
use mathlib.Core.Logic.{inl, inr, ◌≢◌}
use mathlib.Core.Bool.{Bool, true, false}
use mathlib.Core.List.{List, [], ◌∷◌}
use native.Mathlib.Omega.{arith}

module _ {ℓ} {A : Type ℓ} (le : A → A → Bool) where
  abbrev pub insert_sorted : A → List A → List A
  insert_sorted a [] = a ∷ []
  insert_sorted a (x ∷ xs) = if le a x then a ∷ x ∷ xs else x ∷ insert_sorted a xs

  abbrev pub sort_by : List A → List A
  sort_by [] = []
  sort_by (x ∷ xs) = insert_sorted x (sort_by xs)

  -- Each element stands at or before all that follow it.
  abbrev pub IsSorted : List A → Type ℓ
  IsSorted [] = Unit
  IsSorted (x ∷ xs) = All (λ y. le x y ≡ true) xs × IsSorted xs

  pub sum_by-insert_sorted :
      (f : A → ℕ) (a : A) (xs : List A) → sum_by f (insert_sorted a xs) ≡ f a + sum_by f xs
  sum_by-insert_sorted f a [] = refl
  sum_by-insert_sorted f a (x ∷ xs) = ground (arith, sum_by-insert_sorted f a xs)

  pub sum_by-sort_by : (f : A → ℕ) (xs : List A) → sum_by f (sort_by xs) ≡ sum_by f xs
  sum_by-sort_by f [] = refl
  sum_by-sort_by f (x ∷ xs) =
      omega (arith, sum_by-insert_sorted f x (sort_by xs), sum_by-sort_by f xs)

  pub length-insert_sorted : (a : A) (xs : List A) → length (insert_sorted a xs) ≡ suc (length xs)
  length-insert_sorted a [] = refl
  length-insert_sorted a (x ∷ xs) = ground (arith, length-insert_sorted a xs)

  pub length-sort_by : (xs : List A) → length (sort_by xs) ≡ length xs
  length-sort_by [] = refl
  length-sort_by (x ∷ xs) = omega (arith, length-insert_sorted x (sort_by xs), length-sort_by xs)

  -- Only the empty list sorts to the empty list.
  pub sort_by-empty : (xs : List A) → sort_by xs ≡ [] → xs ≡ []
  sort_by-empty [] h = refl
  sort_by-empty (x ∷ xs) h = absurd (nonempty (sym (ap length h) ∙ length-sort_by (x ∷ xs)))
    where
      nonempty : 0 ≢ suc (length xs)
      nonempty e = omega (arith, e)

  pub All-insert_sorted {κ} :
      (P : A → Type κ) (a : A) (xs : List A) → P a → All P xs → All P (insert_sorted a xs)
  All-insert_sorted P a [] pa h = (pa, tt)
  All-insert_sorted P a (x ∷ xs) pa h = elim (Bool-cases (le a x)) [
    | inl t ↦ rw t (pa, h)
    | inr f ↦ rw f (h.0, All-insert_sorted P a xs pa h.1)
  ]

  pub All-sort_by {κ} : (P : A → Type κ) (xs : List A) → All P xs → All P (sort_by xs)
  All-sort_by P [] h = tt
  All-sort_by P (x ∷ xs) h = All-insert_sorted P x (sort_by xs) h.0 (All-sort_by P xs h.1)

  insert_sorted-All {κ} :
      (P : A → Type κ) (a : A) (xs : List A) → All P (insert_sorted a xs) → P a × All P xs
  insert_sorted-All P a [] h = (h.0, tt)
  insert_sorted-All P a (x ∷ xs) h = elim (Bool-cases (le a x)) [
    | inl t ↦ let k = rw t at h in (k.0, k.1)
    | inr f ↦
        let k = rw f at h in let rest = insert_sorted-All P a xs k.1 in (rest.0, (k.0, rest.1))
  ]

  -- What holds of all of a sorted list holds of all of the list.
  pub sort_by-All {κ} : (P : A → Type κ) (xs : List A) → All P (sort_by xs) → All P xs
  sort_by-All P [] h = tt
  sort_by-All P (x ∷ xs) h =
      let k = insert_sorted-All P x (sort_by xs) h in (k.0, sort_by-All P xs k.1)

  module _ (trans : (a b c : A) → le a b ≡ true → le b c ≡ true → le a c ≡ true)
      (total : (a b : A) → le a b ≡ false → le b a ≡ true) where
    All-le_trans :
        (a x : A) (xs : List A)
        → le a x ≡ true
        → All (λ y. le x y ≡ true) xs
        → All (λ y. le a y ≡ true) xs
    All-le_trans a x [] h k = tt
    All-le_trans a x (y ∷ ys) h k = (trans a x y h k.0, All-le_trans a x ys h k.1)

    insert_sorted-IsSorted : (a : A) (xs : List A) → IsSorted xs → IsSorted (insert_sorted a xs)
    insert_sorted-IsSorted a [] h = (tt, tt)
    insert_sorted-IsSorted a (x ∷ xs) h = elim (Bool-cases (le a x)) [
      | inl t ↦ rw t ((t, All-le_trans a x xs t h.0), h)
      | inr f ↦ rw f (
        All-insert_sorted (λ y. le x y ≡ true) a xs (total a x f) h.0,
        insert_sorted-IsSorted a xs h.1,
      )
    ]

    -- Under a total, transitive test the result is sorted.
    pub sort_by-IsSorted : (xs : List A) → IsSorted (sort_by xs)
    sort_by-IsSorted [] = tt
    sort_by-IsSorted (x ∷ xs) = insert_sorted-IsSorted x (sort_by xs) (sort_by-IsSorted xs)

-- A relation between each element and those after it.
abbrev pub Pairwise {ℓ κ} : {A : Type ℓ} → (A → A → Type κ) → List A → Type κ
Pairwise R [] = Unit
Pairwise R (x ∷ xs) = All (R x) xs × Pairwise R xs

module _ {ℓ κ} {A : Type ℓ} (le : A → A → Bool) (R : A → A → Type κ)
    (symmetric : (a b : A) → R a b → R b a) where
  Pairwise-insert_sorted :
      (a : A) (xs : List A) → All (R a) xs → Pairwise R xs → Pairwise R (insert_sorted le a xs)
  Pairwise-insert_sorted a [] h k = (tt, tt)
  Pairwise-insert_sorted a (x ∷ xs) h k = elim (Bool-cases (le a x)) [
    | inl t ↦ rw t (h, k)
    | inr f ↦ rw f (
      All-insert_sorted le (R x) a xs (symmetric a x h.0) k.0,
      Pairwise-insert_sorted a xs h.1 k.1,
    )
  ]

  -- Sorting keeps a symmetric relation between the elements.
  pub Pairwise-sort_by : (xs : List A) → Pairwise R xs → Pairwise R (sort_by le xs)
  Pairwise-sort_by [] h = tt
  Pairwise-sort_by (x ∷ xs) h =
      Pairwise-insert_sorted x (sort_by le xs) (All-sort_by le (R x) xs h.0)
        (Pairwise-sort_by xs h.1)
