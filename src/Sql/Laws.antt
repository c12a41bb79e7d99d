-- ===== src/Sql/Laws.antt =====
-- Laws of the statements of Sql.antt.
use canals_assessment.Prelude.{
  ℕ, ◌+◌, ◌≤◌, ◌≡◌, ◌≢◌, refl, Bool, true, false, List, [], ◌∷◌, ◌++◌, ◌⊎◌, arith, All, sum_by,
  length, Bool-cases, inl, inr,
}
use canals_assessment.Sql.{update_rows, select_rows, exists_row}

module _ {ℓ} {A : Type ℓ} (test : A → Bool) where
  -- An update that matches no row changes nothing.
  pub update_rows-none :
      (set : A → A) (rs : List A) → select_rows test rs ≡ [] → update_rows test set rs ≡ rs
  update_rows-none set [] h = refl
  update_rows-none set (r ∷ rs) h = ground (arith, update_rows-none set rs)

  pub All-update_rows {κ} :
      (P : A → Type κ) (set : A → A) (rs : List A)
      → ((r : A) → test r ≡ true → P r → P (set r))
      → All P rs
      → All P (update_rows test set rs)
  All-update_rows P set [] k h = tt
  All-update_rows P set (r ∷ rs) k h = elim (Bool-cases (test r)) [
    | inl t ↦ rw t (k r t h.0, All-update_rows P set rs k h.1)
    | inr f ↦ rw f (h.0, All-update_rows P set rs k h.1)
  ]

  pub All-select_rows {κ} : (P : A → Type κ) (rs : List A) → All P rs → All P (select_rows test rs)
  All-select_rows P [] h = tt
  All-select_rows P (r ∷ rs) h = elim (Bool-cases (test r)) [
    | inl t ↦ rw t (h.0, All-select_rows P rs h.1)
    | inr f ↦ rw f (All-select_rows P rs h.1)
  ]

  -- Every selected row satisfies the test.
  pub select_rows-test : (rs : List A) → All (λ r. test r ≡ true) (select_rows test rs)
  select_rows-test [] = tt
  select_rows-test (r ∷ rs) = elim (Bool-cases (test r)) [
    | inl t ↦ rw t (t, select_rows-test rs)
    | inr f ↦ rw f (select_rows-test rs)
  ]

  -- If no row is selected, every row fails the test.
  pub none_selected : (rs : List A) → select_rows test rs ≡ [] → All (λ r. test r ≡ false) rs
  none_selected [] h = tt
  none_selected (r ∷ rs) h = elim (Bool-cases (test r)) [
    | inl t ↦ absurd (nonempty (rw t at h))
    | inr f ↦ (f, none_selected rs (rw f at h))
  ]
    where
      nonempty : r ∷ select_rows test rs ≢ []
      nonempty e = cc

  pub length-update_rows :
      (set : A → A) (rs : List A) → length (update_rows test set rs) ≡ length rs
  length-update_rows set [] = refl
  length-update_rows set (r ∷ rs) = omega (arith, length-update_rows set rs)

  pub length-select_rows-le : (rs : List A) → length (select_rows test rs) ≤ length rs
  length-select_rows-le [] = omega arith
  length-select_rows-le (r ∷ rs) = ground (arith, length-select_rows-le rs)

  -- After an update whose new rows fail the test, nothing satisfies it any more.
  pub select-update_rows :
      (set : A → A) (rs : List A)
      → ((r : A) → test r ≡ true → test (set r) ≡ false)
      → select_rows test (update_rows test set rs) ≡ []
  select-update_rows set [] k = refl
  select-update_rows set (r ∷ rs) k = ground (arith, k r, select-update_rows set rs k)

  -- An update moves a sum by what it adds at the selected rows.
  pub sum_by-update_rows :
      (f : A → ℕ) (d : A → ℕ) (set : A → A) (rs : List A)
      → ((r : A) → test r ≡ true → f (set r) + d r ≡ f r)
      → sum_by f (update_rows test set rs) + sum_by d (select_rows test rs) ≡ sum_by f rs
  sum_by-update_rows f d set [] k = refl
  sum_by-update_rows f d set (r ∷ rs) k = ground (arith, k r, sum_by-update_rows f d set rs k)

  -- An update that leaves a measure alone leaves its sum alone.
  pub sum_by-update_rows_same :
      (f : A → ℕ) (set : A → A) (rs : List A)
      → ((r : A) → test r ≡ true → f (set r) ≡ f r)
      → sum_by f (update_rows test set rs) ≡ sum_by f rs
  sum_by-update_rows_same f set [] k = refl
  sum_by-update_rows_same f set (r ∷ rs) k = ground (arith, k r, sum_by-update_rows_same f set rs k)

  pub select_rows-append :
      (xs ys : List A) → select_rows test (xs ++ ys) ≡ select_rows test xs ++ select_rows test ys
  select_rows-append [] ys = refl
  select_rows-append (x ∷ xs) ys = ground (arith, select_rows-append xs ys)

  pub exists_row-none : (rs : List A) → select_rows test rs ≡ [] → exists_row test rs ≡ false
  exists_row-none [] h = refl
  exists_row-none (r ∷ rs) h = ground (arith, exists_row-none rs)

  pub exists_row-found :
      (x : A) (rest rs : List A) → select_rows test rs ≡ x ∷ rest → exists_row test rs ≡ true
  exists_row-found x rest [] h = cc
  exists_row-found x rest (r ∷ rs) h = ground (arith, exists_row-found x rest rs)

pub List-cases {ℓ} :
    {A : Type ℓ} (xs : List A) → (xs ≡ []) ⊎ ((x : A) × (r : List A) × (xs ≡ x ∷ r))
List-cases [] = inl refl
List-cases (x ∷ r) = inr (x, r, refl)

pub exists_row-append {ℓ} :
    {A : Type ℓ} (test : A → Bool) (xs ys : List A)
    → exists_row test xs ≡ false
    → exists_row test ys ≡ false
    → exists_row test (xs ++ ys) ≡ false
exists_row-append test [] ys h k = k
exists_row-append test (x ∷ xs) ys h k = ground (arith, exists_row-append test xs ys)

-- What an update makes of a row that it selects is in the table afterwards.
pub exists_row-update_rows {ℓ} :
    {A : Type ℓ} (test test' : A → Bool) (set : A → A) (rs : List A)
    → ((r : A) → test r ≡ true → test' (set r) ≡ true)
    → exists_row test rs ≡ true
    → exists_row test' (update_rows test set rs) ≡ true
exists_row-update_rows test test' set [] k h = cc
exists_row-update_rows test test' set (r ∷ rs) k h =
    ground (arith, k r, exists_row-update_rows test test' set rs k)

pub exists_row_weaken {ℓ} :
    {A : Type ℓ} (test test' : A → Bool) (rs : List A)
    → ((r : A) → test r ≡ true → test' r ≡ true)
    → exists_row test rs ≡ true
    → exists_row test' rs ≡ true
exists_row_weaken test test' [] k h = cc
exists_row_weaken test test' (r ∷ rs) k h = ground (arith, k r, exists_row_weaken test test' rs k)
