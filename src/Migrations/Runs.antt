-- ===== src/Migrations/Runs.antt =====
-- Runs of the operations of migrations/versions, and what they select.
use canals_assessment.Prelude.{
  ◌≡◌, refl, ap, ◌∙◌, Bool, true, false, not, Option, none, some, List, [], ◌∷◌, ◌++◌, All, arith,
}
use canals_assessment.Sql.{select_rows, exists_row}
use canals_assessment.Migrations.{Schema, Operation, and_then, apply, run}

-- The steps of a run.
pub run-cons :
    (o : Operation) (os : List Operation) (s t : Schema)
    → run (o ∷ os) s ≡ some t
    → (m : Schema) × (apply o s ≡ some m) × (run os m ≡ some t)
unfolding run
run-cons o os s t h = go (apply o s) refl h
  where
    go :
        (a : Option Schema)
        → apply o s ≡ a
        → and_then a (run os) ≡ some t
        → (m : Schema) × (apply o s ≡ some m) × (run os m ≡ some t)
    go none e k = cc
    go (some m) e k = (m, e, k)

pub run-step :
    (o : Operation) (os : List Operation) (s m : Schema)
    → apply o s ≡ some m
    → run (o ∷ os) s ≡ run os m
unfolding run
run-step o os s m h = ap (λ a. and_then a (run os)) h

pub run-append :
    (xs ys : List Operation) (s t : Schema)
    → run (xs ++ ys) s ≡ some t
    → (m : Schema) × (run xs s ≡ some m) × (run ys m ≡ some t)
unfolding run
run-append [] ys s t h = (s, refl, h)
run-append (o ∷ os) ys s t h =
    let (m, first, rest) = run-cons o (os ++ ys) s t h in
    let (m', second, third) = run-append os ys m t rest in
    (m', run-step o os s m first ∙ second, third)

pub run-after :
    (xs ys : List Operation) (s m : Schema) → run xs s ≡ some m → run (xs ++ ys) s ≡ run ys m
unfolding run
run-after [] ys s m h = ground (arith, h)
run-after (o ∷ os) ys s m h =
    let (m', first, rest) = run-cons o os s m h in
    run-step o (os ++ ys) s m' first ∙ run-after os ys m' m rest

pub select_rows-others {ℓ} :
    {A : Type ℓ} (test : A → Bool) (rs : List A)
    → All (λ r. test r ≡ false) rs
    → select_rows (λ r. not (test r)) rs ≡ rs
select_rows-others test [] h = refl
select_rows-others test (r ∷ rs) h = ground (arith, h.0, select_rows-others test rs h.1)

pub select_rows-gone {ℓ} :
    {A : Type ℓ} (test : A → Bool) (xs rs : List A)
    → All (λ r. test r ≡ true) xs
    → All (λ r. test r ≡ false) rs
    → select_rows (λ r. not (test r)) (xs ++ rs) ≡ rs
select_rows-gone test [] rs h k = select_rows-others test rs k
select_rows-gone test (x ∷ xs) rs h k = ground (arith, h.0, select_rows-gone test xs rs h.1 k)

pub exists_row-All {ℓ} :
    {A : Type ℓ} (test : A → Bool) (rs : List A)
    → exists_row test rs ≡ false
    → All (λ r. test r ≡ false) rs
exists_row-All test [] h = tt
exists_row-All test (r ∷ rs) h = (ground (arith, h), exists_row-All test rs (ground (arith, h)))
