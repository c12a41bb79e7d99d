-- ===== src/Seeds/Upsert.antt =====
-- INSERT … ON CONFLICT DO UPDATE of several rows, as app/seeds.py issues it, and what a second run of
-- the same statement does.
use canals_assessment.Prelude.{
  ℕ, suc, ◌≡◌, ◌≢◌, refl, sym, ◌∙◌, Bool, true, false, List, [], ◌∷◌, ◌++◌, All, All-append, arith,
  Bool-cases, inl, inr, if◌then◌else◌,
}
use canals_assessment.Sql.{update_rows, exists_row}
use canals_assessment.Sql.Laws.{All-update_rows, exists_row-update_rows}

module _ {S R : Type 0} (uuid : ℕ → ℕ) (same : S → R → Bool) (set : S → R → R)
    (make : S → ℕ → R) where
  -- One row of VALUES: the row in conflict is set, or a new one is made with the next id.
  abbrev pub upsert_row : S → List R × ℕ → List R × ℕ
  upsert_row s (rows, n) =
      if exists_row (same s) rows
      then (update_rows (same s) (set s) rows, n)
      else (rows ++ make s (uuid n) ∷ [], suc n)

  unfoldable pub upsert_rows : List S → List R × ℕ → List R × ℕ
  upsert_rows [] table = table
  upsert_rows (s ∷ ss) table = upsert_rows ss (upsert_row s table)

-- What the second run needs of the statement: that the conflict is about a key which SET leaves alone,
-- that it sets constants, and that VALUES has each key once.
pub record IsUpsert {S R : Type 0} (same : S → R → Bool) (set : S → R → R) (make : S → ℕ → R)
    (clash : S → S → Bool) : Type 0 where
  pub keyed : (s x : S) (r : R) → same s (set x r) ≡ same s r
  pub constant : (s : S) (r : R) → set s (set s r) ≡ set s r
  pub makes : (s : S) (id : ℕ) → same s (make s id) ≡ true
  pub made : (s : S) (id : ℕ) → set s (make s id) ≡ make s id
  pub apart : (s x : S) (r : R) → clash s x ≡ false → same x r ≡ true → same s r ≡ false

-- Each seed differs from all that follow it.
abbrev pub AllApart : {S : Type 0} → (S → S → Bool) → List S → Type 0
AllApart clash [] = Unit
AllApart clash (s ∷ ss) = All (λ x. clash s x ≡ false) ss × AllApart clash ss

module _ {S R : Type 0} (same : S → R → Bool) (set : S → R → R) where
  -- A seed that a further run finds and leaves as it is.
  pub record IsSettled (s : S) (rows : List R) : Type 0 where
    pub there : exists_row (same s) rows ≡ true
    pub fixed : All (λ r. same s r ≡ true → set s r ≡ r) rows

module _ {S R : Type 0} (uuid : ℕ → ℕ) (same : S → R → Bool) (set : S → R → R) (make : S → ℕ → R)
    (clash : S → S → Bool) (u : IsUpsert same set make clash) where
  settled_rows :
      (s : S) (rows : List R)
      → All (λ r. same s r ≡ true → set s r ≡ r) rows
      → update_rows (same s) (set s) rows ≡ rows
  settled_rows s [] h = refl
  settled_rows s (r ∷ rs) h = ground (arith, h.0, settled_rows s rs h.1)

  settled_row :
      (s : S) (rows : List R) (n : ℕ)
      → IsSettled same set s rows
      → upsert_row uuid same set make s (rows, n) ≡ (rows, n)
  settled_row s rows n k = rw (k.there, settled_rows s rows k.fixed) refl

  unmatched :
      (s : S) (rows : List R)
      → exists_row (same s) rows ≡ false
      → All (λ r. same s r ≡ true → set s r ≡ r) rows
  unmatched s [] h = tt
  unmatched s (r ∷ rs) h = (λ t. ground (arith, h, t), unmatched s rs (ground (arith, h)))

  exists_last :
      (s : S) (rows : List R) (r : R)
      → same s r ≡ true
      → exists_row (same s) (rows ++ r ∷ []) ≡ true
  exists_last s [] r h = ground (arith, h)
  exists_last s (x ∷ xs) r h = ground (arith, exists_last s xs r h)

  exists_still :
      (s : S) (rows more : List R)
      → exists_row (same s) rows ≡ true
      → exists_row (same s) (rows ++ more) ≡ true
  exists_still s [] more h = cc
  exists_still s (x ∷ xs) more h = ground (arith, h, exists_still s xs more)

  set_fixed :
      (s : S) (rows : List R)
      → All (λ r. same s r ≡ true → set s r ≡ r) (update_rows (same s) (set s) rows)
  set_fixed s [] = tt
  set_fixed s (r ∷ rs) = elim (Bool-cases (same s r)) [
    | inl t ↦ rw t (λ e. u.constant s r, set_fixed s rs)
    | inr f ↦ rw f (λ e. ground (arith, e, f), set_fixed s rs)
  ]

  upserted :
      (s : S) (rows : List R) (n : ℕ)
      → IsSettled same set s (upsert_row uuid same set make s (rows, n)).0
  upserted s rows n = elim (Bool-cases (exists_row (same s) rows)) [
    | inl found ↦ rw found (record {
      there =
          exists_row-update_rows (same s) (same s) (set s) rows (λ r t. u.keyed s s r ∙ t) found;
      fixed = set_fixed s rows;
    })
    | inr absent ↦ rw absent (record {
      there = exists_last s rows (make s (uuid n)) (u.makes s (uuid n));
      fixed =
          All-append (λ r. same s r ≡ true → set s r ≡ r) rows (make s (uuid n) ∷ [])
            (unmatched s rows absent) (λ e. u.made s (uuid n), tt);
    })
  ]

  -- What another seed's upsert leaves of a settled one.
  fixed_still :
      (s x : S) (rows : List R)
      → clash s x ≡ false
      → All (λ r. same s r ≡ true → set s r ≡ r) rows
      → All (λ r. same s r ≡ true → set s r ≡ r) (update_rows (same x) (set x) rows)
  fixed_still s x rows differ h =
      All-update_rows (same x) (λ r. same s r ≡ true → set s r ≡ r) (set x) rows
        (λ r t k e.
          let other = u.apart s x r differ t in
          let unkeyed = u.keyed s x r in absurd (not_both (sym unkeyed ∙ e) other))
        h
    where
      not_both : {b : Bool} → b ≡ true → b ≢ false
      not_both p q = cc

  there_still :
      (s x : S) (rows : List R)
      → exists_row (same s) rows ≡ true
      → exists_row (same s) (update_rows (same x) (set x) rows) ≡ true
  there_still s x [] h = cc
  there_still s x (r ∷ rs) h = ground (arith, h, u.keyed s x r, there_still s x rs)

  settled_still :
      (s x : S) (rows : List R) (n : ℕ)
      → clash s x ≡ false
      → IsSettled same set s rows
      → IsSettled same set s (upsert_row uuid same set make x (rows, n)).0
  settled_still s x rows n differ k = elim (Bool-cases (exists_row (same x) rows)) [
    | inl found ↦ rw found (record {
      there = there_still s x rows k.there;
      fixed = fixed_still s x rows differ k.fixed;
    })
    | inr absent ↦ rw absent (record {
      there = exists_still s rows (make x (uuid n) ∷ []) k.there;
      fixed =
          All-append (λ r. same s r ≡ true → set s r ≡ r) rows (make x (uuid n) ∷ []) k.fixed
            (
              λ e. absurd (not_both e (u.apart s x (make x (uuid n)) differ (u.makes x (uuid n)))),
              tt,
            );
    })
  ]
    where
      not_both : {b : Bool} → b ≡ true → b ≢ false
      not_both p q = cc

  settled_through :
      (s : S) (ss : List S) (rows : List R) (n : ℕ)
      → All (λ x. clash s x ≡ false) ss
      → IsSettled same set s rows
      → IsSettled same set s (upsert_rows uuid same set make ss (rows, n)).0
  unfolding upsert_rows
  settled_through s [] rows n differ k = k
  settled_through s (x ∷ xs) rows n differ k =
      let next = upsert_row uuid same set make x (rows, n) in
      settled_through s xs next.0 next.1 differ.1 (settled_still s x rows n differ.0 k)

  -- After the statement every seed is settled.
  pub upsert_rows-settled :
      (ss : List S) (rows : List R) (n : ℕ)
      → AllApart clash ss
      → All (λ s. IsSettled same set s (upsert_rows uuid same set make ss (rows, n)).0) ss
  unfolding upsert_rows
  upsert_rows-settled [] rows n differ = tt
  upsert_rows-settled (s ∷ ss) rows n differ =
      let next = upsert_row uuid same set make s (rows, n) in
      (
        settled_through s ss next.0 next.1 differ.0 (upserted s rows n),
        upsert_rows-settled ss next.0 next.1 differ.1,
      )

  -- And the statement leaves a table of settled seeds as it is.
  pub upsert_rows-again :
      (ss : List S) (rows : List R) (n : ℕ)
      → All (λ s. IsSettled same set s rows) ss
      → upsert_rows uuid same set make ss (rows, n) ≡ (rows, n)
  unfolding upsert_rows
  upsert_rows-again [] rows n k = refl
  upsert_rows-again (s ∷ ss) rows n k =
      rw (settled_row s rows n k.0) (upsert_rows-again ss rows n k.1)
