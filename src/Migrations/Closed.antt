-- ===== src/Migrations/Closed.antt =====
-- Schemas whose foreign keys and indexes have their tables, under the operations of
-- migrations/versions.
use canals_assessment.Prelude.{
  String, ◌≡◌, refl, sym, true, false, not, ◌&&◌, List, [], ◌∷◌, All, str_eq, eq_iff, arith,
  Bool-cases, inl, inr,
}
use canals_assessment.Sql.{exists_row}
use canals_assessment.Migrations.{
  Schema, Table, Index, Constraint, every, has_target, is_table, is_on, refers_to, targets,
  foreign_key, primary_key, unique, check,
}

-- Every foreign key's target and every index's table is there.
pub record IsClosed (s : Schema) : Type 0 where
  pub targets : All (λ t. every (has_target s.tables) t.constraints ≡ true) s.tables
  pub indexed : All (λ i. exists_row (is_table i.table) s.tables ≡ true) s.indexes

module _ (n : String) (tables : List Table) (fresh : exists_row (is_table n) tables ≡ false) where
  -- Another name that is there differs from a fresh one.
  other_name : (m : String) → exists_row (is_table m) tables ≡ true → str_eq m n ≡ false
  other_name m there = elim (Bool-cases (str_eq m n)) [
    | inr other ↦ other
    | inl same ↦ let again = rw ((eq_iff m n).0 same) at there in cc
  ]

  none_targets :
      (cs : List Constraint)
      → every (has_target tables) cs ≡ true
      → exists_row (targets n) cs ≡ false
  none_targets [] h = refl
  none_targets (foreign_key columns m keys name rule ∷ cs) h =
      ground (arith, h, other_name m (ground (arith, h)), none_targets cs (ground (arith, h)))
  none_targets (primary_key columns name ∷ cs) h = none_targets cs h
  none_targets (unique columns name ∷ cs) h = none_targets cs h
  none_targets (check text name ∷ cs) h = none_targets cs h

  pub none_refers :
      (ts : List Table)
      → All (λ t. every (has_target tables) t.constraints ≡ true) ts
      → exists_row (λ t. not (is_table n t) && refers_to n t) ts ≡ false
  none_refers [] h = refl
  none_refers (t ∷ ts) h = ground (arith, none_targets t.constraints h.0, none_refers ts h.1)

  pub none_on :
      (is : List Index)
      → All (λ i. exists_row (is_table i.table) tables ≡ true) is
      → All (λ i. is_on n i ≡ false) is
  none_on [] h = tt
  none_on (i ∷ is) h = (other_name i.table h.0, none_on is h.1)

-- A foreign key keeps its target when a table is added.
module _ (t : Table) (tables : List Table) where
  every-more :
      (cs : List Constraint)
      → every (has_target tables) cs ≡ true
      → every (has_target (t ∷ tables)) cs ≡ true
  every-more [] h = refl
  every-more (foreign_key columns m keys name rule ∷ cs) h =
      ground (arith, h, every-more cs (ground (arith, h)))
  every-more (primary_key columns name ∷ cs) h = every-more cs h
  every-more (unique columns name ∷ cs) h = every-more cs h
  every-more (check text name ∷ cs) h = every-more cs h

  pub targets-more :
      (ts : List Table)
      → All (λ x. every (has_target tables) x.constraints ≡ true) ts
      → All (λ x. every (has_target (t ∷ tables)) x.constraints ≡ true) ts
  targets-more [] h = tt
  targets-more (x ∷ xs) h = (every-more x.constraints h.0, targets-more xs h.1)

  pub indexed-more :
      (is : List Index)
      → All (λ i. exists_row (is_table i.table) tables ≡ true) is
      → All (λ i. exists_row (is_table i.table) (t ∷ tables) ≡ true) is
  indexed-more [] h = tt
  indexed-more (i ∷ is) h = (ground (arith, h.0), indexed-more is h.1)

  pub on-there :
      (is : List Index)
      → All (λ i. is_on t.name i ≡ true) is
      → All (λ i. exists_row (is_table i.table) (t ∷ tables) ≡ true) is
  on-there [] h = tt
  on-there (i ∷ is) h =
      let named : str_eq t.name i.table ≡ true =
        (eq_iff t.name i.table).1 (sym ((eq_iff i.table t.name).0 h.0)) in
      (ground (arith, named), on-there is h.1)
