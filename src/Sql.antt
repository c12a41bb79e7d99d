-- ===== src/Sql.antt =====
-- The three statements of SQL that the repositories issue, over a table held as a list of rows:
-- UPDATE … SET … WHERE, SELECT … WHERE, and LIMIT. An order that a query leaves open is the table's.
pub mod Laws
use canals_assessment.Prelude.{Bool, false, ◌||◌, List, [], ◌∷◌, if◌then◌else◌}

module _ {ℓ} {A : Type ℓ} where
  -- UPDATE: `set` on every row that satisfies `where`.
  abbrev pub update_rows : (A → Bool) → (A → A) → List A → List A
  update_rows test set [] = []
  update_rows test set (r ∷ rs) = (if test r then set r else r) ∷ update_rows test set rs

  -- SELECT: the rows that satisfy `where`.
  abbrev pub select_rows : (A → Bool) → List A → List A
  select_rows test [] = []
  select_rows test (r ∷ rs) = let rest = select_rows test rs in if test r then r ∷ rest else rest

  -- EXISTS: whether some row satisfies `where`.
  abbrev pub exists_row : (A → Bool) → List A → Bool
  exists_row test [] = false
  exists_row test (r ∷ rs) = test r || exists_row test rs
