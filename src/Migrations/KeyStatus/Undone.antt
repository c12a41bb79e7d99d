-- ===== src/Migrations/KeyStatus/Undone.antt =====
-- The downgrade of migrations/versions/0003_idempotency_status.py undoes its upgrade on the schema.
use canals_assessment.Prelude.{◌≡◌, true, false, not, List, ◌∷◌}
use canals_assessment.Sql.{exists_row, update_rows, select_rows}
use canals_assessment.Migrations.{
  Schema, Table, Index, is_table, is_type, is_index, is_over, has_column, has_constraint, uses_type,
  with_column, with_constraint,
}
use canals_assessment.Migrations.KeyStatus.{
  idempotency_status, status_column, status_check, in_progress_index, unsettled_index,
}

-- The schema as revision 0002 leaves it, as far as revision 0003 needs it.
pub record IsReady (s : Schema) : Type 0 where
  pub keys : exists_row (is_table "idempotency_keys") s.tables ≡ true
  pub unsettled : exists_row (is_index "ix_idempotency_keys_unsettled") s.indexes ≡ true
  pub new_index : exists_row (is_index "ix_idempotency_keys_in_progress") s.indexes ≡ false
  pub new_column : has_column "idempotency_keys" "status" s.tables ≡ false
  pub unindexed : exists_row (is_over "idempotency_keys" "status") s.indexes ≡ false
  pub new_check : has_constraint "idempotency_keys" "completed_has_response" s.tables ≡ false
  pub new_type : exists_row (is_type "idempotency_status") s.types ≡ false
  pub unused :
      exists_row (λ (t : Table). exists_row (uses_type "idempotency_status") t.columns) s.tables
      ≡ false

-- The indexes that the upgrade leaves alone.
abbrev pub other_indexes : Schema → List Index
other_indexes s = select_rows (λ i. not (is_index "ix_idempotency_keys_unsettled" i)) s.indexes

abbrev with_status : Schema → List Table
with_status s = update_rows (is_table "idempotency_keys") (with_column status_column) s.tables

abbrev with_check : Schema → List Table
with_check s =
    update_rows (is_table "idempotency_keys") (with_constraint status_check) (with_status s)

-- The schema after the upgrade.
abbrev pub upgraded : Schema → Schema
upgraded s = record s {
  types = idempotency_status ∷ s.types;
  tables = with_check s;
  indexes = in_progress_index ∷ other_indexes s;
}

module _ (s : Schema) (ready : IsReady s) where
  -- The schema after the downgrade: the old index is the last one created.
  abbrev back : Schema
  back = record s { indexes = unsettled_index ∷ other_indexes s }
