-- ===== src/Migrations/KeyStatus.antt =====
-- migrations/versions/0003_idempotency_status.py: its operations on the schema.
pub mod Undone
use canals_assessment.Prelude.{String, true, false, some, none, List, [], ◌∷◌}
use canals_assessment.Migrations.{
  EnumType, Column, Constraint, Index, Operation, create_type, drop_type, create_index, drop_index,
  add_column, drop_column, create_constraint, drop_constraint, enum, check, defaulted,
}

-- `IDEMPOTENCY_STATUS`
abbrev pub idempotency_status : EnumType
idempotency_status = record {
  name = "idempotency_status";
  values = "in_progress" ∷ "completed" ∷ "failed" ∷ [];
}

abbrev pub status_column : Column
status_column = defaulted "status" (enum "idempotency_status") "'in_progress'"

abbrev pub status_check : Constraint
status_check =
    check "status <> 'completed' OR (response_body IS NOT NULL AND response_status IS NOT NULL)"
      "completed_has_response"

abbrev key_index : String → String → Index
key_index name predicate = record {
  name = name;
  table = "idempotency_keys";
  keys = "created_at" ∷ [];
  is_unique = false;
  using = "btree";
  predicate = some predicate;
}

abbrev pub in_progress_index : Index
in_progress_index = key_index "ix_idempotency_keys_in_progress" "status = 'in_progress'"

abbrev pub unsettled_index : Index
unsettled_index = key_index "ix_idempotency_keys_unsettled" "response_status IS NULL"

-- `upgrade`
abbrev pub upgrade_key_status : List Operation
upgrade_key_status =
    create_type idempotency_status
    ∷ add_column "idempotency_keys" status_column
    ∷ create_constraint "idempotency_keys" status_check
    ∷ drop_index "ix_idempotency_keys_unsettled"
    ∷ create_index in_progress_index
    ∷ []

-- `downgrade`
abbrev pub downgrade_key_status : List Operation
downgrade_key_status =
    drop_index "ix_idempotency_keys_in_progress"
    ∷ create_index unsettled_index
    ∷ drop_constraint "idempotency_keys" "completed_has_response"
    ∷ drop_column "idempotency_keys" "status"
    ∷ drop_type "idempotency_status"
    ∷ []
