-- ===== src/Migrations/Core/Shared.antt =====
-- The columns that every table has, and a table with its indexes: the helpers of
-- migrations/versions/0002_core_schema.py.
use canals_assessment.Prelude.{List, map, ◌∷◌}
use canals_assessment.Migrations.{
  Column, Table, Index, Operation, defaulted, uuid, timestamp, create_table, create_index,
}

-- `_id`
abbrev pub id_column : Column
id_column = defaulted "id" uuid "gen_random_uuid()"

-- `_created_at`
abbrev pub created_at : Column
created_at = defaulted "created_at" timestamp "now()"

-- `_updated_at`
abbrev pub updated_at : Column
updated_at = defaulted "updated_at" timestamp "now()"

-- A call of `op.create_table` and the calls of `op.create_index` that follow it.
pub record Block : Type 0 where
  pub table : Table
  pub indexes : List Index

abbrev pub block_operations : Block → List Operation
block_operations b = create_table b.table ∷ map create_index b.indexes
