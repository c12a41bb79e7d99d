-- ===== src/Migrations.antt =====
-- migrations/versions: the operations of Alembic as data, and what PostgreSQL does to a schema for
-- them, as far as they can be refused: names that are taken or missing, foreign keys without their
-- target, and types in use. A CHECK is a text that is not read: what dropping a column does to a CHECK
-- over it is left out.
pub mod Extensions
pub mod Core
pub mod Runs
pub mod Closed
pub mod Reversible
pub mod KeyStatus
pub mod Status
use canals_assessment.Prelude.{
  ℕ, String, Bool, true, false, not, ◌&&◌, ◌||◌, Option, none, some, List, [], ◌∷◌, ◌++◌, map,
  str_eq, if◌then◌else◌,
}
use canals_assessment.Sql.{select_rows, exists_row, update_rows}

pub data ColumnType : Type 0 where
  string big_integer integer boolean timestamp uuid jsonb geography_point : ColumnType
  string_of : ℕ → ColumnType
  enum : String → ColumnType

pub record Column : Type 0 where
  pub name : String
  pub type : ColumnType
  pub server_default : Option String
  pub computed : Option String
  pub nullable : Bool

-- `sa.Column(name, type, nullable=False)`
abbrev pub column : String → ColumnType → Column
column name type = record {
  name = name;
  type = type;
  server_default = none;
  computed = none;
  nullable = false;
}

-- `sa.Column(name, type, nullable=True)`
abbrev pub optional : String → ColumnType → Column
optional name type = record (column name type) { nullable = true }

-- `sa.Column(name, type, server_default=…, nullable=False)`
abbrev pub defaulted : String → ColumnType → String → Column
defaulted name type text = record (column name type) { server_default = some text }

pub data Constraint : Type 0 where
  primary_key : List String → String → Constraint
  unique : List String → String → Constraint
  foreign_key : List String → String → List String → String → String → Constraint
  check : String → String → Constraint

pub record Table : Type 0 where
  pub name : String
  pub columns : List Column
  pub constraints : List Constraint

pub record Index : Type 0 where
  pub name : String
  pub table : String
  pub keys : List String
  pub is_unique : Bool
  pub using : String
  pub predicate : Option String

pub record EnumType : Type 0 where
  pub name : String
  pub values : List String

-- The tables and indexes with the last created first.
pub record Schema : Type 0 where
  pub extensions : List String
  pub types : List EnumType
  pub tables : List Table
  pub indexes : List Index

pub data Operation : Type 0 where
  create_extension : String → Operation
  create_type : EnumType → Operation
  drop_type : String → Operation
  create_table : Table → Operation
  drop_table : String → Operation
  create_index : Index → Operation
  drop_index : String → Operation
  add_column : String → Column → Operation
  drop_column : String → String → Operation
  create_constraint : String → Constraint → Operation
  drop_constraint : String → String → Operation

abbrev pub is_table : String → Table → Bool
is_table n t = str_eq t.name n

abbrev pub is_type : String → EnumType → Bool
is_type n t = str_eq t.name n

abbrev pub is_index : String → Index → Bool
is_index n i = str_eq i.name n

-- Whether an index is on the table.
abbrev pub is_on : String → Index → Bool
is_on n i = str_eq i.table n

abbrev pub text_in : String → List String → Bool
text_in s = exists_row (λ t. str_eq t s)

-- Whether a constraint refers to the table.
abbrev pub targets : String → Constraint → Bool
targets n (Constraint.foreign_key columns table keys name rule) = str_eq table n
targets n _ = false

abbrev pub refers_to : String → Table → Bool
refers_to n t = exists_row (targets n) t.constraints

-- Whether the constraint's target is among the tables.
abbrev pub has_target : List Table → Constraint → Bool
has_target tables (Constraint.foreign_key columns table keys name rule) =
    exists_row (is_table table) tables
has_target tables _ = true

-- Whether the column's type is there.
abbrev pub has_type : Schema → Column → Bool
has_type s c = elim c.type [
  | ColumnType.enum n ↦ exists_row (is_type n) s.types
  | ColumnType.geography_point ↦ text_in "postgis" s.extensions
  | _ ↦ true
]

abbrev pub uses_type : String → Column → Bool
uses_type n c = elim c.type [ ColumnType.enum m ↦ str_eq m n | _ ↦ false ]

-- Whether no element fails a test.
abbrev pub every {ℓ} : {A : Type ℓ} → (A → Bool) → List A → Bool
every test [] = true
every test (x ∷ xs) = test x && every test xs

abbrev pub is_column : String → Column → Bool
is_column n c = str_eq c.name n

abbrev pub constraint_name : Constraint → String
constraint_name (Constraint.primary_key columns name) = name
constraint_name (Constraint.unique columns name) = name
constraint_name (Constraint.foreign_key columns table keys name rule) = name
constraint_name (Constraint.check text name) = name

abbrev pub is_named : String → Constraint → Bool
is_named n c = str_eq (constraint_name c) n

-- Whether the table is there and has the column.
abbrev pub has_column : String → String → List Table → Bool
has_column n c = exists_row (λ t. is_table n t && exists_row (is_column c) t.columns)

abbrev pub has_constraint : String → String → List Table → Bool
has_constraint n c = exists_row (λ t. is_table n t && exists_row (is_named c) t.constraints)

-- Whether an index is on a column of the table.
abbrev pub is_over : String → String → Index → Bool
is_over n c i = is_on n i && text_in c i.keys

abbrev pub with_column : Column → Table → Table
with_column c t = record t { columns = t.columns ++ c ∷ [] }

abbrev pub without_column : String → Table → Table
without_column n t = record t { columns = select_rows (λ c. not (is_column n c)) t.columns }

abbrev pub with_constraint : Constraint → Table → Table
with_constraint c t = record t { constraints = t.constraints ++ c ∷ [] }

abbrev pub without_constraint : String → Table → Table
without_constraint n t = record t {
  constraints = select_rows (λ c. not (is_named n c)) t.constraints;
}

-- One operation; `none` is an error of PostgreSQL.
unfoldable pub apply : Operation → Schema → Option Schema
apply (Operation.create_extension n) s =
    if text_in n s.extensions then some s else some (record s { extensions = n ∷ s.extensions })
apply (Operation.create_type t) s =
    if exists_row (is_type t.name) s.types then none else some (record s { types = t ∷ s.types })
apply (Operation.drop_type n) s =
    if exists_row (λ (t : Table). exists_row (uses_type n) t.columns) s.tables
    then none
    else some (record s { types = select_rows (λ t. not (is_type n t)) s.types })
apply (Operation.create_table t) s =
    if exists_row (is_table t.name) s.tables
    then none
    else if every (has_target (t ∷ s.tables)) t.constraints && every (has_type s) t.columns
    then some (record s { tables = t ∷ s.tables })
    else none
apply (Operation.drop_table n) s =
    if not (exists_row (is_table n) s.tables)
    then none
    else if exists_row (λ t. not (is_table n t) && refers_to n t) s.tables
    then none
    else some (record s {
      tables = select_rows (λ t. not (is_table n t)) s.tables;
      indexes = select_rows (λ i. not (is_on n i)) s.indexes;
    })
apply (Operation.create_index i) s =
    if exists_row (is_table i.table) s.tables && not (exists_row (is_index i.name) s.indexes)
    then some (record s { indexes = i ∷ s.indexes })
    else none
apply (Operation.drop_index n) s =
    if exists_row (is_index n) s.indexes
    then some (record s { indexes = select_rows (λ i. not (is_index n i)) s.indexes })
    else none
apply (Operation.add_column n c) s =
    if exists_row (is_table n) s.tables && (not (has_column n c.name s.tables) && has_type s c)
    then some (record s { tables = update_rows (is_table n) (with_column c) s.tables })
    else none
apply (Operation.drop_column n c) s =
    if has_column n c s.tables
    then some (record s {
      tables = update_rows (is_table n) (without_column c) s.tables;
      indexes = select_rows (λ i. not (is_over n c i)) s.indexes;
    })
    else none
apply (Operation.create_constraint n c) s =
    if exists_row (is_table n) s.tables && not (has_constraint n (constraint_name c) s.tables)
    then some (record s { tables = update_rows (is_table n) (with_constraint c) s.tables })
    else none
apply (Operation.drop_constraint n c) s =
    if has_constraint n c s.tables
    then some (record s { tables = update_rows (is_table n) (without_constraint c) s.tables })
    else none

abbrev pub and_then : Option Schema → (Schema → Option Schema) → Option Schema
and_then none rest = none
and_then (some s) rest = rest s

-- A revision, up to the first error.
unfoldable pub run : List Operation → Schema → Option Schema
run [] s = some s
run (o ∷ os) s = and_then (apply o s) (run os)
