-- ===== src/Migrations/Reversible.antt =====
-- The downgrade of migrations/versions/0002_core_schema.py undoes its upgrade.
use mathlib.Core.List.{append_assoc}
use canals_assessment.Prelude.{
  String, ◌≡◌, refl, ap, ◌∙◌, sym, subst, true, false, not, ◌&&◌, some, List, [], ◌∷◌, ◌++◌, map,
  All, All-append, str_eq, eq_iff, Bool-cases, inl, inr,
}
use canals_assessment.Sql.{exists_row}
use canals_assessment.Migrations.{
  Schema, Table, Index, Operation, create_table, create_index, drop_table, apply, run, every,
  has_target, has_type, is_table, is_on, is_index,
}
use canals_assessment.Migrations.Core.Shared.{Block, block_operations}
use canals_assessment.Migrations.Core.{core_blocks, operations_of, upgrade_core, downgrade_core}
use canals_assessment.Migrations.Runs.{
  run-cons, run-append, run-step, run-after, select_rows-others, select_rows-gone, exists_row-All,
}
use canals_assessment.Migrations.Closed.{
  IsClosed, none_refers, none_on, targets-more, indexed-more, on-there,
}

-- A schema with more tables and indexes in front.
abbrev with_more : Table → List Index → Schema → Schema
with_more t added s = record s { tables = t ∷ s.tables; indexes = added ++ s.indexes }

created :
    (t : Table) (s m : Schema)
    → apply (create_table t) s ≡ some m
    → (exists_row (is_table t.name) s.tables ≡ false)
      × (every (has_target (t ∷ s.tables)) t.constraints ≡ true)
      × (m ≡ record s { tables = t ∷ s.tables })
unfolding apply
created t s m h = elim (Bool-cases (exists_row (is_table t.name) s.tables)) [
  | inl taken ↦ let k = rw taken at h in cc
  | inr fresh ↦ elim (Bool-cases (every (has_target (t ∷ s.tables)) t.constraints)) [
    | inr missing ↦ let k = rw (fresh, missing) at h in cc
    | inl found ↦ elim (Bool-cases (every (has_type s) t.columns)) [
      | inr missing ↦ let k = rw (fresh, found, missing) at h in cc
      | inl typed ↦ let k = rw (fresh, found, typed) at h in (fresh, found, cc)
    ]
  ]
]

indexed_one :
    (i : Index) (s m : Schema)
    → apply (create_index i) s ≡ some m
    → m ≡ record s { indexes = i ∷ s.indexes }
unfolding apply
indexed_one i s m h =
    elim (Bool-cases
      (exists_row (is_table i.table) s.tables && not (exists_row (is_index i.name) s.indexes))) [
        | inr refused ↦ let k = rw refused at h in cc
        | inl fine ↦ let k = rw fine at h in cc
      ]

-- Indexes that are made on one table stand in front.
indexed_all :
    (n : String) (is : List Index) (s m : Schema)
    → All (λ i. is_on n i ≡ true) is
    → run (map create_index is) s ≡ some m
    → (added : List Index) × All (λ i. is_on n i ≡ true) added
      × (m ≡ record s { indexes = added ++ s.indexes })
unfolding run
indexed_all n [] s m on h = ([], tt, cc)
indexed_all n (i ∷ is) s m on h =
    let (s', first, rest) = run-cons (create_index i) (map create_index is) s m h in
    let one = indexed_one i s s' first in
    let (added, on', more) = indexed_all n is s' m on.1 rest in
    (
      added ++ i ∷ [],
      All-append (λ i. is_on n i ≡ true) added (i ∷ []) on' (on.0, tt),
      more
          ∙ ap (λ (x : Schema). record x { indexes = added ++ x.indexes }) one
          ∙ ap (λ l. record s { indexes = l }) (sym (append_assoc added (i ∷ []) s.indexes)),
    )

-- The indexes of a block are on its table.
abbrev pub IsOwn : Block → Type 0
IsOwn b = All (λ i. is_on b.table.name i ≡ true) b.indexes

-- What a block makes of a schema.
record Makes (b : Block) (s m : Schema) : Type 0 where
  added : List Index
  on_table : All (λ i. is_on b.table.name i ≡ true) added
  fresh : exists_row (is_table b.table.name) s.tables ≡ false
  found : every (has_target (b.table ∷ s.tables)) b.table.constraints ≡ true
  made : m ≡ with_more b.table added s

block-Makes :
    (b : Block) (s m : Schema) → IsOwn b → run (block_operations b) s ≡ some m → Makes b s m
block-Makes b s m own h =
    let (s', first, rest) = run-cons (create_table b.table) (map create_index b.indexes) s m h in
    let (fresh, found, is_so) = created b.table s s' first in
    let (added, on, more) = indexed_all b.table.name b.indexes s' m own rest in
    record {
      added = added;
      on_table = on;
      fresh = fresh;
      found = found;
      made = more ∙ ap (λ (x : Schema). record x { indexes = added ++ x.indexes }) is_so;
    }

-- Dropping the table of a block takes its indexes along, and nothing else.
dropped :
    (b : Block) (s m : Schema)
    → IsClosed s
    → Makes b s m
    → apply (drop_table b.table.name) m ≡ some s
unfolding apply
dropped b s m closed k =
    let n = b.table.name in
    let same : str_eq n n ≡ true = (eq_iff n n).1 refl in
    rw
      (
        k.made,
        same,
        none_refers n s.tables k.fresh s.tables closed.targets,
        select_rows-others (is_table n) s.tables (exists_row-All (is_table n) s.tables k.fresh),
        select_rows-gone (is_on n) k.added s.indexes k.on_table
            (none_on n s.tables k.fresh s.indexes closed.indexed),
      )
      refl

Makes-IsClosed : (b : Block) (s m : Schema) → IsClosed s → Makes b s m → IsClosed m
Makes-IsClosed b s m closed k = subst IsClosed (sym k.made) (record {
  targets = (k.found, targets-more b.table s.tables s.tables closed.targets);
  indexed =
      All-append (λ i. exists_row (is_table i.table) (b.table ∷ s.tables) ≡ true) k.added s.indexes
        (on-there b.table s.tables k.added k.on_table)
        (indexed-more b.table s.tables s.indexes closed.indexed);
})

-- The tables of the blocks, the last one dropped first.
abbrev drops : List Block → List Operation
drops [] = []
drops (b ∷ bs) = drops bs ++ drop_table b.table.name ∷ []

undone :
    (bs : List Block) (s t : Schema)
    → All IsOwn bs
    → IsClosed s
    → run (operations_of bs) s ≡ some t
    → run (drops bs) t ≡ some s
unfolding run
undone [] s t own closed h = sym h
undone (b ∷ bs) s t own closed h =
    let (m, first, rest) = run-append (block_operations b) (operations_of bs) s t h in
    let k = block-Makes b s m own.0 first in
    run-after (drops bs) (drop_table b.table.name ∷ []) t m
      (undone bs m t own.1 (Makes-IsClosed b s m closed k) rest)
    ∙ run-step (drop_table b.table.name) [] m s (dropped b s m closed k)

core-IsOwn : All IsOwn core_blocks
core-IsOwn = (
  (refl, tt),
  (
    tt,
    (
      (refl, tt),
      (
        (refl, (refl, tt)),
        (
          (refl, tt),
          (
            (refl, (refl, tt)),
            (
              tt,
              (
                (refl, tt),
                ((refl, (refl, (refl, tt))), ((refl, tt), ((refl, (refl, tt)), ((refl, tt), tt)))),
              ),
            ),
          ),
        ),
      ),
    ),
  ),
)

-- Whatever else is in the schema: if every foreign key and every index in it has its table, and the
-- upgrade of revision 0002 goes through, then its downgrade goes through and gives back the very
-- schema that was there before, tables, types and indexes.
pub downgrade-upgrade_core :
    (s t : Schema) → IsClosed s → run upgrade_core s ≡ some t → run downgrade_core t ≡ some s
downgrade-upgrade_core s t closed h = undone core_blocks s t core-IsOwn closed h
