-- ===== src/Repositories/Idempotency/Claims.antt =====
-- The row that a key's lookup finds, under the writes of app/repositories/idempotency.py.
use canals_assessment.Prelude.{
  String, ◌≡◌, refl, ◌≢◌, Bool, true, false, Option, some, List, [], ◌∷◌, ◌++◌, arith, head?,
  if◌then◌else◌, Bool-cases, inl, inr, eq_iff,
}
use canals_assessment.Domain.Enums.{IdempotencyStatus}
use canals_assessment.Sql.{update_rows, select_rows, exists_row}
use canals_assessment.Db.Rows.{IdempotencyKey}
use canals_assessment.Repositories.Idempotency.{has_key, is_failed_key}

-- What `get` returns for a key.
abbrev pub stored : String → List IdempotencyKey → Option IdempotencyKey
stored key rows = head? (select_rows (has_key key) rows)

pub stored-absent :
    (key : String) (rows : List IdempotencyKey)
    → exists_row (has_key key) rows ≡ false
    → select_rows (has_key key) rows ≡ []
stored-absent key [] h = refl
stored-absent key (r ∷ rs) h = ground (arith, stored-absent key rs)

pub stored-present :
    (key : String) (rows : List IdempotencyKey) (e : IdempotencyKey)
    → stored key rows ≡ some e
    → exists_row (has_key key) rows ≡ true
stored-present key [] e h = cc
stored-present key (r ∷ rs) e h = ground (arith, stored-present key rs e)

pub stored-exists :
    (key : String) (rows : List IdempotencyKey)
    → exists_row (has_key key) rows ≡ true
    → (e : IdempotencyKey) × (stored key rows ≡ some e)
stored-exists key [] h = cc
stored-exists key (r ∷ rs) h = elim (Bool-cases (has_key key r)) [
  | inl t ↦ (r, rw t)
  | inr f ↦ rw f (stored-exists key rs (rw f at h))
]

-- A row inserted for an absent key is the one that the lookup finds.
pub stored-insert :
    (rows : List IdempotencyKey) (new : IdempotencyKey)
    → exists_row (has_key new.key) rows ≡ false
    → stored new.key (rows ++ new ∷ []) ≡ some new
stored-insert [] new h = ground (arith, eq_iff new.key new.key)
stored-insert (r ∷ rs) new h = ground (arith, stored-insert rs new)

-- An UPDATE that leaves the keys alone changes the row that the lookup finds as it does any other.
pub stored-update_rows :
    (key : String) (test : IdempotencyKey → Bool) (set : IdempotencyKey → IdempotencyKey)
    (rows : List IdempotencyKey) (e : IdempotencyKey)
    → ((r : IdempotencyKey) → (set r).key ≡ r.key)
    → stored key rows ≡ some e
    → stored key (update_rows test set rows) ≡ some (if test e then set e else e)
stored-update_rows key test set [] e k h = cc
stored-update_rows key test set (r ∷ rs) e k h =
    ground (arith, k r, stored-update_rows key test set rs e k)

pub stored-has_key :
    (key : String) (rows : List IdempotencyKey) (e : IdempotencyKey)
    → stored key rows ≡ some e
    → has_key key e ≡ true
stored-has_key key [] e h = cc
stored-has_key key (r ∷ rs) e h = ground (arith, stored-has_key key rs e)

-- The test of the compare-and-swap selects a row as soon as the found one passes it.
pub failed_selected :
    (key : String) (rows : List IdempotencyKey) (e : IdempotencyKey)
    → stored key rows ≡ some e
    → e.status ≡ IdempotencyStatus.failed
    → select_rows (is_failed_key key) rows ≢ []
failed_selected key [] e h s = cc
failed_selected key (r ∷ rs) e h s = ground (arith, failed_selected key rs e)
