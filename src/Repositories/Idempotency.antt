-- ===== src/Repositories/Idempotency.antt =====
-- app/repositories/idempotency.py. `request_hash` is SHA-256 of the serialised request: a text that
-- the caller gives.
pub mod Claims
use canals_assessment.Prelude.{
  ℕ, String, Bool, true, false, ◌&&◌, Option, none, some, List, [], ◌∷◌, ◌++◌, map, head?, str_eq,
  is_some, if◌then◌else◌,
}
use canals_assessment.Domain.Enums.{IdempotencyStatus, idempotency_status_eq}
use canals_assessment.Domain.Values.{OrderResponse}
use canals_assessment.Sql.{update_rows, select_rows, exists_row}
use canals_assessment.Db.Rows.{Db, IdempotencyKey}
use canals_assessment.Db.Tx.{Result, Tx, pure, gets, modify, ◌>>=◌, ◌>>◌, Env, draw}

abbrev pub has_key : String → IdempotencyKey → Bool
has_key key k = str_eq k.key key

abbrev pub add_key : IdempotencyKey → Db → Db
add_key k db = record db { idempotency_keys = db.idempotency_keys ++ k ∷ [] }

-- The INSERT of `claim`, where no row has the key.
unfoldable pub insert_key : Env → String → String → Tx (Option ℕ)
insert_key env key hashed = do
  now ← gets (λ db. db.now)
  id ← draw env
  modify (
      add_key (record {
        id = id;
        key = key;
        request_hash = hashed;
        status = IdempotencyStatus.in_progress;
        response_body = none;
        response_status = none;
        order_id = none;
        created_at = now;
        updated_at = now;
      }))
  pure (some id)

-- INSERT … ON CONFLICT DO NOTHING RETURNING id.
unfoldable pub claim : Env → String → String → Tx (Option ℕ)
unfolding insert_key
claim env key hashed = do
  taken ← gets (λ db. exists_row (has_key key) db.idempotency_keys)
  if taken then pure none else insert_key env key hashed

unfoldable pub get : String → Tx (Option IdempotencyKey)
get key = gets (λ db. head? (select_rows (has_key key) db.idempotency_keys))

abbrev pub is_failed_key : String → IdempotencyKey → Bool
is_failed_key key k = has_key key k && idempotency_status_eq k.status IdempotencyStatus.failed

abbrev pub reopen : ℕ → IdempotencyKey → IdempotencyKey
reopen now k = record k {
  status = IdempotencyStatus.in_progress;
  response_body = none;
  response_status = none;
  updated_at = now;
}

-- The compare-and-swap from `failed` back to `in_progress`.
unfoldable pub reclaim_failed : String → Tx Bool
reclaim_failed key db = (
  Result.ok
      (is_some (head? (map (λ k. k.id) (select_rows (is_failed_key key) db.idempotency_keys)))),
  record db {
    idempotency_keys = update_rows (is_failed_key key) (reopen db.now) db.idempotency_keys;
  },
)

abbrev pub complete_key : OrderResponse → ℕ → ℕ → ℕ → IdempotencyKey → IdempotencyKey
complete_key body status order_id now k = record k {
  status = IdempotencyStatus.completed;
  response_body = some body;
  response_status = some status;
  order_id = some order_id;
  updated_at = now;
}

unfoldable pub settle_completed : String → OrderResponse → ℕ → ℕ → Tx (Unit {0})
settle_completed key response_body response_status order_id = modify λ db. record db {
  idempotency_keys =
      update_rows (has_key key) (complete_key response_body response_status order_id db.now)
        db.idempotency_keys;
}

abbrev pub fail_key : Option ℕ → ℕ → IdempotencyKey → IdempotencyKey
fail_key order_id now k = record k {
  status = IdempotencyStatus.failed;
  response_body = none;
  response_status = none;
  order_id = order_id;
  updated_at = now;
}

unfoldable pub mark_failed : String → Option ℕ → Tx (Unit {0})
mark_failed key order_id = modify λ db. record db {
  idempotency_keys = update_rows (has_key key) (fail_key order_id db.now) db.idempotency_keys;
}
