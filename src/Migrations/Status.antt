-- ===== src/Migrations/Status.antt =====
-- migrations/versions/0003_idempotency_status.py: what its upgrade makes of the rows of
-- idempotency_keys. Its operations on the schema are in Migrations/KeyStatus.
use canals_assessment.Prelude.{
  ℕ, String, ◌≡◌, refl, ap, sym, ◌∙◌, true, Option, none, some, List, [], ◌∷◌, map, head?, str_eq,
  arith, if◌then◌else◌,
}
use canals_assessment.Domain.Enums.{IdempotencyStatus}
use canals_assessment.Domain.Values.{OrderResponse}
use canals_assessment.Domain.Errors.{Exception, DomainError}
use canals_assessment.Sql.{select_rows}
use canals_assessment.Db.Rows.{Db, IdempotencyKey}
use canals_assessment.Db.Tx.{err, Env}
use canals_assessment.Migrations.{every}
use canals_assessment.Repositories.Checks.{completed_has_response}
use canals_assessment.Repositories.Idempotency.Claims.{stored}
use canals_assessment.Services.Checkout.{claim_key}
use canals_assessment.Services.Checkout.Replay.{claim_in_progress}

-- A row at revision 0002, which has no status.
pub record KeyRow : Type 0 where
  pub id : ℕ
  pub key : String
  pub request_hash : String
  pub response_body : Option OrderResponse
  pub response_status : Option ℕ
  pub order_id : Option ℕ
  pub created_at : ℕ
  pub updated_at : ℕ

-- `op.add_column`, with its server default.
abbrev pub add_status : KeyRow → IdempotencyKey
add_status r = record {
  id = r.id;
  key = r.key;
  request_hash = r.request_hash;
  status = IdempotencyStatus.in_progress;
  response_body = r.response_body;
  response_status = r.response_status;
  order_id = r.order_id;
  created_at = r.created_at;
  updated_at = r.updated_at;
}

-- `upgrade`, on the rows: the new CHECK is tested on every row; `none` is its refusal.
unfoldable pub upgrade_status : List KeyRow → Option (List IdempotencyKey)
upgrade_status rows =
    if every completed_has_response (map add_status rows) then some (map add_status rows) else none

every-added : (rows : List KeyRow) → every completed_has_response (map add_status rows) ≡ true
every-added [] = refl
every-added (r ∷ rs) = every-added rs

upgrade_status_lem : (rows : List KeyRow) → upgrade_status rows ≡ some (map add_status rows)
unfolding upgrade_status
upgrade_status_lem rows = rw (every-added rows) refl

-- The row of a key at revision 0002.
abbrev pub row_at : String → List KeyRow → Option KeyRow
row_at key rows = head? (select_rows (λ r. str_eq r.key key) rows)

stored-added :
    (key : String) (rows : List KeyRow) (r : KeyRow)
    → row_at key rows ≡ some r
    → stored key (map add_status rows) ≡ some (add_status r)
stored-added key [] r h = cc
stored-added key (x ∷ xs) r h = ground (arith, h, stored-added key xs r)

-- After the upgrade of revision 0003, a request whose key stood in the table before is refused as in
-- progress, whatever response the key had stored: a key that was settled is not replayed any more.
pub upgraded_refuses :
    (env : Env) (rows : List KeyRow) (db : Db) (key hashed : String) (r : KeyRow)
    → row_at key rows ≡ some r
    → str_eq r.request_hash hashed ≡ true
    → upgrade_status rows ≡ some db.idempotency_keys
    → claim_key env key hashed db
      ≡ (err (Exception.domain (DomainError.idempotency_in_progress key)), db)
upgraded_refuses env rows db key hashed r found same upgraded =
    let e = sym (upgrade_status_lem rows) ∙ upgraded in
    let keys : map add_status rows ≡ db.idempotency_keys = cc in
    claim_in_progress env key hashed db (add_status r)
      (ap (stored key) (sym keys) ∙ stored-added key rows r found) same refl
