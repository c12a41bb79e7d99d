-- ===== src/System/Refusals.antt =====
-- When `_claim_key` and tx1 of app/services/order_checkout.py refuse a request, and that they then
-- leave nothing behind.
use canals_assessment.Prelude.{◌≡◌, ◌≢◌, refl, sym, ap, Bool-cases, some, inl, inr, str_eq, String}
use canals_assessment.Domain.Enums.{IdempotencyStatus}
use canals_assessment.Domain.Values.{Point, Coordinates}
use canals_assessment.Domain.Errors.{Exception, DomainError}
use canals_assessment.Db.Rows.{Db, IdempotencyKey}
use canals_assessment.Db.Tx.{Result, ok, err, Env, is_ok, begin, commit_or_rollback, lift, ◌>>=◌}
use canals_assessment.Repositories.Idempotency.{claim, get}
use canals_assessment.Repositories.Idempotency.Claims.{stored, stored-present}
use canals_assessment.Services.Selection.{Geocoder}
use canals_assessment.Services.Checkout.{Request, Placed, claim_key, judge_status, open_order}
use canals_assessment.Services.Checkout.Once.{open_order-IsLocated, open_order-refused}
use canals_assessment.Services.Selection.{to_point}
use canals_assessment.Services.Checkout.{place}
use canals_assessment.System.Keys.{row_of}

-- A key whose row is not `failed` is refused, whatever the hash: nothing is written.
module _ (env : Env) (key hashed : String) where
  judge_status-refuses :
      (db : Db) (e : IdempotencyKey) (s : IdempotencyStatus)
      → s ≢ IdempotencyStatus.failed
      → (x : Exception) × (judge_status key e s db ≡ (err x, db))
  unfolding judge_status
  judge_status-refuses db e IdempotencyStatus.completed h = (_, refl)
  judge_status-refuses db e IdempotencyStatus.in_progress h = (_, refl)
  judge_status-refuses db e IdempotencyStatus.failed h = absurd (h refl)

  pub claim_key-refuses :
      (db : Db) (e : IdempotencyKey)
      → stored key db.idempotency_keys ≡ some e
      → e.status ≢ IdempotencyStatus.failed
      → (x : Exception) × (claim_key env key hashed db ≡ (err x, db))
  unfolding claim_key claim get
  claim_key-refuses db e found held = elim (Bool-cases (str_eq e.request_hash hashed)) [
    | inl same ↦
        let (x, no_claim) = judge_status-refuses db e e.status held in
        (x, rw (stored-present key db.idempotency_keys e found, found, same, no_claim) refl)
    | inr other ↦ (
      Exception.domain (DomainError.idempotency_key_reuse key),
      rw (stored-present key db.idempotency_keys e found, found, other) refl,
    )
  ]

module _ (env : Env) (geocode : Geocoder) (r : Request) where
  -- tx1 commits only on a key that has no row or a failed one.
  pub open_order-fresh :
      (db new : Db) (placed : Placed) (e : IdempotencyKey)
      → row_of r.idempotency_key db ≡ some e
      → e.status ≢ IdempotencyStatus.failed
      → open_order env geocode r db ≢ (ok placed, new)
  open_order-fresh db new placed e found held h =
      let (x, no_claim) = claim_key-refuses env r.idempotency_key r.request_hash db e found held in
      let raised =
        open_order-refused env geocode r db x
          (open_order-IsLocated env geocode r db (ap (λ (t : Result Placed × Db). is_ok t.0) h))
          no_claim in
      cc

-- tx1 that raises leaves nothing behind.
pub open_order-undone :
    (env : Env) (geocode : Geocoder) (r : Request) (db new : Db) (e : Exception)
    → open_order env geocode r db ≡ (err e, new)
    → new ≡ db
unfolding open_order begin
open_order-undone env geocode r db new e h = located (geocode r.address) h
  where
    rolled : (t : Result Placed × Db) → commit_or_rollback db t ≡ (err e, new) → new ≡ db
    rolled (ok p, mid) k = cc
    rolled (err x, mid) k = sym (ap (λ (t : Result Placed × Db). t.1) k)

    pointed :
        (p : Result Point)
        → (lift p >>= λ x. begin (place env geocode r x)) db ≡ (err e, new)
        → new ≡ db
    pointed (ok x) k = rolled (place env geocode r x db) k
    pointed (err x) k = sym (ap (λ (t : Result Placed × Db). t.1) k)

    located :
        (c : Result Coordinates)
        → (lift c >>= λ x. lift (to_point x) >>= λ y. begin (place env geocode r y)) db
          ≡ (err e, new)
        → new ≡ db
    located (ok c) k = pointed (to_point c) k
    located (err x) k = sym (ap (λ (t : Result Placed × Db). t.1) k)
