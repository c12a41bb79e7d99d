-- ===== src/Services/Checkout/Replay.antt =====
-- A completed key is replayed, an unresolved one is refused: `_claim_key`, `_complete` and `checkout`
-- of app/services/order_checkout.py.
use canals_assessment.Prelude.{
  String, ◌≡◌, refl, ap, ◌∙◌, true, false, some, Bool-cases, inl, inr, str_eq, eq_iff,
}
use canals_assessment.Domain.Enums.{IdempotencyStatus}
use canals_assessment.Domain.Values.{OrderResponse, PaymentResult, Point, Coordinates}
use canals_assessment.Domain.Errors.{Exception, DomainError}
use canals_assessment.Sql.{update_rows, select_rows, exists_row}
use canals_assessment.Sql.Laws.{List-cases}
use canals_assessment.Db.Rows.{Db, IdempotencyKey}
use canals_assessment.Db.Tx.{
  Result, ok, err, Tx, begin, commit_or_rollback, lift, Ends, Ends-bind, Env, ◌>>=◌,
}
use canals_assessment.Db.Frame.{Frames}
use canals_assessment.Repositories.Idempotency.{
  has_key, is_failed_key, reopen, claim, get, reclaim_failed, settle_completed, complete_key,
}
use canals_assessment.Repositories.Idempotency.Claims.{
  stored, stored-present, stored-exists, stored-insert, stored-update_rows, stored-has_key,
  failed_selected,
}
use canals_assessment.Repositories.Frames.{keys}
use canals_assessment.Services.Frames.{fulfil-keys, place_claimed-keys}
use canals_assessment.Services.Selection.{Geocoder, to_point}
use canals_assessment.Services.Checkout.{
  Request, Placed, claim_key, place, open_order, place_claimed, fulfil, complete,
}

-- The row of a key that this request owns, or has owned: it stands under the request's hash.
pub record IsOwned (key hashed : String) (status : IdempotencyStatus) (db : Db) : Type 0 where
  pub row : IdempotencyKey
  pub found : stored key db.idempotency_keys ≡ some row
  pub same_hash : str_eq row.request_hash hashed ≡ true
  pub in_status : row.status ≡ status

module _ (env : Env) (key hashed : String) where
  claim_absent :
      (db : Db)
      → exists_row (has_key key) db.idempotency_keys ≡ false
      → Ends
          (λ u new. IsOwned key hashed IdempotencyStatus.in_progress new)
          (λ e. Unit)
          (claim_key env key hashed db)
  unfolding claim_key claim
  claim_absent db h = rw h (record {
    row = _;
    found = stored-insert db.idempotency_keys _ h;
    same_hash = (eq_iff hashed hashed).1 refl;
    in_status = refl;
  })

  reopened :
      (db : Db) (e : IdempotencyKey)
      → stored key db.idempotency_keys ≡ some e
      → str_eq e.request_hash hashed ≡ true
      → e.status ≡ IdempotencyStatus.failed
      → IsOwned key hashed IdempotencyStatus.in_progress (record db {
        idempotency_keys = update_rows (is_failed_key key) (reopen db.now) db.idempotency_keys;
      })
  reopened db e found same status = record {
    row = reopen db.now e;
    found =
        stored-update_rows key (is_failed_key key) (reopen db.now) db.idempotency_keys e (λ r. refl)
          found
        ∙ rw (stored-has_key key db.idempotency_keys e found, status);
    same_hash = same;
    in_status = refl;
  }

  claim_existing :
      (db : Db) (e : IdempotencyKey) (status : IdempotencyStatus)
      → exists_row (has_key key) db.idempotency_keys ≡ true
      → stored key db.idempotency_keys ≡ some e
      → str_eq e.request_hash hashed ≡ true
      → e.status ≡ status
      → Ends
          (λ u new. IsOwned key hashed IdempotencyStatus.in_progress new)
          (λ x. Unit)
          (claim_key env key hashed db)
  unfolding claim_key claim get reclaim_failed
  claim_existing db e IdempotencyStatus.in_progress taken found same s =
      rw (taken, found, same, s) tt
  claim_existing db e IdempotencyStatus.completed taken found same s = rw (taken, found, same, s) tt
  claim_existing db e IdempotencyStatus.failed taken found same s =
      elim (List-cases (select_rows (is_failed_key key) db.idempotency_keys)) [
        | inl nothing ↦ absurd (failed_selected key db.idempotency_keys e found s nothing)
        | inr (r, rest, won) ↦ rw (taken, found, same, s, won) (reopened db e found same s)
      ]

  claim_taken :
      (db : Db) (e : IdempotencyKey)
      → exists_row (has_key key) db.idempotency_keys ≡ true
      → stored key db.idempotency_keys ≡ some e
      → Ends
          (λ u new. IsOwned key hashed IdempotencyStatus.in_progress new)
          (λ x. Unit)
          (claim_key env key hashed db)
  unfolding claim_key claim get
  claim_taken db e taken found = elim (Bool-cases (str_eq e.request_hash hashed)) [
    | inl same ↦ claim_existing db e e.status taken found same refl
    | inr other ↦ rw (taken, found, other) tt
  ]

  -- A claim that succeeds leaves the key `in_progress` under the request's hash.
  pub claim_key-IsOwned :
      (db : Db)
      → Ends
          (λ u new. IsOwned key hashed IdempotencyStatus.in_progress new)
          (λ e. Unit)
          (claim_key env key hashed db)
  claim_key-IsOwned db = elim (Bool-cases (exists_row (has_key key) db.idempotency_keys)) [
    | inr absent ↦ claim_absent db absent
    | inl taken ↦
        let (e, found) = stored-exists key db.idempotency_keys taken in claim_taken db e taken found
  ]

  -- A key whose row stands under this hash is replayed if it is completed.
  pub claim_completed :
      (db : Db) (e : IdempotencyKey) (body : OrderResponse)
      → stored key db.idempotency_keys ≡ some e
      → str_eq e.request_hash hashed ≡ true
      → e.status ≡ IdempotencyStatus.completed
      → e.response_body ≡ some body
      → e.response_status ≡ some 201
      → claim_key env key hashed db ≡ (err (Exception.replayed (some body) 201), db)
  unfolding claim_key claim get
  claim_completed db e body found same s b r =
      rw (stored-present key db.idempotency_keys e found, found, same, s, b, r)

  -- And refused if it is in progress.
  pub claim_in_progress :
      (db : Db) (e : IdempotencyKey)
      → stored key db.idempotency_keys ≡ some e
      → str_eq e.request_hash hashed ≡ true
      → e.status ≡ IdempotencyStatus.in_progress
      → claim_key env key hashed db
        ≡ (err (Exception.domain (DomainError.idempotency_in_progress key)), db)
  unfolding claim_key claim get
  claim_in_progress db e found same s =
      rw (stored-present key db.idempotency_keys e found, found, same, s)

module _ (key hashed : String) (status : IdempotencyStatus) where
  IsOwned-keys :
      (db new : Db)
      → keys new ≡ keys db
      → IsOwned key hashed status db
      → IsOwned key hashed status new
  IsOwned-keys db new same o = record {
    row = o.row;
    found = ap (stored key) same ∙ o.found;
    same_hash = o.same_hash;
    in_status = o.in_status;
  }

  IsOwned-Ends :
      {A : Type 0} (db : Db) (r : Result A × Db)
      → keys r.1 ≡ keys db
      → IsOwned key hashed status db
      → Ends (λ a new. IsOwned key hashed status new) (λ e. Unit) r
  IsOwned-Ends db (ok a, new) same o = IsOwned-keys db new same o
  IsOwned-Ends db (err e, new) same o = tt

  -- Code that leaves the keys alone leaves the owner.
  IsOwned-Frames :
      {A : Type 0} (m : Tx A) (db : Db)
      → Frames keys m
      → IsOwned key hashed status db
      → Ends (λ a new. IsOwned key hashed status new) (λ e. Unit) (m db)
  IsOwned-Frames m db f o = IsOwned-Ends db (m db) (f.at db) o

pub begin-Ends :
    {A : Type 0} (P : A → Db → Type 0) (m : Tx A) (db : Db)
    → Ends P (λ e. Unit) (m db)
    → Ends P (λ e. Unit) (begin m db)
unfolding begin
begin-Ends P m db h = go (m db) h
  where
    go : (r : Result _ × Db) → Ends P (λ e. Unit) r → Ends P (λ e. Unit) (commit_or_rollback db r)
    go (ok a, new) h = h
    go (err e, new) h = tt

module _ (env : Env) (geocode : Geocoder) (r : Request) where
  abbrev Owned : Db → Type 0
  Owned = IsOwned r.idempotency_key r.request_hash IdempotencyStatus.in_progress

  place-IsOwned :
      (point : Point) (db : Db)
      → Ends (λ p new. Owned new) (λ e. Unit) (place env geocode r point db)
  unfolding place
  place-IsOwned point db =
      Ends-bind (λ u new. Owned new) (λ p new. Owned new) (λ e. Unit)
        (claim_key env r.idempotency_key r.request_hash) _ db
        (claim_key-IsOwned env r.idempotency_key r.request_hash db)
        λ u mid o.
          IsOwned-Frames r.idempotency_key r.request_hash IdempotencyStatus.in_progress
            (place_claimed env geocode r point) mid (place_claimed-keys env geocode r point) o

  -- tx1 leaves the key in the hands of this request.
  pub open_order-IsOwned :
      (db : Db) → Ends (λ p new. Owned new) (λ e. Unit) (open_order env geocode r db)
  unfolding open_order
  open_order-IsOwned db = located (geocode r.address)
    where
      pointed :
          (p : Result Point)
          → Ends
              (λ p new. Owned new)
              (λ e. Unit)
              ((lift p >>= λ x. begin (place env geocode r x)) db)
      pointed (ok x) =
          begin-Ends (λ p new. Owned new) (place env geocode r x) db (place-IsOwned x db)
      pointed (err e) = tt

      located :
          (c : Result Coordinates)
          → Ends
              (λ p new. Owned new)
              (λ e. Unit)
              ((lift c >>= λ x. lift (to_point x) >>= λ y. begin (place env geocode r y)) db)
      located (ok c) = pointed (to_point c)
      located (err e) = tt

-- A key whose stored response a retry of the same request gets.
pub record IsReplayable (key hashed : String) (body : OrderResponse) (db : Db) : Type 0 where
  pub row : IdempotencyKey
  pub found : stored key db.idempotency_keys ≡ some row
  pub same_hash : str_eq row.request_hash hashed ≡ true
  pub completed : row.status ≡ IdempotencyStatus.completed
  pub stored_body : row.response_body ≡ some body
  pub stored_status : row.response_status ≡ some 201

module _ (env : Env) (r : Request) (placed : Placed) (result : PaymentResult) where
  open r use {idempotency_key as key, request_hash as hashed}

  settled :
      (body : OrderResponse) (db : Db)
      → IsOwned key hashed IdempotencyStatus.in_progress db
      → IsReplayable key hashed body (settle_completed key body 201 placed.order.id db).1
  unfolding settle_completed
  settled body db o = record {
    row = complete_key body 201 placed.order.id db.now o.row;
    found =
        stored-update_rows key (has_key key) (complete_key body 201 placed.order.id db.now)
          db.idempotency_keys o.row (λ e. refl) o.found
        ∙ rw (stored-has_key key db.idempotency_keys o.row o.found);
    same_hash = o.same_hash;
    completed = refl;
    stored_body = refl;
    stored_status = refl;
  }

  pub complete-IsReplayable :
      (db : Db)
      → IsOwned key hashed IdempotencyStatus.in_progress db
      → Ends
          (λ body new. IsReplayable key hashed body new)
          (λ e. Unit)
          (complete env placed.order placed.payment_id result key db)
  unfolding complete settle_completed
  complete-IsReplayable db o =
      Ends-bind (λ body new. IsOwned key hashed IdempotencyStatus.in_progress new)
        (λ body new. IsReplayable key hashed body new) (λ e. Unit)
        (fulfil env placed.order placed.payment_id result) _ db
        (IsOwned-Frames key hashed IdempotencyStatus.in_progress
          (fulfil env placed.order placed.payment_id result) db
          (fulfil-keys env placed.order placed.payment_id result) o)
        (λ body mid. settled body mid)
