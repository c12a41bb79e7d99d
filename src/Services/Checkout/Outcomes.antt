-- ===== src/Services/Checkout/Outcomes.antt =====
-- How `checkout` of app/services/order_checkout.py ends when it does not confirm an order.
use canals_assessment.Prelude.{◌≡◌, refl, ◌∙◌, false}
use canals_assessment.Domain.Enums.{IdempotencyStatus}
use canals_assessment.Domain.Values.{PaymentResult, PaymentOutcome, Point, Coordinates}
use canals_assessment.Domain.Errors.{Exception, DomainError}
use canals_assessment.Sql.{update_rows}
use canals_assessment.Db.Rows.{Db}
use canals_assessment.Db.Tx.{
  Result, ok, err, Tx, is_ok, Env, begin, commit_or_rollback, lift, ◌>>=◌,
}
use canals_assessment.Repositories.Payments.{is_payment, annotate, mark_unknown}
use canals_assessment.Services.Selection.{Geocoder, to_point}
use canals_assessment.Services.Checkout.{
  Request, Placed, place, Charge, open_order, resolve, conclude, answer, pay, checkout, charge_of,
  text_or, leave_unresolved,
}
use canals_assessment.Services.Checkout.Replay.{IsOwned, open_order-IsOwned, claim_in_progress}
use canals_assessment.Services.Checkout.Once.{
  checkout-refused, open_order-refused, open_order-IsLocated,
}

-- The database after tx2 of a charge whose outcome is unknown: a note on the payment, nothing else.
abbrev pub annotated : Placed → PaymentResult → Db → Db
annotated placed result db = record db {
  payments =
      update_rows (is_payment placed.payment_id)
        (annotate (text_or result.failure_reason "unknown") result.card_brand result.card_last4
          db.now)
        db.payments;
}

-- A transaction that raises is rolled back.
begin_aborted :
    {A : Type 0} (m : Tx A) (db : Db) → is_ok (begin m db).0 ≡ false → (begin m db).1 ≡ db
unfolding begin
begin_aborted {A = A} m db h = go (m db) h
  where
    go :
        (r : Result A × Db)
        → is_ok (commit_or_rollback db r).0 ≡ false
        → (commit_or_rollback db r).1 ≡ db
    go (ok a, new) k = cc
    go (err e, new) k = refl

open_order_aborted :
    (env : Env) (geocode : Geocoder) (r : Request) (db : Db)
    → is_ok (open_order env geocode r db).0 ≡ false
    → (open_order env geocode r db).1 ≡ db
unfolding open_order
open_order_aborted env geocode r db h = located (geocode r.address) h
  where
    pointed :
        (p : Result Point)
        → is_ok ((lift p >>= λ x. begin (place env geocode r x)) db).0 ≡ false
        → ((lift p >>= λ x. begin (place env geocode r x)) db).1 ≡ db
    pointed (ok x) k = begin_aborted (place env geocode r x) db k
    pointed (err e) k = refl

    located :
        (c : Result Coordinates)
        → is_ok ((lift c >>= λ x. lift (to_point x) >>= λ y. begin (place env geocode r y)) db).0
          ≡ false
        → ((lift c >>= λ x. lift (to_point x) >>= λ y. begin (place env geocode r y)) db).1 ≡ db
    located (ok c) k = pointed (to_point c) k
    located (err e) k = refl

module _ {P : Type 0} (charge : P → Charge → PaymentResult × P) (env : Env) (geocode : Geocoder)
    (r : Request) where
  unpaid :
      (opened : Result Placed × Db) (provider : P)
      → is_ok opened.0 ≡ false
      → (is_ok (pay charge env r opened provider).0 ≡ false)
        × ((pay charge env r opened provider).2 ≡ provider)
        × ((pay charge env r opened provider).1 ≡ opened.1)
  unfolding pay
  unpaid (ok placed, db) provider h = cc
  unpaid (err e, db) provider h = (refl, refl, refl)

  -- If geocoding or tx1 raises, `checkout` raises, every table is as before, and the provider has not
  -- been called.
  pub checkout-aborted :
      (db : Db) (provider : P)
      → is_ok (open_order env geocode r db).0 ≡ false
      → let t = checkout charge env geocode r db provider in
        (is_ok t.0 ≡ false) × (t.1 ≡ db) × (t.2 ≡ provider)
  unfolding checkout
  checkout-aborted db provider h =
      let (failed, called, same) = unpaid (open_order env geocode r db) provider h in
      (failed, same ∙ open_order_aborted env geocode r db h, called)

  concluded :
      (placed : Placed) (result : PaymentResult) (db : Db)
      → result.outcome ≡ PaymentOutcome.unknown
      → conclude env r placed result db ≡ (
        err (
            Exception.domain
              (DomainError.payment_unresolved (text_or result.failure_reason "unknown"))),
        annotated placed result db,
      )
  unfolding conclude resolve leave_unresolved mark_unknown begin answer
  concluded placed result db h = rw h refl

  -- If tx1 commits and the provider's answer is unknown, `checkout` raises `payment_unresolved` and
  -- leaves the database that tx1 left but for a note on the payment (the order stays reserved and its
  -- stock held), and the same request sent again is refused as in progress: it does not call the
  -- provider and changes no table.
  pub checkout-unresolved :
      (db mid : Db) (provider provider' : P) (placed : Placed) (result : PaymentResult)
      → open_order env geocode r db ≡ (ok placed, mid)
      → charge provider (charge_of env r placed.order) ≡ (result, provider')
      → result.outcome ≡ PaymentOutcome.unknown
      → let new = annotated placed result mid in
        (checkout charge env geocode r db provider ≡ (
          err (
              Exception.domain
                (DomainError.payment_unresolved (text_or result.failure_reason "unknown"))),
          new,
          provider',
        ))
        × (checkout charge env geocode r new provider' ≡ (
          err (Exception.domain (DomainError.idempotency_in_progress r.idempotency_key)),
          new,
          provider',
        ))
  unfolding checkout pay
  checkout-unresolved db mid provider provider' placed result opened charged u =
      let owned : IsOwned r.idempotency_key r.request_hash IdempotencyStatus.in_progress mid =
        rw opened at (open_order-IsOwned env geocode r db) in
      (
        rw (opened, charged, concluded placed result mid u) refl,
        checkout-refused charge env geocode r (annotated placed result mid) _ provider' (
            open_order-refused env geocode r (annotated placed result mid) _
              (open_order-IsLocated env geocode r db (rw opened))
              (claim_in_progress env r.idempotency_key r.request_hash (annotated placed result mid)
                owned.row owned.found owned.same_hash owned.in_status)),
      )
