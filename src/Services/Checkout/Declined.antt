-- ===== src/Services/Checkout/Declined.antt =====
-- `_compensate` of app/services/order_checkout.py: what a declined charge undoes.
use canals_assessment.Prelude.{ℕ, ◌+◌, String, ◌≡◌, refl, ap, true, some, List, []}
use canals_assessment.Domain.Enums.{OrderStatus}
use canals_assessment.Domain.Values.{PaymentResult, ReleasedItem}
use canals_assessment.Sql.{update_rows, exists_row}
use canals_assessment.Db.Rows.{Db, Order}
use canals_assessment.Db.Tx.{Result, ok, err, Env, is_ok}
use canals_assessment.Repositories.Payments
use canals_assessment.Repositories.Idempotency
use canals_assessment.Repositories.Idempotency.{has_key, fail_key}
use canals_assessment.Repositories.Orders.{transition, is_in_status, move_to}
use canals_assessment.Repositories.Orders.History.{moved_db, transition_iff}
use canals_assessment.Domain.OrderState.{is_allowed}
use canals_assessment.Repositories.Reservation.{release_reservation}
use canals_assessment.Repositories.Reservation.Ledger.{IsLedger, reserved_at}
use canals_assessment.Repositories.Reservation.Reserve.{order_holds}
use canals_assessment.Repositories.Reservation.GiveBack.{owed_at}
use canals_assessment.Repositories.Reservation.Settle.{release_reservation-Settles, nothing_held}
use canals_assessment.Repositories.Accounts.{IsLedger-same}
use canals_assessment.Services.Checkout.{compensate, text_or}

-- What a compensation has done: the account holds, each pair's `reserved` has fallen by what the
-- order held, the order holds nothing more and has moved from reserved to payment_failed, the key is
-- open to a retry, and no event has been written.
pub record Compensates (base : ℕ → ℕ → ℕ) (order : ℕ) (key : String) (old new : Db) : Type 0 where
  pub ledger : IsLedger base new
  pub reserved :
      (v p : ℕ)
      → reserved_at v p new.inventory + owed_at v p (order_holds order old)
        ≡ reserved_at v p old.inventory
  pub holds : order_holds order new ≡ []
  pub orders :
      new.orders
      ≡ update_rows
          (is_in_status order OrderStatus.reserved)
          (move_to OrderStatus.payment_failed old.now)
          old.orders
  pub keys :
      new.idempotency_keys
      ≡ update_rows (has_key key) (fail_key (some order) old.now) old.idempotency_keys
  pub outbox : new.outbox ≡ old.outbox

pub returned_pair :
    (t : Result (Unit {0}) × Db) (new : Db) → is_ok t.0 ≡ true → t.1 ≡ new → t ≡ (ok tt, new)
returned_pair (ok u, db) new h e = ap (λ d. (ok tt, d)) e
returned_pair (err x, db) new h e = cc

module _ (env : Env) (base : ℕ → ℕ → ℕ) (order : Order) (payment : ℕ) (result : PaymentResult)
    (key : String) where
  abbrev reason : String
  reason = text_or result.failure_reason "declined"

  -- The database once the payment is marked, and once the stock is released.
  abbrev marked : Db → Db
  marked db = (Payments.mark_failed payment reason result.card_brand result.card_last4 db).1

  abbrev freed : Db → Db
  freed db = (release_reservation order.id (marked db)).1

  abbrev failed : Db → Db
  failed db =
      moved_db env order.id OrderStatus.reserved OrderStatus.payment_failed (some reason) (freed db)

  -- From a database whose account holds, with the order at reserved, the compensation of a declined
  -- charge never raises: it returns the stock that the order held and nothing else, moves the order
  -- to payment_failed, opens the key to a retry, and writes no event.
  pub compensate-Compensates :
      (db : Db)
      → IsLedger base db
      → exists_row (is_in_status order.id OrderStatus.reserved) db.orders ≡ true
      → ((compensate env order payment result key db).0 ≡ ok tt)
        × Compensates base order.id key db (compensate env order payment result key db).1
  unfolding compensate Payments.mark_failed Idempotency.mark_failed is_allowed
  compensate-Compensates db l stands =
      let released =
        release_reservation-Settles base order.id (marked db)
          (IsLedger-same base db (marked db) refl refl l) in
      let s = released.1 in
      let freed_pair : release_reservation order.id (marked db)
          ≡ (ok (order_holds order.id db), freed db) =
        ap (λ (r : Result (List ReleasedItem)). (r, freed db)) released.0 in
      let orders : (freed db).orders ≡ db.orders = ap (λ (d : Db). d.orders) s.elsewhere in
      let time : (freed db).now ≡ db.now = ap (λ (d : Db). d.now) s.elsewhere in
      let keys : (freed db).idempotency_keys ≡ db.idempotency_keys =
        ap (λ (d : Db). d.idempotency_keys) s.elsewhere in
      let t =
        transition_iff env order.id OrderStatus.reserved OrderStatus.payment_failed (some reason)
          (freed db) in
      let moved = t.0.1 (refl, rw orders stands) in
      let moved_pair =
        returned_pair
          (transition env order.id OrderStatus.reserved OrderStatus.payment_failed (some reason)
            (freed db))
          (failed db) moved (t.1 moved) in
      rw (freed_pair, moved_pair)
        (
          refl,
          record {
            ledger = IsLedger-same base (freed db) _ refl refl s.ledger;
            reserved = s.reserved;
            holds =
                rw
                  (nothing_held base order.id (marked db)
                    (IsLedger-same base db (marked db) refl refl l))
                  refl;
            orders = rw (orders, time) refl;
            keys = rw (keys, time) refl;
            outbox = ap (λ (d : Db). d.outbox) s.elsewhere;
          },
        )
