-- ===== src/Services/Checkout/Succeeded.antt =====
-- `_complete` of app/services/order_checkout.py: what a successful charge does.
use canals_assessment.Prelude.{
  ℕ, String, ◌≡◌, refl, true, false, none, some, [], ◌∷◌, ◌++◌, arith, inl, inr,
}
use canals_assessment.Domain.Enums.{OrderStatus, ReservationStatus}
use canals_assessment.Domain.Values.{PaymentResult}
use canals_assessment.Domain.OrderState.{is_allowed}
use canals_assessment.Sql.{update_rows, select_rows, exists_row}
use canals_assessment.Sql.Laws.{exists_row-update_rows, exists_row-none, List-cases}
use canals_assessment.Db.Rows.{Db, Order, OutboxEvent, Payment}
use canals_assessment.Db.Tx.{ok, Env, is_ok}
use canals_assessment.Repositories.Payments.{mark_succeeded, success_conflicts, succeed, is_payment}
use canals_assessment.Repositories.Idempotency.{settle_completed}
use canals_assessment.Repositories.Outbox.{add}
use canals_assessment.Repositories.Orders.{
  transition, is_in_status, move_to, has_id, get_for_response,
}
use canals_assessment.Repositories.Orders.History.{moved_db, transition_iff}
use canals_assessment.Repositories.Reservation.{settle_for_order, claim_rows, holds_for, settle_row}
use canals_assessment.Services.Checkout.{complete, fulfil, render, payload_of, order_confirmed}
use canals_assessment.Services.Checkout.Declined.{returned_pair}

-- What a completion has done: the order has moved from reserved through paid to confirmed, its
-- reservations are committed and inventory is as before, and the outbox has one more event, about
-- this order and unpublished.
pub record Confirms (env : Env) (order : Order) (result : PaymentResult) (old new : Db)
    : Type 0 where
  pub orders :
      new.orders
      ≡ update_rows
          (is_in_status order.id OrderStatus.paid)
          (move_to OrderStatus.confirmed old.now)
          (update_rows
            (is_in_status order.id OrderStatus.reserved)
            (move_to OrderStatus.paid old.now)
            old.orders)
  pub reservations :
      new.stock_reservations
      ≡ update_rows
          (holds_for order.id)
          (settle_row ReservationStatus.committed old.now)
          old.stock_reservations
  pub inventory : new.inventory ≡ old.inventory
  pub event : OutboxEvent
  pub written : new.outbox ≡ old.outbox ++ event ∷ []
  pub event_type : event.event_type ≡ order_confirmed
  pub aggregate : event.aggregate_id ≡ order.id
  pub payload : event.payload ≡ payload_of env order result
  pub unpublished : event.processed_at ≡ none

module _ (env : Env) (order : Order) (payment : ℕ) (result : PaymentResult) (key : String) where
  abbrev pub paid_by : ℕ → Payment → Payment
  paid_by now = succeed result.reference result.card_brand result.card_last4 now

  abbrev charged_db : Db → Db
  charged_db db = record db {
    payments = update_rows (is_payment payment) (paid_by db.now) db.payments;
  }

  abbrev paid_db : Db → Db
  paid_db db =
      moved_db env order.id OrderStatus.reserved OrderStatus.paid (some "payment succeeded")
        (charged_db db)

  abbrev confirmed_db : Db → Db
  confirmed_db db =
      moved_db env order.id OrderStatus.paid OrderStatus.confirmed (some "order confirmed")
        (paid_db db)

  transition_pair :
      (a b : OrderStatus) (why : String) (db : Db)
      → is_allowed a b ≡ true
      → exists_row (is_in_status order.id a) db.orders ≡ true
      → transition env order.id a b (some why) db ≡ (ok tt, moved_db env order.id a b (some why) db)
  transition_pair a b why db fine stands =
      let t = transition_iff env order.id a b (some why) db in
      let moved = t.0.1 (fine, stands) in
      returned_pair (transition env order.id a b (some why) db)
        (moved_db env order.id a b (some why) db) moved (t.1 moved)

  -- If the order stands at reserved and no other payment conflicts with this one, the completion of a
  -- successful charge returns a response, and has confirmed the order, committed its reservations,
  -- left inventory alone and written one event.
  pub complete-Confirms :
      (db : Db)
      → success_conflicts payment (paid_by db.now) db.payments ≡ false
      → exists_row (is_in_status order.id OrderStatus.reserved) db.orders ≡ true
      → (is_ok (complete env order payment result key db).0 ≡ true)
        × Confirms env order result db (complete env order payment result key db).1
  unfolding complete fulfil mark_succeeded is_allowed settle_for_order claim_rows add render
      get_for_response settle_completed
  complete-Confirms db free stands =
      let is_paid : exists_row (is_in_status order.id OrderStatus.paid) (paid_db db).orders ≡ true =
        exists_row-update_rows (is_in_status order.id OrderStatus.reserved)
          (is_in_status order.id OrderStatus.paid) (move_to OrderStatus.paid db.now) db.orders
          (λ r t. ground arith) stands in
      let is_there : exists_row (has_id order.id) (confirmed_db db).orders ≡ true =
        exists_row-update_rows (is_in_status order.id OrderStatus.paid) (has_id order.id)
          (move_to OrderStatus.confirmed db.now) (paid_db db).orders (λ r t. ground arith)
          is_paid in
      let first =
        transition_pair OrderStatus.reserved OrderStatus.paid "payment succeeded" (charged_db db)
          refl stands in
      let second =
        transition_pair OrderStatus.paid OrderStatus.confirmed "order confirmed" (paid_db db) refl
          is_paid in
      elim (List-cases (select_rows (has_id order.id) (confirmed_db db).orders)) [
        | inl missing ↦
            let gone = exists_row-none (has_id order.id) (confirmed_db db).orders missing in cc
        | inr (o, rest, found) ↦
            rw (free, first, second, found)
              (
                refl,
                record {
                  orders = refl;
                  reservations = refl;
                  inventory = refl;
                  event = _;
                  written = refl;
                  event_type = refl;
                  aggregate = refl;
                  payload = refl;
                  unpublished = refl;
                },
              )
      ]
