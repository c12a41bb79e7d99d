-- ===== src/Repositories/Checks.antt =====
-- The CHECK constraints of app/models, which the modelled writes do not test; the children have what
-- the methods of app/repositories do to them.
pub mod Tables
pub mod Stock
pub mod Orders
pub mod Keys
use canals_assessment.Prelude.{
  ℕ, ◌+◌, ◌<◌, String, ◌≡◌, refl, ap, ◌∙◌, Bool, true, false, not, ◌&&◌, ◌||◌, Option, none, some,
  List, [], ◌∷◌, ◌++◌, All, All-append, arith, ltb, leb, is_some, Bool-cases, inl, inr,
  if◌then◌else◌,
}
use canals_assessment.Prelude.Sorting.{sort_by, All-sort_by}
use canals_assessment.Domain.Enums.{
  OrderStatus, PaymentStatus, ReservationStatus, IdempotencyStatus, order_status_eq,
  payment_status_eq, is_active, idempotency_status_eq,
}
use canals_assessment.Domain.OrderState.{is_allowed}
use canals_assessment.Domain.Errors.{Exception}
use canals_assessment.Repositories.Reservation.{
  claim_stock, insert_reservation, reserve_item, reserve_items, reserve_stock, return_stock,
  add_reservation, settle_row, holds_for, lock_order, requested_leb, give_back, claim_rows, settle,
  release_reservation, settle_for_order,
}
use canals_assessment.Domain.Values.{
  RequestedItem, ReleasedItem, PostalAddress, Point, OrderResponse, IsPositive,
}
use canals_assessment.Sql.{update_rows, exists_row, select_rows}
use canals_assessment.Sql.Laws.{All-update_rows}
use canals_assessment.Db.Rows.{
  Db, Order, OrderItem, OrderStatusHistory, Payment, StockReservation, IdempotencyKey, Product,
  Payload,
}
use canals_assessment.Db.Tx.{
  Env, draw, modify, gets, or_raise, Tx, Result, ok, err, Ends, Ends-left, is_ok,
}
use canals_assessment.Db.Preserves.{
  Preserves, preserve_rules, Preserves-bind, Preserves-if, Preserves-pure, Preserves-gets,
  Preserves-or_raise,
}

-- What `reserved_requires_warehouse_and_point` asks of an order in any status but pending and
-- cancelled.
abbrev pub is_located : Order → Bool
is_located o = is_some o.warehouse_id && is_some o.shipping_point

-- `quantity_positive` of order_items.
abbrev pub is_line_ok : OrderItem → Bool
is_line_ok i = ltb 0 i.quantity

-- `transition_changes_status`: from_status IS DISTINCT FROM to_status.
abbrev pub is_change : OrderStatusHistory → Bool
is_change h = elim h.from_status [
  | none ↦ true
  | some from ↦ not (order_status_eq from h.to_status)
]

-- `amount_positive` and `failed_requires_reason` of payments.
abbrev pub is_payment_ok : Payment → Bool
is_payment_ok p =
    ltb 0 p.amount_minor
    && (not (payment_status_eq p.status PaymentStatus.failed) || is_some p.failure_reason)

-- `quantity_positive` and `settled_requires_released_at` of stock_reservations.
abbrev pub is_hold_ok : StockReservation → Bool
is_hold_ok s = ltb 0 s.quantity && (is_active s.status || is_some s.released_at)

-- `response_status BETWEEN 100 AND 599`; NULL passes.
abbrev pub is_status_range : Option ℕ → Bool
is_status_range none = true
is_status_range (some n) = leb 100 n && leb n 599

abbrev pub iff : Bool → Bool → Bool
iff true b = b
iff false b = not b

-- `completed_has_response`.
abbrev pub completed_has_response : IdempotencyKey → Bool
completed_has_response k =
    not (idempotency_status_eq k.status IdempotencyStatus.completed)
    || (is_some k.response_body && is_some k.response_status)

-- `response_status_range`, `response_columns_paired` and `completed_has_response`.
abbrev pub is_key_ok : IdempotencyKey → Bool
is_key_ok k =
    is_status_range k.response_status
    && (iff (is_some k.response_body) (is_some k.response_status) && completed_has_response k)

-- Every row passes the CHECK constraints of its table, and every order names a warehouse and a point.
abbrev pub IsChecked : Db → Type 0
IsChecked db =
    All (λ o. is_located o ≡ true) db.orders
    × All (λ i. is_line_ok i ≡ true) db.order_items
    × All (λ h. is_change h ≡ true) db.order_status_history
    × All (λ p. is_payment_ok p ≡ true) db.payments
    × All (λ s. is_hold_ok s ≡ true) db.stock_reservations
    × All (λ k. is_key_ok k ≡ true) db.idempotency_keys
