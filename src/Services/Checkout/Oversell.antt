-- ===== src/Services/Checkout/Oversell.antt =====
-- A hold that expires while the provider is asked: `_complete` of app/services/order_checkout.py
-- after app/jobs/sweep_reservations.py.
use canals_assessment.Prelude.{
  ℕ, String, ◌≡◌, refl, ap, ◌∙◌, Bool, true, false, ◌&&◌, List, [], ◌∷◌, ◌==◌, arith, All,
  Bool-cases, inl, inr,
}
use canals_assessment.Domain.Enums.{OrderStatus, ReservationStatus}
use canals_assessment.Domain.Values.{PaymentResult}
use canals_assessment.Sql.{select_rows, exists_row, update_rows}
use canals_assessment.Sql.Laws.{exists_row-update_rows, update_rows-none}
use canals_assessment.Db.Rows.{Db, Order, StockReservation}
use canals_assessment.Db.Tx.{Env, is_ok}
use canals_assessment.Repositories.Orders.{is_in_status, move_to}
use canals_assessment.Repositories.Payments.{success_conflicts}
use canals_assessment.Repositories.Reservation.{
  sweep_expired, expired_ids, is_swept, holds_for, settle_row,
}
use canals_assessment.Repositories.Reservation.Ledger.{IsLedger, is_holding}
use canals_assessment.Repositories.Reservation.Settle.{sweep_expired-Settles}
use canals_assessment.Services.Checkout.{complete}
use canals_assessment.Services.Checkout.Succeeded.{complete-Confirms, paid_by}

-- A reservation that still takes stock for the order: an active or a committed one.
abbrev pub is_stock_for : ℕ → StockReservation → Bool
is_stock_for order s = (s.order_id == order) && is_holding s.status

-- If no row takes stock for the order, none is an active hold of it.
no_holds :
    (order : ℕ) (rows : List StockReservation)
    → select_rows (is_stock_for order) rows ≡ []
    → select_rows (holds_for order) rows ≡ []
no_holds order [] h = refl
no_holds order (s ∷ ss) h = ground (arith, no_holds order ss)

-- A sweep that selects every row that takes stock for the order leaves none.
none_takes :
    (ids : List ℕ) (order now : ℕ) (rows : List StockReservation)
    → All (λ s. is_swept ids s ≡ true) (select_rows (is_stock_for order) rows)
    → select_rows
        (is_stock_for order)
        (update_rows (is_swept ids) (settle_row ReservationStatus.expired now) rows)
      ≡ []
none_takes ids order now [] h = refl
none_takes ids order now (s ∷ ss) h = elim (Bool-cases (is_stock_for order s)) [
  | inl t ↦ let k = rw t at h in ground (arith, none_takes ids order now ss k.1, k.0)
  | inr f ↦ let k = rw f at h in ground (arith, none_takes ids order now ss k, f)
]

module _ (env : Env) (base : ℕ → ℕ → ℕ) (order : Order) (payment : ℕ) (result : PaymentResult)
    (key : String) (batch : ℕ) where
  -- The database after a sweep.
  abbrev after_sweep : Db → Db
  after_sweep db = (sweep_expired batch db).1

  abbrev completed : Db → Db
  completed db = (complete env order payment result key (after_sweep db)).1

  -- Let the order stand at reserved, no other payment conflict with this one, and every reservation
  -- that takes stock for the order be one that a sweep expires while the provider is asked. Then the
  -- completion of a successful charge after that sweep still returns a response and confirms the
  -- order, although no reservation, active or committed, takes stock for it; it leaves the
  -- reservations and the inventory as the sweep left them.
  pub complete_oversells :
      (db : Db)
      → IsLedger base db
      → success_conflicts payment (paid_by env order payment result key db.now) db.payments ≡ false
      → exists_row (is_in_status order.id OrderStatus.reserved) db.orders ≡ true
      → All
          (λ s. is_swept (expired_ids batch db) s ≡ true)
          (select_rows (is_stock_for order.id) db.stock_reservations)
      → (is_ok (complete env order payment result key (after_sweep db)).0 ≡ true)
        × (exists_row (is_in_status order.id OrderStatus.confirmed) (completed db).orders ≡ true)
        × (select_rows (is_stock_for order.id) (completed db).stock_reservations ≡ [])
        × ((completed db).stock_reservations ≡ (after_sweep db).stock_reservations)
        × ((completed db).inventory ≡ (after_sweep db).inventory)
  complete_oversells db l free stands expired =
      let s = (sweep_expired-Settles base batch db l).1 in
      let mid = after_sweep db in
      let orders : mid.orders ≡ db.orders = ap (λ (d : Db). d.orders) s.elsewhere in
      let payments : mid.payments ≡ db.payments = ap (λ (d : Db). d.payments) s.elsewhere in
      let time : mid.now ≡ db.now = ap (λ (d : Db). d.now) s.elsewhere in
      let none_left : select_rows (is_stock_for order.id) mid.stock_reservations ≡ [] =
        rw s.reservations
          (none_takes (expired_ids batch db) order.id db.now db.stock_reservations expired) in
      let (returned, confirms) =
        complete-Confirms env order payment result key mid (rw (payments, time) free)
          (rw orders stands) in
      let same : (completed db).stock_reservations ≡ mid.stock_reservations =
        confirms.reservations
        ∙ update_rows-none (holds_for order.id) (settle_row ReservationStatus.committed mid.now)
            mid.stock_reservations (no_holds order.id mid.stock_reservations none_left) in
      (
        returned,
        rw confirms.orders (is_confirmed mid (rw orders stands)),
        rw same none_left,
        same,
        confirms.inventory,
      )
    where
      is_confirmed :
          (mid : Db)
          → exists_row (is_in_status order.id OrderStatus.reserved) mid.orders ≡ true
          → exists_row (is_in_status order.id OrderStatus.confirmed) (
              update_rows
                (is_in_status order.id OrderStatus.paid)
                (move_to OrderStatus.confirmed mid.now)
                (update_rows
                  (is_in_status order.id OrderStatus.reserved)
                  (move_to OrderStatus.paid mid.now)
                  mid.orders))
            ≡ true
      is_confirmed mid there =
          exists_row-update_rows (is_in_status order.id OrderStatus.paid)
            (is_in_status order.id OrderStatus.confirmed) (move_to OrderStatus.confirmed mid.now)
            (update_rows (is_in_status order.id OrderStatus.reserved)
              (move_to OrderStatus.paid mid.now) mid.orders)
            (λ r t. ground arith)
            (exists_row-update_rows (is_in_status order.id OrderStatus.reserved)
              (is_in_status order.id OrderStatus.paid) (move_to OrderStatus.paid mid.now) mid.orders
              (λ r t. ground arith) there)
