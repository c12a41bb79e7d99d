-- ===== src/Repositories/Checks/Stock.antt =====
-- app/repositories/reservation.py and the CHECK constraints.
use canals_assessment.Prelude.{ℕ, ◌+◌, ◌≡◌, Bool, true, none, List, [], ◌∷◌, All, arith}
use canals_assessment.Prelude.Sorting.{sort_by, All-sort_by}
use canals_assessment.Domain.Enums.{ReservationStatus}
use canals_assessment.Domain.Errors.{Exception}
use canals_assessment.Repositories.Reservation.{
  claim_stock, insert_reservation, reserve_item, reserve_items, reserve_stock, return_stock,
  add_reservation, settle_row, holds_for, lock_order, requested_leb, give_back, claim_rows, settle,
  release_reservation, settle_for_order,
}
use canals_assessment.Domain.Values.{RequestedItem, ReleasedItem, IsPositive}
use canals_assessment.Sql.Laws.{All-update_rows}
use canals_assessment.Db.Rows.{StockReservation}
use canals_assessment.Db.Tx.{Env, modify, gets, or_raise}
use canals_assessment.Db.Preserves.{
  preserve_rules, Preserves-bind, Preserves-pure, Preserves-gets, Preserves-or_raise,
}
use canals_assessment.Repositories.Checks.{IsChecked, is_hold_ok}
use canals_assessment.Repositories.Checks.Tables.{
  Keeps, reservations-IsChecked, draw-IsChecked, All-added,
}

pub settle_for_order-IsChecked :
    (order : ℕ) (status : ReservationStatus) → Keeps (settle_for_order order status)
unfolding settle_for_order claim_rows
settle_for_order-IsChecked order status = reservations-IsChecked _ (λ db c.
    All-update_rows (holds_for order) (λ s. is_hold_ok s ≡ true) (settle_row status db.now)
      db.stock_reservations (λ s t h. ground (arith, h)) c.4)

claim_rows-IsChecked :
    (test : StockReservation → Bool) (status : ReservationStatus) → Keeps (claim_rows test status)
unfolding claim_rows
claim_rows-IsChecked test status = reservations-IsChecked _ (λ db c.
    All-update_rows test (λ s. is_hold_ok s ≡ true) (settle_row status db.now) db.stock_reservations
      (λ s t h. ground (arith, h)) c.4)

return_stock-IsChecked : (i : ReleasedItem) → Keeps (return_stock i)
unfolding return_stock
return_stock-IsChecked i = record { at = λ db c. c }

give_back-IsChecked : (items : List ReleasedItem) → Keeps (give_back items)
unfolding give_back
give_back-IsChecked [] = search preserve_rules
give_back-IsChecked (i ∷ is) =
    Preserves-bind IsChecked (return_stock i) _ (return_stock-IsChecked i) λ found.
      Preserves-bind IsChecked (or_raise found Exception.runtime_error) _
        (Preserves-or_raise IsChecked found _) (λ id. give_back-IsChecked is)

settle-IsChecked :
    (test : StockReservation → Bool) (status : ReservationStatus) → Keeps (settle test status)
settle-IsChecked test status =
    unfold settle in search (preserve_rules, claim_rows-IsChecked, give_back-IsChecked)

pub release_reservation-IsChecked : (order : ℕ) → Keeps (release_reservation order)
unfolding release_reservation
release_reservation-IsChecked order = settle-IsChecked _ _

claim_stock-IsChecked : (w : ℕ) (i : RequestedItem) → Keeps (claim_stock w i)
unfolding claim_stock
claim_stock-IsChecked w i = record { at = λ db c. c }

insert_reservation-IsChecked :
    (env : Env) (order w expires : ℕ) (i : RequestedItem)
    → IsPositive i
    → Keeps (insert_reservation env order w expires i)
unfolding insert_reservation
insert_reservation-IsChecked env order w expires i q =
    search (preserve_rules, draw-IsChecked, inserted)
  where
    inserted :
        (now id : ℕ)
        → Keeps (
            modify (
              add_reservation (record {
                id = id;
                order_id = order;
                warehouse_id = w;
                product_id = i.product_id;
                quantity = i.quantity;
                status = ReservationStatus.active;
                expires_at = expires;
                released_at = none;
                created_at = now;
              })))
    inserted now id =
        reservations-IsChecked _
          (λ db c. All-added is_hold_ok db.stock_reservations _ c.4 (ground (arith, q)))

reserve_item-IsChecked :
    (env : Env) (order w expires : ℕ) (i : RequestedItem)
    → IsPositive i
    → Keeps (reserve_item env order w expires i)
unfolding reserve_item
reserve_item-IsChecked env order w expires i q =
    search (preserve_rules, claim_stock-IsChecked, insert_reservation-IsChecked)

reserve_items-IsChecked :
    (env : Env) (order w expires : ℕ) (is : List RequestedItem)
    → All IsPositive is
    → Keeps (reserve_items env order w expires is)
unfolding reserve_items
reserve_items-IsChecked env order w expires [] q = search preserve_rules
reserve_items-IsChecked env order w expires (i ∷ is) q =
    Preserves-bind IsChecked (reserve_item env order w expires i) _
      (reserve_item-IsChecked env order w expires i q.0)
      λ r.
        Preserves-bind IsChecked (reserve_items env order w expires is) _
          (reserve_items-IsChecked env order w expires is q.1) (λ rs. Preserves-pure IsChecked _)

pub reserve_stock-IsChecked :
    (env : Env) (order w : ℕ) (items : List RequestedItem)
    → All IsPositive items
    → Keeps (reserve_stock env order w items)
unfolding reserve_stock lock_order
reserve_stock-IsChecked env order w items q =
    Preserves-bind IsChecked (gets (λ db. db.now)) _ (Preserves-gets IsChecked (λ db. db.now))
      λ now.
        Preserves-bind IsChecked
          (reserve_items env order w (now + env.reservation_ttl_seconds)
            (sort_by (requested_leb w) items))
          _
          (reserve_items-IsChecked env order w (now + env.reservation_ttl_seconds)
            (sort_by (requested_leb w) items) (All-sort_by (requested_leb w) IsPositive items q))
          (λ rs. Preserves-pure IsChecked _)
