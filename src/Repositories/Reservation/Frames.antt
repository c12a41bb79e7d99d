-- ===== src/Repositories/Reservation/Frames.antt =====
-- What the methods of app/repositories/reservation.py leave alone: every view of the database that
-- does not read inventory, the reservations or the ids drawn.
use canals_assessment.Prelude.{ℕ, ◌≡◌, Bool, List, [], ◌∷◌}
use canals_assessment.Domain.Enums.{ReservationStatus}
use canals_assessment.Domain.Values.{RequestedItem, ReleasedItem}
use canals_assessment.Domain.Errors.{Exception}
use canals_assessment.Db.Rows.{Db, StockReservation, Inventory}
use canals_assessment.Db.Tx.{Env, draw, or_raise, modify}
use canals_assessment.Db.Frame.{Frames, Frames-pure, Frames-or_raise, Frames-bind, frame_rules}
use canals_assessment.Repositories.Reservation.{
  add_reservation, claim_stock, insert_reservation, reserve_item, reserve_items, reserve_stock,
  return_stock, give_back, claim_rows, settle, release_reservation, settle_for_order, sweep_expired,
}

-- A view that reads neither table, nor the ids drawn.
pub record IsApart {B : Type 0} (view : Db → B) : Type 0 where
  pub inventory :
      (db : Db) (rows : List Inventory) → view (record db { inventory = rows }) ≡ view db
  pub reservations :
      (db : Db) (rows : List StockReservation)
      → view (record db { stock_reservations = rows }) ≡ view db
  pub drawn : (db : Db) (n : ℕ) → view (record db { drawn = n }) ≡ view db

module _ {B : Type 0} (view : Db → B) (apart : IsApart view) where
  pub draw-apart : (env : Env) → Frames view (draw env)
  draw-apart env = record { at = λ db. apart.drawn db _ }

  claim_stock-apart : (w : ℕ) (i : RequestedItem) → Frames view (claim_stock w i)
  unfolding claim_stock
  claim_stock-apart w i = record { at = λ db. apart.inventory db _ }

  added : (s : StockReservation) → Frames view (modify (add_reservation s))
  added s = record { at = λ db. apart.reservations db _ }

  insert_reservation-apart :
      (env : Env) (order w expires : ℕ) (i : RequestedItem)
      → Frames view (insert_reservation env order w expires i)
  unfolding insert_reservation
  insert_reservation-apart env order w expires i = search (frame_rules, draw-apart, added)

  reserve_item-apart :
      (env : Env) (order w expires : ℕ) (i : RequestedItem)
      → Frames view (reserve_item env order w expires i)
  unfolding reserve_item
  reserve_item-apart env order w expires i =
      search (frame_rules, claim_stock-apart, insert_reservation-apart)

  reserve_items-apart :
      (env : Env) (order w expires : ℕ) (is : List RequestedItem)
      → Frames view (reserve_items env order w expires is)
  unfolding reserve_items
  reserve_items-apart env order w expires [] = search frame_rules
  reserve_items-apart env order w expires (i ∷ is) =
      Frames-bind view (reserve_item env order w expires i) _
        (reserve_item-apart env order w expires i)
        λ r.
          Frames-bind view (reserve_items env order w expires is) _
            (reserve_items-apart env order w expires is) (λ rs. Frames-pure view _)

  pub reserve_stock-apart :
      (env : Env) (order w : ℕ) (items : List RequestedItem)
      → Frames view (reserve_stock env order w items)
  unfolding reserve_stock
  reserve_stock-apart env order w items = search (frame_rules, reserve_items-apart)

  return_stock-apart : (i : ReleasedItem) → Frames view (return_stock i)
  unfolding return_stock
  return_stock-apart i = record { at = λ db. apart.inventory db _ }

  give_back-apart : (items : List ReleasedItem) → Frames view (give_back items)
  unfolding give_back
  give_back-apart [] = search frame_rules
  give_back-apart (i ∷ is) = Frames-bind view (return_stock i) _ (return_stock-apart i) λ found.
      Frames-bind view (or_raise found Exception.runtime_error) _ (Frames-or_raise view found _)
        (λ id. give_back-apart is)

  claim_rows-apart :
      (test : StockReservation → Bool) (status : ReservationStatus)
      → Frames view (claim_rows test status)
  unfolding claim_rows
  claim_rows-apart test status = record { at = λ db. apart.reservations db _ }

  settle-apart :
      (test : StockReservation → Bool) (status : ReservationStatus)
      → Frames view (settle test status)
  settle-apart test status =
      unfold settle in search (frame_rules, claim_rows-apart, give_back-apart)

  pub release_reservation-apart : (order : ℕ) → Frames view (release_reservation order)
  unfolding release_reservation
  release_reservation-apart order = settle-apart _ _

  pub sweep_expired-apart : (batch_size : ℕ) → Frames view (sweep_expired batch_size)
  unfolding sweep_expired
  sweep_expired-apart batch_size = search (frame_rules, settle-apart)

  pub settle_for_order-apart :
      (order : ℕ) (status : ReservationStatus) → Frames view (settle_for_order order status)
  unfolding settle_for_order
  settle_for_order-apart order status = record { at = λ db. apart.reservations db _ }
