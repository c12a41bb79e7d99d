-- ===== src/Repositories/Frames.antt =====
-- No repository but that of app/repositories/idempotency.py touches the idempotency keys.
use canals_assessment.Prelude.{ℕ, arith, String, refl, Option, none, some, List, [], ◌∷◌}
use canals_assessment.Domain.Enums.{OrderStatus, ReservationStatus}
use canals_assessment.Domain.Values.{RequestedItem, PostalAddress, Point}
use canals_assessment.Db.Rows.{Db, IdempotencyKey, Product, Payload}
use canals_assessment.Db.Tx.{Env, draw}
use canals_assessment.Db.Frame.{
  Frames, Frames-pure, Frames-raise, Frames-gets, Frames-lift, Frames-or_raise, Frames-bind,
  Frames-raise_if, Frames-modify, frame_rules,
}
use canals_assessment.Repositories.Reservation.{
  reserve_stock, release_reservation, settle_for_order, sweep_expired,
}
use canals_assessment.Repositories.Reservation.Frames.{
  IsApart, draw-apart, reserve_stock-apart, release_reservation-apart, sweep_expired-apart,
  settle_for_order-apart,
}
use canals_assessment.Repositories.Orders.{
  create, insert_history, add_item, add_items, swap_status, record_move, transition,
  get_for_response,
}
use canals_assessment.Repositories.Payments.{create_pending, mark_succeeded}
use canals_assessment.Repositories.Outbox.{add}
use canals_assessment.Repositories.Warehouses.{select_best, count_products_stocked_anywhere}

-- Code that only reads leaves every view of the database alone.
module _ {B : Type 0} (view : Db → B) where
  pub get_for_response-reads : (order : ℕ) → Frames view (get_for_response order)
  unfolding get_for_response
  get_for_response-reads order = search frame_rules

  pub select_best-reads :
      (env : Env) (point : Point) (items : List RequestedItem)
      → Frames view (select_best env point items)
  unfolding select_best
  select_best-reads env point [] = search frame_rules
  select_best-reads env point (i ∷ is) = search frame_rules

  pub count-reads : (ids : List ℕ) → Frames view (count_products_stocked_anywhere ids)
  unfolding count_products_stocked_anywhere
  count-reads ids = search frame_rules

abbrev pub keys : Db → List IdempotencyKey
keys db = db.idempotency_keys

keys-IsApart : IsApart keys
keys-IsApart = record {
  inventory = λ db rows. refl;
  reservations = λ db rows. refl;
  drawn = λ db n. refl;
}

draw-keys : (env : Env) → Frames keys (draw env)
draw-keys = draw-apart keys keys-IsApart

pub reserve_stock-keys :
    (env : Env) (order w : ℕ) (items : List RequestedItem)
    → Frames keys (reserve_stock env order w items)
reserve_stock-keys = reserve_stock-apart keys keys-IsApart

pub release_reservation-keys : (order : ℕ) → Frames keys (release_reservation order)
release_reservation-keys = release_reservation-apart keys keys-IsApart

pub sweep_expired-keys : (batch_size : ℕ) → Frames keys (sweep_expired batch_size)
sweep_expired-keys = sweep_expired-apart keys keys-IsApart

pub settle_for_order-keys :
    (order : ℕ) (status : ReservationStatus) → Frames keys (settle_for_order order status)
settle_for_order-keys = settle_for_order-apart keys keys-IsApart

insert_history-keys :
    (env : Env) (order : ℕ) (a : Option OrderStatus) (b : OrderStatus) (reason : Option String)
    → Frames keys (insert_history env order a b reason)
unfolding insert_history
insert_history-keys env order a b reason = search (frame_rules, draw-keys)

pub create-keys :
    (env : Env) (customer w : ℕ) (address : PostalAddress) (point : Point) (currency : String)
    (total : ℕ)
    → Frames keys (create env customer w address point currency total)
unfolding create
create-keys env customer w address point currency total = record { at = λ db. ground arith }

add_item-keys :
    (env : Env) (order : ℕ) (products : List Product) (i : RequestedItem)
    → Frames keys (add_item env order products i)
unfolding add_item
add_item-keys env order products i = search (frame_rules, draw-keys)

pub add_items-keys :
    (env : Env) (order : ℕ) (products : List Product) (is : List RequestedItem)
    → Frames keys (add_items env order products is)
unfolding add_items
add_items-keys env order products [] = search frame_rules
add_items-keys env order products (i ∷ is) =
    Frames-bind keys (add_item env order products i) _ (add_item-keys env order products i)
      (λ done. add_items-keys env order products is)

swap_status-keys : (order : ℕ) (a b : OrderStatus) → Frames keys (swap_status order a b)
unfolding swap_status
swap_status-keys order a b = record { at = λ db. refl }

record_move-keys :
    (env : Env) (order : ℕ) (a b : OrderStatus) (reason : Option String) (moved : Option ℕ)
    → Frames keys (record_move env order a b reason moved)
unfolding record_move
record_move-keys env order a b reason none = search frame_rules
record_move-keys env order a b reason (some m) = insert_history-keys env order (some a) b reason

pub transition-keys :
    (env : Env) (order : ℕ) (a b : OrderStatus) (reason : Option String)
    → Frames keys (transition env order a b reason)
transition-keys env order a b reason =
    unfold transition in search (frame_rules, swap_status-keys, record_move-keys)

pub create_pending-keys :
    (env : Env) (order amount : ℕ) (currency description : String)
    → Frames keys (create_pending env order amount currency description)
unfolding create_pending
create_pending-keys env order amount currency description = record { at = λ db. ground arith }

pub mark_succeeded-keys :
    (payment : ℕ) (reference brand last4 : Option String)
    → Frames keys (mark_succeeded payment reference brand last4)
unfolding mark_succeeded
mark_succeeded-keys payment reference brand last4 = record { at = λ db. ground arith }

pub add_event-keys :
    (env : Env) (event : String) (id : ℕ) (payload : Payload)
    → Frames keys (add env event id payload)
unfolding add
add_event-keys env event id payload = record { at = λ db. refl }

pub ruleset key_rules = (
  frame_rules, reserve_stock-keys, release_reservation-keys, settle_for_order-keys, create-keys,
  add_items-keys, transition-keys, get_for_response-reads, create_pending-keys, mark_succeeded-keys,
  add_event-keys, select_best-reads, count-reads,
)
