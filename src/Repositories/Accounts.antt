-- ===== src/Repositories/Accounts.antt =====
-- Every method of app/repositories keeps the account of inventory and reservations.
use canals_assessment.Prelude.{ℕ, String, ◌≡◌, refl, Option, none, some, List, [], ◌∷◌, All}
use canals_assessment.Domain.Enums.{OrderStatus, ReservationStatus}
use canals_assessment.Domain.Values.{RequestedItem, PostalAddress, Point, OrderResponse, IsPositive}
use canals_assessment.Db.Rows.{Db, Product, Payload}
use canals_assessment.Db.Tx.{Env, draw, modify, Tx, Ends-weaken, Ends-left, ok}
use canals_assessment.Db.Preserves.{Preserves, preserve_rules, Preserves-bind, Preserves-if}
use canals_assessment.Repositories.Reservation.{
  reserve_stock, release_reservation, settle_for_order,
}
use canals_assessment.Repositories.Reservation.Ledger.{IsLedger}
use canals_assessment.Repositories.Reservation.Reserve.{Reserves}
use canals_assessment.Repositories.Reservation.Atomic.{reserve_stock-Reserves}
use canals_assessment.Repositories.Reservation.Settle.{
  release_reservation-Settles, settle_for_order-IsLedger,
}
use canals_assessment.Repositories.Reservation.{lock_order}
use canals_assessment.Repositories.Orders.{
  create, insert_history, add_item, add_items, swap_status, record_move, transition,
}
use canals_assessment.Repositories.Payments.{create_pending, mark_succeeded, mark_unknown}
use canals_assessment.Repositories.Payments
use canals_assessment.Repositories.Idempotency.{
  claim, insert_key, get, reclaim_failed, settle_completed,
}
use canals_assessment.Repositories.Idempotency
use canals_assessment.Repositories.Outbox.{add}

-- The account is about two tables alone.
pub IsLedger-same :
    (base : ℕ → ℕ → ℕ) (db new : Db)
    → new.inventory ≡ db.inventory
    → new.stock_reservations ≡ db.stock_reservations
    → IsLedger base db
    → IsLedger base new
IsLedger-same base db new i s l = record {
  keyed = rw i l.keyed;
  bounded = rw i l.bounded;
  positive = rw s l.positive;
  accounted = λ w p. rw (i, s) (l.accounted w p);
}

module _ (base : ℕ → ℕ → ℕ) where
  abbrev pub Keeps : {A : Type 0} → Tx A → Type 0
  Keeps m = Preserves (IsLedger base) m

  -- A step that returns and leaves both tables alone.
  untouched :
      {A : Type 0} (m : Tx A) (a : Db → A) (f : Db → Db)
      → ((db : Db) → m db ≡ (ok (a db), f db))
      → ((db : Db) → (f db).inventory ≡ db.inventory)
      → ((db : Db) → (f db).stock_reservations ≡ db.stock_reservations)
      → Keeps m
  untouched m a f e i s = record {
    at = λ db l. rw (e db) (IsLedger-same base db (f db) (i db) (s db) l);
  }

  draw-IsLedger : (env : Env) → Keeps (draw env)
  draw-IsLedger env = untouched (draw env) _ _ (λ db. refl) (λ db. refl) (λ db. refl)

  modified :
      (f : Db → Db)
      → ((db : Db) → (f db).inventory ≡ db.inventory)
      → ((db : Db) → (f db).stock_reservations ≡ db.stock_reservations)
      → Keeps (modify f)
  modified f i s = untouched (modify f) (λ db. tt) f (λ db. refl) i s

  pub reserve_stock-IsLedger :
      (env : Env) (order w : ℕ) (items : List RequestedItem)
      → All IsPositive items
      → Keeps (reserve_stock env order w items)
  reserve_stock-IsLedger env order w items q = record {
    at = λ db l.
        Ends-weaken (λ r new. Reserves base order w (lock_order items w) db new)
          (λ r new. IsLedger base new) (λ e. Unit) (reserve_stock env order w items db)
          (λ r new h. h.ledger) (reserve_stock-Reserves env base order w items db q l);
  }

  pub release_reservation-IsLedger : (order : ℕ) → Keeps (release_reservation order)
  release_reservation-IsLedger order = record {
    at = λ db l.
        Ends-left (IsLedger base) (release_reservation order db)
          (release_reservation-Settles base order db l).1.ledger;
  }

  pub commit-IsLedger : (order : ℕ) → Keeps (settle_for_order order ReservationStatus.committed)
  commit-IsLedger order = record {
    at = λ db l.
        Ends-left (IsLedger base) (settle_for_order order ReservationStatus.committed db)
          (settle_for_order-IsLedger base order db l).1;
  }

  insert_history-IsLedger :
      (env : Env) (order : ℕ) (a : Option OrderStatus) (b : OrderStatus) (reason : Option String)
      → Keeps (insert_history env order a b reason)
  unfolding insert_history
  insert_history-IsLedger env order a b reason =
      untouched (insert_history env order a b reason) _ _ (λ db. refl) (λ db. refl) (λ db. refl)

  pub create-IsLedger :
      (env : Env) (customer w : ℕ) (address : PostalAddress) (point : Point) (currency : String)
      (total : ℕ)
      → Keeps (create env customer w address point currency total)
  unfolding create
  create-IsLedger env customer w address point currency total =
      search (preserve_rules, draw-IsLedger, insert_history-IsLedger, modified) depth 14

  add_item-IsLedger :
      (env : Env) (order : ℕ) (products : List Product) (i : RequestedItem)
      → Keeps (add_item env order products i)
  unfolding add_item
  add_item-IsLedger env order products i = search (preserve_rules, draw-IsLedger, modified) depth 14

  pub add_items-IsLedger :
      (env : Env) (order : ℕ) (products : List Product) (is : List RequestedItem)
      → Keeps (add_items env order products is)
  unfolding add_items
  add_items-IsLedger env order products [] = search preserve_rules
  add_items-IsLedger env order products (i ∷ is) =
      Preserves-bind (IsLedger base) (add_item env order products i) _
        (add_item-IsLedger env order products i) (λ done. add_items-IsLedger env order products is)

  swap_status-IsLedger : (order : ℕ) (a b : OrderStatus) → Keeps (swap_status order a b)
  unfolding swap_status
  swap_status-IsLedger order a b =
      untouched (swap_status order a b) _ _ (λ db. refl) (λ db. refl) (λ db. refl)

  record_move-IsLedger :
      (env : Env) (order : ℕ) (a b : OrderStatus) (reason : Option String) (moved : Option ℕ)
      → Keeps (record_move env order a b reason moved)
  unfolding record_move
  record_move-IsLedger env order a b reason none = search preserve_rules
  record_move-IsLedger env order a b reason (some m) =
      insert_history-IsLedger env order (some a) b reason

  pub transition-IsLedger :
      (env : Env) (order : ℕ) (a b : OrderStatus) (reason : Option String)
      → Keeps (transition env order a b reason)
  transition-IsLedger env order a b reason =
      unfold transition in
      search (preserve_rules, swap_status-IsLedger, record_move-IsLedger) depth 8

  pub create_pending-IsLedger :
      (env : Env) (order amount : ℕ) (currency description : String)
      → Keeps (create_pending env order amount currency description)
  unfolding create_pending
  create_pending-IsLedger env order amount currency description =
      search (preserve_rules, draw-IsLedger, modified) depth 12

  pub mark_succeeded-IsLedger :
      (payment : ℕ) (reference brand last4 : Option String)
      → Keeps (mark_succeeded payment reference brand last4)
  unfolding mark_succeeded
  mark_succeeded-IsLedger payment reference brand last4 = search (preserve_rules, modified) depth 8

  pub mark_unknown-IsLedger :
      (payment : ℕ) (reason : String) (brand last4 : Option String)
      → Keeps (mark_unknown payment reason brand last4)
  unfolding mark_unknown
  mark_unknown-IsLedger payment reason brand last4 = search modified

  pub payment_failed-IsLedger :
      (payment : ℕ) (reason : String) (brand last4 : Option String)
      → Keeps (Payments.mark_failed payment reason brand last4)
  unfolding Payments.mark_failed
  payment_failed-IsLedger payment reason brand last4 = search modified

  pub add_event-IsLedger :
      (env : Env) (event : String) (id : ℕ) (payload : Payload) → Keeps (add env event id payload)
  unfolding add
  add_event-IsLedger env event id payload = search (preserve_rules, draw-IsLedger, modified) depth 8

  insert_key-IsLedger : (env : Env) (key hashed : String) → Keeps (insert_key env key hashed)
  unfolding insert_key
  insert_key-IsLedger env key hashed = search (preserve_rules, draw-IsLedger, modified) depth 8

  pub claim-IsLedger : (env : Env) (key hashed : String) → Keeps (claim env key hashed)
  unfolding claim
  claim-IsLedger env key hashed = search (preserve_rules, Preserves-if, insert_key-IsLedger) depth 8

  pub reclaim_failed-IsLedger : (key : String) → Keeps (reclaim_failed key)
  unfolding reclaim_failed
  reclaim_failed-IsLedger key =
      untouched (reclaim_failed key) _ _ (λ db. refl) (λ db. refl) (λ db. refl)

  pub settle_completed-IsLedger :
      (key : String) (body : OrderResponse) (status order : ℕ)
      → Keeps (settle_completed key body status order)
  unfolding settle_completed
  settle_completed-IsLedger key body status order = search modified

  pub key_failed-IsLedger :
      (key : String) (order : Option ℕ) → Keeps (Idempotency.mark_failed key order)
  unfolding Idempotency.mark_failed
  key_failed-IsLedger key order = search modified
