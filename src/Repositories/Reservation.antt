-- ===== src/Repositories/Reservation.antt =====
-- app/repositories/reservation.py. `session.add` followed by a flush is an insert at the end of the
-- table, which the UNIQUE constraint on (order, warehouse, product) may refuse.
pub mod Ledger
pub mod Supply
pub mod Reserve
pub mod Atomic
pub mod GiveBack
pub mod Settle
pub mod RoundTrip
pub mod Frames
use canals_assessment.Prelude.{
  ℕ, ◌+◌, ◌-◌, Bool, ◌&&◌, ◌||◌, Option, none, some, List, [], ◌∷◌, ◌++◌, map, leb, ltb, ◌==◌,
  head?, take, contains,
}
use canals_assessment.Prelude.Sorting.{sort_by}
use canals_assessment.Domain.Enums.{ReservationStatus, is_active}
use canals_assessment.Domain.Values.{RequestedItem, ReservedItem, ReservationResult, ReleasedItem}
use canals_assessment.Domain.Errors.{Exception, DomainError}
use canals_assessment.Sql.{update_rows, select_rows, exists_row}
use canals_assessment.Db.Rows.{Db, Inventory, StockReservation}
use canals_assessment.Db.Tx.{
  Result, Tx, pure, gets, or_raise, raise_if, modify, ◌>>=◌, ◌>>◌, Env, draw,
}

-- The comparison of two keys `(warehouse_id, product_id)`.
abbrev pub key_leb : ℕ → ℕ → ℕ → ℕ → Bool
key_leb w p v q = ltb w v || ((w == v) && leb p q)

-- The sort key of `_lock_order`.
abbrev pub requested_leb : ℕ → RequestedItem → RequestedItem → Bool
requested_leb w i j = key_leb w i.product_id w j.product_id

-- `_lock_order`
unfoldable pub lock_order : List RequestedItem → ℕ → List RequestedItem
lock_order items warehouse_id = sort_by (requested_leb warehouse_id) items

-- The inventory row of a (warehouse, product) pair.
abbrev pub stocks : ℕ → ℕ → Inventory → Bool
stocks w p r = (r.warehouse_id == w) && (r.product_id == p)

-- `on_hand - reserved >= quantity`, as whole numbers, at the row of the pair.
abbrev pub can_supply : ℕ → RequestedItem → Inventory → Bool
can_supply w i r = stocks w i.product_id r && leb (r.reserved + i.quantity) r.on_hand

abbrev pub add_reserved : ℕ → ℕ → Inventory → Inventory
add_reserved q now r = record r { reserved = r.reserved + q; updated_at = now }

-- The conditional UPDATE of `reserve_stock`, RETURNING the row's id.
unfoldable pub claim_stock : ℕ → RequestedItem → Tx (Option ℕ)
claim_stock w i db = (
  Result.ok (head? (map (λ r. r.id) (select_rows (can_supply w i) db.inventory))),
  record db {
    inventory = update_rows (can_supply w i) (add_reserved i.quantity db.now) db.inventory;
  },
)

-- The key of the UNIQUE constraint on `stock_reservations`.
abbrev pub reserves : ℕ → ℕ → ℕ → StockReservation → Bool
reserves order w p s = (s.order_id == order) && ((s.warehouse_id == w) && (s.product_id == p))

abbrev pub add_reservation : StockReservation → Db → Db
add_reservation s db = record db { stock_reservations = db.stock_reservations ++ s ∷ [] }

-- `session.add(StockReservation(…))`
unfoldable pub insert_reservation : Env → ℕ → ℕ → ℕ → RequestedItem → Tx (Unit {0})
insert_reservation env order w expires_at i = do
  clash ← gets (λ db. exists_row (reserves order w i.product_id) db.stock_reservations)
  raise_if clash Exception.integrity_error
  now ← gets (λ db. db.now)
  id ← draw env
  modify (
      add_reservation (record {
        id = id;
        order_id = order;
        warehouse_id = w;
        product_id = i.product_id;
        quantity = i.quantity;
        status = ReservationStatus.active;
        expires_at = expires_at;
        released_at = none;
        created_at = now;
      }))

-- One round of the loop of `reserve_stock`.
unfoldable pub reserve_item : Env → ℕ → ℕ → ℕ → RequestedItem → Tx ReservedItem
reserve_item env order w expires_at i = do
  claimed ← claim_stock w i
  or_raise claimed (Exception.domain (DomainError.insufficient_stock i.product_id i.quantity))
  insert_reservation env order w expires_at i
  pure (record { product_id = i.product_id; quantity = i.quantity })

unfoldable pub reserve_items : Env → ℕ → ℕ → ℕ → List RequestedItem → Tx (List ReservedItem)
reserve_items env order w expires_at [] = pure []
reserve_items env order w expires_at (i ∷ is) = do
  r ← reserve_item env order w expires_at i
  rs ← reserve_items env order w expires_at is
  pure (r ∷ rs)

unfoldable pub reserve_stock : Env → ℕ → ℕ → List RequestedItem → Tx ReservationResult
reserve_stock env order w items = do
  now ← gets (λ db. db.now)
  reserved ← reserve_items env order w (now + env.reservation_ttl_seconds) (lock_order items w)
  pure (record { warehouse_id = w; items = reserved })

-- The rows that the UPDATE of a settlement claims leave `active` with a release time.
abbrev pub settle_row : ReservationStatus → ℕ → StockReservation → StockReservation
settle_row status now s = record s { status = status; released_at = some now }

abbrev pub released_item : StockReservation → ReleasedItem
released_item s = record {
  warehouse_id = s.warehouse_id;
  product_id = s.product_id;
  quantity = s.quantity;
}

abbrev pub can_return : ReleasedItem → Inventory → Bool
can_return i r = stocks i.warehouse_id i.product_id r && leb i.quantity r.reserved

abbrev pub sub_reserved : ℕ → ℕ → Inventory → Inventory
sub_reserved q now r = record r { reserved = r.reserved - q; updated_at = now }

-- The conditional UPDATE of `_settle`, RETURNING the row's id.
unfoldable pub return_stock : ReleasedItem → Tx (Option ℕ)
return_stock i db = (
  Result.ok (head? (map (λ r. r.id) (select_rows (can_return i) db.inventory))),
  record db {
    inventory = update_rows (can_return i) (sub_reserved i.quantity db.now) db.inventory;
  },
)

-- The loop of `_settle`.
unfoldable pub give_back : List ReleasedItem → Tx (Unit {0})
give_back [] = pure tt
give_back (i ∷ is) = do
  decremented ← return_stock i
  or_raise decremented Exception.runtime_error
  give_back is

abbrev pub released_leb : ReleasedItem → ReleasedItem → Bool
released_leb a b = key_leb a.warehouse_id a.product_id b.warehouse_id b.product_id

-- The UPDATE that claims the rows of a settlement.
unfoldable pub claim_rows : (StockReservation → Bool) → ReservationStatus → Tx (Unit {0})
claim_rows test status = modify λ db. record db {
  stock_reservations = update_rows test (settle_row status db.now) db.stock_reservations;
}

-- `_settle`, with the claim given by its WHERE clause and the status that it sets.
unfoldable pub settle : (StockReservation → Bool) → ReservationStatus → Tx (List ReleasedItem)
unfolding claim_rows
settle test status = do
  rows ← gets (λ db. select_rows test db.stock_reservations)
  claim_rows test status
  give_back (sort_by released_leb (map released_item rows))
  pure (map released_item rows)

abbrev pub holds_for : ℕ → StockReservation → Bool
holds_for order s = (s.order_id == order) && is_active s.status

unfoldable pub release_reservation : ℕ → Tx (List ReleasedItem)
release_reservation order = settle (holds_for order) ReservationStatus.released

-- The hold becomes a sale: inventory is not touched.
unfoldable pub settle_for_order : ℕ → ReservationStatus → Tx (Unit {0})
unfolding claim_rows
settle_for_order order status = claim_rows (holds_for order) status

abbrev pub has_expired : ℕ → StockReservation → Bool
has_expired now s = is_active s.status && ltb s.expires_at now

abbrev pub expires_leb : StockReservation → StockReservation → Bool
expires_leb a b = leb a.expires_at b.expires_at

-- The subquery of `sweep_expired`.
unfoldable pub expired_ids : ℕ → Db → List ℕ
expired_ids batch_size db =
    map (λ s. s.id)
      (take batch_size
        (sort_by expires_leb (select_rows (has_expired db.now) db.stock_reservations)))

abbrev pub is_swept : List ℕ → StockReservation → Bool
is_swept ids s = is_active s.status && contains s.id ids

unfoldable pub sweep_expired : ℕ → Tx (List ReleasedItem)
sweep_expired batch_size = do
  ids ← gets (expired_ids batch_size)
  settle (is_swept ids) ReservationStatus.expired
