-- ===== src/Repositories/Orders.antt =====
-- app/repositories/order.py and app/repositories/product.py. `session.add` followed by a flush
-- inserts at the end of the table. Of the constraints, those that the code itself does not rule out
-- are checked: the foreign key of `orders.customer_id` and the UNIQUE line of a product.
pub mod History
use canals_assessment.Prelude.{
  ℕ, suc, String, Bool, not, ◌&&◌, Option, none, some, List, [], ◌∷◌, ◌++◌, map, ◌==◌, head?,
  contains,
}
use canals_assessment.Domain.Enums.{OrderStatus, order_status_eq, status_value}
use canals_assessment.Domain.Values.{PostalAddress, Point, RequestedItem}
use canals_assessment.Domain.Errors.{Exception, DomainError}
use canals_assessment.Domain.OrderState.{is_allowed}
use canals_assessment.Sql.{update_rows, select_rows, exists_row}
use canals_assessment.Db.Rows.{
  Db, Product, Warehouse, Customer, Order, OrderItem, OrderStatusHistory,
}
use canals_assessment.Db.Tx.{
  Result, Tx, pure, raise, gets, or_raise, raise_if, modify, ◌>>=◌, ◌>>◌, Env, draw,
}

-- `ProductRepository.existing_ids`
unfoldable pub existing_ids : List ℕ → Db → List ℕ
existing_ids product_ids db =
    map (λ p. p.id) (select_rows (λ p. contains p.id product_ids) db.products)

-- `ProductRepository.get_by_ids`, a dict as the list of its values.
unfoldable pub get_by_ids : List ℕ → Db → List Product
get_by_ids product_ids db = select_rows (λ p. contains p.id product_ids) db.products

-- `products[product_id]`
unfoldable pub product_of : ℕ → List Product → Option Product
product_of product_id products = head? (select_rows (λ p. p.id == product_id) products)

abbrev pub has_id : ℕ → Order → Bool
has_id order_id o = o.id == order_id

abbrev pub add_history : OrderStatusHistory → Db → Db
add_history h db = record db { order_status_history = db.order_status_history ++ h ∷ [] }

abbrev pub add_order : Order → Db → Db
add_order o db = record db { orders = db.orders ++ o ∷ [] }

-- The row that `session.add(OrderStatusHistory(…))` writes.
unfoldable pub insert_history :
    Env → ℕ → Option OrderStatus → OrderStatus → Option String → Tx (Unit {0})
insert_history env order_id from_status to_status reason = do
  now ← gets (λ db. db.now)
  id ← draw env
  modify (
      add_history (record {
        id = id;
        order_id = order_id;
        from_status = from_status;
        to_status = to_status;
        reason = reason;
        occurred_at = now;
      }))

-- `OrderRepository.create`: the order is born `pending`.
unfoldable pub create : Env → ℕ → ℕ → PostalAddress → Point → String → ℕ → Tx Order
unfolding insert_history
create env customer_id warehouse_id address shipping_point currency total_minor = do
  known ← gets (λ db. exists_row (λ c. c.id == customer_id) db.customers)
  raise_if (not known) Exception.integrity_error
  now ← gets (λ db. db.now)
  id ← draw env
  let order : Order = record {
    id = id;
    customer_id = customer_id;
    status = OrderStatus.pending;
    warehouse_id = some warehouse_id;
    currency = currency;
    total_minor = total_minor;
    shipping_line1 = address.line1;
    shipping_line2 = address.line2;
    shipping_city = address.city;
    shipping_postal_code = address.postal_code;
    shipping_country_code = address.country_code;
    shipping_point = some shipping_point;
    created_at = now;
    updated_at = now;
  }
  modify (add_order order)
  insert_history env id none OrderStatus.pending (some "order created")
  pure order

abbrev pub add_line : OrderItem → Db → Db
add_line i db = record db { order_items = db.order_items ++ i ∷ [] }

abbrev pub is_line : ℕ → ℕ → OrderItem → Bool
is_line order_id product_id i = (i.order_id == order_id) && (i.product_id == product_id)

-- One round of the loop of `add_items`.
unfoldable pub add_item : Env → ℕ → List Product → RequestedItem → Tx (Unit {0})
unfolding product_of
add_item env order_id products i = do
  product ← or_raise (product_of i.product_id products) Exception.key_error
  clash ← gets (λ db. exists_row (is_line order_id product.id) db.order_items)
  raise_if clash Exception.integrity_error
  now ← gets (λ db. db.now)
  id ← draw env
  modify (
      add_line (record {
        id = id;
        order_id = order_id;
        product_id = product.id;
        product_sku = product.sku;
        product_name = product.name;
        unit_price_minor = product.unit_price_minor;
        currency = product.currency;
        quantity = i.quantity;
        created_at = now;
      }))

-- `OrderRepository.add_items`
unfoldable pub add_items : Env → ℕ → List Product → List RequestedItem → Tx (Unit {0})
add_items env order_id products [] = pure tt
add_items env order_id products (i ∷ is) = do
  add_item env order_id products i
  add_items env order_id products is

abbrev pub is_in_status : ℕ → OrderStatus → Order → Bool
is_in_status order_id status o = (o.id == order_id) && order_status_eq o.status status

abbrev pub move_to : OrderStatus → ℕ → Order → Order
move_to status now o = record o { status = status; updated_at = now }

-- The compare-and-swap UPDATE of `transition`, RETURNING the order's id.
unfoldable pub swap_status : ℕ → OrderStatus → OrderStatus → Tx (Option ℕ)
swap_status order_id from_status to_status db = (
  Result.ok (head? (map (λ o. o.id) (select_rows (is_in_status order_id from_status) db.orders))),
  record db {
    orders = update_rows (is_in_status order_id from_status) (move_to to_status db.now) db.orders;
  },
)

-- `actual.value if actual is not None else "missing"`
abbrev pub actual_value : Option Order → String
actual_value none = "missing"
actual_value (some o) = status_value o.status

-- The end of `transition`, by what the UPDATE returned.
unfoldable pub record_move :
    Env → ℕ → OrderStatus → OrderStatus → Option String → Option ℕ → Tx (Unit {0})
unfolding insert_history
record_move env order_id from_status to_status reason none = do
  actual ← gets (λ db. head? (select_rows (has_id order_id) db.orders))
  raise (
      Exception.domain (
        DomainError.invalid_state_transition order_id (status_value to_status)
          (actual_value actual)))
record_move env order_id from_status to_status reason (some moved) =
    insert_history env order_id (some from_status) to_status reason

-- `OrderRepository.transition`
unfoldable pub transition : Env → ℕ → OrderStatus → OrderStatus → Option String → Tx (Unit {0})
unfolding is_allowed swap_status record_move
transition env order_id from_status to_status reason = do
  raise_if (not (is_allowed from_status to_status)) (
      Exception.domain (
        DomainError.invalid_state_transition order_id (status_value to_status)
          (status_value from_status)))
  moved ← swap_status order_id from_status to_status
  record_move env order_id from_status to_status reason moved

-- An order with its lines and its warehouse, as `get_for_response` loads it.
pub record LoadedOrder : Type 0 where
  pub order : Order
  pub items : List OrderItem
  pub warehouse : Option Warehouse

-- The row that `joinedload(Order.warehouse)` finds.
abbrev pub warehouse_of : Db → Option ℕ → Option Warehouse
warehouse_of db none = none
warehouse_of db (some w) = head? (select_rows (λ h. h.id == w) db.warehouses)

-- `OrderRepository.get_for_response`
unfoldable pub get_for_response : ℕ → Tx LoadedOrder
get_for_response order_id = do
  found ← gets (λ db. head? (select_rows (has_id order_id) db.orders))
  order ← or_raise found Exception.lookup_error
  items ← gets (λ db. select_rows (λ i. i.order_id == order_id) db.order_items)
  warehouse ← gets (λ db. warehouse_of db order.warehouse_id)
  pure (record { order = order; items = items; warehouse = warehouse })
