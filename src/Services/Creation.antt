-- ===== src/Services/Creation.antt =====
-- app/services/order_creation.py.
use canals_assessment.Prelude.{
  ℕ, ◌+◌, ◌*◌, String, Bool, false, ◌||◌, none, some, List, [], ◌∷◌, map, str_eq, length, ltb,
  head?, distinct, if◌then◌else◌,
}
use canals_assessment.Domain.Enums.{OrderStatus}
use canals_assessment.Domain.Values.{PostalAddress, Point, RequestedItem}
use canals_assessment.Domain.Errors.{Exception, DomainError}
use canals_assessment.Db.Rows.{Product, Order}
use canals_assessment.Db.Tx.{
  Result, ok, err, Tx, pure, gets, lift, or_raise, raise_if, begin, ◌>>=◌, ◌>>◌, Env,
}
use canals_assessment.Repositories.Orders.{get_by_ids, product_of, create, add_items, transition}
use canals_assessment.Repositories.Reservation.{reserve_stock}
use canals_assessment.Repositories.Warehouses.{product_ids}
use canals_assessment.Services.Selection.{Geocoder, select, to_point}

abbrev pub text_mem : String → List String → Bool
text_mem s [] = false
text_mem s (x ∷ xs) = str_eq s x || text_mem s xs

-- `frozenset` of texts.
abbrev pub distinct_texts : List String → List String
distinct_texts [] = []
distinct_texts (x ∷ xs) = let rest = distinct_texts xs in if text_mem x rest then rest else x ∷ rest

-- `products[item.product_id].unit_price_minor * item.quantity`
unfoldable pub line_price : List Product → RequestedItem → Result ℕ
line_price products i = elim (product_of i.product_id products) [
  | none ↦ err Exception.key_error
  | some p ↦ ok (p.unit_price_minor * i.quantity)
]

abbrev pub add_price : Result ℕ → Result ℕ → Result ℕ
add_price (ok a) (ok b) = ok (a + b)
add_price (ok a) (err e) = err e
add_price (err e) r = err e

-- The `sum(…)` of the lines.
unfoldable pub order_total : List Product → List RequestedItem → Result ℕ
unfolding line_price
order_total products [] = ok 0
order_total products (i ∷ is) = add_price (line_price products i) (order_total products is)

-- `OrderCreationService.create_in_transaction`
unfoldable pub create_in_transaction :
    Env → Geocoder → ℕ → PostalAddress → List RequestedItem → Point → Tx Order
create_in_transaction env geocode customer_id address items shipping_point = do
  candidate ← select env geocode address items
  products ← gets (get_by_ids (distinct (product_ids items)))
  let currencies = distinct_texts (map (λ (p : Product). p.currency) products)
  raise_if (ltb 1 (length currencies))
      (Exception.domain (DomainError.mixed_currency_basket currencies))
  currency ← or_raise (head? currencies) Exception.stop_iteration
  total_minor ← lift (order_total products items)
  order ← create env customer_id candidate.id address shipping_point currency total_minor
  add_items env order.id products items
  reserve_stock env order.id candidate.id items
  transition env order.id OrderStatus.pending OrderStatus.reserved (some "stock reserved")
  pure order

-- `OrderCreationService.create`
unfoldable pub create_order : Env → Geocoder → ℕ → PostalAddress → List RequestedItem → Tx Order
create_order env geocode customer_id address items = do
  coordinates ← lift (geocode address)
  shipping_point ← lift (to_point coordinates)
  begin (create_in_transaction env geocode customer_id address items shipping_point)
