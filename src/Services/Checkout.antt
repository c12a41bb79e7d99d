-- ===== src/Services/Checkout.antt =====
-- app/services/order_checkout.py. A provider's `charge` is a function on a state of its own; that no
-- transaction is open while it runs is the shape of `checkout`, two runs of `begin` around it.
pub mod Replay
pub mod Once
pub mod Outcomes
pub mod Declined
pub mod Succeeded
pub mod Oversell
use Prim.Native.String.{◌++◌ as str_append}
use canals_assessment.Prelude.{
  ℕ, zero, suc, String, Bool, not, Option, none, some, List, str_eq, if◌then◌else◌, map,
}
use canals_assessment.Domain.Enums.{OrderStatus, ReservationStatus, IdempotencyStatus}
use canals_assessment.Domain.Values.{
  PostalAddress, RequestedItem, PaymentOutcome, PaymentResult, OrderResponse, OrderItemOut,
  WarehouseOut, Point,
}
use canals_assessment.Domain.Errors.{Exception, DomainError}
use canals_assessment.Db.Rows.{
  Db, Order, OrderItem, Warehouse, IdempotencyKey, Payload, line_total_minor,
}
use canals_assessment.Db.Tx.{
  Result, ok, err, Tx, pure, raise, gets, lift, begin, resume, ◌>>=◌, ◌>>◌, Env,
}
use canals_assessment.Repositories.Orders.{transition, get_for_response, LoadedOrder}
use canals_assessment.Repositories.Reservation.{release_reservation, settle_for_order}
use canals_assessment.Repositories.Idempotency.{claim, get, reclaim_failed, settle_completed}
use canals_assessment.Repositories.Idempotency
use canals_assessment.Repositories.Payments.{create_pending, mark_succeeded, mark_unknown}
use canals_assessment.Repositories.Payments
use canals_assessment.Repositories.Outbox
use canals_assessment.Services.Selection.{Geocoder, to_point}
use canals_assessment.Services.Creation.{create_in_transaction}

-- `x or default` on an optional text: the empty text is falsy too.
abbrev pub text_or : Option String → String → String
text_or none d = d
text_or (some s) d = if str_eq s "" then d else s

-- `x or default` on an optional status.
abbrev pub status_or : Option ℕ → ℕ → ℕ
status_or none d = d
status_or (some zero) d = d
status_or (some (suc n)) d = suc n

-- The arguments of `PaymentProvider.charge`.
pub record Charge : Type 0 where
  pub card : String
  pub amount_minor : ℕ
  pub currency : String
  pub description : String
  pub idempotency_key : String

-- The arguments of `checkout`.
pub record Request : Type 0 where
  pub idempotency_key : String
  pub request_hash : String
  pub customer_id : ℕ
  pub address : PostalAddress
  pub items : List RequestedItem
  pub card : String

pub record CheckoutResult : Type 0 where
  pub order_id : ℕ
  pub body : OrderResponse
  pub status_code : ℕ

-- The end of `_claim_key` for a `failed` key, by whether the compare-and-swap won.
unfoldable pub reclaimed : String → Bool → Tx (Unit {0})
reclaimed key won =
    if won then pure tt else raise (Exception.domain (DomainError.idempotency_in_progress key))

-- What an existing key with the same hash means.
unfoldable pub judge_status : String → IdempotencyKey → IdempotencyStatus → Tx (Unit {0})
unfolding reclaimed
judge_status key e IdempotencyStatus.completed =
    raise (Exception.replayed e.response_body (status_or e.response_status 200))
judge_status key e IdempotencyStatus.failed = do won ← reclaim_failed key; reclaimed key won
judge_status key e IdempotencyStatus.in_progress =
    raise (Exception.domain (DomainError.idempotency_in_progress key))

-- What an existing key means: its hash first.
unfoldable pub judge : String → String → Option IdempotencyKey → Tx (Unit {0})
unfolding judge_status
judge key hashed none = raise (Exception.domain (DomainError.idempotency_in_progress key))
judge key hashed (some e) =
    if not (str_eq e.request_hash hashed)
    then raise (Exception.domain (DomainError.idempotency_key_reuse key))
    else judge_status key e e.status

unfoldable pub after_claim : String → String → Option ℕ → Tx (Unit {0})
unfolding judge
after_claim key hashed (some id) = pure tt
after_claim key hashed none = do existing ← get key; judge key hashed existing

-- `_claim_key`
unfoldable pub claim_key : Env → String → String → Tx (Unit {0})
unfolding after_claim
claim_key env key hashed = do claimed ← claim env key hashed; after_claim key hashed claimed

-- What tx1 leaves to the rest of `checkout`.
pub record Placed : Type 0 where
  pub order : Order
  pub payment_id : ℕ

abbrev pub describe : Env → ℕ → String
describe env order_id = str_append "Order " (env.str_uuid order_id)

-- The body of tx1, once the key is claimed.
unfoldable pub place_claimed : Env → Geocoder → Request → Point → Tx Placed
place_claimed env geocode r shipping_point = do
  order ← create_in_transaction env geocode r.customer_id r.address r.items shipping_point
  payment ← create_pending env order.id order.total_minor order.currency (describe env order.id)
  pure (record { order = order; payment_id = payment.id })

-- The body of tx1.
unfoldable pub place : Env → Geocoder → Request → Point → Tx Placed
place env geocode r shipping_point = do
  claim_key env r.idempotency_key r.request_hash
  place_claimed env geocode r shipping_point

abbrev pub item_out : OrderItem → OrderItemOut
item_out i = record {
  product_id = i.product_id;
  product_sku = i.product_sku;
  product_name = i.product_name;
  quantity = i.quantity;
  unit_price_minor = i.unit_price_minor;
  currency = i.currency;
  line_total_minor = line_total_minor i;
}

abbrev pub warehouse_out : Option Warehouse → Option WarehouseOut
warehouse_out none = none
warehouse_out (some w) = some (record { id = w.id; code = w.code; name = w.name })

abbrev pub response : LoadedOrder → Option String → OrderResponse
response l reference = record {
  id = l.order.id;
  status = l.order.status;
  warehouse = warehouse_out l.warehouse;
  items = map item_out l.items;
  total_minor = l.order.total_minor;
  currency = l.order.currency;
  payment_reference = reference;
  created_at = l.order.created_at;
}

-- `_render`
unfoldable pub render : ℕ → Option String → Tx OrderResponse
render order_id reference = do loaded ← get_for_response order_id; pure (response loaded reference)

-- `str(order.warehouse_id)`
abbrev pub str_optional : Env → Option ℕ → String
str_optional env none = "None"
str_optional env (some w) = env.str_uuid w

abbrev pub order_confirmed : String
order_confirmed = "order_confirmed"

abbrev pub payload_of : Env → Order → PaymentResult → Payload
payload_of env order result = record {
  order_id = env.str_uuid order.id;
  customer_id = env.str_uuid order.customer_id;
  warehouse_id = str_optional env order.warehouse_id;
  total_minor = order.total_minor;
  currency = order.currency;
  payment_reference = result.reference;
}

-- `_complete`, up to the response.
unfoldable pub fulfil : Env → Order → ℕ → PaymentResult → Tx OrderResponse
fulfil env order payment_id result = do
  mark_succeeded payment_id result.reference result.card_brand result.card_last4
  transition env order.id OrderStatus.reserved OrderStatus.paid (some "payment succeeded")
  transition env order.id OrderStatus.paid OrderStatus.confirmed (some "order confirmed")
  settle_for_order order.id ReservationStatus.committed
  Outbox.add env order_confirmed order.id (payload_of env order result)
  render order.id result.reference

-- `_complete`
unfoldable pub complete : Env → Order → ℕ → PaymentResult → String → Tx OrderResponse
complete env order payment_id result key = do
  body ← fulfil env order payment_id result
  settle_completed key body 201 order.id
  pure body

-- `_compensate`
unfoldable pub compensate : Env → Order → ℕ → PaymentResult → String → Tx (Unit {0})
compensate env order payment_id result key = do
  Payments.mark_failed payment_id (text_or result.failure_reason "declined") result.card_brand
      result.card_last4
  release_reservation order.id
  transition env order.id OrderStatus.reserved OrderStatus.payment_failed
      (some (text_or result.failure_reason "declined"))
  Idempotency.mark_failed key (some order.id)

-- `_leave_unresolved`
unfoldable pub leave_unresolved : ℕ → PaymentResult → Tx (Unit {0})
leave_unresolved payment_id result =
    mark_unknown payment_id (text_or result.failure_reason "unknown") result.card_brand
      result.card_last4

-- The body of tx2, by the provider's outcome; only a success has a response.
unfoldable pub resolve :
    Env → Placed → PaymentResult → String → PaymentOutcome → Tx (Option OrderResponse)
resolve env placed result key PaymentOutcome.succeeded = do
  body ← complete env placed.order placed.payment_id result key
  pure (some body)
resolve env placed result key PaymentOutcome.declined = do
  compensate env placed.order placed.payment_id result key
  pure none
resolve env placed result key PaymentOutcome.unknown = do
  leave_unresolved placed.payment_id result
  pure none

-- What `checkout` raises or returns after tx2.
unfoldable pub answer :
    ℕ → PaymentResult → Option OrderResponse → PaymentOutcome → Result CheckoutResult
answer order_id result body PaymentOutcome.declined =
    err (Exception.domain (DomainError.payment_declined (text_or result.failure_reason "declined")))
answer order_id result body PaymentOutcome.unknown =
    err
      (Exception.domain (DomainError.payment_unresolved (text_or result.failure_reason "unknown")))
answer order_id result none PaymentOutcome.succeeded = err Exception.runtime_error
answer order_id result (some body) PaymentOutcome.succeeded =
    ok (record { order_id = order_id; body = body; status_code = 201 })

abbrev pub charge_of : Env → Request → Order → Charge
charge_of env r order = record {
  card = r.card;
  amount_minor = order.total_minor;
  currency = order.currency;
  description = describe env order.id;
  idempotency_key = env.str_uuid order.id;
}

-- From the provider's answer on: tx2 and what follows it.
unfoldable pub conclude : Env → Request → Placed → PaymentResult → Tx CheckoutResult
unfolding answer
conclude env r placed result = do
  body ← begin (resolve env placed result r.idempotency_key result.outcome)
  lift (answer placed.order.id result body result.outcome)

-- Geocoding and tx1.
unfoldable pub open_order : Env → Geocoder → Request → Tx Placed
open_order env geocode r = do
  coordinates ← lift (geocode r.address)
  shipping_point ← lift (to_point coordinates)
  begin (place env geocode r shipping_point)

module _ {P : Type 0} (charge : P → Charge → PaymentResult × P) where
  -- The charge, with tx1 committed and no transaction open, and the rest.
  unfoldable pub pay : Env → Request → Result Placed × Db → P → Result CheckoutResult × Db × P
  pay env r (err e, db) provider = (err e, db, provider)
  pay env r (ok placed, db) provider =
      let (result, provider') = charge provider (charge_of env r placed.order) in
      let (answered, db') = conclude env r placed result db in (answered, db', provider')

  -- `OrderCheckoutService.checkout`
  unfoldable pub checkout : Env → Geocoder → Request → Db → P → Result CheckoutResult × Db × P
  unfolding pay
  checkout env geocode r db provider = pay env r (open_order env geocode r db) provider
