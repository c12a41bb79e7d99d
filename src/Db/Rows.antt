-- ===== src/Db/Rows.antt =====
-- The rows of app/models, one record for each table that the modelled code reads or writes, with
-- the columns in the source's names. A nullable column is an Option; a timestamp is a number.
use canals_assessment.Prelude.{ℕ, ◌*◌, String, Bool, Option, List}
use canals_assessment.Domain.Enums.{
  OrderStatus, PaymentStatus, ReservationStatus, IdempotencyStatus,
}
use canals_assessment.Domain.Values.{Point, OrderResponse}

pub record Product : Type 0 where
  pub id : ℕ
  pub sku : String
  pub name : String
  pub unit_price_minor : ℕ
  pub currency : String
  pub is_active : Bool

pub record Warehouse : Type 0 where
  pub id : ℕ
  pub code : String
  pub name : String
  pub location : Point
  pub is_active : Bool

pub record Customer : Type 0 where
  pub id : ℕ
  pub email : String
  pub full_name : String

pub record Inventory : Type 0 where
  pub id : ℕ
  pub warehouse_id : ℕ
  pub product_id : ℕ
  pub on_hand : ℕ
  pub reserved : ℕ
  pub updated_at : ℕ

pub record Order : Type 0 where
  pub id : ℕ
  pub customer_id : ℕ
  pub status : OrderStatus
  pub warehouse_id : Option ℕ
  pub currency : String
  pub total_minor : ℕ
  pub shipping_line1 : String
  pub shipping_line2 : Option String
  pub shipping_city : String
  pub shipping_postal_code : String
  pub shipping_country_code : String
  pub shipping_point : Option Point
  pub created_at : ℕ
  pub updated_at : ℕ

pub record OrderItem : Type 0 where
  pub id : ℕ
  pub order_id : ℕ
  pub product_id : ℕ
  pub product_sku : String
  pub product_name : String
  pub unit_price_minor : ℕ
  pub currency : String
  pub quantity : ℕ
  pub created_at : ℕ

-- The generated column `line_total_minor`.
abbrev pub line_total_minor : OrderItem → ℕ
line_total_minor i = i.quantity * i.unit_price_minor

pub record OrderStatusHistory : Type 0 where
  pub id : ℕ
  pub order_id : ℕ
  pub from_status : Option OrderStatus
  pub to_status : OrderStatus
  pub reason : Option String
  pub occurred_at : ℕ

pub record Payment : Type 0 where
  pub id : ℕ
  pub order_id : ℕ
  pub status : PaymentStatus
  pub amount_minor : ℕ
  pub currency : String
  pub description : String
  pub card_brand : Option String
  pub card_last4 : Option String
  pub provider : String
  pub provider_reference : Option String
  pub failure_reason : Option String
  pub created_at : ℕ
  pub updated_at : ℕ

pub record StockReservation : Type 0 where
  pub id : ℕ
  pub order_id : ℕ
  pub warehouse_id : ℕ
  pub product_id : ℕ
  pub quantity : ℕ
  pub status : ReservationStatus
  pub expires_at : ℕ
  pub released_at : Option ℕ
  pub created_at : ℕ

pub record IdempotencyKey : Type 0 where
  pub id : ℕ
  pub key : String
  pub request_hash : String
  pub status : IdempotencyStatus
  pub response_body : Option OrderResponse
  pub response_status : Option ℕ
  pub order_id : Option ℕ
  pub created_at : ℕ
  pub updated_at : ℕ

-- The payload that the saga writes.
pub record Payload : Type 0 where
  pub order_id : String
  pub customer_id : String
  pub warehouse_id : String
  pub total_minor : ℕ
  pub currency : String
  pub payment_reference : Option String

pub record OutboxEvent : Type 0 where
  pub id : ℕ
  pub event_type : String
  pub aggregate_type : String
  pub aggregate_id : ℕ
  pub payload : Payload
  pub attempts : ℕ
  pub created_at : ℕ
  pub processed_at : Option ℕ

-- Every table, the time that `now()` returns in a transaction, and the number of ids drawn from
-- `gen_random_uuid()` so far.
pub record Db : Type 0 where
  pub products : List Product
  pub warehouses : List Warehouse
  pub customers : List Customer
  pub inventory : List Inventory
  pub orders : List Order
  pub order_items : List OrderItem
  pub order_status_history : List OrderStatusHistory
  pub payments : List Payment
  pub stock_reservations : List StockReservation
  pub idempotency_keys : List IdempotencyKey
  pub outbox : List OutboxEvent
  pub now : ℕ
  pub drawn : ℕ
