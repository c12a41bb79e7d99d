-- ===== src/Domain/Values.antt =====
-- The value objects of app/domain (address.py, geo.py, payment.py, selection.py, reservation.py)
-- and the response schemas of app/schemas/order.py. Ids are the integers behind the UUIDs, which
-- Python and PostgreSQL compare alike. A coordinate is a whole number of microdegrees, the six
-- decimals of the geocoder's `round(…, 6)`; a distance is a natural number, in the order of the
-- non-negative floats that ST_Distance returns.
use canals_assessment.Prelude.{ℕ, ◌<◌, String, Bool, ◌&&◌, Option, List, leb, ltb}
use canals_assessment.Domain.Enums.{OrderStatus}

-- Signed numbers: `negsuc n` is -(n + 1).
pub data ℤ : Type 0 where
  pos : ℕ → ℤ
  negsuc : ℕ → ℤ

-- `-b <= x <= b`
abbrev pub within : ℕ → ℤ → Bool
within b (ℤ.pos n) = leb n b
within b (ℤ.negsuc n) = ltb n b

pub record PostalAddress : Type 0 where
  pub line1 : String
  pub city : String
  pub postal_code : String
  pub country_code : String
  pub line2 : Option String

pub record Coordinates : Type 0 where
  pub lat : ℤ
  pub lon : ℤ

-- The range test of `Coordinates.__post_init__` and of `to_point`.
abbrev pub in_range : Coordinates → Bool
in_range c = within 90000000 c.lat && within 180000000 c.lon

-- A geography POINT, written longitude first.
pub record Point : Type 0 where
  pub x : ℤ
  pub y : ℤ

pub data PaymentOutcome : Type 0 where
  succeeded declined unknown : PaymentOutcome

pub record PaymentResult : Type 0 where
  pub outcome : PaymentOutcome
  pub reference : Option String
  pub failure_reason : Option String
  pub card_brand : Option String
  pub card_last4 : Option String

pub record RequestedItem : Type 0 where
  pub product_id : ℕ
  pub quantity : ℕ

-- `RequestedItem.__post_init__` refuses any other quantity.
abbrev pub IsPositive : RequestedItem → Type 0
IsPositive i = 0 < i.quantity

pub record WarehouseCandidate : Type 0 where
  pub id : ℕ
  pub code : String
  pub name : String
  pub distance_m : ℕ

pub record ReservedItem : Type 0 where
  pub product_id : ℕ
  pub quantity : ℕ

pub record ReservationResult : Type 0 where
  pub warehouse_id : ℕ
  pub items : List ReservedItem

pub record ReleasedItem : Type 0 where
  pub warehouse_id : ℕ
  pub product_id : ℕ
  pub quantity : ℕ

-- app/schemas/order.py, the output side.
pub record WarehouseOut : Type 0 where
  pub id : ℕ
  pub code : String
  pub name : String

pub record OrderItemOut : Type 0 where
  pub product_id : ℕ
  pub product_sku : String
  pub product_name : String
  pub quantity : ℕ
  pub unit_price_minor : ℕ
  pub currency : String
  pub line_total_minor : ℕ

pub record OrderResponse : Type 0 where
  pub id : ℕ
  pub status : OrderStatus
  pub warehouse : Option WarehouseOut
  pub items : List OrderItemOut
  pub total_minor : ℕ
  pub currency : String
  pub payment_reference : Option String
  pub created_at : ℕ
