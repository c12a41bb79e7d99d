-- ===== src/Tests/Fixture.antt =====
-- A shop with two products, two warehouses, one customer, and the seeds' five units of the first
-- product that are reserved without a reservation (app/seeds.py).
use canals_assessment.Prelude.{
  ℕ, ◌+◌, true, ◌&&◌, none, some, List, [], ◌∷◌, ◌==◌, if◌then◌else◌, ltb,
}
use canals_assessment.Domain.Values.{
  PostalAddress, Coordinates, Point, ℤ, RequestedItem, PaymentResult, PaymentOutcome,
}
use canals_assessment.Db.Rows.{Db, Product}
use canals_assessment.Db.Tx.{Env, Result, ok}
use canals_assessment.Services.Checkout.{Request, Charge}

abbrev pub env : Env
env = record {
  gen_random_uuid = λ n. 100 + n;
  st_distance = λ a b. 0;
  collates = λ a b. true;
  str_uuid = λ n. if ltb n 101 then "order-100" else "another";
  reservation_ttl_seconds = 900;
}

abbrev pub madrid : Point
madrid = record { x = ℤ.negsuc 3703799; y = ℤ.pos 40416800 }

abbrev pub keyboard : Product
keyboard = record {
  id = 1;
  sku = "SKU-KEYB";
  name = "Keyboard";
  unit_price_minor = 8900;
  currency = "EUR";
  is_active = true;
}

abbrev pub mouse : Product
mouse = record {
  id = 2;
  sku = "SKU-MOUSE";
  name = "Mouse";
  unit_price_minor = 3450;
  currency = "EUR";
  is_active = true;
}

abbrev pub shop : Db
shop = record {
  products = keyboard ∷ mouse ∷ [];
  warehouses =
      record { id = 10; code = "MAD-01"; name = "Madrid"; location = madrid; is_active = true }
      ∷ [];
  customers = record { id = 7; email = "ada@example.com"; full_name = "Ada" } ∷ [];
  inventory =
      record {
        id = 20;
        warehouse_id = 10;
        product_id = 1;
        on_hand = 50;
        reserved = 5;
        updated_at = 0;
      }
      ∷ record {
        id = 21;
        warehouse_id = 10;
        product_id = 2;
        on_hand = 40;
        reserved = 0;
        updated_at = 0;
      }
      ∷ [];
  orders = [];
  order_items = [];
  order_status_history = [];
  payments = [];
  stock_reservations = [];
  idempotency_keys = [];
  outbox = [];
  now = 1000;
  drawn = 0;
}

-- What the seeds insert as reserved.
abbrev pub seeded : ℕ → ℕ → ℕ
seeded w p = if (10 == w) && (1 == p) then 5 else 0

abbrev pub basket : List RequestedItem
basket = record { product_id = 2; quantity = 3 } ∷ record { product_id = 1; quantity = 2 } ∷ []

abbrev pub geocode : PostalAddress → Result Coordinates
geocode a = ok (record { lat = ℤ.pos 40416800; lon = ℤ.negsuc 3703799 })

abbrev pub request : Request
request = record {
  idempotency_key = "key-1";
  request_hash = "hash-1";
  customer_id = 7;
  address = record {
    line1 = "Calle 1";
    city = "Madrid";
    postal_code = "28014";
    country_code = "ES";
    line2 = none;
  };
  items = basket;
  card = "4242424242424242";
}

abbrev pub paying : PaymentResult
paying = record {
  outcome = PaymentOutcome.succeeded;
  reference = some "mock_1";
  failure_reason = none;
  card_brand = some "visa";
  card_last4 = some "4242";
}

-- A provider that counts its charges.
abbrev pub charge : ℕ → Charge → PaymentResult × ℕ
charge n c = (paying, n + 1)
