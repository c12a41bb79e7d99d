-- ===== src/Api/Orders.antt =====
-- app/api/routes/orders.py: POST /orders for a body that has passed validation. SHA-256 of the
-- serialised body without its card number is a parameter, a function of the rest of the body.
pub mod Retry
pub mod Problems
use Prim.Native.String.{◌++◌ as str_append, ◌∷◌ as ◌∷ₛ◌, [] as empty}
use Prim.Native.Char.{Char, code}
use canals_assessment.Prelude.{
  ℕ, String, Bool, true, false, ◌&&◌, ◌||◌, Option, none, some, List, ◌==◌, leb, if◌then◌else◌,
}
use canals_assessment.Domain.Values.{PostalAddress, RequestedItem, OrderResponse, PaymentResult}
use canals_assessment.Domain.Errors.{Exception, DomainError}
use canals_assessment.Db.Rows.{Db}
use canals_assessment.Db.Tx.{Result, ok, err, Env}
use canals_assessment.Services.Selection.{Geocoder}
use canals_assessment.Services.Checkout.{Request, CheckoutResult, Charge, checkout}
use canals_assessment.Api.Errors.{ErrorResponse, error_response}
use canals_assessment.Api.Schemas.{CreateOrderRequest}

abbrev between : ℕ → ℕ → ℕ → Bool
between low high n = leb low n && leb n high

-- The characters that `str.strip()` removes, by their code points.
abbrev pub is_space : Char → Bool
is_space c =
    (between 9 13 (code c) || (between 28 32 (code c) || ((code c == 133) || (code c == 160))))
    || ((code c == 5760)
        || (between 8192 8202 (code c)
            || (between 8232 8233 (code c)
                || ((code c == 8239) || ((code c == 8287) || (code c == 12288))))))

-- `not s.strip()`
abbrev pub is_blank : String → Bool
is_blank empty = true
is_blank (c ∷ₛ s) = is_space c && is_blank s

pub data Body : Type 0 where
  order : OrderResponse → Body
  empty_object : Body
  problem : ErrorResponse → Body

pub record HttpResponse : Type 0 where
  pub status_code : ℕ
  pub content : Body
  pub location : Option String

-- What the client gets, by how `checkout` ended.
unfoldable pub reply : Env → (DomainError → String) → Result CheckoutResult → HttpResponse
reply env str (ok c) = record {
  status_code = 201;
  content = Body.order c.body;
  location = some (str_append "/orders/" (env.str_uuid c.order_id));
}
reply env str (err (Exception.replayed (some body) status)) = record {
  status_code = status;
  content = Body.order body;
  location = some (str_append "/orders/" (env.str_uuid body.id));
}
reply env str (err (Exception.replayed none status)) = record {
  status_code = status;
  content = Body.empty_object;
  location = some "/orders/";
}
reply env str (err e) = record {
  status_code = (error_response str e).status;
  content = Body.problem (error_response str e);
  location = none;
}

abbrev pub request_of : (CreateOrderRequest → String) → CreateOrderRequest → String → Request
request_of request_hash payload key = record {
  idempotency_key = key;
  request_hash = request_hash payload;
  customer_id = payload.customer_id;
  address = payload.shipping_address;
  items = payload.items;
  card = payload.card_number;
}

module _ {P : Type 0} (charge : P → Charge → PaymentResult × P) (env : Env) (geocode : Geocoder)
    (str : DomainError → String) (request_hash : CreateOrderRequest → String) where
  abbrev missing_key : HttpResponse
  missing_key = reply env str (err (Exception.domain DomainError.idempotency_key_required))

  unfoldable pub checked_order : CreateOrderRequest → String → Db → P → HttpResponse × Db × P
  checked_order payload key db provider =
      let (result, db', provider') =
        checkout charge env geocode (request_of request_hash payload key) db provider in
      (reply env str result, db', provider')

  -- `create_order`
  unfoldable pub create_order : CreateOrderRequest → Option String → Db → P → HttpResponse × Db × P
  unfolding checked_order reply
  create_order payload none db provider = (missing_key, db, provider)
  create_order payload (some key) db provider =
      let checked = checked_order payload key db provider in
      if is_blank key then (missing_key, db, provider) else checked
