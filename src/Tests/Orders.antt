-- ===== src/Tests/Orders.antt =====
-- The theorems on an order's status and on the parts that need no database, on small data.
use canals_assessment.Prelude.{◌≡◌, refl, ◌↔◌, true, false, none, some, [], ◌∷◌, arith, All}
use canals_assessment.Domain.Enums.{OrderStatus}
use canals_assessment.Domain.OrderState.{is_allowed}
use canals_assessment.Domain.Values.{IsPositive}
use canals_assessment.Sql.{exists_row}
use canals_assessment.Db.Tx.{is_ok}
use canals_assessment.Repositories.Orders.{transition, is_in_status}
use canals_assessment.Repositories.Orders.History.{moved_db, transition_iff}
use canals_assessment.Repositories.Reservation.Atomic.{IsDistinct}
use canals_assessment.Services.Checkout.{Charge}
use canals_assessment.Adapters.PaymentMock.{MockPaymentProvider, charge, get_by_idempotency_key}
use canals_assessment.Adapters.PaymentMock.Idempotent.{
  IsConsistent, charge_all, charge_twice, charge-IsConsistent,
}
use canals_assessment.Api.Schemas.Addresses.{IsAddress}
use canals_assessment.Api.Schemas.{
  CreateOrderRequest, is_valid, is_nonempty, validate_card, luhn_ok,
}
use canals_assessment.Api.Schemas.Luhn.{luhn_ok-one_digit}
use canals_assessment.Api.Schemas.Duplicates.{is_valid_iff}
use canals_assessment.Tests.Fixture.{env, shop, basket, request}

transition_iff_example :
    ((is_ok (transition env 1 OrderStatus.pending OrderStatus.reserved none shop).0 ≡ true) ↔ (
      (is_allowed OrderStatus.pending OrderStatus.reserved ≡ true)
      × (exists_row (is_in_status 1 OrderStatus.pending) shop.orders ≡ true)))
    × (is_ok (transition env 1 OrderStatus.pending OrderStatus.reserved none shop).0 ≡ true
        → (transition env 1 OrderStatus.pending OrderStatus.reserved none shop).1
          ≡ moved_db env 1 OrderStatus.pending OrderStatus.reserved none shop)
    × (is_ok (transition env 1 OrderStatus.pending OrderStatus.reserved none shop).0 ≡ false
        → (transition env 1 OrderStatus.pending OrderStatus.reserved none shop).1 ≡ shop)
transition_iff_example = transition_iff env 1 OrderStatus.pending OrderStatus.reserved none shop

abbrev fresh_provider : MockPaymentProvider
fresh_provider = record { charged_keys = []; results = [] }

abbrev first_charge : Charge
first_charge = record {
  card = "4000 0000 0000 0002";
  amount_minor = 100;
  currency = "EUR";
  description = "Order 1";
  idempotency_key = "1";
}

abbrev second_charge : Charge
second_charge = record {
  card = "4242424242424242";
  amount_minor = 900;
  currency = "EUR";
  description = "Order 1";
  idempotency_key = "1";
}

abbrev other_charge : Charge
other_charge = record second_charge { idempotency_key = "2" }

abbrev later_provider : MockPaymentProvider
later_provider =
    charge_all (charge fresh_provider first_charge).1 (other_charge ∷ second_charge ∷ [])

charge_twice_example :
    (get_by_idempotency_key later_provider "1" ≡ some (charge fresh_provider first_charge).0)
    × (charge later_provider second_charge
        ≡ ((charge fresh_provider first_charge).0, later_provider))
charge_twice_example =
    charge_twice fresh_provider first_charge second_charge (other_charge ∷ second_charge ∷ []) refl

charge-IsConsistent_example : IsConsistent (charge fresh_provider first_charge).1
charge-IsConsistent_example =
    charge-IsConsistent fresh_provider first_charge (record { logged = refl; once = tt })

luhn_ok-one_digit_example : luhn_ok (1 ∷ 9 ∷ []) ≡ false
unfolding luhn_ok
luhn_ok-one_digit_example =
    luhn_ok-one_digit (1 ∷ []) [] 8 9 ground arith ground arith ground arith refl

abbrev payload : CreateOrderRequest
payload = record {
  customer_id = 7;
  shipping_address = request.address;
  items = basket;
  card_number = "4242 4242 4242 4242";
}

is_valid_iff_example : (is_valid payload ≡ true) ↔ (
    IsAddress request.address
    × (is_nonempty basket ≡ true)
    × All IsPositive basket
    × IsDistinct basket
    × (validate_card "4242 4242 4242 4242" ≡ true))
is_valid_iff_example = is_valid_iff payload

valid_payload : is_valid payload ≡ true
unfolding is_valid
valid_payload = refl
