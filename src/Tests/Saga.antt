-- ===== src/Tests/Saga.antt =====
-- The checkout saga on the fixture.
use canals_assessment.Prelude.{ℕ, ◌≡◌, refl, ◌+◌, String, true, false, none, some, []}
use canals_assessment.Domain.OrderState.{is_allowed}
use canals_assessment.Domain.Enums.{OrderStatus}
use canals_assessment.Domain.Errors.{Exception, DomainError}
use canals_assessment.Domain.Values.{PaymentResult, PaymentOutcome}
use canals_assessment.Db.Rows.{Db}
use canals_assessment.Db.Tx.{Result, ok, err, begin, is_ok}
use canals_assessment.Repositories.Idempotency.{claim, insert_key, reclaim_failed, settle_completed}
use canals_assessment.Repositories.Idempotency
use canals_assessment.Repositories.Orders.{
  is_in_status, existing_ids, get_by_ids, product_of, create, add_items, add_item, get_for_response,
  insert_history, record_move, swap_status, transition,
}
use canals_assessment.Repositories.Outbox
use canals_assessment.Repositories.Payments
use canals_assessment.Repositories.Payments.{
  create_pending, success_conflicts, mark_succeeded, mark_unknown,
}
use canals_assessment.Repositories.Reservation.{
  claim_rows, claim_stock, give_back, insert_reservation, lock_order, release_reservation,
  reserve_item, reserve_items, reserve_stock, return_stock, settle, settle_for_order,
}
use canals_assessment.Repositories.Warehouses.{
  select_best, count_products_stocked_anywhere, eligible,
}
use canals_assessment.Services.Selection.{
  Geocoder, to_point, select, require_candidate, require_known,
}
use canals_assessment.Services.Creation.{create_in_transaction, order_total, line_price}
use canals_assessment.Services.Checkout.{
  CheckoutResult, Placed, Charge, checkout, open_order, place, place_claimed, claim_key,
  after_claim, answer, compensate, complete, conclude, fulfil, judge, judge_status,
  leave_unresolved, pay, reclaimed, render, resolve,
}
use canals_assessment.Services.Checkout.Once.{checkout-replay}
use canals_assessment.Services.Checkout.Declined.{Compensates, compensate-Compensates}
use canals_assessment.Services.Checkout.Succeeded.{Confirms, complete-Confirms, paid_by}
use canals_assessment.Sql.{exists_row}
use canals_assessment.Services.Checkout.Outcomes.{annotated, checkout-aborted, checkout-unresolved}
use canals_assessment.Services.Accounts.{checkout-IsLedger, open_order-IsLedger}
use canals_assessment.Repositories.Reservation.Ledger.{IsLedger}
use canals_assessment.Api.Schemas.{CreateOrderRequest}
use canals_assessment.Api.Orders.{create_order, reply}
use canals_assessment.Api.Orders.Retry.{create_order-again}
use canals_assessment.Tests.Stock.{shop-IsLedger, basket-IsPositive}
use canals_assessment.Tests.Fixture.{env, shop, seeded, basket, geocode, request, paying, charge}

abbrev bought : Result CheckoutResult × Db × ℕ
bought = checkout charge env geocode request shop 0

-- What a run returned, if it did.
abbrev pub returned : CheckoutResult → Result CheckoutResult → CheckoutResult
returned d (ok c) = c
returned d (err e) = d

abbrev pub nothing : CheckoutResult
nothing = record {
  order_id = 0;
  body = record {
    id = 0;
    status = OrderStatus.pending;
    warehouse = none;
    items = [];
    total_minor = 0;
    currency = "";
    payment_reference = none;
    created_at = 0;
  };
  status_code = 0;
}

abbrev receipt : CheckoutResult
receipt = returned nothing bought.0

returned_lem :
    (t : Result CheckoutResult × Db × ℕ)
    → is_ok t.0 ≡ true
    → t ≡ (ok (returned nothing t.0), t.1, t.2)
returned_lem (ok c, db, n) h = refl
returned_lem (err e, db, n) h = cc

bought_is_ok : is_ok bought.0 ≡ true
unfolding checkout open_order to_point begin place claim_key claim place_claimed
    create_in_transaction select existing_ids select_best get_by_ids order_total product_of create
    add_items is_allowed Idempotency.get insert_key Idempotency.mark_failed reclaim_failed
    settle_completed add_item get_for_response insert_history record_move swap_status transition
    Outbox.add create_pending Payments.mark_failed mark_succeeded mark_unknown claim_rows
    claim_stock give_back insert_reservation lock_order release_reservation reserve_item
    reserve_items reserve_stock return_stock settle settle_for_order count_products_stocked_anywhere
    eligible after_claim answer compensate complete conclude fulfil judge judge_status
    leave_unresolved pay reclaimed render resolve line_price require_candidate require_known
bought_is_ok = refl

bought_once : bought ≡ (ok receipt, bought.1, bought.2)
bought_once = returned_lem bought bought_is_ok

confirmed_total : (receipt.body.status ≡ OrderStatus.confirmed) × (receipt.body.total_minor ≡ 28150)
unfolding checkout open_order to_point begin place claim_key claim place_claimed
    create_in_transaction select existing_ids select_best get_by_ids order_total product_of create
    add_items is_allowed Idempotency.get insert_key Idempotency.mark_failed reclaim_failed
    settle_completed add_item get_for_response insert_history record_move swap_status transition
    Outbox.add create_pending Payments.mark_failed mark_succeeded mark_unknown claim_rows
    claim_stock give_back insert_reservation lock_order release_reservation reserve_item
    reserve_items reserve_stock return_stock settle settle_for_order count_products_stocked_anywhere
    eligible after_claim answer compensate complete conclude fulfil judge judge_status
    leave_unresolved pay reclaimed render resolve line_price require_candidate require_known
confirmed_total = (refl, refl)

checkout-replay_example :
    (receipt.status_code ≡ 201)
    × (checkout charge env geocode request bought.1 bought.2
        ≡ (err (Exception.replayed (some receipt.body) receipt.status_code), bought.1, bought.2))
checkout-replay_example =
    checkout-replay charge env geocode request shop bought.1 0 bought.2 receipt bought_once

checkout-IsLedger_example : IsLedger seeded (checkout charge env geocode request shop 0).1
checkout-IsLedger_example =
    checkout-IsLedger seeded charge env geocode request shop 0 basket-IsPositive shop-IsLedger

-- A geocoder that fails.
abbrev lost : Geocoder
lost a = err (Exception.domain (DomainError.geocoding_failed "city is empty"))

lost_fails : is_ok (open_order env lost request shop).0 ≡ false
unfolding open_order
lost_fails = refl

checkout-aborted_example :
    (is_ok (checkout charge env lost request shop 0).0 ≡ false)
    × ((checkout charge env lost request shop 0).1 ≡ shop)
    × ((checkout charge env lost request shop 0).2 ≡ 0)
checkout-aborted_example = checkout-aborted charge env lost request shop 0 lost_fails

abbrev pub opened : Result Placed × Db
opened = open_order env geocode request shop

abbrev pub placed_or : Placed → Result Placed → Placed
placed_or d (ok p) = p
placed_or d (err e) = d

abbrev pub no_order : Placed
no_order = record {
  order = record {
    id = 0;
    customer_id = 0;
    status = OrderStatus.pending;
    warehouse_id = none;
    currency = "";
    total_minor = 0;
    shipping_line1 = "";
    shipping_line2 = none;
    shipping_city = "";
    shipping_postal_code = "";
    shipping_country_code = "";
    shipping_point = none;
    created_at = 0;
    updated_at = 0;
  };
  payment_id = 0;
}

abbrev pub placed : Placed
placed = placed_or no_order opened.0

pub placed_lem :
    (t : Result Placed × Db) → is_ok t.0 ≡ true → t ≡ (ok (placed_or no_order t.0), t.1)
placed_lem (ok p, db) h = refl
placed_lem (err e, db) h = cc

pub opened_is_ok : is_ok opened.0 ≡ true
unfolding checkout open_order to_point begin place claim_key claim place_claimed
    create_in_transaction select existing_ids select_best get_by_ids order_total product_of create
    add_items is_allowed Idempotency.get insert_key Idempotency.mark_failed reclaim_failed
    settle_completed add_item get_for_response insert_history record_move swap_status transition
    Outbox.add create_pending Payments.mark_failed mark_succeeded mark_unknown claim_rows
    claim_stock give_back insert_reservation lock_order release_reservation reserve_item
    reserve_items reserve_stock return_stock settle settle_for_order count_products_stocked_anywhere
    eligible after_claim answer compensate complete conclude fulfil judge judge_status
    leave_unresolved pay reclaimed render resolve line_price require_candidate require_known
opened_is_ok = refl

-- A provider that times out.
abbrev timeout : PaymentResult
timeout = record {
  outcome = PaymentOutcome.unknown;
  reference = none;
  failure_reason = some "provider timeout";
  card_brand = some "visa";
  card_last4 = some "0069";
}

abbrev slow : ℕ → Charge → PaymentResult × ℕ
slow n c = (timeout, n + 1)

checkout-unresolved_example :
    (checkout slow env geocode request shop 0 ≡ (
      err (Exception.domain (DomainError.payment_unresolved "provider timeout")),
      annotated placed timeout opened.1,
      1,
    ))
    × (checkout slow env geocode request (annotated placed timeout opened.1) 1 ≡ (
      err (Exception.domain (DomainError.idempotency_in_progress "key-1")),
      annotated placed timeout opened.1,
      1,
    ))
checkout-unresolved_example =
    checkout-unresolved slow env geocode request shop opened.1 0 1 placed timeout
      (placed_lem opened opened_is_ok) refl refl

abbrev payload : CreateOrderRequest
payload = record {
  customer_id = request.customer_id;
  shipping_address = request.address;
  items = basket;
  card_number = request.card;
}

abbrev hash : CreateOrderRequest → String
hash p = "hash-1"

abbrev text : DomainError → String
text e = "refused"

create_order-again_example :
    (create_order charge env geocode text hash payload (some "key-1") shop 0
      ≡ (reply env text (ok receipt), bought.1, bought.2))
    × (create_order charge env geocode text hash payload (some "key-1") bought.1 bought.2
        ≡ (reply env text (ok receipt), bought.1, bought.2))
create_order-again_example =
    create_order-again charge env geocode text hash payload "key-1" shop bought.1 0 bought.2 receipt
      refl bought_once

pub opened-IsLedger : IsLedger seeded opened.1
opened-IsLedger =
    open_order-IsLedger seeded env geocode request shop basket-IsPositive shop-IsLedger

stands_reserved :
    exists_row (is_in_status placed.order.id OrderStatus.reserved) opened.1.orders ≡ true
unfolding checkout open_order to_point begin place claim_key claim place_claimed
    create_in_transaction select existing_ids select_best get_by_ids order_total product_of create
    add_items is_allowed Idempotency.get insert_key Idempotency.mark_failed reclaim_failed
    settle_completed add_item get_for_response insert_history record_move swap_status transition
    Outbox.add create_pending Payments.mark_failed mark_succeeded mark_unknown claim_rows
    claim_stock give_back insert_reservation lock_order release_reservation reserve_item
    reserve_items reserve_stock return_stock settle settle_for_order count_products_stocked_anywhere
    eligible after_claim answer compensate complete conclude fulfil judge judge_status
    leave_unresolved pay reclaimed render resolve line_price require_candidate require_known
stands_reserved = refl

compensate-Compensates_example :
    ((compensate env placed.order placed.payment_id timeout "key-1" opened.1).0 ≡ ok tt)
    × Compensates seeded placed.order.id "key-1" opened.1
        (compensate env placed.order placed.payment_id timeout "key-1" opened.1).1
compensate-Compensates_example =
    compensate-Compensates env seeded placed.order placed.payment_id timeout "key-1" opened.1
      opened-IsLedger stands_reserved

no_conflict :
    success_conflicts placed.payment_id
      (paid_by env placed.order placed.payment_id paying "key-1" opened.1.now)
      opened.1.payments
    ≡ false
unfolding checkout open_order to_point begin place claim_key claim place_claimed
    create_in_transaction select existing_ids select_best get_by_ids order_total product_of create
    add_items is_allowed Idempotency.get insert_key Idempotency.mark_failed reclaim_failed
    settle_completed add_item get_for_response insert_history record_move swap_status transition
    Outbox.add create_pending Payments.mark_failed mark_succeeded mark_unknown claim_rows
    claim_stock give_back insert_reservation lock_order release_reservation reserve_item
    reserve_items reserve_stock return_stock settle settle_for_order count_products_stocked_anywhere
    eligible after_claim answer compensate complete conclude fulfil judge judge_status
    leave_unresolved pay reclaimed render resolve line_price require_candidate require_known
no_conflict = refl

complete-Confirms_example :
    (is_ok (complete env placed.order placed.payment_id paying "key-1" opened.1).0 ≡ true)
    × Confirms env placed.order paying opened.1
        (complete env placed.order placed.payment_id paying "key-1" opened.1).1
complete-Confirms_example =
    complete-Confirms env placed.order placed.payment_id paying "key-1" opened.1 no_conflict
      stands_reserved
