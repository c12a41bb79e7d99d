-- ===== src/Tests/System.antt =====
-- Requests beside the jobs, on the fixture.
use canals_assessment.Prelude.{ℕ, ◌≡◌, refl, true, some, none, [], ◌+◌}
use canals_assessment.Domain.Errors.{Exception}
use canals_assessment.Db.Rows.{Db, Order, OutboxEvent}
use canals_assessment.Db.Tx.{Result, ok, err, is_ok}
use canals_assessment.Repositories.Reservation.Ledger.{IsLedger}
use canals_assessment.Services.Checkout.{CheckoutResult, checkout, conclude}
use canals_assessment.Jobs.Sweep.{sweep_once}
use canals_assessment.Jobs.Publish.{publish_once}
use canals_assessment.Domain.OrderState.{is_allowed}
use canals_assessment.Db.Tx.{begin}
use canals_assessment.Repositories.Idempotency.{claim, insert_key, reclaim_failed, settle_completed}
use canals_assessment.Repositories.Idempotency
use canals_assessment.Repositories.Orders.{
  existing_ids, get_by_ids, product_of, create, add_items, add_item, get_for_response,
  insert_history, record_move, swap_status, transition,
}
use canals_assessment.Repositories.Outbox
use canals_assessment.Repositories.Payments
use canals_assessment.Repositories.Payments.{create_pending, mark_succeeded, mark_unknown}
use canals_assessment.Repositories.Reservation.{
  claim_rows, claim_stock, give_back, insert_reservation, lock_order, release_reservation,
  reserve_item, reserve_items, reserve_stock, return_stock, settle, settle_for_order,
}
use canals_assessment.Repositories.Warehouses.{
  select_best, count_products_stocked_anywhere, eligible,
}
use canals_assessment.Services.Selection.{to_point, select, require_candidate, require_known}
use canals_assessment.Services.Creation.{create_in_transaction, order_total, line_price}
use canals_assessment.Services.Checkout.{
  open_order, place, place_claimed, claim_key, after_claim, answer, compensate, complete, fulfil,
  judge, judge_status, leave_unresolved, pay, reclaimed, render, resolve,
}
use canals_assessment.Prelude.{All, false}
use canals_assessment.Domain.Enums.{OrderStatus}
use canals_assessment.Sql.{exists_row, select_rows}
use canals_assessment.Jobs.Sweep.{at_time}
use canals_assessment.Repositories.Accounts.{IsLedger-same}
use canals_assessment.Repositories.Reservation.{is_swept, expired_ids, sweep_expired}
use canals_assessment.Repositories.Payments.{success_conflicts}
use canals_assessment.Repositories.Orders.{is_in_status}
use canals_assessment.Services.Checkout.Succeeded.{paid_by}
use canals_assessment.Services.Checkout.Oversell.{is_stock_for, complete_oversells}
use canals_assessment.Tests.Saga.{opened-IsLedger}
use canals_assessment.Services.Lines.{Adds}
use canals_assessment.Services.Totals.{create_in_transaction-Adds}
use canals_assessment.Repositories.Checks.{IsChecked}
use canals_assessment.Services.Checked.{checkout-IsChecked}
use canals_assessment.System.{World, Flight, Step, Reach, set_at, grounded}
use canals_assessment.System.Flights.{IsSound}
use canals_assessment.System.Invariant.{start-IsSound}
use canals_assessment.System.Durable.{replayed_ever}
use canals_assessment.Tests.Stock.{shop-IsLedger, basket-IsPositive}
use canals_assessment.Tests.Fixture.{
  basket, madrid, env, shop, seeded, geocode, request, paying, charge,
}
use canals_assessment.Tests.Saga.{opened, placed, placed_lem, opened_is_ok, returned, nothing}

-- A publisher that counts.
abbrev send : ℕ → OutboxEvent → Result (Unit {0}) × ℕ
send n e = (ok tt, n + 1)

abbrev flight : Flight
flight = record { request = request; placed = placed }

abbrev asking : World
asking = record { db = opened.1; flights = set_at 3 (some flight) grounded }

-- Task 3 has committed tx1 of the request.
asked : Reach env geocode send (record { db = shop; flights = grounded }) asking
asked =
    Reach.later Reach.here (
      Step.opened 3 request placed opened.1 refl basket-IsPositive (placed_lem opened opened_is_ok))

-- A sweep and a run of the publisher while the provider is asked.
abbrev meanwhile : World
meanwhile = record {
  db = (publish_once send [] 10 (sweep_once 500 asking.db).1 0).1;
  flights = asking.flights;
}

swept_meanwhile : Reach env geocode send (record { db = shop; flights = grounded }) meanwhile
swept_meanwhile = Reach.later (Reach.later asked (Step.swept 500)) (Step.published [] 10 0)

start-IsSound_example : IsSound seeded meanwhile
start-IsSound_example =
    start-IsSound env geocode seeded send shop meanwhile shop-IsLedger swept_meanwhile

abbrev ended : Result CheckoutResult × Db
ended = conclude env request placed paying opened.1

abbrev receipt : CheckoutResult
receipt = returned nothing ended.0

ended_lem :
    (t : Result CheckoutResult × Db) → is_ok t.0 ≡ true → t ≡ (ok (returned nothing t.0), t.1)
ended_lem (ok c, db) h = refl
ended_lem (err e, db) h = cc

ended_is_ok : is_ok ended.0 ≡ true
unfolding checkout open_order to_point begin place claim_key claim place_claimed
    create_in_transaction select existing_ids select_best get_by_ids order_total product_of create
    add_items is_allowed Idempotency.get insert_key Idempotency.mark_failed reclaim_failed
    settle_completed add_item get_for_response insert_history record_move swap_status transition
    Outbox.add create_pending Payments.mark_failed mark_succeeded mark_unknown claim_rows
    claim_stock give_back insert_reservation lock_order release_reservation reserve_item
    reserve_items reserve_stock return_stock settle settle_for_order count_products_stocked_anywhere
    eligible after_claim answer compensate complete conclude fulfil judge judge_status
    leave_unresolved pay reclaimed render resolve line_price require_candidate require_known
ended_is_ok = refl

abbrev afterwards : World
afterwards = record { db = (sweep_once 500 ended.1).1; flights = set_at 3 none asking.flights }

replayed_ever_example :
    checkout charge env geocode request afterwards.db 0
    ≡ (err (Exception.replayed (some receipt.body) 201), afterwards.db, 0)
replayed_ever_example =
    replayed_ever env geocode seeded send charge shop ended.1 asking afterwards 3 flight paying
      receipt 0 shop-IsLedger asked refl (ended_lem ended ended_is_ok)
      (Reach.later Reach.here (Step.swept 500))

-- The hold lasts until 1900.
abbrev late : Db
late = at_time 5000 opened.1

late-IsLedger : IsLedger seeded late
late-IsLedger = IsLedger-same seeded opened.1 late refl refl opened-IsLedger

late_free :
    success_conflicts placed.payment_id
      (paid_by env placed.order placed.payment_id paying "key-1" late.now)
      late.payments
    ≡ false
unfolding checkout open_order to_point begin place claim_key claim place_claimed
    create_in_transaction select existing_ids select_best get_by_ids order_total product_of create
    add_items is_allowed Idempotency.get insert_key Idempotency.mark_failed reclaim_failed
    settle_completed add_item get_for_response insert_history record_move swap_status transition
    Outbox.add create_pending Payments.mark_failed mark_succeeded mark_unknown claim_rows
    claim_stock give_back insert_reservation lock_order release_reservation reserve_item
    reserve_items reserve_stock return_stock settle settle_for_order count_products_stocked_anywhere
    eligible after_claim answer compensate complete conclude fulfil judge judge_status
    leave_unresolved pay reclaimed render resolve line_price require_candidate require_known
late_free = refl

late_reserved : exists_row (is_in_status placed.order.id OrderStatus.reserved) late.orders ≡ true
unfolding checkout open_order to_point begin place claim_key claim place_claimed
    create_in_transaction select existing_ids select_best get_by_ids order_total product_of create
    add_items is_allowed Idempotency.get insert_key Idempotency.mark_failed reclaim_failed
    settle_completed add_item get_for_response insert_history record_move swap_status transition
    Outbox.add create_pending Payments.mark_failed mark_succeeded mark_unknown claim_rows
    claim_stock give_back insert_reservation lock_order release_reservation reserve_item
    reserve_items reserve_stock return_stock settle settle_for_order count_products_stocked_anywhere
    eligible after_claim answer compensate complete conclude fulfil judge judge_status
    leave_unresolved pay reclaimed render resolve line_price require_candidate require_known
late_reserved = refl

late_expired :
    All
      (λ s. is_swept (expired_ids 500 late) s ≡ true)
      (select_rows (is_stock_for placed.order.id) late.stock_reservations)
unfolding expired_ids checkout open_order to_point begin place claim_key claim place_claimed
    create_in_transaction select existing_ids select_best get_by_ids order_total product_of create
    add_items is_allowed Idempotency.get insert_key Idempotency.mark_failed reclaim_failed
    settle_completed add_item get_for_response insert_history record_move swap_status transition
    Outbox.add create_pending Payments.mark_failed mark_succeeded mark_unknown claim_rows
    claim_stock give_back insert_reservation lock_order release_reservation reserve_item
    reserve_items reserve_stock return_stock settle settle_for_order count_products_stocked_anywhere
    eligible after_claim answer compensate complete conclude fulfil judge judge_status
    leave_unresolved pay reclaimed render resolve line_price require_candidate require_known
late_expired = (refl, (refl, tt))

complete_oversells_example :
    (is_ok (complete env placed.order placed.payment_id paying "key-1" (sweep_expired 500 late).1).0
      ≡ true)
    × (exists_row
          (is_in_status placed.order.id OrderStatus.confirmed)
          (complete env placed.order placed.payment_id paying "key-1"
            (sweep_expired 500 late).1).1.orders
        ≡ true)
    × (select_rows
          (is_stock_for placed.order.id)
          (complete env placed.order placed.payment_id paying "key-1"
            (sweep_expired 500 late).1).1.stock_reservations
        ≡ [])
    × ((complete env placed.order placed.payment_id paying "key-1"
          (sweep_expired 500 late).1).1.stock_reservations
        ≡ (sweep_expired 500 late).1.stock_reservations)
    × ((complete env placed.order placed.payment_id paying "key-1"
          (sweep_expired 500 late).1).1.inventory
        ≡ (sweep_expired 500 late).1.inventory)
complete_oversells_example =
    complete_oversells env seeded placed.order placed.payment_id paying "key-1" 500 late
      late-IsLedger late_free late_reserved late_expired

abbrev created : Result Order × Db
created = create_in_transaction env geocode 7 request.address basket madrid shop

abbrev order_or : Result Order → Order
order_or (ok o) = o
order_or (err e) = placed.order

created_lem : (t : Result Order × Db) → is_ok t.0 ≡ true → t ≡ (ok (order_or t.0), t.1)
created_lem (ok o, db) h = refl
created_lem (err e, db) h = cc

created_is_ok : is_ok created.0 ≡ true
unfolding checkout open_order to_point begin place claim_key claim place_claimed
    create_in_transaction select existing_ids select_best get_by_ids order_total product_of create
    add_items is_allowed Idempotency.get insert_key Idempotency.mark_failed reclaim_failed
    settle_completed add_item get_for_response insert_history record_move swap_status transition
    Outbox.add create_pending Payments.mark_failed mark_succeeded mark_unknown claim_rows
    claim_stock give_back insert_reservation lock_order release_reservation reserve_item
    reserve_items reserve_stock return_stock settle settle_for_order count_products_stocked_anywhere
    eligible after_claim answer compensate complete conclude fulfil judge judge_status
    leave_unresolved pay reclaimed render resolve line_price require_candidate require_known
created_is_ok = refl

create_in_transaction-Adds_example :
    Adds (order_or created.0).id basket (order_or created.0).total_minor shop created.1
create_in_transaction-Adds_example =
    create_in_transaction-Adds env 7 request.address basket madrid geocode shop created.1
      (order_or created.0) (created_lem created created_is_ok)

shop-IsChecked : IsChecked shop
shop-IsChecked = (tt, tt, tt, tt, tt, tt)

checkout-IsChecked_example : IsChecked (checkout charge env geocode request shop 0).1
checkout-IsChecked_example =
    checkout-IsChecked charge env geocode request shop 0 basket-IsPositive shop-IsChecked
