-- ===== src/Services/Checked.antt =====
-- The CHECK constraints of app/models through the whole of app/services/order_checkout.py.
use canals_assessment.Prelude.{All}
use canals_assessment.Domain.Values.{IsPositive}
use canals_assessment.Db.Rows.{Db}
use canals_assessment.Db.Tx.{Env}
use canals_assessment.Repositories.Checks.{IsChecked}
use canals_assessment.Repositories.Checks.Stock.{
  reserve_stock-IsChecked, release_reservation-IsChecked, settle_for_order-IsChecked,
}
use canals_assessment.Domain.Enums.{ReservationStatus}
use canals_assessment.Repositories.Checks.Orders.{
  create-IsChecked, add_items-IsChecked, transition-IsChecked, create_pending-IsChecked,
  mark_succeeded-IsChecked, mark_unknown-IsChecked, payment_failed-IsChecked,
}
use canals_assessment.Repositories.Checks.Keys.{
  add_event-IsChecked, claim-IsChecked, reclaim_failed-IsChecked, settle_completed-IsChecked,
  key_failed-IsChecked,
}
use canals_assessment.Domain.Values.{PaymentResult}
use canals_assessment.Services.Selection.{Geocoder}
use canals_assessment.Services.Checkout.{Request, Charge, checkout}
use canals_assessment.Services.Keeping.{IsKept, checkout-kept}

IsChecked-IsKept : IsKept IsChecked
IsChecked-IsKept = record {
  reserve_stock = reserve_stock-IsChecked;
  release_reservation = release_reservation-IsChecked;
  commit = λ order. settle_for_order-IsChecked order ReservationStatus.committed;
  create = create-IsChecked;
  add_items = add_items-IsChecked;
  transition = transition-IsChecked;
  create_pending = create_pending-IsChecked;
  mark_succeeded = mark_succeeded-IsChecked;
  mark_unknown = mark_unknown-IsChecked;
  payment_failed = payment_failed-IsChecked;
  add_event = add_event-IsChecked;
  claim = claim-IsChecked;
  reclaim_failed = reclaim_failed-IsChecked;
  settle_completed = settle_completed-IsChecked;
  key_failed = key_failed-IsChecked;
}

-- If every order names a warehouse and a point, every line and reservation is for more than zero
-- units, every reservation that is not active has a release time, every row of history changes the
-- status, every payment is for more than zero and gives a reason if it failed, and every key has a
-- response and a status in 100..599 both or neither, both if it is completed, then so it is after a
-- checkout of positive quantities, however it ends.
pub checkout-IsChecked :
    {P : Type 0} (charge : P → Charge → PaymentResult × P) (env : Env) (geocode : Geocoder)
    (r : Request) (db : Db) (provider : P)
    → All IsPositive r.items
    → IsChecked db
    → IsChecked (checkout charge env geocode r db provider).1
checkout-IsChecked = checkout-kept IsChecked IsChecked-IsKept
