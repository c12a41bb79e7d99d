-- ===== src/Services/Accounts.antt =====
-- The account of inventory and reservations through the whole of app/services/order_checkout.py.
use canals_assessment.Prelude.{ℕ, All}
use canals_assessment.Domain.Values.{PaymentResult, IsPositive}
use canals_assessment.Db.Rows.{Db}
use canals_assessment.Db.Tx.{Env}
use canals_assessment.Repositories.Reservation.Ledger.{IsLedger}
use canals_assessment.Repositories.Accounts.{
  reserve_stock-IsLedger, release_reservation-IsLedger, commit-IsLedger, create-IsLedger,
  add_items-IsLedger, transition-IsLedger, create_pending-IsLedger, mark_succeeded-IsLedger,
  mark_unknown-IsLedger, payment_failed-IsLedger, add_event-IsLedger, claim-IsLedger,
  reclaim_failed-IsLedger, settle_completed-IsLedger, key_failed-IsLedger,
}
use canals_assessment.Services.Selection.{Geocoder}
use canals_assessment.Services.Checkout.{Request, Placed, Charge, open_order, conclude, checkout}
use canals_assessment.Services.Keeping.{IsKept, open_order-kept, conclude-kept, checkout-kept}

module _ (base : ℕ → ℕ → ℕ) where
  IsLedger-IsKept : IsKept (IsLedger base)
  IsLedger-IsKept = record {
    reserve_stock = reserve_stock-IsLedger base;
    release_reservation = release_reservation-IsLedger base;
    commit = commit-IsLedger base;
    create = create-IsLedger base;
    add_items = λ env order products items q. add_items-IsLedger base env order products items;
    transition = transition-IsLedger base;
    create_pending = create_pending-IsLedger base;
    mark_succeeded = mark_succeeded-IsLedger base;
    mark_unknown = mark_unknown-IsLedger base;
    payment_failed = payment_failed-IsLedger base;
    add_event = add_event-IsLedger base;
    claim = claim-IsLedger base;
    reclaim_failed = reclaim_failed-IsLedger base;
    settle_completed = λ key body order. settle_completed-IsLedger base key body 201 order;
    key_failed = key_failed-IsLedger base;
  }

  pub conclude-IsLedger :
      (env : Env) (r : Request) (placed : Placed) (result : PaymentResult) (db : Db)
      → IsLedger base db
      → IsLedger base (conclude env r placed result db).1
  conclude-IsLedger = conclude-kept (IsLedger base) IsLedger-IsKept

  pub open_order-IsLedger :
      (env : Env) (geocode : Geocoder) (r : Request) (db : Db)
      → All IsPositive r.items
      → IsLedger base db
      → IsLedger base (open_order env geocode r db).1
  open_order-IsLedger = open_order-kept (IsLedger base) IsLedger-IsKept

  -- Whatever a checkout of positive quantities meets (a replay, missing stock, any answer of the
  -- provider, an exception in either transaction), it leaves a database in which no inventory row
  -- is reserved beyond what is on hand, and `reserved` of every pair is what stood there before
  -- any reservation plus what active and committed reservations hold, if that was so before.
  pub checkout-IsLedger :
      {P : Type 0} (charge : P → Charge → PaymentResult × P) (env : Env) (geocode : Geocoder)
      (r : Request) (db : Db) (provider : P)
      → All IsPositive r.items
      → IsLedger base db
      → IsLedger base (checkout charge env geocode r db provider).1
  checkout-IsLedger = checkout-kept (IsLedger base) IsLedger-IsKept
