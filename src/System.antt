-- ===== src/System.antt =====
-- Several requests and the jobs beside one database: app/services/order_checkout.py between its two
-- transactions, app/jobs/sweep_reservations.py and app/jobs/publish_outbox.py. A transaction is one
-- step; between tx1 and tx2 of a request, where the provider is asked, any other step may come.
pub mod Keys
pub mod Refusals
pub mod Flights
pub mod Invariant
pub mod Durable
use canals_assessment.Prelude.{ℕ, ◌≤◌, ◌≡◌, Option, none, some, List, All, ◌==◌, if◌then◌else◌}
use canals_assessment.Domain.Values.{PaymentResult, IsPositive}
use canals_assessment.Domain.Errors.{Exception}
use canals_assessment.Db.Rows.{Db, OutboxEvent}
use canals_assessment.Db.Tx.{Result, ok, err, Env}
use canals_assessment.Services.Selection.{Geocoder}
use canals_assessment.Services.Checkout.{Request, Placed, open_order, conclude}
use canals_assessment.Jobs.Sweep.{sweep_once, at_time}
use canals_assessment.Jobs.Publish.{publish_once}

-- A request whose tx1 has committed, while the provider is asked.
pub record Flight : Type 0 where
  pub request : Request
  pub placed : Placed

-- The database, and what each task that serves a request holds.
pub record World : Type 0 where
  pub db : Db
  pub flights : ℕ → Option Flight

abbrev pub set_at : ℕ → Option Flight → (ℕ → Option Flight) → ℕ → Option Flight
set_at i f flights j = if i == j then f else flights j

abbrev pub grounded : ℕ → Option Flight
grounded j = none

module _ (env : Env) (geocode : Geocoder) {P : Type 0}
    (publish : P → OutboxEvent → Result (Unit {0}) × P) where
  pub data Step (s : World) : World → Type 0 where
    -- tx1 commits: task `i` goes on to ask the provider.
    opened :
        (i : ℕ) (r : Request) (placed : Placed) (new : Db)
        → s.flights i ≡ none
        → All IsPositive r.items
        → open_order env geocode r s.db ≡ (ok placed, new)
        → Step s (record {
          db = new;
          flights = set_at i (some (record { request = r; placed = placed })) s.flights;
        })
    -- Geocoding or tx1 raises: the task has answered.
    refused :
        (r : Request) (e : Exception) (new : Db)
        → All IsPositive r.items
        → open_order env geocode r s.db ≡ (err e, new)
        → Step s (record { db = new; flights = s.flights })
    -- The provider has answered, in whatever way: tx2 runs.
    concluded :
        (i : ℕ) (f : Flight) (result : PaymentResult)
        → s.flights i ≡ some f
        → Step s (record {
          db = (conclude env f.request f.placed result s.db).1;
          flights = set_at i none s.flights;
        })
    -- The process dies while the provider is asked: tx2 never runs.
    died :
        (i : ℕ) (f : Flight)
        → s.flights i ≡ some f
        → Step s (record { db = s.db; flights = set_at i none s.flights })
    swept :
        (batch_size : ℕ)
        → Step s (record { db = (sweep_once batch_size s.db).1; flights = s.flights })
    published :
        (locked : List ℕ) (batch_size : ℕ) (sink : P)
        → Step s (record {
          db = (publish_once publish locked batch_size s.db sink).1;
          flights = s.flights;
        })
    ticked : (t : ℕ) → s.db.now ≤ t → Step s (record { db = at_time t s.db; flights = s.flights })

  -- What is reached from a state, by any steps in any order.
  pub data Reach (s : World) : World → Type 0 where
    here : Reach s s
    later : {t u : World} → Reach s t → Step t u → Reach s u
