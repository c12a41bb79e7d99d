-- ===== src/System/Invariant.antt =====
-- What holds in every state of app/services/order_checkout.py and the jobs, whatever their order.
use canals_assessment.Prelude.{ℕ, refl, ap, length, String}
use canals_assessment.Db.Rows.{Db, OutboxEvent}
use canals_assessment.Db.Tx.{Result, Env, begin}
use canals_assessment.Db.Frame.{Frames, Frames-bind, Frames-pure}
use canals_assessment.Repositories.Reservation.Ledger.{IsLedger}
use canals_assessment.Repositories.Accounts.{IsLedger-same}
use canals_assessment.Services.Selection.{Geocoder}
use canals_assessment.Services.Checkout.{conclude}
use canals_assessment.Services.Accounts.{open_order-IsLedger, conclude-IsLedger}
use canals_assessment.Jobs.Sweep.{at_time, sweep_once}
use canals_assessment.System.{
  World, grounded, Step, Reach, opened, refused, concluded, died, swept, published, ticked, here,
  later,
}
use canals_assessment.Jobs.Sweep.Drain.{sweep_once-ok}
use canals_assessment.Jobs.Publish.{publish_once}
use canals_assessment.Jobs.Publish.Batch.{publish_once-elsewhere}
use canals_assessment.Repositories.Reservation.{sweep_expired}
use canals_assessment.Repositories.Reservation.Settle.{sweep_expired-Settles}
use canals_assessment.Repositories.Frames.{keys, sweep_expired-keys}
use canals_assessment.System.Keys.{Frames-begin, keys-row_of, row_of, conclude-row_of}
use canals_assessment.System.Refusals.{open_order-undone}
use canals_assessment.System.Flights.{
  IsSound, IsSound-same, IsSound-ended, opened-held, opened-exclusive, concluded-differs,
}

pub sweep_once-row_of :
    (other : String) (batch_size : ℕ) → Frames (row_of other) (sweep_once batch_size)
unfolding sweep_once
sweep_once-row_of other batch_size = keys-row_of other (sweep_once batch_size) (
    Frames-bind keys (begin (sweep_expired batch_size)) _
      (Frames-begin keys (sweep_expired batch_size) (sweep_expired-keys batch_size))
      (λ rows. Frames-pure keys (length rows)))

sweep_once-IsLedger :
    (base : ℕ → ℕ → ℕ) (batch_size : ℕ) (db : Db)
    → IsLedger base db
    → IsLedger base (sweep_once batch_size db).1
sweep_once-IsLedger base batch_size db l =
    rw (sweep_once-ok base batch_size db l) (sweep_expired-Settles base batch_size db l).1.ledger

module _ (env : Env) (geocode : Geocoder) (base : ℕ → ℕ → ℕ) where
  module _ {P : Type 0} (publish : P → OutboxEvent → Result (Unit {0}) × P) where
    -- Every step keeps what is sound.
    pub Step-IsSound :
        {s t : World} → Step env geocode publish s t → IsSound base s → IsSound base t
    Step-IsSound {s} (opened i r placed new vacant q h) sound = record {
      ledger = rw h at (open_order-IsLedger base env geocode r s.db q sound.ledger);
      held = opened-held env geocode base s i r placed new h sound;
      exclusive = opened-exclusive env geocode base s i r placed new h sound;
    }
    Step-IsSound {s} (refused r e new q h) sound =
        IsSound-same base s new
          (rw h at (open_order-IsLedger base env geocode r s.db q sound.ledger))
          (λ other. ap (row_of other) (open_order-undone env geocode r s.db new e h)) sound
    Step-IsSound {s} (concluded i f result at_i) sound =
        IsSound-ended base s i (conclude env f.request f.placed result s.db).1
          (conclude-IsLedger base env f.request f.placed result s.db sound.ledger)
          (λ j g old differs.
            (conclude-row_of g.request.idempotency_key env f.request
                (concluded-differs base s i j f g sound at_i old differs) f.placed result).at
              s.db)
          sound
    Step-IsSound {s} (died i f at_i) sound =
        IsSound-ended base s i s.db sound.ledger (λ j g old differs. refl) sound
    Step-IsSound {s} (swept batch_size) sound =
        IsSound-same base s (sweep_once batch_size s.db).1
          (sweep_once-IsLedger base batch_size s.db sound.ledger)
          (λ other. (sweep_once-row_of other batch_size).at s.db) sound
    Step-IsSound {s} (published locked batch_size sink) sound =
        let e = publish_once-elsewhere publish locked batch_size s.db sink in
        let new = (publish_once publish locked batch_size s.db sink).1 in
        IsSound-same base s new
          (IsLedger-same base s.db new (ap (λ (d : Db). d.inventory) e)
            (ap (λ (d : Db). d.stock_reservations) e) sound.ledger)
          (λ other. ap (row_of other) e) sound
    Step-IsSound {s} (ticked t le) sound =
        IsSound-same base s (at_time t s.db)
          (IsLedger-same base s.db (at_time t s.db) refl refl sound.ledger) (λ other. refl) sound

    pub Reach-IsSound :
        {s t : World} → Reach env geocode publish s t → IsSound base s → IsSound base t
    Reach-IsSound here sound = sound
    Reach-IsSound (later before step) sound = Step-IsSound step (Reach-IsSound before sound)

    -- From a database whose account holds and no request under way, whatever steps are taken, in
    -- whatever order, by any number of requests of positive quantities, the sweeper, the publisher
    -- and the clock, with any answers of the provider and any crashes: the account holds, the key of
    -- every request whose provider is being asked stands `in_progress` under the request's hash, and
    -- no two such requests have the same key.
    pub start-IsSound :
        (db : Db) (s : World)
        → IsLedger base db
        → Reach env geocode publish (record { db = db; flights = grounded }) s
        → IsSound base s
    start-IsSound db s l reached =
        Reach-IsSound reached
          (record { ledger = l; held = λ i f e. cc; exclusive = λ i j f g a b same. cc })
