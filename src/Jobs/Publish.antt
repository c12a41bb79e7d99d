-- ===== src/Jobs/Publish.antt =====
-- app/jobs/publish_outbox.py. The EventPublisher port is a function on a state of its own, which a
-- rollback of the database does not undo. `main` uses the publisher of app/adapters/event_log.py; its
-- loop runs on fuel, and each of its transactions has a time and a set of locked rows of its own, which
-- the caller gives by the fuel that is left.
pub mod Batch
pub mod Drain
use canals_assessment.Jobs.Sweep.{at_time}
use canals_assessment.Prelude.{
  ℕ, zero, suc, ◌+◌, ◌++◌, String, Option, none, some, List, [], ◌∷◌, map, length, take,
}
use canals_assessment.Prelude.Sorting.{sort_by}
use canals_assessment.Db.Rows.{Db, OutboxEvent}
use canals_assessment.Db.Tx.{Result, ok, err, Tx, pure, begin, ◌>>=◌, ◌>>◌}
use canals_assessment.Sql.{select_rows}
use canals_assessment.Repositories.Outbox.{claim_batch, mark_processed, is_claimable, created_leb}

-- What `claim_batch` returns; it only reads.
abbrev pub claimed : List ℕ → ℕ → Db → List OutboxEvent
claimed locked batch_size db =
    take batch_size (sort_by created_leb (select_rows (is_claimable locked) db.outbox))

abbrev pub event_ids : List OutboxEvent → List ℕ
event_ids = map (λ e. e.id)

module _ {P : Type 0} (publish : P → OutboxEvent → Result (Unit {0}) × P) where
  abbrev pub and_then : Result (Unit {0}) × P → (P → Result (Unit {0}) × P) → Result (Unit {0}) × P
  and_then (ok u, sink) k = k sink
  and_then (err e, sink) k = (err e, sink)

  -- The loop over the batch.
  unfoldable pub publish_all : List OutboxEvent → P → Result (Unit {0}) × P
  publish_all [] sink = (ok tt, sink)
  publish_all (e ∷ es) sink = and_then (publish sink e) (publish_all es)

  -- The end of the transaction, by how the loop ended: a raise rolls it back.
  unfoldable pub finish : List OutboxEvent → Result (Unit {0}) × P → Db → Result ℕ × Db × P
  finish events (err e, sink) db = (err e, db, sink)
  finish events (ok u, sink) db =
      let (r, db') = begin (mark_processed (event_ids events) >> pure (length events)) db in
      (r, db', sink)

  -- `publish_once`, beside workers that hold the rows `locked`.
  unfoldable pub publish_once : List ℕ → ℕ → Db → P → Result ℕ × Db × P
  unfolding finish
  publish_once locked batch_size db sink =
      let events = claimed locked batch_size db in finish events (publish_all events sink) db

-- `LoggingEventPublisher`: its list of published events; the log line is left out.
abbrev pub LoggingEventPublisher : Type 0
LoggingEventPublisher = List (String × ℕ)

abbrev pub log_entry : OutboxEvent → String × ℕ
log_entry e = (e.event_type, e.aggregate_id)

-- `LoggingEventPublisher.publish`, which never raises.
abbrev pub log_event :
    LoggingEventPublisher → OutboxEvent → Result (Unit {0}) × LoggingEventPublisher
log_event self e = (ok tt, self ++ log_entry e ∷ [])

-- The loop's test, on what `publish_once` returned or raised, with the rest of the loop.
abbrev pub relay_next :
    (ℕ → Db → LoggingEventPublisher → Result (Option ℕ) × Db × LoggingEventPublisher)
    → ℕ
    → Result ℕ × Db × LoggingEventPublisher
    → Result (Option ℕ) × Db × LoggingEventPublisher
relay_next rest total (err e, db, sink) = (err e, db, sink)
relay_next rest total (ok zero, db, sink) = (ok (some total), db, sink)
relay_next rest total (ok (suc m), db, sink) = rest (total + suc m) db sink

-- The loop of `main`; `none` is a loop that ran out of fuel.
unfoldable pub relay :
    ℕ
    → ℕ
    → (ℕ → List ℕ)
    → (ℕ → ℕ)
    → ℕ
    → Db
    → LoggingEventPublisher
    → Result (Option ℕ) × Db × LoggingEventPublisher
relay batch_size zero locks clock total db sink = (ok none, db, sink)
relay batch_size (suc fuel) locks clock total db sink =
    relay_next (relay batch_size fuel locks clock) total
      (publish_once log_event (locks fuel) batch_size (at_time (clock fuel) db) sink)

-- `main`, with the default batch size of `publish_once`.
unfoldable pub main :
    ℕ → (ℕ → List ℕ) → (ℕ → ℕ) → Db → Result (Option ℕ) × Db × LoggingEventPublisher
main fuel locks clock db = relay 100 fuel locks clock 0 db []
