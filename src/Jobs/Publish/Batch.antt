-- ===== src/Jobs/Publish/Batch.antt =====
-- A batch of app/jobs/publish_outbox.py: all of it is marked, or none.
use canals_assessment.Prelude.{
  ℕ, ◌≡◌, refl, Bool, not, ◌&&◌, List, [], ◌∷◌, arith, length, contains,
}
use canals_assessment.Sql.{select_rows, update_rows}
use canals_assessment.Db.Rows.{Db, OutboxEvent}
use canals_assessment.Db.Tx.{Result, ok, err, begin, pure, ◌>>◌}
use canals_assessment.Repositories.Outbox.{mark_processed, is_unset, process}
use canals_assessment.Jobs.Publish.{claimed, event_ids, publish_all, finish, publish_once}

-- An event of the list that is not marked as processed.
abbrev pub is_pending : List ℕ → OutboxEvent → Bool
is_pending ids e = contains e.id ids && is_unset e.processed_at

abbrev pub is_other : List ℕ → OutboxEvent → Bool
is_other ids e = not (contains e.id ids)

nothing_pending : (rows : List OutboxEvent) → select_rows (is_pending []) rows ≡ []
nothing_pending [] = refl
nothing_pending (e ∷ es) = nothing_pending es

processed_none :
    (ids : List ℕ) (now : ℕ) (rows : List OutboxEvent)
    → select_rows (is_pending ids) (update_rows (λ e. contains e.id ids) (process now) rows) ≡ []
processed_none ids now [] = refl
processed_none ids now (e ∷ es) = ground (arith, processed_none ids now es)

others_stay :
    (ids : List ℕ) (now : ℕ) (rows : List OutboxEvent)
    → select_rows (is_other ids) (update_rows (λ e. contains e.id ids) (process now) rows)
      ≡ select_rows (is_other ids) rows
others_stay ids now [] = refl
others_stay ids now (e ∷ es) = ground (arith, others_stay ids now es)

-- What a committed batch leaves: no event of it is pending, every other row is as it was, and so is
-- every other table.
pub record Marks (ids : List ℕ) (old new : Db) : Type 0 where
  pub done : select_rows (is_pending ids) new.outbox ≡ []
  pub others : select_rows (is_other ids) new.outbox ≡ select_rows (is_other ids) old.outbox
  pub elsewhere : new ≡ record old { outbox = new.outbox }

marked :
    (ids : List ℕ) (n : ℕ) (db : Db)
    → (new : Db) × (begin (mark_processed ids >> pure n) db ≡ (ok n, new)) × Marks ids db new
unfolding begin mark_processed
marked [] n db =
    (db, refl, record { done = nothing_pending db.outbox; others = refl; elsewhere = refl })
marked (i ∷ is) n db = (
  record db { outbox = update_rows (λ e. contains e.id (i ∷ is)) (process db.now) db.outbox },
  refl,
  record {
    done = processed_none (i ∷ is) db.now db.outbox;
    others = others_stay (i ∷ is) db.now db.outbox;
    elsewhere = refl;
  },
)

-- How a run has to end, by how publishing the batch ended.
abbrev pub Publishes :
    {P : Type 0} → List OutboxEvent → Db → Result (Unit {0}) × P → Result ℕ × Db × P → Type 0
Publishes events db (ok u, sink) r =
    (new : Db) × (r ≡ (ok (length events), new, sink)) × Marks (event_ids events) db new
Publishes events db (err e, sink) r = r ≡ (err e, db, sink)

finish-Publishes :
    {P : Type 0} (publish : P → OutboxEvent → Result (Unit {0}) × P) (events : List OutboxEvent)
    → (r : Result (Unit {0}) × P) (db : Db) → Publishes events db r (finish publish events r db)
unfolding finish
finish-Publishes publish events (err e, sink) db = refl
finish-Publishes publish events (ok u, sink) db =
    let (new, done, marks) = marked (event_ids events) (length events) db in
    (new, rw done refl, marks)

-- If every event of the batch was published, `publish_once` returns their number, none of them is
-- pending any more, and every other event and every other table is as it was. If publishing one of
-- them raised, it raises the same, no row has changed, and what was sent before stays sent: the batch
-- is published again by a later run.
pub publish_once-Publishes :
    {P : Type 0} (publish : P → OutboxEvent → Result (Unit {0}) × P) (locked : List ℕ)
    → (batch_size : ℕ) (db : Db) (sink : P)
    → Publishes
        (claimed locked batch_size db)
        db
        (publish_all publish (claimed locked batch_size db) sink)
        (publish_once publish locked batch_size db sink)
unfolding publish_once
publish_once-Publishes publish locked batch_size db sink =
    finish-Publishes publish (claimed locked batch_size db)
      (publish_all publish (claimed locked batch_size db) sink) db

-- However it ends, `publish_once` writes to the outbox alone.
pub publish_once-elsewhere :
    {P : Type 0} (publish : P → OutboxEvent → Result (Unit {0}) × P) (locked : List ℕ)
    → (batch_size : ℕ) (db : Db) (sink : P)
    → (publish_once publish locked batch_size db sink).1
      ≡ record db { outbox = (publish_once publish locked batch_size db sink).1.outbox }
publish_once-elsewhere {P} publish locked batch_size db sink =
    go (publish_all publish (claimed locked batch_size db) sink)
      (publish_once publish locked batch_size db sink)
      (publish_once-Publishes publish locked batch_size db sink)
  where
    go :
        (t : Result (Unit {0}) × P) (r : Result ℕ × Db × P)
        → Publishes (claimed locked batch_size db) db t r
        → r.1 ≡ record db { outbox = r.1.outbox }
    go (ok u, after) r (new, ended, marks) = rw ended marks.elsewhere
    go (err e, after) r ended = rw ended refl
