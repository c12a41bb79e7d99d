-- ===== src/Repositories/Outbox.antt =====
-- app/repositories/outbox.py. Rows that other workers have locked, which SKIP LOCKED passes over,
-- are an argument.
use canals_assessment.Prelude.{
  ℕ, ◌+◌, String, Bool, true, false, not, ◌&&◌, Option, none, some, List, [], ◌∷◌, ◌++◌, leb, take,
  contains,
}
use canals_assessment.Prelude.Sorting.{sort_by}
use canals_assessment.Sql.{update_rows, select_rows}
use canals_assessment.Db.Rows.{Db, OutboxEvent, Payload}
use canals_assessment.Db.Tx.{Tx, pure, gets, modify, ◌>>=◌, Env, draw}

abbrev pub add_event : OutboxEvent → Db → Db
add_event e db = record db { outbox = db.outbox ++ e ∷ [] }

unfoldable pub add : Env → String → ℕ → Payload → Tx (Unit {0})
add env event_type aggregate_id payload = do
  now ← gets (λ db. db.now)
  id ← draw env
  modify (
      add_event (record {
        id = id;
        event_type = event_type;
        aggregate_type = "order";
        aggregate_id = aggregate_id;
        payload = payload;
        attempts = 0;
        created_at = now;
        processed_at = none;
      }))

abbrev pub is_unset : Option ℕ → Bool
is_unset none = true
is_unset (some t) = false

abbrev pub is_claimable : List ℕ → OutboxEvent → Bool
is_claimable locked e = is_unset e.processed_at && not (contains e.id locked)

abbrev pub created_leb : OutboxEvent → OutboxEvent → Bool
created_leb a b = leb a.created_at b.created_at

unfoldable pub claim_batch : List ℕ → ℕ → Tx (List OutboxEvent)
claim_batch locked batch_size =
    gets (λ db. take batch_size (sort_by created_leb (select_rows (is_claimable locked) db.outbox)))

abbrev pub process : ℕ → OutboxEvent → OutboxEvent
process now e = record e { processed_at = some now; attempts = e.attempts + 1 }

-- An empty list updates nothing, as the source's early return does.
unfoldable pub mark_processed : List ℕ → Tx (Unit {0})
mark_processed [] = pure tt
mark_processed (i ∷ is) = modify λ db. record db {
  outbox = update_rows (λ e. contains e.id (i ∷ is)) (process db.now) db.outbox;
}
