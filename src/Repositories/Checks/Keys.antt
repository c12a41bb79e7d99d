-- ===== src/Repositories/Checks/Keys.antt =====
-- app/repositories/idempotency.py and outbox.py, and the CHECK constraints.
use canals_assessment.Prelude.{ℕ, String, ◌≡◌, refl, true, Option}
use canals_assessment.Domain.Values.{OrderResponse}
use canals_assessment.Sql.Laws.{All-update_rows}
use canals_assessment.Db.Rows.{Payload}
use canals_assessment.Db.Tx.{Env}
use canals_assessment.Db.Preserves.{preserve_rules, Preserves-if}
use canals_assessment.Repositories.Checks.{is_key_ok}
use canals_assessment.Repositories.Checks.Tables.{Keeps, keys-IsChecked, All-added}
use canals_assessment.Repositories.Idempotency.{
  claim, insert_key, reclaim_failed, settle_completed, has_key, is_failed_key, reopen, complete_key,
  fail_key, add_key,
}
use canals_assessment.Repositories.Idempotency
use canals_assessment.Repositories.Outbox.{add}

pub add_event-IsChecked :
    (env : Env) (event : String) (id : ℕ) (payload : Payload) → Keeps (add env event id payload)
unfolding add
add_event-IsChecked env event id payload = record { at = λ db c. c }

insert_key-IsChecked : (env : Env) (key hashed : String) → Keeps (insert_key env key hashed)
unfolding insert_key
insert_key-IsChecked env key hashed = record {
  at = λ db c. (c.0, c.1, c.2, c.3, c.4, All-added is_key_ok db.idempotency_keys _ c.5 refl);
}

pub claim-IsChecked : (env : Env) (key hashed : String) → Keeps (claim env key hashed)
unfolding claim
claim-IsChecked env key hashed = search (preserve_rules, Preserves-if, insert_key-IsChecked) depth 8

pub reclaim_failed-IsChecked : (key : String) → Keeps (reclaim_failed key)
unfolding reclaim_failed
reclaim_failed-IsChecked key = record {
  at = λ db c. (
    c.0,
    c.1,
    c.2,
    c.3,
    c.4,
    All-update_rows (is_failed_key key) (λ k. is_key_ok k ≡ true) (reopen db.now)
        db.idempotency_keys (λ k t h. refl) c.5,
  );
}

pub settle_completed-IsChecked :
    (key : String) (body : OrderResponse) (order : ℕ) → Keeps (settle_completed key body 201 order)
unfolding settle_completed
settle_completed-IsChecked key body order = keys-IsChecked _ (λ db c.
    All-update_rows (has_key key) (λ k. is_key_ok k ≡ true) (complete_key body 201 order db.now)
      db.idempotency_keys (λ k t h. refl) c.5)

pub key_failed-IsChecked :
    (key : String) (order : Option ℕ) → Keeps (Idempotency.mark_failed key order)
unfolding Idempotency.mark_failed
key_failed-IsChecked key order = keys-IsChecked _ (λ db c.
    All-update_rows (has_key key) (λ k. is_key_ok k ≡ true) (fail_key order db.now)
      db.idempotency_keys (λ k t h. refl) c.5)
