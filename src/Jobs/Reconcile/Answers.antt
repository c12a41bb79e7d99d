-- ===== src/Jobs/Reconcile/Answers.antt =====
-- What a run of app/jobs/reconcile_payments.py does.
use canals_assessment.Prelude.{ℕ, ◌+◌, String, ◌≡◌, refl, Option, List, [], ◌∷◌, length, arith}
use canals_assessment.Domain.Values.{PaymentResult}
use canals_assessment.Sql.{select_rows}
use canals_assessment.Db.Rows.{Db, Payment}
use canals_assessment.Db.Tx.{Env, ok}
use canals_assessment.Repositories.Payments.{unresolved_before, is_unresolved}
use canals_assessment.Jobs.Reconcile.{answered, examine, reconcile_once}

module _ (env : Env) (get_by_idempotency_key : String → Option PaymentResult) where
  examine_lem :
      (n : ℕ) (ps : List Payment)
      → examine env get_by_idempotency_key n ps
        ≡ n + length (select_rows (answered env get_by_idempotency_key) ps)
  unfolding examine
  examine_lem n [] = omega arith
  examine_lem n (p ∷ ps) = ground (arith, examine_lem (n + 1) ps, examine_lem n ps)

  examine_all :
      (ps : List Payment)
      → examine env get_by_idempotency_key 0 ps
        ≡ length (select_rows (answered env get_by_idempotency_key) ps)
  examine_all ps = omega (arith, examine_lem 0 ps)

  -- A run returns the number of payments, pending for longer than the grace period, whose charge the
  -- provider knows to have succeeded or been declined; and it resolves none of them: every table is
  -- as before, so the next run finds the same payments pending.
  pub reconcile_once-reads :
      (grace_seconds : ℕ) (db : Db)
      → reconcile_once env get_by_idempotency_key grace_seconds db ≡ (
        ok (
            length (
              select_rows
                (answered env get_by_idempotency_key)
                (select_rows (is_unresolved db.now grace_seconds) db.payments))),
        db,
      )
  unfolding reconcile_once unresolved_before
  reconcile_once-reads grace_seconds db =
      rw (examine_all (select_rows (is_unresolved db.now grace_seconds) db.payments)) refl
