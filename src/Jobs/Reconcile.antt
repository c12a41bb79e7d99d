-- ===== src/Jobs/Reconcile.antt =====
-- app/jobs/reconcile_payments.py. The provider's `get_by_idempotency_key` is an argument.
pub mod Answers
use canals_assessment.Prelude.{
  ℕ, ◌+◌, String, Bool, true, false, Option, none, some, List, [], ◌∷◌, if◌then◌else◌,
}
use canals_assessment.Domain.Values.{PaymentResult, PaymentOutcome}
use canals_assessment.Db.Rows.{Payment}
use canals_assessment.Db.Tx.{Tx, Env, pure, ◌>>=◌}
use canals_assessment.Repositories.Payments.{unresolved_before}

abbrev pub is_definite : PaymentOutcome → Bool
is_definite PaymentOutcome.unknown = false
is_definite _ = true

-- Whether the provider's answer says how the charge ended.
abbrev pub is_answer : Option PaymentResult → Bool
is_answer none = false
is_answer (some r) = is_definite r.outcome

module _ (env : Env) (get_by_idempotency_key : String → Option PaymentResult) where
  abbrev pub answered : Payment → Bool
  answered p = is_answer (get_by_idempotency_key (env.str_uuid p.order_id))

  -- The loop, with the count so far.
  unfoldable pub examine : ℕ → List Payment → ℕ
  examine resolved [] = resolved
  examine resolved (p ∷ ps) = examine (if answered p then resolved + 1 else resolved) ps

  unfoldable pub reconcile_once : ℕ → Tx ℕ
  unfolding examine
  reconcile_once grace_seconds = do
    unresolved ← unresolved_before grace_seconds
    pure (examine 0 unresolved)
