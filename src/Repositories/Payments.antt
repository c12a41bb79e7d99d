-- ===== src/Repositories/Payments.antt =====
-- app/repositories/payment.py, with the constraints of app/models/payment.py that the code does not
-- rule out by itself: `amount_minor > 0`, one succeeded payment for an order, and one payment for a
-- provider's reference.
use canals_assessment.Prelude.{
  ℕ, ◌+◌, String, Bool, false, not, ◌&&◌, ◌||◌, Option, none, some, List, [], ◌∷◌, ◌++◌, ltb, ◌==◌,
  str_eq,
}
use canals_assessment.Domain.Enums.{PaymentStatus, payment_status_eq}
use canals_assessment.Domain.Errors.{Exception}
use canals_assessment.Sql.{update_rows, select_rows, exists_row}
use canals_assessment.Db.Rows.{Db, Payment}
use canals_assessment.Db.Tx.{Tx, pure, gets, raise_if, modify, ◌>>=◌, ◌>>◌, Env, draw}

abbrev pub add_payment : Payment → Db → Db
add_payment p db = record db { payments = db.payments ++ p ∷ [] }

unfoldable pub create_pending : Env → ℕ → ℕ → String → String → Tx Payment
create_pending env order_id amount_minor currency description = do
  raise_if (not (ltb 0 amount_minor)) Exception.integrity_error
  now ← gets (λ db. db.now)
  id ← draw env
  let payment : Payment = record {
    id = id;
    order_id = order_id;
    status = PaymentStatus.pending;
    amount_minor = amount_minor;
    currency = currency;
    description = description;
    card_brand = none;
    card_last4 = none;
    provider = "mock";
    provider_reference = none;
    failure_reason = none;
    created_at = now;
    updated_at = now;
  }
  modify (add_payment payment)
  pure payment

abbrev pub is_payment : ℕ → Payment → Bool
is_payment payment_id p = p.id == payment_id

abbrev pub succeed : Option String → Option String → Option String → ℕ → Payment → Payment
succeed reference card_brand card_last4 now p = record p {
  status = PaymentStatus.succeeded;
  provider_reference = reference;
  card_brand = card_brand;
  card_last4 = card_last4;
  updated_at = now;
}

-- Two references that are both set and equal.
abbrev pub same_reference : Option String → Option String → Bool
same_reference none r = false
same_reference (some a) none = false
same_reference (some a) (some b) = str_eq a b

-- `uq_payments_order_succeeded` and `uq_payments_provider_reference`, between a succeeded row and
-- another row.
abbrev pub conflicts : Payment → Payment → Bool
conflicts new p =
    not (p.id == new.id)
    && (((p.order_id == new.order_id) && payment_status_eq p.status PaymentStatus.succeeded)
        || (str_eq p.provider new.provider
            && same_reference p.provider_reference new.provider_reference))

-- Whether the UPDATE of `mark_succeeded` would break a UNIQUE index.
abbrev pub success_conflicts : ℕ → (Payment → Payment) → List Payment → Bool
success_conflicts payment_id set rows =
    exists_row (λ p. is_payment payment_id p && exists_row (conflicts (set p)) rows) rows

unfoldable pub mark_succeeded : ℕ → Option String → Option String → Option String → Tx (Unit {0})
mark_succeeded payment_id reference card_brand card_last4 = do
  clash ← gets (λ db.
      success_conflicts payment_id (succeed reference card_brand card_last4 db.now) db.payments)
  raise_if clash Exception.integrity_error
  modify λ db. record db {
    payments =
        update_rows (is_payment payment_id) (succeed reference card_brand card_last4 db.now)
          db.payments;
  }

abbrev pub fail : String → Option String → Option String → ℕ → Payment → Payment
fail failure_reason card_brand card_last4 now p = record p {
  status = PaymentStatus.failed;
  failure_reason = some failure_reason;
  card_brand = card_brand;
  card_last4 = card_last4;
  updated_at = now;
}

unfoldable pub mark_failed : ℕ → String → Option String → Option String → Tx (Unit {0})
mark_failed payment_id failure_reason card_brand card_last4 = modify λ db. record db {
  payments =
      update_rows (is_payment payment_id) (fail failure_reason card_brand card_last4 db.now)
        db.payments;
}

-- The status stays `pending`.
abbrev pub annotate : String → Option String → Option String → ℕ → Payment → Payment
annotate failure_reason card_brand card_last4 now p = record p {
  failure_reason = some failure_reason;
  card_brand = card_brand;
  card_last4 = card_last4;
  updated_at = now;
}

unfoldable pub mark_unknown : ℕ → String → Option String → Option String → Tx (Unit {0})
mark_unknown payment_id failure_reason card_brand card_last4 = modify λ db. record db {
  payments =
      update_rows (is_payment payment_id) (annotate failure_reason card_brand card_last4 db.now)
        db.payments;
}

-- `created_at < now - grace`, without the subtraction.
abbrev pub is_unresolved : ℕ → ℕ → Payment → Bool
is_unresolved now grace_seconds p =
    payment_status_eq p.status PaymentStatus.pending && ltb (p.created_at + grace_seconds) now

unfoldable pub unresolved_before : ℕ → Tx (List Payment)
unresolved_before grace_seconds =
    gets (λ db. select_rows (is_unresolved db.now grace_seconds) db.payments)
