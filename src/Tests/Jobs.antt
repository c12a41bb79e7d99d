-- ===== src/Tests/Jobs.antt =====
-- The jobs on small data.
use canals_assessment.Prelude.{
  List, arith, ◌-◌, ℕ, ◌+◌, String, ◌≡◌, refl, none, some, Option, [], ◌∷◌, length,
}
use canals_assessment.Domain.Enums.{PaymentStatus}
use canals_assessment.Domain.Values.{PaymentResult}
use canals_assessment.Sql.{select_rows}
use canals_assessment.Db.Rows.{Db, OutboxEvent, Payment}
use canals_assessment.Db.Tx.{Result, ok}
use canals_assessment.Repositories.Payments.{is_unresolved}
use canals_assessment.Jobs.Publish.{claimed, publish_all, publish_once}
use canals_assessment.Jobs.Publish
use canals_assessment.Jobs.Publish.Drain.{Relays, main-Relays}
use canals_assessment.Jobs.Publish.Batch.{Publishes, publish_once-Publishes}
use canals_assessment.Jobs.Reconcile.{answered, reconcile_once}
use canals_assessment.Jobs.Reconcile.Answers.{reconcile_once-reads}
use canals_assessment.Tests.Fixture.{env, shop, paying}

abbrev event : OutboxEvent
event = record {
  id = 1;
  event_type = "order_confirmed";
  aggregate_type = "order";
  aggregate_id = 9;
  payload = record {
    order_id = "9";
    customer_id = "7";
    warehouse_id = "10";
    total_minor = 100;
    currency = "EUR";
    payment_reference = none;
  };
  attempts = 0;
  created_at = 5;
  processed_at = none;
}

abbrev pending_payment : Payment
pending_payment = record {
  id = 2;
  order_id = 9;
  status = PaymentStatus.pending;
  amount_minor = 100;
  currency = "EUR";
  description = "Order 9";
  card_brand = none;
  card_last4 = none;
  provider = "mock";
  provider_reference = none;
  failure_reason = some "provider timeout";
  created_at = 5;
  updated_at = 5;
}

abbrev waiting : Db
waiting = record shop { outbox = event ∷ []; payments = pending_payment ∷ [] }

-- A sink that counts.
abbrev publish : ℕ → OutboxEvent → Result (Unit {0}) × ℕ
publish n e = (ok tt, n + 1)

publish_once-Publishes_example :
    Publishes
      (claimed [] 100 waiting)
      waiting
      (publish_all publish (claimed [] 100 waiting) 0)
      (publish_once publish [] 100 waiting 0)
publish_once-Publishes_example = publish_once-Publishes publish [] 100 waiting 0

one_claimed : length (claimed [] 100 waiting) ≡ 1
one_claimed = refl

abbrev knows : String → Option PaymentResult
knows key = some paying

reconcile_once-reads_example : reconcile_once env knows 60 waiting ≡ (
  ok (
      length
        (select_rows (answered env knows) (select_rows (is_unresolved 1000 60) waiting.payments))),
  waiting,
)
reconcile_once-reads_example = reconcile_once-reads env knows 60 waiting

abbrev unlocked : ℕ → List ℕ
unlocked n = []

main-Relays_example :
    Relays 100 unlocked (λ n. 20 - n) 2 0 waiting [] (Publish.main 2 unlocked (λ n. 20 - n) waiting)
main-Relays_example = main-Relays unlocked (λ n. 20 - n) 2 waiting (omega arith)
