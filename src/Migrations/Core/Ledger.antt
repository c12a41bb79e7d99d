-- ===== src/Migrations/Core/Ledger.antt =====
-- migrations/versions/0002_core_schema.py: payments, stock_reservations, idempotency_keys and outbox.
use canals_assessment.Prelude.{true, false, some, none, [], ◌∷◌}
use canals_assessment.Migrations.{
  Table, string, big_integer, integer, timestamp, uuid, jsonb, string_of, enum, primary_key, unique,
  foreign_key, check, column, optional, defaulted,
}
use canals_assessment.Migrations.Core.Shared.{Block, id_column, created_at, updated_at}

abbrev payments_table : Table
payments_table = record {
  name = "payments";
  columns =
      id_column
      ∷ column "order_id" uuid
      ∷ column "status" (enum "payment_status")
      ∷ column "amount_minor" big_integer
      ∷ column "currency" (string_of 3)
      ∷ column "description" string
      ∷ optional "card_brand" string
      ∷ optional "card_last4" (string_of 4)
      ∷ column "provider" string
      ∷ optional "provider_reference" string
      ∷ optional "failure_reason" string
      ∷ created_at
      ∷ updated_at
      ∷ [];
  constraints =
      primary_key ("id" ∷ []) "pk_payments"
      ∷ foreign_key ("order_id" ∷ []) "orders" ("id" ∷ []) "fk_payments_order_id_orders" "RESTRICT"
      ∷ check "amount_minor > 0" "amount_positive"
      ∷ check "currency ~ '^[A-Z]{3}$'" "currency_format"
      ∷ check "card_last4 ~ '^[0-9]{4}$'" "card_last4_format"
      ∷ check "status <> 'failed' OR failure_reason IS NOT NULL" "failed_requires_reason"
      ∷ [];
}

abbrev pub payments : Block
payments = record {
  table = payments_table;
  indexes =
      record {
        name = "ix_payments_order_id";
        table = "payments";
        keys = "order_id" ∷ [];
        is_unique = false;
        using = "btree";
        predicate = none;
      }
      ∷ record {
        name = "uq_payments_order_succeeded";
        table = "payments";
        keys = "order_id" ∷ [];
        is_unique = true;
        using = "btree";
        predicate = some "status = 'succeeded'";
      }
      ∷ record {
        name = "uq_payments_provider_reference";
        table = "payments";
        keys = "provider" ∷ "provider_reference" ∷ [];
        is_unique = true;
        using = "btree";
        predicate = some "provider_reference IS NOT NULL";
      }
      ∷ [];
}

abbrev stock_reservations_table : Table
stock_reservations_table = record {
  name = "stock_reservations";
  columns =
      id_column
      ∷ column "order_id" uuid
      ∷ column "warehouse_id" uuid
      ∷ column "product_id" uuid
      ∷ column "quantity" integer
      ∷ defaulted "status" (enum "reservation_status") "'active'"
      ∷ column "expires_at" timestamp
      ∷ optional "released_at" timestamp
      ∷ created_at
      ∷ [];
  constraints =
      primary_key ("id" ∷ []) "pk_stock_reservations"
      ∷ foreign_key ("order_id" ∷ []) "orders" ("id" ∷ []) "fk_stock_reservations_order_id_orders"
          "CASCADE"
      ∷ foreign_key ("warehouse_id" ∷ []) "warehouses" ("id" ∷ [])
          "fk_stock_reservations_warehouse_id_warehouses" "RESTRICT"
      ∷ foreign_key ("product_id" ∷ []) "products" ("id" ∷ [])
          "fk_stock_reservations_product_id_products" "RESTRICT"
      ∷ unique ("order_id" ∷ "warehouse_id" ∷ "product_id" ∷ [])
          "uq_stock_reservations_order_warehouse_product"
      ∷ check "quantity > 0" "quantity_positive"
      ∷ check "status = 'active' OR released_at IS NOT NULL" "settled_requires_released_at"
      ∷ [];
}

abbrev pub stock_reservations : Block
stock_reservations = record {
  table = stock_reservations_table;
  indexes =
      record {
        name = "ix_stock_reservations_sweeper";
        table = "stock_reservations";
        keys = "expires_at" ∷ [];
        is_unique = false;
        using = "btree";
        predicate = some "status = 'active'";
      }
      ∷ [];
}

abbrev idempotency_keys_table : Table
idempotency_keys_table = record {
  name = "idempotency_keys";
  columns =
      id_column
      ∷ column "key" string
      ∷ column "request_hash" string
      ∷ optional "response_body" jsonb
      ∷ optional "response_status" integer
      ∷ optional "order_id" uuid
      ∷ created_at
      ∷ updated_at
      ∷ [];
  constraints =
      primary_key ("id" ∷ []) "pk_idempotency_keys"
      ∷ unique ("key" ∷ []) "uq_idempotency_keys_key"
      ∷ foreign_key ("order_id" ∷ []) "orders" ("id" ∷ []) "fk_idempotency_keys_order_id_orders"
          "SET NULL"
      ∷ check "char_length(request_hash) = 64" "request_hash_sha256"
      ∷ check "response_status BETWEEN 100 AND 599" "response_status_range"
      ∷ check "(response_body IS NULL) = (response_status IS NULL)" "response_columns_paired"
      ∷ [];
}

abbrev pub idempotency_keys : Block
idempotency_keys = record {
  table = idempotency_keys_table;
  indexes =
      record {
        name = "ix_idempotency_keys_created_at";
        table = "idempotency_keys";
        keys = "created_at" ∷ [];
        is_unique = false;
        using = "btree";
        predicate = none;
      }
      ∷ record {
        name = "ix_idempotency_keys_unsettled";
        table = "idempotency_keys";
        keys = "created_at" ∷ [];
        is_unique = false;
        using = "btree";
        predicate = some "response_status IS NULL";
      }
      ∷ [];
}

abbrev outbox_table : Table
outbox_table = record {
  name = "outbox";
  columns =
      id_column
      ∷ column "event_type" string
      ∷ defaulted "aggregate_type" string "'order'"
      ∷ column "aggregate_id" uuid
      ∷ column "payload" jsonb
      ∷ defaulted "attempts" integer "0"
      ∷ created_at
      ∷ optional "processed_at" timestamp
      ∷ [];
  constraints =
      primary_key ("id" ∷ []) "pk_outbox" ∷ check "attempts >= 0" "attempts_non_negative" ∷ [];
}

abbrev pub outbox : Block
outbox = record {
  table = outbox_table;
  indexes =
      record {
        name = "ix_outbox_unprocessed";
        table = "outbox";
        keys = "created_at" ∷ [];
        is_unique = false;
        using = "btree";
        predicate = some "processed_at IS NULL";
      }
      ∷ [];
}
