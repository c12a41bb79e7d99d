-- ===== src/Migrations/Core/Orders.antt =====
-- migrations/versions/0002_core_schema.py: orders, their lines and their history.
use canals_assessment.Prelude.{false, some, none, [], ◌∷◌}
use canals_assessment.Migrations.{
  Table, string, big_integer, integer, timestamp, uuid, geography_point, string_of, enum,
  primary_key, unique, foreign_key, check, column, optional, defaulted,
}
use canals_assessment.Migrations.Core.Shared.{Block, id_column, created_at, updated_at}

abbrev orders_table : Table
orders_table = record {
  name = "orders";
  columns =
      id_column
      ∷ column "customer_id" uuid
      ∷ defaulted "status" (enum "order_status") "'pending'"
      ∷ optional "warehouse_id" uuid
      ∷ column "currency" (string_of 3)
      ∷ column "total_minor" big_integer
      ∷ column "shipping_line1" string
      ∷ optional "shipping_line2" string
      ∷ column "shipping_city" string
      ∷ column "shipping_postal_code" string
      ∷ column "shipping_country_code" (string_of 2)
      ∷ optional "shipping_point" geography_point
      ∷ created_at
      ∷ updated_at
      ∷ [];
  constraints =
      primary_key ("id" ∷ []) "pk_orders"
      ∷ foreign_key ("customer_id" ∷ []) "customers" ("id" ∷ []) "fk_orders_customer_id_customers"
          "RESTRICT"
      ∷ foreign_key ("warehouse_id" ∷ []) "warehouses" ("id" ∷ [])
          "fk_orders_warehouse_id_warehouses" "RESTRICT"
      ∷ check "currency ~ '^[A-Z]{3}$'" "currency_format"
      ∷ check "shipping_country_code ~ '^[A-Z]{2}$'" "shipping_country_format"
      ∷ check "total_minor >= 0" "total_non_negative"
      ∷ check
          "status IN ('pending', 'cancelled') OR (warehouse_id IS NOT NULL AND shipping_point IS NOT NULL)"
          "reserved_requires_warehouse_and_point"
      ∷ [];
}

abbrev pub orders : Block
orders = record {
  table = orders_table;
  indexes =
      record {
        name = "ix_orders_customer_created";
        table = "orders";
        keys = "customer_id" ∷ "created_at DESC" ∷ [];
        is_unique = false;
        using = "btree";
        predicate = none;
      }
      ∷ record {
        name = "ix_orders_open";
        table = "orders";
        keys = "status" ∷ "created_at" ∷ [];
        is_unique = false;
        using = "btree";
        predicate = some "status IN ('pending', 'reserved')";
      }
      ∷ [];
}

abbrev order_items_table : Table
order_items_table = record {
  name = "order_items";
  columns =
      id_column
      ∷ column "order_id" uuid
      ∷ column "product_id" uuid
      ∷ column "product_sku" string
      ∷ column "product_name" string
      ∷ column "quantity" integer
      ∷ column "unit_price_minor" big_integer
      ∷ column "currency" (string_of 3)
      ∷ record (column "line_total_minor" big_integer) {
        computed = some "quantity * unit_price_minor";
      }
      ∷ created_at
      ∷ [];
  constraints =
      primary_key ("id" ∷ []) "pk_order_items"
      ∷ foreign_key ("order_id" ∷ []) "orders" ("id" ∷ []) "fk_order_items_order_id_orders"
          "CASCADE"
      ∷ foreign_key ("product_id" ∷ []) "products" ("id" ∷ []) "fk_order_items_product_id_products"
          "RESTRICT"
      ∷ unique ("order_id" ∷ "product_id" ∷ []) "uq_order_items_order_product"
      ∷ check "quantity > 0" "quantity_positive"
      ∷ check "unit_price_minor >= 0" "unit_price_non_negative"
      ∷ check "currency ~ '^[A-Z]{3}$'" "currency_format"
      ∷ [];
}

abbrev pub order_items : Block
order_items = record { table = order_items_table; indexes = [] }

abbrev order_status_history_table : Table
order_status_history_table = record {
  name = "order_status_history";
  columns =
      id_column
      ∷ column "order_id" uuid
      ∷ optional "from_status" (enum "order_status")
      ∷ column "to_status" (enum "order_status")
      ∷ optional "reason" string
      ∷ defaulted "occurred_at" timestamp "now()"
      ∷ [];
  constraints =
      primary_key ("id" ∷ []) "pk_order_status_history"
      ∷ foreign_key ("order_id" ∷ []) "orders" ("id" ∷ []) "fk_order_status_history_order_id_orders"
          "CASCADE"
      ∷ check "from_status IS DISTINCT FROM to_status" "transition_changes_status"
      ∷ [];
}

abbrev pub order_status_history : Block
order_status_history = record {
  table = order_status_history_table;
  indexes =
      record {
        name = "ix_order_status_history_order";
        table = "order_status_history";
        keys = "order_id" ∷ "occurred_at" ∷ [];
        is_unique = false;
        using = "btree";
        predicate = none;
      }
      ∷ [];
}
