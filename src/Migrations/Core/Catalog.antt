-- ===== src/Migrations/Core/Catalog.antt =====
-- migrations/versions/0002_core_schema.py: customers, products, warehouses, addresses and inventory.
use canals_assessment.Prelude.{true, false, some, none, [], ◌∷◌}
use canals_assessment.Migrations.{
  Table, string, big_integer, integer, boolean, uuid, geography_point, string_of, primary_key,
  unique, foreign_key, check, column, optional, defaulted,
}
use canals_assessment.Migrations.Core.Shared.{Block, id_column, created_at, updated_at}

abbrev customers_table : Table
customers_table = record {
  name = "customers";
  columns =
      id_column ∷ column "email" string ∷ column "full_name" string ∷ created_at ∷ updated_at ∷ [];
  constraints = primary_key ("id" ∷ []) "pk_customers" ∷ [];
}

abbrev pub customers : Block
customers = record {
  table = customers_table;
  indexes =
      record {
        name = "ix_customers_email_lower";
        table = "customers";
        keys = "lower(email)" ∷ [];
        is_unique = true;
        using = "btree";
        predicate = none;
      }
      ∷ [];
}

abbrev products_table : Table
products_table = record {
  name = "products";
  columns =
      id_column
      ∷ column "sku" string
      ∷ column "name" string
      ∷ column "unit_price_minor" big_integer
      ∷ column "currency" (string_of 3)
      ∷ defaulted "is_active" boolean "true"
      ∷ created_at
      ∷ updated_at
      ∷ [];
  constraints =
      primary_key ("id" ∷ []) "pk_products"
      ∷ unique ("sku" ∷ []) "uq_products_sku"
      ∷ check "unit_price_minor >= 0" "unit_price_non_negative"
      ∷ check "currency ~ '^[A-Z]{3}$'" "currency_format"
      ∷ [];
}

abbrev pub products : Block
products = record { table = products_table; indexes = [] }

abbrev warehouses_table : Table
warehouses_table = record {
  name = "warehouses";
  columns =
      id_column
      ∷ column "code" string
      ∷ column "name" string
      ∷ column "location" geography_point
      ∷ defaulted "is_active" boolean "true"
      ∷ created_at
      ∷ updated_at
      ∷ [];
  constraints =
      primary_key ("id" ∷ []) "pk_warehouses" ∷ unique ("code" ∷ []) "uq_warehouses_code" ∷ [];
}

abbrev pub warehouses : Block
warehouses = record {
  table = warehouses_table;
  indexes =
      record {
        name = "ix_warehouses_location";
        table = "warehouses";
        keys = "location" ∷ [];
        is_unique = false;
        using = "gist";
        predicate = none;
      }
      ∷ [];
}

abbrev addresses_table : Table
addresses_table = record {
  name = "addresses";
  columns =
      id_column
      ∷ column "customer_id" uuid
      ∷ column "line1" string
      ∷ optional "line2" string
      ∷ column "city" string
      ∷ column "postal_code" string
      ∷ column "country_code" (string_of 2)
      ∷ optional "point" geography_point
      ∷ created_at
      ∷ updated_at
      ∷ [];
  constraints =
      primary_key ("id" ∷ []) "pk_addresses"
      ∷ foreign_key ("customer_id" ∷ []) "customers" ("id" ∷ [])
          "fk_addresses_customer_id_customers" "CASCADE"
      ∷ check "country_code ~ '^[A-Z]{2}$'" "country_code_format"
      ∷ [];
}

abbrev pub addresses : Block
addresses = record {
  table = addresses_table;
  indexes =
      record {
        name = "ix_addresses_customer_id";
        table = "addresses";
        keys = "customer_id" ∷ [];
        is_unique = false;
        using = "btree";
        predicate = none;
      }
      ∷ record {
        name = "ix_addresses_point";
        table = "addresses";
        keys = "point" ∷ [];
        is_unique = false;
        using = "gist";
        predicate = some "point IS NOT NULL";
      }
      ∷ [];
}

abbrev inventory_table : Table
inventory_table = record {
  name = "inventory";
  columns =
      id_column
      ∷ column "warehouse_id" uuid
      ∷ column "product_id" uuid
      ∷ defaulted "on_hand" integer "0"
      ∷ defaulted "reserved" integer "0"
      ∷ updated_at
      ∷ [];
  constraints =
      primary_key ("id" ∷ []) "pk_inventory"
      ∷ foreign_key ("warehouse_id" ∷ []) "warehouses" ("id" ∷ [])
          "fk_inventory_warehouse_id_warehouses" "RESTRICT"
      ∷ foreign_key ("product_id" ∷ []) "products" ("id" ∷ []) "fk_inventory_product_id_products"
          "RESTRICT"
      ∷ unique ("warehouse_id" ∷ "product_id" ∷ []) "uq_inventory_warehouse_product"
      ∷ check "reserved >= 0" "reserved_non_negative"
      ∷ check "on_hand >= reserved" "on_hand_ge_reserved"
      ∷ [];
}

abbrev pub inventory : Block
inventory = record {
  table = inventory_table;
  indexes =
      record {
        name = "ix_inventory_product_warehouse";
        table = "inventory";
        keys = "product_id" ∷ "warehouse_id" ∷ [];
        is_unique = false;
        using = "btree";
        predicate = none;
      }
      ∷ [];
}
