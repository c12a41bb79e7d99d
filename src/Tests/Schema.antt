-- ===== src/Tests/Schema.antt =====
-- The migrations on a schema that has a table of its own.
use canals_assessment.Prelude.{◌≡◌, refl, Option, none, some, [], ◌∷◌, false, true, is_some}
use canals_assessment.Domain.Enums.{OrderStatus}
use canals_assessment.Domain.Errors.{Exception, DomainError}
use canals_assessment.Domain.Values.{OrderResponse}
use canals_assessment.Db.Rows.{Db}
use canals_assessment.Db.Tx.{err}
use canals_assessment.Migrations.{Schema, Table, apply, run, column, string, primary_key}
use canals_assessment.Migrations.Extensions.{upgrade_extensions, downgrade_extensions}
use canals_assessment.Migrations.Core.{upgrade_core, downgrade_core}
use canals_assessment.Migrations.Closed.{IsClosed}
use canals_assessment.Migrations.Reversible.{downgrade-upgrade_core}
use canals_assessment.Migrations.Status.{KeyRow, add_status, upgrade_status, upgraded_refuses}
use canals_assessment.Services.Checkout.{claim_key}
use canals_assessment.Tests.Fixture.{env, shop}

abbrev notes : Table
notes = record {
  name = "notes";
  columns = column "id" string ∷ [];
  constraints = primary_key ("id" ∷ []) "pk_notes" ∷ [];
}

abbrev bare : Schema
bare = record {
  extensions = [];
  types = [];
  tables = notes ∷ [];
  indexes =
      record {
        name = "ix_notes";
        table = "notes";
        keys = "id" ∷ [];
        is_unique = false;
        using = "btree";
        predicate = none;
      }
      ∷ [];
}

abbrev schema_or : Option Schema → Schema
schema_or none = bare
schema_or (some s) = s

schema_lem : (o : Option Schema) → is_some o ≡ true → o ≡ some (schema_or o)
schema_lem none h = cc
schema_lem (some s) h = refl

abbrev prepared : Schema
prepared = schema_or (run upgrade_extensions bare)

-- The enum types go again, the extension stays.
extensions_undone :
    run downgrade_extensions prepared ≡ some (record bare { extensions = "postgis" ∷ [] })
unfolding run apply
extensions_undone = refl

prepared-IsClosed : IsClosed prepared
unfolding run apply
prepared-IsClosed = record { targets = (refl, tt); indexed = (refl, tt) }

upgraded : is_some (run upgrade_core prepared) ≡ true
unfolding run apply
upgraded = refl

downgrade-upgrade_core_example :
    run downgrade_core (schema_or (run upgrade_core prepared)) ≡ some prepared
downgrade-upgrade_core_example =
    downgrade-upgrade_core prepared (schema_or (run upgrade_core prepared)) prepared-IsClosed
      (schema_lem (run upgrade_core prepared) upgraded)

abbrev core : Schema
core = schema_or (run upgrade_core prepared)

-- Without the extension the core schema is refused.
unprepared : run upgrade_core bare ≡ none
unfolding run apply
unprepared = refl

abbrev settled_body : OrderResponse
settled_body = record {
  id = 9;
  status = OrderStatus.confirmed;
  warehouse = none;
  items = [];
  total_minor = 100;
  currency = "EUR";
  payment_reference = some "mock_1";
  created_at = 5;
}

abbrev settled_row : KeyRow
settled_row = record {
  id = 1;
  key = "key-1";
  request_hash = "hash-1";
  response_body = some settled_body;
  response_status = some 201;
  order_id = some 9;
  created_at = 5;
  updated_at = 6;
}

abbrev upgraded_shop : Db
upgraded_shop = record shop { idempotency_keys = add_status settled_row ∷ [] }

upgraded_so : upgrade_status (settled_row ∷ []) ≡ some upgraded_shop.idempotency_keys
unfolding upgrade_status
upgraded_so = refl

upgraded_refuses_example :
    claim_key env "key-1" "hash-1" upgraded_shop
    ≡ (err (Exception.domain (DomainError.idempotency_in_progress "key-1")), upgraded_shop)
upgraded_refuses_example =
    upgraded_refuses env (settled_row ∷ []) upgraded_shop "key-1" "hash-1" settled_row refl refl
      upgraded_so
