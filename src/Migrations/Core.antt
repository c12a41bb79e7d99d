-- ===== src/Migrations/Core.antt =====
-- migrations/versions/0002_core_schema.py.
pub mod Shared
pub mod Catalog
pub mod Orders
pub mod Ledger
use canals_assessment.Prelude.{List, [], ◌∷◌, ◌++◌, map, String}
use canals_assessment.Migrations.{Operation, drop_table}
use canals_assessment.Migrations.Core.Shared.{Block, block_operations}
use canals_assessment.Migrations.Core.Catalog.{
  customers, products, warehouses, addresses, inventory,
}
use canals_assessment.Migrations.Core.Orders.{orders, order_items, order_status_history}
use canals_assessment.Migrations.Core.Ledger.{
  payments, stock_reservations, idempotency_keys, outbox,
}

abbrev pub core_blocks : List Block
core_blocks =
    customers ∷ products ∷ warehouses ∷ addresses ∷ inventory ∷ orders ∷ order_items
    ∷ order_status_history ∷ payments ∷ stock_reservations ∷ idempotency_keys ∷ outbox ∷ []

abbrev pub operations_of : List Block → List Operation
operations_of [] = []
operations_of (b ∷ bs) = block_operations b ++ operations_of bs

-- `upgrade`
abbrev pub upgrade_core : List Operation
upgrade_core = operations_of core_blocks

-- `downgrade`
abbrev pub downgrade_core : List Operation
downgrade_core = map drop_table (
    "outbox" ∷ "idempotency_keys" ∷ "stock_reservations" ∷ "payments" ∷ "order_status_history"
    ∷ "order_items" ∷ "orders" ∷ "inventory" ∷ "addresses" ∷ "warehouses" ∷ "products" ∷ "customers"
    ∷ [])
