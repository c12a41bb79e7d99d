-- ===== src/Lib.antt =====
-- A model of the order service: one endpoint, POST /orders, over a PostgreSQL database.
--
-- The parts, and the files that model them:
-- - app/domain: Domain/Enums, Values, Errors and OrderState, the enums, the value objects, the
--   exceptions with their fields, and the table of allowed changes of an order's status.
-- - app/models: Db/Rows, one record for each table that the code uses, and
--   `Db`, every table at once with the time that `now()` returns and a count of the ids drawn.
-- - SQLAlchemy's session: Db/Tx. `Tx A` is code that reads and writes the database and returns or
--   raises; `begin` is `async with session.begin()`, which rolls back when its body raises. Sql has
--   UPDATE, SELECT and EXISTS over a table held as a list of rows. Db/Frame and Db/Preserves have the
--   rules for what such code leaves alone and keeps.
-- - app/repositories: Repositories/Reservation (reserve_stock, release_reservation,
--   settle_for_order, sweep_expired and `_settle`), Orders (order.py and product.py), Idempotency,
--   Payments, Outbox and Warehouses. One function per method, each statement of SQL one step.
-- - app/services: Services/Selection, Creation and Checkout. `checkout` is two runs of `begin` around
--   one call of the provider: tx1 claims the key, writes the order and reserves the stock; tx2
--   confirms, compensates or leaves a note, by the provider's answer.
-- - app/adapters: Adapters/PaymentMock, the provider as a function on its own state, and
--   Adapters/GeocodingMock, with normalized_key of app/domain/address.py.
-- - app/jobs: Jobs/Sweep (sweep_reservations.py), Publish (publish_outbox.py) and Reconcile
--   (reconcile_payments.py); the publisher of app/adapters/event_log.py is in Publish.
-- - The parts at work together: System. A World is the database and the requests that are between tx1
--   and tx2; a Step is one transaction of a request, a run of the sweeper or of the publisher, a crash
--   of a task while its provider is asked, or the clock; Reach is any sequence of them.
-- - migrations/versions: Migrations, the operations of Alembic as data and a schema that they change
--   (Extensions for 0001, Core for 0002, KeyStatus for 0003), and Migrations/Status, the rows of
--   idempotency_keys under the upgrade of 0003.
-- - app/seeds.py: Seeds, with Seeds/Data (what it inserts) and Seeds/Upsert (INSERT … ON CONFLICT DO
--   UPDATE of several rows); a `Store` is the database with the table of addresses.
-- - app/schemas/order.py and common.py, app/api/errors.py and routes/orders.py: Api/Schemas, Errors
--   and Orders.
-- The children of a module hold its lemmas, in files named for what they are about: a reservation's
-- Ledger (the account that the theorems keep), Supply, Reserve, Atomic, GiveBack, Settle and RoundTrip; a
-- checkout's Replay, Once, Outcomes, Declined, Succeeded and Oversell. Tests has a small shop and runs on it.
--
-- Parameters, since their code is not in the repository: the record `Env` has what PostgreSQL and
-- PostGIS compute (gen_random_uuid, ST_Distance, the collation), Python's `str` of a UUID, and the
-- setting RESERVATION_TTL_SECONDS; the geocoder and the payment provider are arguments of the
-- services: the geocoder is any function of the address that may raise, the provider any function on a
-- state of its own. So are SHA-256 and the texts of the exceptions; the record `Python` has the text
-- methods and the digest that the mock geocoder uses. Its arithmetic on floats is exact here.
--
-- Conventions: ids, timestamps and amounts are natural numbers (an amount in minor units is never
-- negative by the CHECK constraints); subtraction on them stands only where the WHERE clause of the
-- statement keeps it from going below zero. A timestamp is a number of seconds. Of the constraints, those
-- that the code can violate raise IntegrityError where the row is written; UNIQUE (warehouse_id,
-- product_id) and the CHECKs on quantities are in `IsLedger`, the hypothesis on a database. The order in
-- which a query without ORDER BY returns rows is the table's.
--
-- Fuel: the loop of the sweeper (Jobs/Sweep) runs on fuel for one transaction more than there are
-- active reservations, that of the publisher (Jobs/Publish) for one more than unprocessed
-- events. All else is structural recursion.
--
-- Not modelled: the statements of two transactions that interleave (a transaction is one step; what SKIP
-- LOCKED passes over is an argument of the outbox), logging, dependency wiring, Pydantic's parsing of
-- JSON and the upper-casing of the country code, digits beyond ASCII in a card number, and CHECK
-- constraints on the format of a text.
pub mod Prelude
pub mod Domain
pub mod Sql
pub mod Db
pub mod Repositories
pub mod Services
pub mod Adapters
pub mod Jobs
pub mod System
pub mod Migrations
pub mod Seeds
pub mod Api
pub mod Tests
