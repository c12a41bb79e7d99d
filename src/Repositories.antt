-- ===== src/Repositories.antt =====
-- app/repositories: what each method does to the tables.
pub mod Reservation
pub mod Orders
pub mod Idempotency
pub mod Payments
pub mod Outbox
pub mod Warehouses
pub mod Frames
pub mod Accounts
pub mod Checks
