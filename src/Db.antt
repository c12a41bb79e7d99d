-- ===== src/Db.antt =====
-- The database: the tables of app/models as records of rows, and transactions over them.
pub mod Rows
pub mod Tx
pub mod Frame
pub mod Preserves
