-- ===== src/Api.antt =====
-- app/api and the request side of app/schemas: what an HTTP client meets.
pub mod Errors
pub mod Schemas
pub mod Orders
