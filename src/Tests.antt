-- ===== src/Tests.antt =====
-- Runs of the model on small data, and each theorem at an input that meets its hypotheses.
mod Fixture
mod Stock
mod Orders
mod Warehouses
mod Jobs
mod Saga
mod Paths
pub mod System
pub mod Schema
pub mod Geocoding
pub mod Seeds
