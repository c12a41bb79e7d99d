-- ===== src/Domain.antt =====
-- app/domain: the shared vocabulary, the errors, the value objects and the order state machine.
pub mod Enums
pub mod Values
pub mod Errors
pub mod OrderState
