-- ===== src/Services.antt =====
-- app/services: warehouse selection, order creation and the checkout saga. A geocoder is a function
-- of the address that may raise; a payment provider is a function on a state of its own.
pub mod Selection
pub mod Creation
pub mod Checkout
pub mod Frames
pub mod Keeping
pub mod Lines
pub mod Totals
pub mod Accounts
pub mod Checked
