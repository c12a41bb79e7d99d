-- ===== src/Adapters.antt =====
-- app/adapters: the mock payment provider and the mock geocoder. Both are arguments of the services.
pub mod PaymentMock
pub mod GeocodingMock
