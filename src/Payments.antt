-- ===== src/Payments.antt =====
-- modules/payments of the API.
pub mod Model
pub mod Refunds
pub mod Itn
pub mod Direct
