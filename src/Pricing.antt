-- ===== src/Pricing.antt =====
-- modules/pricing of the API.
pub mod Model
pub mod Calculate
