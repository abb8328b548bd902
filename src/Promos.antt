-- ===== src/Promos.antt =====
-- modules/promos of the API.
pub mod Model
pub mod Service
pub mod Limits
