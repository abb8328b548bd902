-- ===== src/Inventory.antt =====
-- modules/inventory of the API.
pub mod Prices
pub mod Restrictions
pub mod Availability
pub mod Calendar
