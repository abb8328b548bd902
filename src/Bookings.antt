-- ===== src/Bookings.antt =====
-- modules/bookings of the API.
pub mod Portal
pub mod Search
pub mod Request
pub mod Guests
pub mod Quote
pub mod Create
pub mod Sound
pub mod Status
pub mod Update
pub mod Cleanup
pub mod Engine
pub mod Public
