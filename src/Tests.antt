-- ===== src/Tests.antt =====
-- Concrete databases, and runs of the services on them.
pub mod Fixtures
mod Bookings
mod Accounts
mod Notifications
mod Refunds
mod Sessions
mod Portal
mod Network
mod Team
