-- ===== src/Frontdesk.antt =====
-- The folio of a booking: modules/frontdesk/frontdesk.service.ts.
pub mod Folio
