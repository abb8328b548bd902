-- ===== src/Bookings/Update/Errors.antt =====
-- The errors of `updateBooking`.
