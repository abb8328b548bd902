-- ===== src/Bookings/Create/Errors.antt =====
-- The errors of `createBooking`: those that the method throws itself, and that of the database.
use property_os.Common.{◌≡◌, true}
use property_os.Service.{Exception, Result, thrown, is_http}

-- An exception of the framework stays one.
pub http_of :
    {A : Type 0} (e x : Exception)
    → is_http e ≡ true
    → ◌≡◌ {A = Result A} (thrown e) (thrown x)
    → is_http x ≡ true
http_of {A} e x h k = let same : e ≡ x = cc k in rw (← same) h
