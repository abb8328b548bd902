-- ===== src/Bookings/Status/Life.antt =====
-- The life of a booking's status under `VALID_TRANSITIONS`, as `updateStatus` and `cancelBooking` follow it.
use property_os.Common.{ℕ, ◌≡◌, String, Bool, true, false, Option, some, find_one, arith, refl}
use property_os.Numeric.{Number}
use property_os.Service.{thrown, bad_request}
use property_os.Entities.{Booking, BookingStatus, checked_out, cancelled, no_show}
use property_os.Database.{Db}
use property_os.Bookings.Status.{
  can_transition, booking_named, UpdateStatusDto, update_status, cancel_booking,
}

-- the statuses that `VALID_TRANSITIONS` gives no next status
abbrev pub is_final : BookingStatus → Bool
is_final checked_out = true
is_final cancelled = true
is_final no_show = true
is_final _ = false

final_stays : (s t : BookingStatus) → is_final s ≡ true → can_transition s t ≡ false
unfolding can_transition
final_stays s t h = ground arith

-- A booking that is checked out, cancelled or a no-show keeps its status: `updateStatus` and
-- `cancelBooking` throw and write nothing.
pub final_refuses :
    {N : Type 0} ⦃num : Number N⦄ (id property_id now : ℕ) (dto : UpdateStatusDto)
    (reason : Option String) (db : Db N) (b : Booking N)
    → find_one (booking_named id property_id) db.bookings ≡ some b
    → is_final b.status ≡ true
    → (update_status id dto property_id db ≡ (thrown (bad_request "Cannot transition"), db))
      × (cancel_booking id reason property_id now db
          ≡ (thrown (bad_request "Cannot cancel booking"), db))
unfolding update_status cancel_booking
final_refuses id property_id now dto reason db b e h = (
  rw e (rw (final_stays b.status dto.status h) refl),
  rw e (rw (final_stays b.status cancelled h) refl),
)
