-- ===== src/Bookings/Update.antt =====
-- `updateBooking` and `emitModifiedEvent` of modules/bookings/bookings.service.ts.
pub mod Sound
pub mod Errors
use text.Mathlib.Text.{◌==◌ as ◌≟◌}
use property_os.Common.{
  ℕ, String, Bool, true, false, not, ◌&&◌, ◌||◌, Option, none, some, push, ◌==◌, if◌then◌else◌,
  or_else, is_some,
}
use property_os.Common.Int.{ℤ, pos, ltb_ℤ}
use property_os.Numeric.{Number}
use property_os.Service.{
  Exec, bad_request, conflict, failed, pure, throw_if, gets, modify, transaction, ◌>>=◌, ◌>>◌,
}
use property_os.Entities.{Booking}
use property_os.Database.{Db, modified, restore_tables}
use property_os.Inventory.Availability.{unavailable_dates, book_dates, release}
use property_os.Bookings.Request.{calc_nights}
use property_os.Bookings.Create.{is_empty, is_excluded}
use property_os.Bookings.Status.{get_booking, store, emit}

pub record UpdateBookingDto : Type 0 where
  pub check_in : Option ℕ
  pub check_out : Option ℕ
  pub guest_count : Option ℕ
  pub special_requests : Option String
  pub internal_notes : Option String

-- `if (dto.guestCount) …`
abbrev pub new_guest_count : Option ℕ → ℕ → ℕ
new_guest_count none old = old
new_guest_count (some n) old = if n == 0 then old else n

-- `if (dto.field !== undefined) …`
abbrev pub new_text : Option String → Option String → Option String
new_text none old = old
new_text (some t) old = some t

module _ {N : Type 0} where
  -- the fields that change without the dates
  abbrev pub with_details : UpdateBookingDto → Booking N → Booking N
  with_details dto b = record b {
    guest_count = new_guest_count dto.guest_count b.guest_count;
    special_requests = new_text dto.special_requests b.special_requests;
    internal_notes = new_text dto.internal_notes b.internal_notes;
  }

  -- the keys of `snapshot` that differ
  abbrev is_changed : Booking N → Booking N → Bool
  is_changed old new =
      not (old.check_in == new.check_in)
      || not (old.check_out == new.check_out)
      || not (old.guest_count == new.guest_count)
      || not (or_else old.special_requests "" ≟ or_else new.special_requests "")

  pub emit_modified : Booking N → Booking N → Exec (Db N) (Unit {0})
  emit_modified old new = if is_changed old new then emit (modified new.id) else pure tt

module _ {N : Type 0} ⦃num : Number N⦄ where
  open num use {of_int, mul}

  abbrev pub with_dates : ℕ → ℕ → ℤ → Booking N → Booking N
  with_dates start end nights b = record b {
    check_in = start;
    check_out = end;
    nights = nights;
    total_price = mul b.nightly_rate (of_int nights);
  }

  -- the body of the transaction: release the old dates, then take the new ones
  unfoldable pub move_booking : ℕ → Booking N → Booking N → Exec (Db N) (Booking N)
  move_booking id booking saved = do
    modify λ d. record d { availability = release id d.availability }
    rows ← gets (λ (d : Db N). d.availability)
    throw_if
        (not (is_empty (unavailable_dates booking.room_id saved.check_in saved.check_out rows)))
        (conflict "BOOK_DOUBLE_BOOKING")
    others ← gets (λ (d : Db N). d.bookings)
    throw_if (is_excluded saved others) (failed "prevent_double_booking")
    store saved
    modify λ d. record d {
      availability = book_dates id booking.room_id saved.check_in saved.check_out d.availability;
    }
    pure saved

  abbrev change_dates : ℕ → UpdateBookingDto → Booking N → Exec (Db N) (Booking N)
  change_dates id dto booking = do
    let start = or_else dto.check_in booking.check_in
    let end = or_else dto.check_out booking.check_out
    let nights = calc_nights start end
    throw_if (ltb_ℤ nights (pos 1)) (bad_request "Invalid dates")
    saved ←
        transaction restore_tables
          (move_booking id booking (with_details dto (with_dates start end nights booking)))
    emit_modified booking saved
    pure saved

  abbrev change_details : UpdateBookingDto → Booking N → Exec (Db N) (Booking N)
  change_details dto booking = do
    let saved : Booking N = with_details dto booking
    store saved
    emit_modified booking saved
    pure saved

  unfoldable pub update_booking : ℕ → UpdateBookingDto → ℕ → Exec (Db N) (Booking N)
  update_booking id dto property_id = do
    booking ← get_booking id property_id
    if is_some dto.check_in || is_some dto.check_out
        then change_dates id dto booking
        else change_details dto booking
