-- ===== src/Bookings/Create.antt =====
-- `createBooking` of modules/bookings/bookings.service.ts, with the exclusion constraint that
-- migrations/1716950000000-AddGiSTDoubleBookingConstraint.ts puts on the table of bookings.
pub mod Sound
pub mod Rooms
pub mod Excluded
pub mod Errors
use property_os.Common.{
  ℕ, ◌+◌, String, Bool, true, false, not, ◌&&◌, Option, none, some, List, [], ◌∷◌, any, find_one,
  push, save, length, ltb, ◌==◌, if◌then◌else◌, or_else,
}
use property_os.Common.Int.{ℤ, pos, ltb_ℤ}
use property_os.Numeric.{Number, nought, round_cents}
use property_os.Service.{
  Exec, bad_request, not_found, conflict, failed, pure, or_throw, throw_if, gets, modify, lift,
  transaction, ◌>>=◌, ◌>>◌,
}
use property_os.Entities.{Booking, cancelled, no_show, confirmed, direct, Room, same_status}
use property_os.Database.{Db, restore_tables, created}
use property_os.Inventory.Availability.{date_range, unavailable_dates, book_dates}
use property_os.Bookings.Request.{CreateBookingDto, Env, resolve_room_ids, calc_nights}
use property_os.Bookings.Guests.{find_or_create_guest}
use property_os.Bookings.Quote.{price_nights, generate_reference, max_attempts}

abbrev pub is_empty : List ℕ → Bool
is_empty [] = true
is_empty (d ∷ ds) = false

-- `isMultiRoom ? randomUUID() : null`
abbrev pub group_of : Env → List ℕ → Option ℕ
group_of env rooms = if ltb 1 (length rooms) then some env.group_id else none

module _ {N : Type 0} where
  -- `status NOT IN ('cancelled', 'no_show')`
  abbrev pub is_active : Booking N → Bool
  is_active b = not (same_status b.status cancelled) && not (same_status b.status no_show)

  -- `daterange(check_in, check_out) && daterange(check_in, check_out)`; an empty range meets none
  abbrev pub meets : Booking N → Booking N → Bool
  meets b c =
      ltb b.check_in b.check_out
      && ltb c.check_in c.check_out
      && ltb b.check_in c.check_out
      && ltb c.check_in b.check_out

  -- The constraint `prevent_double_booking` refuses the row: an active booking of the room, another
  -- row, meets its stay.
  unfoldable pub is_excluded : Booking N → List (Booking N) → Bool
  is_excluded b rows =
      is_active b
      && any (λ c. is_active c && not (c.id == b.id) && c.room_id == b.room_id && meets b c) rows

module _ {N : Type 0} ⦃num : Number N⦄ where
  open num use {of_int, div}

  -- the row that `createBooking` stores
  unfoldable pub new_booking :
      Env → CreateBookingDto → ℤ → Option ℕ → ℕ → ℕ → ℕ → N → String → Booking N
  new_booking env dto nights group guest_id index room_id total reference = record {
    id = env.booking_ids index;
    property_id = dto.property_id;
    room_id = room_id;
    guest_id = guest_id;
    group_id = group;
    group_index = index;
    reference_number = reference;
    check_in = dto.check_in;
    check_out = dto.check_out;
    nights = nights;
    total_price = total;
    currency = "ZAR";
    nightly_rate = round_cents (div total (of_int nights));
    deposit_amount = nought;
    balance_due_date = none;
    status = confirmed;
    source = or_else dto.source direct;
    source_ref = none;
    guest_count = or_else dto.guest_count 1;
    special_requests = dto.special_requests;
    internal_notes = dto.internal_notes;
    cancelled_at = none;
    cancellation_reason = none;
    expected_arrival_time = none;
    vehicle_registration = none;
    num_vehicles = none;
    dietary_requirements = none;
    online_check_in_completed = false;
    online_check_in_at = none;
    promo_code = none;
    discount_amount = nought;
    booked_at = env.now;
  }

  abbrev save_booking : Booking N → Exec (Db N) (Unit {0})
  save_booking b = modify λ d. record d { bookings = save (λ (x : Booking N). x.id) b d.bookings }

  -- one round of the loop over the rooms
  unfoldable pub create_one :
      Env → CreateBookingDto → ℤ → Option ℕ → ℕ → ℕ → ℕ → Exec (Db N) (Booking N)
  unfolding new_booking
  create_one env dto nights group guest_id index room_id = do
    db ← gets (λ (d : Db N). d)
    throw_if (not (is_empty (unavailable_dates room_id dto.check_in dto.check_out db.availability)))
        (conflict "BOOK_DOUBLE_BOOKING")
    room ← or_throw (find_one (λ (r : Room). r.id == room_id) db.rooms) (not_found "Room not found")
    total ← lift (
        price_nights db dto.property_id room.room_type_id (or_else dto.guest_count 1) dto.check_in
          nights env.now 0 nought (date_range dto.check_in dto.check_out))
    reference ← lift (generate_reference max_attempts 0 (env.references index) db.bookings)
    let booking : Booking N =
        new_booking env dto nights group guest_id index room_id total reference
    throw_if (is_excluded booking db.bookings) (failed "prevent_double_booking")
    save_booking booking
    modify λ d. record d {
      availability = book_dates booking.id room_id dto.check_in dto.check_out d.availability;
    }
    modify λ d. record d {
      events =
          push d.events
            (created booking.id booking.property_id booking.reference_number booking.source);
    }
    pure booking

  -- the loop over the rooms, from an index on
  unfoldable pub create_all :
      Env → CreateBookingDto → ℤ → Option ℕ → ℕ → ℕ → List ℕ → Exec (Db N) (List (Booking N))
  create_all env dto nights group guest_id index [] = pure []
  create_all env dto nights group guest_id index (room ∷ rooms) = do
    booking ← create_one env dto nights group guest_id index room
    rest ← create_all env dto nights group guest_id (index + 1) rooms
    pure (booking ∷ rest)

  -- the body of the transaction
  unfoldable pub book_rooms :
      Env → CreateBookingDto → ℤ → Option ℕ → List ℕ → Exec (Db N) (List (Booking N))
  book_rooms env dto nights group rooms = do
    guest ← find_or_create_guest env.guest_id dto.property_id dto.guest
    create_all env dto nights group guest.id 0 rooms

  -- `createBooking`: the bookings made, one for each room
  unfoldable pub create_booking : Env → CreateBookingDto → Exec (Db N) (List (Booking N))
  create_booking env dto = do
    rooms ← lift (resolve_room_ids dto)
    let nights = calc_nights dto.check_in dto.check_out
    throw_if (ltb_ℤ nights (pos 1)) (bad_request "checkOut must be after checkIn")
    transaction restore_tables (book_rooms env dto nights (group_of env rooms) rooms)
