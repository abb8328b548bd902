-- ===== src/Tests/Bookings.antt =====
-- The booking engine on the guest house of the fixtures.
use property_os.Common.{
  ◌≡◌, ◌≤◌, ◌<◌, ◌+◌, refl, inl, inr, arith, none, some, List, [], ◌∷◌, ◌==◌, In, All, true, false,
  Bool-cases, length, ℕ, String,
}
use property_os.Numeric.Fixed.{Fixed, fixed_number}
use property_os.Service.{ok, thrown, conflict, bad_request, Exception}
use property_os.Entities.{Booking, pending, confirmed, checked_out, available}
use property_os.Database.{Db, restore_tables}
use property_os.Inventory.Availability.{
  unavailable_dates, date_range, book_dates, BulkUpdate, bulk_rows,
}
use property_os.Inventory.Availability.Rows.{Held, is_held, row_at, bulk_rows_frees}
use property_os.Inventory.Prices.{get_effective_price, get_derived_price}
use property_os.Pricing.Calculate.{calculate_price, by_priority}
use property_os.Bookings.Request.{resolve_room_ids, calc_nights}
use property_os.Bookings.Quote.{price_nights, generate_reference}
use property_os.Bookings.Quote.Reference.{is_used, IsFirstUnused, generate_reference_lem}
use property_os.Bookings.Guests.{find_or_create_guest}
use property_os.Bookings.Create.{
  is_excluded, create_booking, create_all, create_one, book_rooms, new_booking,
}
use property_os.Bookings.Create.Sound.{create_booking_atomic}
use property_os.Bookings.Create.Rooms.{ForEach, create_booking-Made}
use property_os.Bookings.Update.{UpdateBookingDto}
use property_os.Bookings.Status.{update_status, cancel_booking}
use property_os.Bookings.Status.Life.{final_refuses}
use property_os.Bookings.Cleanup.{is_expired, cancel_expired}
use property_os.Bookings.Cleanup.Expired.{none_left_expired}
use property_os.Bookings.Public.{RoomSelection, pick_rooms}
use property_os.Bookings.Public.Rooms.{IsFree, AllNew, pick_rooms_lem}
use property_os.Bookings.Sound.{IsSound}
use property_os.Bookings.Engine.{here, after, create, never_double_booked}
use property_os.Tests.Fixtures.{house, first_booking, booking_of, env, stay_in, money}

first_booking-Held : Held house.availability first_booking
first_booking-Held day lo hi = elim (Bool-cases (day == 20_000)) [
  | inl e ↦ ground arith
  | inr e ↦ (let last : day ≡ 20_001 = ground arith in rw last refl)
]

pub house-IsSound : IsSound house
house-IsSound = record { distinct = (tt, tt); held = (λ _. first_booking-Held, tt) }

-- the second room is booked after the first one
abbrev second : Db Fixed
second = (create_booking env (stay_in 101) house).1

second-In : In first_booking second.bookings
unfolding create_booking resolve_room_ids calc_nights book_rooms create_all create_one
    find_or_create_guest unavailable_dates date_range price_nights get_effective_price
    get_derived_price calculate_price by_priority generate_reference new_booking book_dates
    is_excluded
second-In = inl refl

never_double_booked_example : first_booking.id ≡ 1
never_double_booked_example =
    never_double_booked house second first_booking first_booking 20_001 house-IsSound
      (after here (create env (stay_in 101))) second-In second-In refl refl refl
      (omega arith, omega arith) (omega arith, omega arith)

-- the booking of the second room
abbrev made : List (Booking Fixed)
made =
    new_booking env (stay_in 101) (calc_nights 20_000 20_002) none 51 0 101 (money 20_000_000)
      "KR-BBBB"
    ∷ []

create_booking-Made_example :
    ForEach (stay_in 101) (101 ∷ []) made
    × All (Held second.availability) made
    × ((c : Booking Fixed) → Held house.availability c → Held second.availability c)
unfolding create_booking resolve_room_ids calc_nights book_rooms create_all create_one
    find_or_create_guest unavailable_dates date_range price_nights get_effective_price
    get_derived_price calculate_price by_priority generate_reference new_booking book_dates
    is_excluded
create_booking-Made_example = create_booking-Made env (stay_in 101) house (101 ∷ []) made refl refl

-- The first room is taken.
create_booking_atomic_example :
    restore_tables house (create_booking env (stay_in 100) house).1
    ≡ (create_booking env (stay_in 100) house).1
unfolding create_booking resolve_room_ids calc_nights book_rooms create_all create_one
    find_or_create_guest unavailable_dates date_range
create_booking_atomic_example =
    create_booking_atomic env (stay_in 100) house (conflict "BOOK_DOUBLE_BOOKING") refl

abbrev waiting : Db Fixed
waiting = record house { bookings = booking_of 1 100 20_000 pending ∷ [] }

none_left_expired_example :
    All (λ b. is_expired 9_000_000 b ≡ false) (cancel_expired 9_000_000 waiting).1.bookings
none_left_expired_example = none_left_expired 9_000_000 waiting (tt, tt)

abbrev left : Db Fixed
left = record house { bookings = booking_of 1 100 20_000 checked_out ∷ [] }

final_refuses_example :
    (update_status 1 (record { status = confirmed; id_number = none; check_in_notes = none }) 1 left
      ≡ (thrown (bad_request "Cannot transition"), left))
    × (cancel_booking 1 none 1 0 left ≡ (thrown (bad_request "Cannot cancel booking"), left))
final_refuses_example =
    final_refuses 1 1 0 (record { status = confirmed; id_number = none; check_in_notes = none })
      none left (booking_of 1 100 20_000 checked_out) refl refl

generate_reference_lem_example :
    ((reference : String)
      → generate_reference 10 0 (λ i. "KR-BBBB") (first_booking ∷ []) ≡ ok reference
      → IsFirstUnused 0 10 (λ i. "KR-BBBB") (first_booking ∷ []) reference)
    × ((x : Exception)
        → generate_reference 10 0 (λ i. "KR-BBBB") (first_booking ∷ []) ≡ thrown x
        → (i : ℕ) → 0 ≤ i
        → i < 0 + 10
        → is_used (first_booking ∷ []) "KR-BBBB" ≡ true)
generate_reference_lem_example = generate_reference_lem 10 0 (λ i. "KR-BBBB") (first_booking ∷ [])

abbrev opened : BulkUpdate Fixed
opened = record {
  room_ids = 100 ∷ [];
  start_date = 20_000;
  end_date = 20_001;
  status = available;
  price_override = none;
  reason = none;
}

bulk_rows_frees_example :
    is_held (row_at 100 20_001 (bulk_rows opened house.availability)) 1 ≡ false
bulk_rows_frees_example =
    bulk_rows_frees opened house.availability 100 20_001 1 refl refl (omega arith) (omega arith)

-- The second room is assigned, since the first one is taken.
abbrev doubles : List RoomSelection
doubles = record { room_type_id = 10; guest_count = some 2 } ∷ []

abbrev picked : List ℕ
picked = 101 ∷ []

pick_rooms_lem_example :
    All (IsFree house 1 20_000 20_002) picked
    × AllNew [] picked
    × (length picked ≡ length doubles)
    × ((pick_rooms 1 20_000 20_002 [] doubles house).1 ≡ house)
unfolding pick_rooms
pick_rooms_lem_example = pick_rooms_lem 1 20_000 20_002 [] doubles house picked refl

-- a longer stay than the calendar has days
abbrev longer : UpdateBookingDto
longer = record {
  check_in = none;
  check_out = some 20_010;
  guest_count = none;
  special_requests = none;
  internal_notes = none;
}
