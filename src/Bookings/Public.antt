-- ===== src/Bookings/Public.antt =====
-- `createPublicBooking` and `findBestAvailableRoom` of modules/bookings/bookings.service.ts, with
-- `getSettings` and `createRecord` of modules/tourism-levy. `to_upper` is the runtime's `toUpperCase`, and
-- `today` the day of the clock. The room types and guest counts kept with the rooms are not used by
-- the code, nor here.
pub mod Rooms
pub mod Finish
pub mod Choice
pub mod Sound
use property_os.Common.{
  ℕ, ◌+◌, ◌-◌, String, Bool, true, false, not, ◌&&◌, ◌||◌, Option, none, some, List, [], ◌∷◌, any,
  filter, find_one, count_where, push, ltb, ◌==◌, if◌then◌else◌, or_else,
}
use property_os.Common.Int.{ℤ, pos, sub_ℕ}
use property_os.Numeric.{Number, nought, hundred, round_cents, sum_from}
use property_os.Service.{
  Exec, Result, ok, thrown, bad_request, not_found, conflict, pure, or_throw, throw_if, gets,
  modify, lift, ◌>>=◌, ◌>>◌, is_truthy_text,
}
use property_os.Entities.{Booking, pending, direct, Property, Room, RoomType, RoomAvailability}
use property_os.Database.{Db}
use property_os.Levy.{LevySettings, LevyRecord, per_night, calculate_levy}
use property_os.Promos.Service.{Validation, valid, invalid, validate, apply_discount}
use property_os.Inventory.Availability.{in_stay, is_open}
use property_os.Bookings.Request.{GuestDto, CreateBookingDto, Env}
use property_os.Bookings.Create.{create_booking}

pub record RoomSelection : Type 0 where
  pub room_type_id : ℕ
  pub guest_count : Option ℕ

pub record PublicBookingDto : Type 0 where
  pub property_slug : String
  pub room_type_id : Option ℕ
  pub room_id : Option ℕ
  pub rooms : List RoomSelection
  pub check_in : ℕ
  pub check_out : ℕ
  pub guest_count : Option ℕ
  pub guest : GuestDto
  pub special_requests : Option String
  pub promo_code : Option String

-- `sel.guestCount && sel.guestCount > roomType.max_occupancy`
abbrev is_too_many : Option ℕ → ℕ → Bool
is_too_many none most = false
is_too_many (some n) most = not (n == 0) && ltb most n

abbrev selections : List RoomSelection → Option ℕ → Option ℕ → Result (List RoomSelection)
selections (s ∷ ss) type guests = ok (s ∷ ss)
selections [] (some type) guests = ok (record { room_type_id = type; guest_count = guests } ∷ [])
selections [] none guests =
    thrown (bad_request "Either roomTypeId, roomId, or rooms must be provided")

abbrev booking_dto : ℕ → List ℕ → PublicBookingDto → CreateBookingDto
booking_dto property_id rooms dto = record {
  property_id = property_id;
  room_id = none;
  room_ids = rooms;
  check_in = dto.check_in;
  check_out = dto.check_out;
  guest = dto.guest;
  guest_count = dto.guest_count;
  special_requests = dto.special_requests;
  source = some direct;
  internal_notes = none;
}

module _ {N : Type 0} where
  -- the rows of the stay that are not available: a day without a row is not counted
  abbrev pub count_blocked : ℕ → ℕ → ℕ → List (RoomAvailability N) → ℕ
  count_blocked room start end = count_where (λ r. in_stay room start end r && not (is_open r))

  abbrev pub is_candidate : Db N → ℕ → ℕ → ℕ → ℕ → List ℕ → Room → Bool
  is_candidate db property_id type start end used r =
      r.property_id == property_id
      && r.room_type_id == type
      && r.is_active
      && not (any (λ k. k == r.id) used)
      && count_blocked r.id start end db.availability == 0

  unfoldable pub find_best_available_room : ℕ → ℕ → ℕ → ℕ → List ℕ → Exec (Db N) Room
  find_best_available_room property_id type start end used = do
    db ← gets (λ (d : Db N). d)
    or_throw (find_one (is_candidate db property_id type start end used) db.rooms)
        (conflict "No rooms of the type available for the selected dates")

  -- the loop over the selections, with the rooms that are taken
  unfoldable pub pick_rooms : ℕ → ℕ → ℕ → List ℕ → List RoomSelection → Exec (Db N) (List ℕ)
  unfolding find_best_available_room
  pick_rooms property_id start end used [] = pure []
  pick_rooms property_id start end used (sel ∷ sels) = do
    db ← gets (λ (d : Db N). d)
    type ←
        or_throw (find_one (λ (t : RoomType N). t.id == sel.room_type_id) db.room_types)
          (not_found "Room type not found")
    throw_if (is_too_many sel.guest_count type.max_occupancy)
        (bad_request "Guest count exceeds max occupancy")
    room ← find_best_available_room property_id sel.room_type_id start end used
    rest ← pick_rooms property_id start end (room.id ∷ used) sels
    pure (room.id ∷ rest)

  -- the room that the guest picked
  abbrev one_room : ℕ → ℕ → ℕ → ℕ → Exec (Db N) (List ℕ)
  one_room property_id room_id start end = do
    db ← gets (λ (d : Db N). d)
    room ←
        or_throw
          (find_one (λ (r : Room). r.id == room_id && r.property_id == property_id && r.is_active)
            db.rooms)
          (not_found "Room not found")
    throw_if (not (count_blocked room.id start end db.availability == 0))
        (conflict "This room is not available for the selected dates")
    pure (room.id ∷ [])

  abbrev chosen_rooms : ℕ → PublicBookingDto → Option ℕ → Exec (Db N) (List ℕ)
  chosen_rooms property_id dto (some room_id) =
      one_room property_id room_id dto.check_in dto.check_out
  chosen_rooms property_id dto none = do
    sels ← lift (selections dto.rooms dto.room_type_id dto.guest_count)
    pick_rooms property_id dto.check_in dto.check_out [] sels
