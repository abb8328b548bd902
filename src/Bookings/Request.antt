-- ===== src/Bookings/Request.antt =====
-- The requests of modules/bookings: the data of dto/create-booking.dto.ts, what the environment
-- supplies, and the rooms and nights that a request asks for.
use property_os.Common.{ℕ, String, Option, none, some, List, [], ◌∷◌}
use property_os.Common.Int.{ℤ, sub_ℕ}
use property_os.Service.{Result, ok, thrown, bad_request}
use property_os.Entities.{BookingSource}

pub record GuestDto : Type 0 where
  pub first_name : String
  pub last_name : String
  pub email : Option String
  pub phone : Option String
  pub country : Option String
  pub id_number : Option String

pub record CreateBookingDto : Type 0 where
  pub property_id : ℕ
  pub room_id : Option ℕ
  pub room_ids : List ℕ
  pub check_in : ℕ
  pub check_out : ℕ
  pub guest : GuestDto
  pub guest_count : Option ℕ
  pub special_requests : Option String
  pub source : Option BookingSource
  pub internal_notes : Option String

-- the clock, the keys that the database generates, and the references drawn for the booking at an
-- index of the request, attempt by attempt
pub record Env : Type 0 where
  pub now : ℕ
  pub guest_id : ℕ
  pub group_id : ℕ
  pub booking_ids : ℕ → ℕ
  pub references : ℕ → ℕ → String

-- `resolveRoomIds`
abbrev pub resolve_from : List ℕ → Option ℕ → Result (List ℕ)
resolve_from (r ∷ rs) room = ok (r ∷ rs)
resolve_from [] (some room) = ok (room ∷ [])
resolve_from [] none = thrown (bad_request "Either roomId or roomIds must be provided")

unfoldable pub resolve_room_ids : CreateBookingDto → Result (List ℕ)
resolve_room_ids dto = resolve_from dto.room_ids dto.room_id

-- `calcNights`, on whole days
unfoldable pub calc_nights : ℕ → ℕ → ℤ
calc_nights check_in check_out = sub_ℕ check_out check_in
