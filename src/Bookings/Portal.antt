-- ===== src/Bookings/Portal.antt =====
-- The guest portal of modules/bookings/bookings.service.ts: `guestCancelBooking`, `onlineCheckIn`,
-- `guestModifyBooking` and the flags of `formatBookingForGuest`. `lower` is the runtime's
-- `toLowerCase`.
pub mod Access
pub mod Sound
pub mod Arrival
pub mod Flags
use Prim.Native.String.{◌++◌}
use text.Mathlib.Text.{◌==◌ as ◌≟◌}
use property_os.Common.{
  ℕ, String, Bool, true, false, not, ◌&&◌, ◌||◌, Option, none, some, List, [], ◌∷◌, filter,
  find_one, update_where, ltb, ◌==◌, same_key, is_some, if◌then◌else◌,
}
use property_os.Common.Int.{pos, ltb_ℤ}
use property_os.Numeric.{Number}
use property_os.Service.{
  Exec, bad_request, not_found, pure, or_throw, throw_if, gets, modify, ◌>>=◌, ◌>>◌, is_truthy_text,
}
use property_os.Entities.{Booking, Guest, pending, confirmed, cancelled, same_status}
use property_os.Database.{Db}
use property_os.Pricing.Calculate.{days_until}
use property_os.Bookings.Status.{cancel_booking, cancel_group, store}
use property_os.Bookings.Update.{UpdateBookingDto, update_booking}

pub record OnlineCheckInDto : Type 0 where
  pub reference_number : String
  pub email : String
  pub expected_arrival_time : Option String
  pub vehicle_registration : Option String
  pub num_vehicles : Option ℕ
  pub dietary_requirements : Option String
  pub special_requests : Option String
  pub id_number : Option String

pub record GuestModifyDto : Type 0 where
  pub check_in : Option ℕ
  pub check_out : Option ℕ
  pub guest_count : Option ℕ
  pub special_requests : Option String

abbrev reason_or_default : Option String → Option String
reason_or_default reason = if is_truthy_text reason then reason else some "Cancelled by guest"

-- the special requests, with those of the check-in on a line of their own
abbrev append_request : Option String → String → String
append_request none request = request
append_request (some old) request =
    if is_truthy_text (some old) then old ++ "\n" ++ request else request

abbrev add_request : Option String → Option String → Option String
add_request old none = old
add_request old (some request) =
    if is_truthy_text (some request) then some (append_request old request) else old

-- `cancelGroup && booking.group_id`
abbrev group_to_cancel : Bool → Option ℕ → Option ℕ
group_to_cancel false group = none
group_to_cancel true group = group

-- `if (dto.checkIn) updateDto.checkIn = …`, and so on: no internal notes
abbrev pub as_update : GuestModifyDto → UpdateBookingDto
as_update dto = record {
  check_in = dto.check_in;
  check_out = dto.check_out;
  guest_count = dto.guest_count;
  special_requests = dto.special_requests;
  internal_notes = none;
}

module _ {N : Type 0} where
  abbrev pub guest_of : Db N → Booking N → Option (Guest N)
  guest_of db b = find_one (λ (g : Guest N). g.id == b.guest_id) db.guests

  -- `booking.guest?.email?.toLowerCase() === email.toLowerCase()`
  abbrev pub has_email : (String → String) → String → Option (Guest N) → Bool
  has_email lower email none = false
  has_email lower email (some g) = matches g.email
    where
      matches : Option String → Bool
      matches none = false
      matches (some own) = lower own ≟ lower email

  abbrev pub by_reference : String → Db N → Option (Booking N)
  by_reference reference db =
      find_one (λ (b : Booking N). b.reference_number ≟ reference) db.bookings

  -- the look-up that each operation starts with
  unfoldable pub own_booking : (String → String) → String → String → Exec (Db N) (Booking N)
  own_booking lower reference email = do
    found ← gets (by_reference reference)
    booking ← or_throw found (not_found "Booking not found")
    guest ← gets (λ (db : Db N). guest_of db booking)
    throw_if (not (has_email lower email guest)) (not_found "Booking not found")
    pure booking

  abbrev cancel_as : Option ℕ → Booking N → Option String → ℕ → Exec (Db N) (List (Booking N))
  cancel_as (some group) b reason now = cancel_group group reason b.property_id now
  cancel_as none b reason now = do
    done ← cancel_booking b.id reason b.property_id now
    pure (done ∷ [])

  unfoldable pub guest_cancel_booking :
      (String → String)
      → String
      → String
      → Option String
      → Bool
      → ℕ
      → Exec (Db N) (List (Booking N))
  guest_cancel_booking lower reference email reason whole_group now = do
    booking ← own_booking lower reference email
    cancel_as (group_to_cancel whole_group booking.group_id) booking (reason_or_default reason) now

  abbrev pub is_confirmed : Booking N → Bool
  is_confirmed b = same_status b.status confirmed

  -- the fields of the online check-in, taken from a request or from the booking that was checked in
  abbrev pub arrives :
      ℕ
      → Option String
      → Option String
      → Option ℕ
      → Option String
      → Option String
      → Booking N
      → Booking N
  arrives now time vehicle vehicles diet requests b = record b {
    expected_arrival_time = time;
    vehicle_registration = vehicle;
    num_vehicles = vehicles;
    dietary_requirements = diet;
    online_check_in_completed = true;
    online_check_in_at = some now;
    special_requests = add_request b.special_requests requests;
  }

  abbrev pub checked_in_online : ℕ → OnlineCheckInDto → Booking N → Booking N
  checked_in_online now dto b =
      arrives now dto.expected_arrival_time dto.vehicle_registration dto.num_vehicles
        dto.dietary_requirements dto.special_requests b

  -- `if (dto.idNumber && booking.guest) …`
  abbrev save_id_number : Option String → Booking N → Exec (Db N) (Unit {0})
  save_id_number number b =
      if is_truthy_text number
      then modify (λ db. record db {
        guests =
            update_where (λ (g : Guest N). g.id == b.guest_id)
              (λ g. record g { id_number = number }) db.guests;
      })
      else pure tt

  -- a sibling that the loop does not pass over
  abbrev pub joins : ℕ → Booking N → Bool
  joins id s = not (s.id == id) && is_confirmed s && not s.online_check_in_completed

  -- the loop over the bookings of the group
  unfoldable pub check_in_siblings :
      ℕ → OnlineCheckInDto → Booking N → List (Booking N) → Exec (Db N) (Unit {0})
  check_in_siblings now dto b [] = pure tt
  check_in_siblings now dto b (s ∷ rest) = do
    if joins b.id s
        then store (
            arrives now b.expected_arrival_time b.vehicle_registration b.num_vehicles
              b.dietary_requirements dto.special_requests s)
        else pure tt
    check_in_siblings now dto b rest

  abbrev check_in_group : ℕ → OnlineCheckInDto → Booking N → Option ℕ → Exec (Db N) (Unit {0})
  check_in_group now dto b none = pure tt
  check_in_group now dto b (some group) = do
    siblings ← gets (λ (db : Db N). filter (λ s. same_key s.group_id group) db.bookings)
    check_in_siblings now dto b siblings

  -- `onlineCheckIn`: the booking that was checked in
  unfoldable pub online_check_in :
      (String → String) → ℕ → OnlineCheckInDto → Exec (Db N) (Booking N)
  unfolding check_in_siblings own_booking
  online_check_in lower now dto = do
    booking ← own_booking lower dto.reference_number dto.email
    throw_if (not (is_confirmed booking))
        (bad_request "Online check-in is only available for confirmed bookings")
    throw_if booking.online_check_in_completed
        (bad_request "Online check-in has already been completed for this booking")
    let saved : Booking N = checked_in_online now dto booking
    save_id_number dto.id_number booking
    store saved
    check_in_group now dto saved saved.group_id
    pure saved

  -- at least two days before the arrival, in days begun
  abbrev pub in_time : ℕ → Booking N → Bool
  in_time now b = not (ltb_ℤ (days_until b.check_in now) (pos 2))

  abbrev pub is_open : Booking N → Bool
  is_open b = is_confirmed b || same_status b.status pending

  -- the flags `canCheckInOnline`, `canModify` and `canCancel`
  unfoldable pub can_check_in_online : Booking N → Bool
  can_check_in_online b = is_confirmed b && not b.online_check_in_completed

  unfoldable pub can_modify : ℕ → Booking N → Bool
  can_modify now b = is_open b && in_time now b

  unfoldable pub can_cancel : Booking N → Bool
  can_cancel b = is_open b

module _ {N : Type 0} ⦃num : Number N⦄ where
  unfoldable pub guest_modify_booking :
      (String → String) → String → String → GuestModifyDto → ℕ → Exec (Db N) (Booking N)
  guest_modify_booking lower reference email dto now = do
    booking ← own_booking lower reference email
    throw_if (not (is_open booking))
        (bad_request "Booking modifications are only allowed for pending or confirmed bookings")
    throw_if (not (in_time now booking))
        (bad_request "Booking modifications must be made at least 48 hours before check-in")
    update_booking booking.id (as_update dto) booking.property_id
