-- ===== src/Bookings/Search.antt =====
-- `checkPublicAvailability` of modules/bookings/bookings.service.ts: the room types offered for a stay,
-- with their free rooms and prices. Descriptions, amenities and photos are left out.
pub mod Offers
pub mod Honoured
pub mod Limits
use text.Mathlib.Text.{◌==◌ as ◌≟◌}
use property_os.Common.{
  ℕ, String, Bool, true, false, not, ◌&&◌, Option, none, some, List, [], ◌∷◌, filter, any, find_one,
  flat_map, length, leb, ltb, ◌==◌, or_else, if◌then◌else◌,
}
use property_os.Common.Int.{ℤ, pos, ltb_ℤ}
use property_os.Numeric.{Number, nought, round_cents}
use property_os.Service.{Result, ok, thrown, not_found, bad_request}
use property_os.Entities.{Property, Room, RoomType, RoomAvailability}
use property_os.Database.{Db}
use property_os.Inventory.Availability.{date_range, is_open}
use property_os.Inventory.Restrictions.{get_yield_restrictions, refuses}
use property_os.Bookings.Request.{calc_nights}
use property_os.Bookings.Quote.{price_nights}

-- an element of the answer's `availableRooms`
pub record Offer (N : Type 0) : Type 0 where
  pub room_type_id : ℕ
  pub room_type_name : String
  pub nightly_rate : N
  pub total_price : N
  pub available_count : ℕ
  pub max_occupancy : ℕ
  pub rooms : List Room

pub record Stay (N : Type 0) : Type 0 where
  pub check_in : ℕ
  pub check_out : ℕ
  pub nights : ℤ
  pub available_rooms : List (Offer N)

-- `guests ? roomTypes.filter(…) : roomTypes`
abbrev fits : {N : Type 0} → Option ℕ → RoomType N → Bool
fits none rt = true
fits (some guests) rt = if guests == 0 then true else leb guests rt.max_occupancy

module _ {N : Type 0} where
  abbrev pub active_rooms : Db N → RoomType N → List Room
  active_rooms db rt = filter (λ r. r.room_type_id == rt.id && r.is_active) db.rooms

  abbrev pub filtered_types : Db N → ℕ → Option ℕ → List (RoomType N)
  filtered_types db property_id guests =
      filter (fits guests)
        (filter (λ (rt : RoomType N). rt.property_id == property_id && rt.is_active) db.room_types)

  -- the rows of the calendar that block one of the rooms
  abbrev pub blocking : List Room → ℕ → ℕ → RoomAvailability N → Bool
  blocking rooms start end a =
      any (λ r. r.id == a.room_id) rooms && leb start a.date && ltb a.date end && not (is_open a)

  abbrev pub blocked_rows : Db N → ℕ → ℕ → List (RoomType N) → List (RoomAvailability N)
  blocked_rows db start end types =
      filter (blocking (flat_map (active_rooms db) types) start end) db.availability

  abbrev pub free_rooms : Db N → List (RoomAvailability N) → RoomType N → List Room
  free_rooms db blocked rt =
      filter (λ r. not (any (λ (a : RoomAvailability N). a.room_id == r.id) blocked))
        (active_rooms db rt)

  abbrev pub public_property : Db N → String → Option (Property N)
  public_property db slug =
      find_one (λ (p : Property N). p.slug ≟ slug && p.is_active) db.properties

-- the dates and guests of a search, on the clock
pub record Query : Type 0 where
  pub check_in : ℕ
  pub check_out : ℕ
  pub guests : Option ℕ
  pub now : ℕ

module _ {N : Type 0} ⦃num : Number N⦄ where
  open num use {of_int, div}

  abbrev pub total_for : Db N → Query → ℕ → RoomType N → Result N
  total_for db q property_id rt =
      price_nights db property_id rt.id (or_else q.guests 1) q.check_in
        (calc_nights q.check_in q.check_out) q.now 0 nought (date_range q.check_in q.check_out)

  abbrev new_offer : ℤ → RoomType N → List Room → N → Offer N
  new_offer nights rt rooms total = record {
    room_type_id = rt.id;
    room_type_name = rt.name;
    nightly_rate = round_cents (div total (of_int nights));
    total_price = total;
    available_count = length rooms;
    max_occupancy = rt.max_occupancy;
    rooms = rooms;
  }

  abbrev offer_at : ℤ → RoomType N → List Room → Result N → Result (Option (Offer N))
  offer_at nights rt rooms (ok total) = ok (some (new_offer nights rt rooms total))
  offer_at nights rt rooms (thrown e) = thrown e

  -- one round of the loop over the room types
  unfoldable pub offer_of :
      Db N → Query → ℕ → List (RoomAvailability N) → RoomType N → Result (Option (Offer N))
  unfolding calc_nights
  offer_of db q property_id blocked rt =
      let rooms = free_rooms db blocked rt in
      let nights = calc_nights q.check_in q.check_out in
      if length rooms == 0
      then ok none
      else if refuses
          (get_yield_restrictions db.rate_periods rt.id property_id q.check_in q.check_out) nights
      then ok none
      else offer_at nights rt rooms (total_for db q property_id rt)

  abbrev pub collect : Result (Option (Offer N)) → Result (List (Offer N)) → Result (List (Offer N))
  collect (thrown e) rest = thrown e
  collect (ok o) (thrown e) = thrown e
  collect (ok none) (ok os) = ok os
  collect (ok (some o)) (ok os) = ok (o ∷ os)

  unfoldable pub offers :
      Db N → Query → ℕ → List (RoomAvailability N) → List (RoomType N) → Result (List (Offer N))
  offers db q property_id blocked [] = ok []
  offers db q property_id blocked (rt ∷ types) =
      collect (offer_of db q property_id blocked rt) (offers db q property_id blocked types)

  abbrev answer : Query → Result (List (Offer N)) → Result (Stay N)
  answer q (ok os) = ok (record {
    check_in = q.check_in;
    check_out = q.check_out;
    nights = calc_nights q.check_in q.check_out;
    available_rooms = os;
  })
  answer q (thrown e) = thrown e

  abbrev search_property : Db N → Query → Option (Property N) → Result (Stay N)
  search_property db q none = thrown (not_found "Property not found")
  search_property db q (some p) =
      let types = filtered_types db p.id q.guests in
      if ltb_ℤ (calc_nights q.check_in q.check_out) (pos 1)
      then thrown (bad_request "Invalid date range")
      else answer q (offers db q p.id (blocked_rows db q.check_in q.check_out types) types)

  unfoldable pub check_public_availability : Db N → String → Query → Result (Stay N)
  unfolding offers
  check_public_availability db slug q = search_property db q (public_property db slug)
