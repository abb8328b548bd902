-- ===== src/Tests/Portal.antt =====
-- A search for rooms and the guest portal on the fixtures.
use property_os.Common.{◌≡◌, refl, inl, String, true, false, none, some, [], ◌∷◌, All}
use property_os.Numeric.{round_cents}
use property_os.Inventory.Restrictions.{get_yield_restrictions}
use property_os.Pricing.Calculate.{calculate_price, by_priority}
use property_os.Bookings.Quote.{price_nights}
use property_os.Numeric.Fixed.{Fixed, fixed_number}
use property_os.Common.Int.{pos}
use property_os.Service.{ok}
use property_os.Entities.{Booking, Guest, Property, Room, RatePeriod}
use property_os.Database.{Db}
use property_os.Inventory.Availability.{date_range}
use property_os.Inventory.Prices.{get_effective_price, get_derived_price}
use property_os.Bookings.Request.{calc_nights}
use property_os.Bookings.Search.{offer_of, offers, Offer, Stay, check_public_availability}
use property_os.Bookings.Search.Honoured.{query_of}
use property_os.Bookings.Search.Limits.{Allows, restrictions_respected}
use property_os.Bookings.Portal.{
  OnlineCheckInDto, GuestModifyDto, guest_cancel_booking, online_check_in, guest_modify_booking,
}
use property_os.Bookings.Portal.Access.{Owns, TurnedAway, portal_guarded}
use property_os.Bookings.Portal.{as_update, can_modify, can_check_in_online, can_cancel}
use property_os.Bookings.Update.{update_booking}
use property_os.Bookings.Portal.Flags.{returns, flags_lem}
use property_os.Bookings.Portal.Arrival.{InParty, arrival_complete}
use property_os.Tests.Fixtures.{house, env, stay_in, money, first_booking}

abbrev inn : Property Fixed
inn = record {
  id = 1;
  name = "Inn";
  slug = "inn";
  deposit_required = false;
  deposit_percentage = money 0;
  is_active = true;
  is_published = true;
}

-- in the season the stay has to have two nights
abbrev season : RatePeriod Fixed
season = record {
  id = 3;
  property_id = 1;
  room_type_id = none;
  name = "Season";
  start_date = 19_990;
  end_date = 20_010;
  price_override = none;
  price_modifier = none;
  min_stay = some 2;
  max_stay = none;
  closed_to_arrival = false;
  closed_to_departure = false;
  stop_sell = false;
  is_active = true;
}

abbrev booker : Guest Fixed
booker = record {
  id = 50;
  property_id = 1;
  first_name = "Anna";
  last_name = "Botha";
  email = some "anna@example.com";
  phone = none;
  country = none;
  id_number = none;
  total_stays = 0;
  total_revenue = money 0;
  last_stay_date = none;
}

abbrev open_house : Db Fixed
open_house = record house {
  properties = inn ∷ [];
  rate_periods = season ∷ [];
  guests = booker ∷ [];
}

abbrev room_two : Room
room_two = record { id = 101; property_id = 1; room_type_id = 10; name = "Two"; is_active = true }

abbrev double_room : Offer Fixed
double_room = record {
  room_type_id = 10;
  room_type_name = "Double";
  nightly_rate = round_cents (fixed_number.div (money 20_000_000) (fixed_number.of_int (pos 2)));
  total_price = money 20_000_000;
  available_count = 1;
  max_occupancy = 2;
  rooms = room_two ∷ [];
}

abbrev found : Stay Fixed
found = record {
  check_in = 20_000;
  check_out = 20_002;
  nights = pos 2;
  available_rooms = double_room ∷ [];
}

search_test : check_public_availability open_house "inn" (query_of env (stay_in 101)) ≡ ok found
unfolding check_public_availability offer_of offers calc_nights get_yield_restrictions price_nights
    date_range get_effective_price calculate_price by_priority get_derived_price
search_test = refl

restrictions_respected_example :
    All (Allows (calc_nights 20_000 20_002)) (season ∷ [])
    × All (λ (r : RatePeriod Fixed). r.closed_to_departure ≡ false) (season ∷ [])
restrictions_respected_example =
    restrictions_respected open_house "inn" (query_of env (stay_in 101)) inn found double_room refl
      search_test (inl refl)

abbrev lower : String → String
lower s = s

abbrev arrival : String → OnlineCheckInDto
arrival email = record {
  reference_number = "KR-AAAA";
  email = email;
  expected_arrival_time = some "15:00";
  vehicle_registration = none;
  num_vehicles = some 1;
  dietary_requirements = none;
  special_requests = none;
  id_number = none;
}

abbrev later_stay : GuestModifyDto
later_stay = record {
  check_in = none;
  check_out = some 20_003;
  guest_count = none;
  special_requests = none;
}

some_same : {A : Type 0} {x y : A} → some x ≡ some y → x ≡ y
some_same h = cc h

different : false ≡ true → ⊥
different h = cc h

stranger : (b : Booking Fixed) → ¬ Owns lower "KR-AAAA" "eve@example.com" open_house b
stranger b h =
    let same : first_booking ≡ b = some_same h.0 in absurd (different (rw (← same) at h.1))

-- a visitor with another address
portal_guarded_example :
    TurnedAway
      (guest_cancel_booking lower "KR-AAAA" "eve@example.com" none false 5 open_house)
      open_house
    × TurnedAway (online_check_in lower 5 (arrival "eve@example.com") open_house) open_house
    × TurnedAway
        (guest_modify_booking lower "KR-AAAA" "eve@example.com" later_stay 5 open_house)
        open_house
portal_guarded_example =
    portal_guarded lower "KR-AAAA" "eve@example.com" none false (arrival "eve@example.com")
      later_stay 5 open_house stranger refl refl

abbrev arrived : Booking Fixed
arrived = record first_booking {
  expected_arrival_time = some "15:00";
  num_vehicles = some 1;
  online_check_in_completed = true;
  online_check_in_at = some 5;
}

arrival_complete_example :
    (arrived.online_check_in_completed ≡ true)
    × All
        (λ s. InParty arrived s → s.online_check_in_completed ≡ true)
        (online_check_in lower 5 (arrival "anna@example.com") open_house).1.bookings
unfolding online_check_in
arrival_complete_example =
    arrival_complete lower 5 (arrival "anna@example.com") open_house arrived (tt, tt) refl

flags_lem_example :
    (returns (online_check_in lower 5 (arrival "anna@example.com") open_house) ≡ true)
    × (returns (guest_cancel_booking lower "KR-AAAA" "anna@example.com" none false 5 open_house)
        ≡ true)
    × (can_modify 5 first_booking ≡ true
        → guest_modify_booking lower "KR-AAAA" "anna@example.com" later_stay 5 open_house
          ≡ update_booking 1 (as_update later_stay) 1 open_house)
    × (can_modify 5 first_booking ≡ false
        → returns (guest_modify_booking lower "KR-AAAA" "anna@example.com" later_stay 5 open_house)
          ≡ false)
unfolding can_check_in_online can_cancel
flags_lem_example =
    flags_lem lower "KR-AAAA" "anna@example.com" none (arrival "anna@example.com") later_stay 5
      open_house first_booking (tt, tt) (refl, refl) refl refl
