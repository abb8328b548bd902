-- ===== src/Tests/Fixtures.antt =====
-- A small guest house: one property with one type of room, two rooms, four days in the calendar and
-- one confirmed booking, with amounts in `Fixed`.
use property_os.Common.{ℕ, true, false, none, some, [], ◌∷◌}
use property_os.Common.Int.{pos}
use property_os.Numeric.Fixed.{Fixed}
use property_os.Entities.{
  Booking, BookingStatus, confirmed, direct, RoomAvailability, available, booked,
}
use property_os.Database.{Db}
use property_os.Bookings.Request.{GuestDto, CreateBookingDto, Env}
use property_os.Payments.Model.{Payment, PaymentType, PaymentStatus, Ledger}

abbrev pub money : ℕ → Fixed
money n = pos n

abbrev pub booking_of : ℕ → ℕ → ℕ → BookingStatus → Booking Fixed
booking_of id room start status = record {
  id = id;
  property_id = 1;
  room_id = room;
  guest_id = 50;
  group_id = none;
  group_index = 0;
  reference_number = "KR-AAAA";
  check_in = start;
  check_out = 20_002;
  nights = pos 2;
  total_price = money 20_000_000;
  currency = "ZAR";
  nightly_rate = money 10_000_000;
  deposit_amount = money 0;
  balance_due_date = none;
  status = status;
  source = direct;
  source_ref = none;
  guest_count = 2;
  special_requests = none;
  internal_notes = none;
  cancelled_at = none;
  cancellation_reason = none;
  expected_arrival_time = none;
  vehicle_registration = none;
  num_vehicles = none;
  dietary_requirements = none;
  online_check_in_completed = false;
  online_check_in_at = none;
  promo_code = none;
  discount_amount = money 0;
  booked_at = 1_000_000;
}

abbrev pub day_of : ℕ → ℕ → RoomAvailability Fixed
day_of room day = record {
  room_id = room;
  date = day;
  status = available;
  price_override = none;
  booking_id = none;
  blocked_reason = none;
}

abbrev pub night_of : ℕ → ℕ → ℕ → RoomAvailability Fixed
night_of booking room day = record {
  room_id = room;
  date = day;
  status = booked;
  price_override = none;
  booking_id = some booking;
  blocked_reason = none;
}

abbrev pub first_booking : Booking Fixed
first_booking = booking_of 1 100 20_000 confirmed

abbrev pub house : Db Fixed
house = record {
  properties = [];
  room_types =
      record {
        id = 10;
        property_id = 1;
        name = "Double";
        base_price = money 10_000_000;
        max_occupancy = 2;
        is_active = true;
        base_occupancy = 2;
        single_occupancy_rate = none;
        extra_person_rate = none;
        child_rate = none;
      }
      ∷ [];
  rooms =
      record { id = 100; property_id = 1; room_type_id = 10; name = "One"; is_active = true }
      ∷ record { id = 101; property_id = 1; room_type_id = 10; name = "Two"; is_active = true }
      ∷ [];
  availability =
      night_of 1 100 20_000 ∷ night_of 1 100 20_001 ∷ day_of 101 20_000 ∷ day_of 101 20_001 ∷ [];
  rate_periods = [];
  pricing_rules = [];
  promo_codes = [];
  levy_settings = [];
  levy_records = [];
  guests = [];
  bookings = first_booking ∷ [];
  events = [];
}

abbrev pub anna : GuestDto
anna = record {
  first_name = "Anna";
  last_name = "Botha";
  email = some "anna@example.com";
  phone = none;
  country = none;
  id_number = none;
}

-- two nights in a room
abbrev pub stay_in : ℕ → CreateBookingDto
stay_in room = record {
  property_id = 1;
  room_id = some room;
  room_ids = [];
  check_in = 20_000;
  check_out = 20_002;
  guest = anna;
  guest_count = none;
  special_requests = none;
  source = none;
  internal_notes = none;
}

abbrev pub env : Env
env = record {
  now = 1_700_000_000_000;
  guest_id = 51;
  group_id = 70;
  booking_ids = λ i. 2;
  references = λ i attempt. "KR-BBBB";
}

-- a paid booking: what the payments module sees of it
abbrev pub payment : Payment Fixed
payment = record {
  id = 5;
  booking_id = 1;
  property_id = 1;
  amount = money 20_000_000;
  currency = "ZAR";
  payment_type = PaymentType.full;
  status = PaymentStatus.completed;
  provider = none;
  provider_ref = none;
  eft_reference = none;
  eft_confirmed_by = none;
  paid_at = none;
  failed_at = none;
  refunded_at = none;
  notes = none;
}

abbrev pub ledger : Ledger Fixed
ledger = record {
  bookings = first_booking ∷ [];
  payments = payment ∷ [];
  refunds = [];
  settings = [];
  events = [];
}
