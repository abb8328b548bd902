-- ===== src/Entities.antt =====
-- The entities of modules/bookings, modules/inventory and modules/properties: rows of the tables
-- `bookings`, `guests`, `properties`, `rooms`, `room_types`, `room_availability` and `rate_periods`. Keys are numbers, a `date` column is
-- the number of its day (dates in ISO format are ordered as their days), a time is in milliseconds,
-- and `N` is the type of JavaScript numbers.
use property_os.Common.{ℕ, String, Bool, true, false, Option}
use property_os.Common.Int.{ℤ}

pub data BookingStatus : Type 0 where
  pending confirmed checked_in checked_out cancelled no_show : BookingStatus

pub data BookingSource : Type 0 where
  direct booking_com airbnb expedia lekkeslaap safarinow walk_in phone manual : BookingSource

pub data AvailabilityStatus : Type 0 where
  available booked blocked maintenance : AvailabilityStatus

pub record Booking (N : Type 0) : Type 0 where
  pub id : ℕ
  pub property_id : ℕ
  pub room_id : ℕ
  pub guest_id : ℕ
  pub group_id : Option ℕ
  pub group_index : ℕ
  pub reference_number : String
  pub check_in : ℕ
  pub check_out : ℕ
  pub nights : ℤ
  pub total_price : N
  pub currency : String
  pub nightly_rate : N
  pub deposit_amount : N
  pub balance_due_date : Option ℕ
  pub status : BookingStatus
  pub source : BookingSource
  pub source_ref : Option String
  pub guest_count : ℕ
  pub special_requests : Option String
  pub internal_notes : Option String
  pub cancelled_at : Option ℕ
  pub cancellation_reason : Option String
  pub expected_arrival_time : Option String
  pub vehicle_registration : Option String
  pub num_vehicles : Option ℕ
  pub dietary_requirements : Option String
  pub online_check_in_completed : Bool
  pub online_check_in_at : Option ℕ
  pub promo_code : Option String
  pub discount_amount : N
  pub booked_at : ℕ

pub record Guest (N : Type 0) : Type 0 where
  pub id : ℕ
  pub property_id : ℕ
  pub first_name : String
  pub last_name : String
  pub email : Option String
  pub phone : Option String
  pub country : Option String
  pub id_number : Option String
  pub total_stays : ℕ
  pub total_revenue : N
  pub last_stay_date : Option ℕ

pub record Property (N : Type 0) : Type 0 where
  pub id : ℕ
  pub name : String
  pub slug : String
  pub deposit_required : Bool
  pub deposit_percentage : N
  pub is_active : Bool
  pub is_published : Bool

pub record RoomAvailability (N : Type 0) : Type 0 where
  pub room_id : ℕ
  pub date : ℕ
  pub status : AvailabilityStatus
  pub price_override : Option N
  pub booking_id : Option ℕ
  pub blocked_reason : Option String

pub record Room : Type 0 where
  pub id : ℕ
  pub property_id : ℕ
  pub room_type_id : ℕ
  pub name : String
  pub is_active : Bool

pub record RoomType (N : Type 0) : Type 0 where
  pub id : ℕ
  pub property_id : ℕ
  pub name : String
  pub base_price : N
  pub max_occupancy : ℕ
  pub is_active : Bool
  pub base_occupancy : ℕ
  pub single_occupancy_rate : Option N
  pub extra_person_rate : Option N
  pub child_rate : Option N

pub record RatePeriod (N : Type 0) : Type 0 where
  pub id : ℕ
  pub property_id : ℕ
  pub room_type_id : Option ℕ
  pub name : String
  pub start_date : ℕ
  pub end_date : ℕ
  pub price_override : Option N
  pub price_modifier : Option N
  pub min_stay : Option ℕ
  pub max_stay : Option ℕ
  pub closed_to_arrival : Bool
  pub closed_to_departure : Bool
  pub stop_sell : Bool
  pub is_active : Bool

abbrev pub same_status : BookingStatus → BookingStatus → Bool
same_status pending pending = true
same_status confirmed confirmed = true
same_status checked_in checked_in = true
same_status checked_out checked_out = true
same_status cancelled cancelled = true
same_status no_show no_show = true
same_status _ _ = false

abbrev pub same_availability : AvailabilityStatus → AvailabilityStatus → Bool
same_availability available available = true
same_availability booked booked = true
same_availability blocked blocked = true
same_availability maintenance maintenance = true
same_availability _ _ = false
