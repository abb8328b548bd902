-- ===== src/Database.antt =====
-- The tables that the booking engine reads and writes, and the events that it has emitted
-- (modules/bookings/events/booking.events.ts).
use property_os.Common.{ℕ, String, Option, List}
use property_os.Pricing.Model.{PricingRule}
use property_os.Promos.Model.{PromoCode}
use property_os.Levy.{LevySettings, LevyRecord}
use property_os.Entities.{
  Booking, BookingStatus, BookingSource, Guest, Property, Room, RoomType, RoomAvailability,
  RatePeriod,
}

pub data BookingEvent : Type 0 where
  created :
      (booking_id property_id : ℕ) → (reference_number : String) → BookingSource → BookingEvent
  booking_cancelled : (booking_id property_id : ℕ) → (reason : Option String) → BookingEvent
  status_modified : (booking_id property_id : ℕ) → (old new : BookingStatus) → BookingEvent
  modified : (booking_id : ℕ) → BookingEvent
  booking_checked_in : (booking_id property_id : ℕ) → BookingEvent
  booking_checked_out : (booking_id property_id : ℕ) → BookingEvent

pub record Db (N : Type 0) : Type 0 where
  pub properties : List (Property N)
  pub room_types : List (RoomType N)
  pub rooms : List Room
  pub availability : List (RoomAvailability N)
  pub rate_periods : List (RatePeriod N)
  pub pricing_rules : List (PricingRule N)
  pub promo_codes : List (PromoCode N)
  pub levy_settings : List (LevySettings N)
  pub levy_records : List (LevyRecord N)
  pub guests : List (Guest N)
  pub bookings : List (Booking N)
  pub events : List BookingEvent

-- A rolled back transaction restores the tables; events that were emitted stay emitted.
abbrev pub restore_tables : {N : Type 0} → Db N → Db N → Db N
restore_tables before after = record before { events = after.events }
