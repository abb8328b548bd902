-- ===== src/Bookings/Sound.antt =====
-- The invariant of the booking engine: every booking that is not cancelled holds its room on each of
-- its nights.
use property_os.Common.{
  ℕ, ◌≤◌, ◌<◌, ◌≡◌, Bool, true, not, Option, none, some, List, arith, All, In, All-In, Distinct,
}
use property_os.Entities.{Booking, cancelled, RoomAvailability, same_status}
use property_os.Database.{Db}
use property_os.Inventory.Availability.Rows.{Held, row_at, is_held}

abbrev pub booking_key : {N : Type 0} → Booking N → ℕ
booking_key b = b.id

-- not cancelled
abbrev pub is_standing : {N : Type 0} → Booking N → Bool
is_standing b = not (same_status b.status cancelled)

module _ {N : Type 0} where
  -- A standing booking holds its nights.
  abbrev pub HoldsIts : List (RoomAvailability N) → Booking N → Type 0
  HoldsIts rows b = is_standing b ≡ true → Held rows b

  pub record IsSound (db : Db N) : Type 0 where
    pub distinct : Distinct booking_key db.bookings
    pub held : All (HoldsIts db.availability) db.bookings

  one_holder :
      (row : Option (RoomAvailability N)) (i j : ℕ)
      → is_held row i ≡ true
      → is_held row j ≡ true
      → i ≡ j
  one_holder none i j h k = cc
  one_holder (some r) i j h k = ground arith

  -- In a sound database two standing bookings of one room that share a night are one booking.
  pub no_double_booking :
      (db : Db N) (a b : Booking N) (night : ℕ)
      → IsSound db
      → In a db.bookings
      → In b db.bookings
      → is_standing a ≡ true
      → is_standing b ≡ true
      → a.room_id ≡ b.room_id
      → (a.check_in ≤ night) × (night < a.check_out)
      → (b.check_in ≤ night) × (night < b.check_out)
      → a.id ≡ b.id
  no_double_booking db a b night v i j sa sb room na nb =
      let ha = All-In (HoldsIts db.availability) db.bookings v.held i sa night na.0 na.1 in
      let hb = All-In (HoldsIts db.availability) db.bookings v.held j sb night nb.0 nb.1 in
      one_holder (row_at b.room_id night db.availability) a.id b.id (rw room at ha) hb
