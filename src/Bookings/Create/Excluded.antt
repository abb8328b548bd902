-- ===== src/Bookings/Create/Excluded.antt =====
-- The exclusion constraint on the table of bookings against the calendar: in a sound engine a stay
-- whose dates are all available meets no active booking of its room.
use property_os.Common.{
  ℕ, ◌≤◌, ◌<◌, ◌≡◌, refl, inl, inr, true, false, not, ◌&&◌, Option, none, some, List, [], ◌∷◌, All,
  All-weaken, any, ltb, arith, ◌==◌, Bool-cases, if◌then◌else◌,
}
use property_os.Entities.{Booking, RoomAvailability}
use property_os.Database.{Db}
use property_os.Inventory.Availability.{unavailable_dates, is_taken, release}
use property_os.Inventory.Availability.Rows.{available_nights, row_at, is_held, release-Held}
use property_os.Bookings.Create.{is_active, meets, is_excluded}
use property_os.Bookings.Sound.{IsSound, HoldsIts, is_standing}

module _ {N : Type 0} where
  -- a night of both stays
  abbrev shared_night : Booking N → Booking N → ℕ
  shared_night b c = if ltb b.check_in c.check_in then c.check_in else b.check_in

  shared_night-In :
      (b c : Booking N)
      → meets b c ≡ true
      → ((b.check_in ≤ shared_night b c) × (shared_night b c < b.check_out))
        × ((c.check_in ≤ shared_night b c) × (shared_night b c < c.check_out))
  shared_night-In b c h = ground arith

  held-is_taken :
      (row : Option (RoomAvailability N)) (i : ℕ) → is_held row i ≡ true → is_taken row ≡ false → ⊥
  held-is_taken none i h k = cc
  held-is_taken (some r) i h k = ground arith

  -- a standing booking, if it is not `b`, holds its nights
  abbrev OthersHold : List (RoomAvailability N) → Booking N → Booking N → Type 0
  OthersHold rows b c = (c.id == b.id) ≡ false → HoldsIts rows c

  none_meets :
      (rows : List (RoomAvailability N)) (b : Booking N) (bookings : List (Booking N))
      → unavailable_dates b.room_id b.check_in b.check_out rows ≡ []
      → All (OthersHold rows b) bookings
      → any (λ c. is_active c && not (c.id == b.id) && c.room_id == b.room_id && meets b c) bookings
        ≡ false
  none_meets rows b [] free h = refl
  none_meets rows b (c ∷ bookings) free (held, h) =
      let rest = none_meets rows b bookings free h in
      elim (Bool-cases (is_active c && not (c.id == b.id) && c.room_id == b.room_id && meets b c)) [
        | inr e ↦ rw (e, rest) refl
        | inl e ↦
            let met : meets b c ≡ true = ground (arith, e) in
            let standing : is_standing c ≡ true = ground (arith, e) in
            let other : (c.id == b.id) ≡ false = ground (arith, e) in
            let same : c.room_id ≡ b.room_id = ground (arith, e) in
            let night = shared_night b c in
            let inside = shared_night-In b c met in
            absurd (
              held-is_taken (row_at c.room_id night rows) c.id
                (held other standing night inside.1.0 inside.1.1)
                (rw same (
                  available_nights b.room_id b.check_in b.check_out night rows free inside.0.0
                    inside.0.1)))
      ]

  -- The constraint accepts that a booking moves to dates which are available once its own are released.
  pub not_excluded_moved :
      (db : Db N) (b : Booking N)
      → IsSound db
      → unavailable_dates b.room_id b.check_in b.check_out (release b.id db.availability) ≡ []
      → is_excluded b db.bookings ≡ false
  unfolding is_excluded
  not_excluded_moved db b v free =
      let held =
        All-weaken {Q = OthersHold (release b.id db.availability) b}
          (λ (c : Booking N) h other s.
            release-Held b.id db.availability c (ground (arith, other)) (h s))
          db.bookings v.held in
      ground (arith, none_meets (release b.id db.availability) b db.bookings free held)

  -- The constraint accepts a booking for available dates.
  pub not_excluded :
      (db : Db N) (b : Booking N)
      → IsSound db
      → unavailable_dates b.room_id b.check_in b.check_out db.availability ≡ []
      → is_excluded b db.bookings ≡ false
  unfolding is_excluded
  not_excluded db b v free =
      let held =
        All-weaken {Q = OthersHold db.availability b} (λ (c : Booking N) h other. h) db.bookings
          v.held in
      ground (arith, none_meets db.availability b db.bookings free held)
