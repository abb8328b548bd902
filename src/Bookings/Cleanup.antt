-- ===== src/Bookings/Cleanup.antt =====
-- `cancelExpiredPendingBookings` of modules/bookings/bookings-cleanup.service.ts.
pub mod Sound
pub mod Expired
use property_os.Common.{
  ℕ, ◌+◌, Bool, true, false, not, ◌&&◌, Option, none, some, List, [], ◌∷◌, ◌++◌, any, filter, save,
  ltb, ◌==◌, same_key,
}
use property_os.Service.{Exec, pure, gets, modify, ◌>>=◌, ◌>>◌}
use property_os.Entities.{Booking, BookingSource, direct, pending, same_status}
use property_os.Database.{Db}
use property_os.Inventory.Availability.{release}
use property_os.Bookings.Status.{as_cancelled}

abbrev is_direct : BookingSource → Bool
is_direct direct = true
is_direct _ = false

-- 30 minutes in milliseconds
abbrev grace : ℕ
grace = 1_800_000

module _ {N : Type 0} where
  -- pending, direct and booked before the cutoff
  unfoldable pub is_expired : ℕ → Booking N → Bool
  is_expired now b =
      same_status b.status pending && is_direct b.source && ltb (b.booked_at + grace) now

  -- the group of a booking is the group of an expired one
  abbrev in_group_of : Option ℕ → Booking N → Bool
  in_group_of none e = false
  in_group_of (some g) e = same_key e.group_id g

  abbrev is_sibling : List (Booking N) → Booking N → Bool
  is_sibling expired b = any (in_group_of b.group_id) expired && same_status b.status pending

  -- the bookings in a `Map` by id, a later one over an earlier one
  pub merge : List (Booking N) → List (Booking N) → List (Booking N)
  merge acc [] = acc
  merge acc (b ∷ bs) = merge (save (λ (x : Booking N). x.id) b acc) bs

  unfoldable pub to_cancel : ℕ → List (Booking N) → List (Booking N)
  unfolding is_expired merge
  to_cancel now table =
      let expired = filter (is_expired now) table in
      merge [] (expired ++ filter (is_sibling expired) table)

  -- the loop over the bookings to cancel
  pub cancel_rows : ℕ → List (Booking N) → Db N → Db N
  cancel_rows now [] db = db
  cancel_rows now (b ∷ bs) db =
      let saved =
        as_cancelled now (some "Auto-cancelled: no payment received within 30 minutes") b in
      cancel_rows now bs (record db {
        bookings = save (λ (x : Booking N). x.id) saved db.bookings;
        availability = release b.id db.availability;
      })

  -- With none expired the list is empty and nothing is done.
  unfoldable pub cancel_expired : ℕ → Exec (Db N) (Unit {0})
  cancel_expired now = modify (λ d. cancel_rows now (to_cancel now d.bookings) d)
