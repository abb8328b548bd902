-- ===== src/Bookings/Cleanup/Sound.antt =====
-- The cleanup job and the invariant of the booking engine.
use property_os.Common.{ℕ, refl, List, [], ◌∷◌}
use property_os.Entities.{Booking}
use property_os.Database.{Db}
use property_os.Bookings.Status.{as_cancelled}
use property_os.Bookings.Status.Sound.{cancel-IsSound}
use property_os.Bookings.Cleanup.{to_cancel, cancel_rows, cancel_expired}
use property_os.Bookings.Sound.{IsSound}

module _ {N : Type 0} where
  cancel_rows-IsSound :
      (now : ℕ) (bs : List (Booking N)) (db : Db N) → IsSound db → IsSound (cancel_rows now bs db)
  unfolding cancel_rows
  cancel_rows-IsSound now [] db v = v
  cancel_rows-IsSound now (b ∷ bs) db v =
      cancel_rows-IsSound now bs _ (cancel-IsSound db (as_cancelled now _ b) refl v)

  pub cancel_expired-IsSound :
      (now : ℕ) (db : Db N) → IsSound db → IsSound (cancel_expired now db).1
  unfolding cancel_expired
  cancel_expired-IsSound now db v = cancel_rows-IsSound now (to_cancel now db.bookings) db v
