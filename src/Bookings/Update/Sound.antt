-- ===== src/Bookings/Update/Sound.antt =====
-- `updateBooking` and the invariant of the booking engine.
use mathlib.Core.Path.{subst}
use property_os.Common.{
  ℕ, ◌≡◌, refl, inl, inr, ◌||◌, [], arith, All-weaken, All-save_over, Distinct-save, find_one,
  find_one-In, Bool-cases, Option-cases, or_else, is_some, save, In,
}
use property_os.Common.Int.{pos, ltb_ℤ}
use property_os.Numeric.{Number}
use property_os.Service.{
  transaction, bind_keeps, then_keeps, if_keeps, throw_if_keeps, throw_if, bad_request, pure, ◌>>◌,
}
use property_os.Entities.{Booking}
use property_os.Database.{Db, modified, restore_tables}
use property_os.Inventory.Availability.{unavailable_dates, book_dates, release}
use property_os.Inventory.Availability.Rows.{book_dates-Held, book_dates-gives, release-Held}
use property_os.Bookings.Request.{calc_nights}
use property_os.Bookings.Create.{is_empty, is_excluded}
use property_os.Bookings.Create.Sound.{[]_of_is_empty}
use property_os.Bookings.Status.{booking_named, get_booking, store, emit}
use property_os.Bookings.Status.Sound.{replace-IsSound}
use property_os.Bookings.Update.{
  UpdateBookingDto, with_details, with_dates, emit_modified, move_booking, change_dates,
  change_details, update_booking,
}
use property_os.Bookings.Sound.{IsSound, HoldsIts, booking_key}

module _ {N : Type 0} ⦃num : Number N⦄ where
  -- A booking moves onto nights that are available once its own are released.
  moved-IsSound :
      (db : Db N) (b : Booking N)
      → unavailable_dates b.room_id b.check_in b.check_out (release b.id db.availability) ≡ []
      → IsSound db
      → IsSound (record db {
        bookings = save booking_key b db.bookings;
        availability =
            book_dates b.id b.room_id b.check_in b.check_out (release b.id db.availability);
      })
  moved-IsSound db b free v =
      let rows = release b.id db.availability in
      let after = book_dates b.id b.room_id b.check_in b.check_out rows in
      record {
        distinct = Distinct-save booking_key b db.bookings v.distinct;
        held =
            All-save_over booking_key (HoldsIts after) b db.bookings v.distinct
              (λ _. book_dates-gives rows b free)
              (All-weaken
                (λ c h other s.
                  book_dates-Held b.id b.room_id b.check_in b.check_out rows c free
                    (release-Held b.id db.availability c other (h s)))
                db.bookings v.held);
      }

  move_booking-IsSound :
      (booking saved : Booking N) (db : Db N)
      → saved.id ≡ booking.id
      → saved.room_id ≡ booking.room_id
      → IsSound db
      → IsSound (transaction restore_tables (move_booking booking.id booking saved) db).1
  unfolding move_booking
  move_booking-IsSound booking saved db id room v =
      rw (← id, ← room)
        (elim (Bool-cases (
          is_empty (
            unavailable_dates saved.room_id saved.check_in saved.check_out
              (release saved.id db.availability)))) [
                | inl e ↦ rw e (elim (Bool-cases (is_excluded saved db.bookings)) [
                  | inl x ↦ rw x (record { distinct = v.distinct; held = v.held })
                  | inr x ↦ rw x (moved-IsSound db saved ([]_of_is_empty _ e) v)
                ])
                | inr e ↦ rw e (record { distinct = v.distinct; held = v.held })
              ])

  emit_modified-IsSound :
      (old new : Booking N) (db : Db N) → IsSound db → IsSound (emit_modified old new db).1
  unfolding emit_modified
  emit_modified-IsSound old new db v =
      if_keeps IsSound _ (emit (modified new.id)) (pure tt) db
        (record { distinct = v.distinct; held = v.held }) v

  change_dates-IsSound :
      (dto : UpdateBookingDto) (b : Booking N) (db : Db N)
      → IsSound db
      → IsSound (change_dates b.id dto b db).1
  change_dates-IsSound dto b db v =
      let start = or_else dto.check_in b.check_in in
      let end = or_else dto.check_out b.check_out in
      let nights = calc_nights start end in
      let saved : Booking N = with_details dto (with_dates start end nights b) in
      then_keeps IsSound IsSound (throw_if (ltb_ℤ nights (pos 1)) (bad_request "Invalid dates")) _
        db (throw_if_keeps IsSound _ _ db v) (λ t w. w)
        (λ t w.
          bind_keeps IsSound (transaction restore_tables (move_booking b.id b saved)) _ t
            (move_booking-IsSound b saved t refl refl w)
            λ moved u x.
              then_keeps IsSound IsSound (emit_modified b moved) (pure moved) u
                (emit_modified-IsSound b moved u x) (λ t w. w) (λ t w. w))

  change_details-IsSound :
      (dto : UpdateBookingDto) (b : Booking N) (db : Db N)
      → In b db.bookings
      → IsSound db
      → IsSound (change_details dto b db).1
  change_details-IsSound dto b db i v =
      let saved : Booking N = with_details dto b in
      then_keeps IsSound IsSound (store saved) (emit_modified b saved >> pure saved) db
        (replace-IsSound db b saved i (λ s. s) refl refl refl refl v) (λ t w. w)
        λ t w.
          then_keeps IsSound IsSound (emit_modified b saved) (pure saved) t
            (emit_modified-IsSound b saved t w) (λ u x. x) (λ u x. x)

  pub update_booking-IsSound :
      (id : ℕ) (dto : UpdateBookingDto) (property_id : ℕ) (db : Db N)
      → IsSound db
      → IsSound (update_booking id dto property_id db).1
  unfolding update_booking get_booking
  update_booking-IsSound id dto property_id db v =
      elim (Option-cases (find_one (booking_named id property_id) db.bookings)) [
        | inl e ↦ rw e v
        | inr (b, e) ↦ rw e (
            let found = find_one-In (booking_named id property_id) db.bookings e in
            let same : b.id ≡ id = ground (arith, found.1) in
            if_keeps IsSound (is_some dto.check_in || is_some dto.check_out) (change_dates id dto b)
              (change_details dto b) db
              (subst (λ k. IsSound (change_dates k dto b db).1) same
                (change_dates-IsSound dto b db v))
              (change_details-IsSound dto b db found.0 v))
      ]
