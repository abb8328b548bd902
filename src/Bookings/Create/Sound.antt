-- ===== src/Bookings/Create/Sound.antt =====
-- `createBooking`, the invariant of the booking engine, and the rollback.
use property_os.Common.{
  ℕ, ◌+◌, ◌≡◌, refl, inl, inr, true, Option, List, [], ◌∷◌, find_one, save, All-save, All-weaken,
  Distinct-save, ◌==◌, or_else, Bool-cases, Option-cases,
}
use property_os.Common.Int.{ℤ, pos, ltb_ℤ}
use property_os.Numeric.{Number, nought}
use property_os.Service.{
  Result-cases, Exception, thrown, bind_keeps, transaction_keeps, transaction_restores,
}
use property_os.Entities.{Booking, Room}
use property_os.Database.{Db, restore_tables, BookingEvent}
use property_os.Inventory.Availability.{date_range, unavailable_dates, book_dates}
use property_os.Inventory.Availability.Rows.{book_dates-Held, book_dates-gives}
use property_os.Bookings.Request.{GuestDto, CreateBookingDto, Env, resolve_room_ids, calc_nights}
use property_os.Bookings.Guests.{find_or_create_guest}
use property_os.Bookings.Quote.{price_nights, generate_reference, max_attempts}
use property_os.Bookings.Create.{
  book_rooms, group_of, is_empty, create_one, create_all, create_booking, is_excluded, new_booking,
}
use property_os.Bookings.Sound.{IsSound, HoldsIts, booking_key}

pub []_of_is_empty : (ds : List ℕ) → is_empty ds ≡ true → ds ≡ []
[]_of_is_empty [] h = refl
[]_of_is_empty (d ∷ ds) h = cc

module _ {N : Type 0} where
  -- Storing a new booking for a stay whose dates are all available keeps the engine sound.
  pub add_booking-IsSound :
      (db : Db N) (b : Booking N) (events : List BookingEvent)
      → unavailable_dates b.room_id b.check_in b.check_out db.availability ≡ []
      → IsSound db
      → IsSound (record db {
        bookings = save booking_key b db.bookings;
        availability = book_dates b.id b.room_id b.check_in b.check_out db.availability;
        events = events;
      })
  add_booking-IsSound db b events free v = record {
    distinct = Distinct-save booking_key b db.bookings v.distinct;
    held =
        All-save booking_key
          (HoldsIts (book_dates b.id b.room_id b.check_in b.check_out db.availability)) b
          db.bookings (λ _. book_dates-gives db.availability b free)
          (All-weaken
            (λ c h s.
              book_dates-Held b.id b.room_id b.check_in b.check_out db.availability c free (h s))
            db.bookings v.held);
  }

module _ {N : Type 0} ⦃num : Number N⦄ where
  pub create_one-IsSound :
      (env : Env) (dto : CreateBookingDto) (nights : ℤ) (group : Option ℕ) (guest index room : ℕ)
      (db : Db N)
      → IsSound db
      → IsSound (create_one env dto nights group guest index room db).1
  unfolding create_one
  create_one-IsSound env dto nights group guest index room db v =
      elim (Bool-cases
        (is_empty (unavailable_dates room dto.check_in dto.check_out db.availability))) [
          | inr e ↦ rw e v
          | inl e ↦ rw e (elim (Option-cases (find_one (λ (r : Room). r.id == room) db.rooms)) [
            | inl e' ↦ rw e' v
            | inr (r, e') ↦
                rw e'
                  (elim (Result-cases (
                    price_nights db dto.property_id r.room_type_id (or_else dto.guest_count 1)
                      dto.check_in nights env.now 0 nought
                      (date_range dto.check_in dto.check_out))) [
                        | inr (x, p) ↦ rw p v
                        | inl (total, p) ↦
                            rw p
                              (elim (Result-cases (
                                generate_reference max_attempts 0 (env.references index)
                                  db.bookings)) [
                                    | inr (x, q) ↦ rw q v
                                    | inl (reference, q) ↦
                                        rw q
                                          (elim (Bool-cases (
                                            is_excluded
                                              (new_booking env dto nights group guest index room
                                                total reference)
                                              db.bookings)) [
                                                | inl x ↦ rw x v
                                                | inr x ↦ rw x (
                                                    add_booking-IsSound db _ _ ([]_of_is_empty _ e)
                                                      v)
                                              ])
                                  ])
                      ])
          ])
        ]

  create_all-IsSound :
      (env : Env) (dto : CreateBookingDto) (nights : ℤ) (group : Option ℕ) (guest index : ℕ)
      (rooms : List ℕ) (db : Db N)
      → IsSound db
      → IsSound (create_all env dto nights group guest index rooms db).1
  unfolding create_all
  create_all-IsSound env dto nights group guest index [] db v = v
  create_all-IsSound env dto nights group guest index (room ∷ rooms) db v =
      bind_keeps IsSound (create_one env dto nights group guest index room) _ db
        (create_one-IsSound env dto nights group guest index room db v)
        λ booking d w.
          bind_keeps IsSound (create_all env dto nights group guest (index + 1) rooms) _ d
            (create_all-IsSound env dto nights group guest (index + 1) rooms d w) (λ rest t u. u)

  pub find_or_create_guest-IsSound :
      (id property_id : ℕ) (dto : GuestDto) (db : Db N)
      → IsSound db
      → IsSound (find_or_create_guest id property_id dto db).1
  unfolding find_or_create_guest
  find_or_create_guest-IsSound id property_id dto db v = record {
    distinct = v.distinct;
    held = v.held;
  }

  book_rooms-IsSound :
      (env : Env) (dto : CreateBookingDto) (nights : ℤ) (group : Option ℕ) (rooms : List ℕ)
      (db : Db N)
      → IsSound db
      → IsSound (book_rooms env dto nights group rooms db).1
  unfolding book_rooms
  book_rooms-IsSound env dto nights group rooms db v =
      bind_keeps IsSound (find_or_create_guest env.guest_id dto.property_id dto.guest) _ db
        (find_or_create_guest-IsSound env.guest_id dto.property_id dto.guest db v)
        λ guest d w. create_all-IsSound env dto nights group guest.id 0 rooms d w

  -- Whatever `createBooking` is asked, and whether it returns or throws, it keeps the engine sound.
  pub create_booking-IsSound :
      (env : Env) (dto : CreateBookingDto) (db : Db N)
      → IsSound db
      → IsSound (create_booking env dto db).1
  unfolding create_booking
  create_booking-IsSound env dto db v = elim (Result-cases (resolve_room_ids dto)) [
    | inr (x, e) ↦ rw e v
    | inl (rooms, e) ↦
        rw e (elim (Bool-cases (ltb_ℤ (calc_nights dto.check_in dto.check_out) (pos 1))) [
          | inl n ↦ rw n v
          | inr n ↦ rw n (
              transaction_keeps IsSound restore_tables
                (book_rooms env dto (calc_nights dto.check_in dto.check_out) (group_of env rooms)
                  rooms)
                db (λ t. record { distinct = v.distinct; held = v.held })
                (book_rooms-IsSound env dto (calc_nights dto.check_in dto.check_out)
                  (group_of env rooms) rooms db v))
        ])
  ]

  -- If `createBooking` throws, every table is as it was: of a group of rooms all are booked or none.
  pub create_booking_atomic :
      (env : Env) (dto : CreateBookingDto) (db : Db N) (x : Exception)
      → (create_booking env dto db).0 ≡ thrown x
      → restore_tables db (create_booking env dto db).1 ≡ (create_booking env dto db).1
  unfolding create_booking
  create_booking_atomic env dto db x h = elim (Result-cases (resolve_room_ids dto)) [
    | inr (x, e) ↦ rw e refl
    | inl (rooms, e) ↦
        rw e (elim (Bool-cases (ltb_ℤ (calc_nights dto.check_in dto.check_out) (pos 1))) [
          | inl n ↦ rw n refl
          | inr n ↦ rw n (
              transaction_restores restore_tables
                (book_rooms env dto (calc_nights dto.check_in dto.check_out) (group_of env rooms)
                  rooms)
                db x (λ t. refl) (rw n at (rw e at h)))
        ])
  ]
