-- ===== src/Bookings/Create/Rooms.antt =====
-- The bookings that `createBooking` returns, and their nights in the calendar.
use property_os.Common.{
  ℕ, ◌+◌, ◌≡◌, ◌∙◌, refl, sym, ap, inl, inr, Option, List, [], ◌∷◌, find_one, ◌==◌, or_else,
  Bool-cases, Option-cases, All,
}
use property_os.Common.Int.{ℤ, pos, ltb_ℤ}
use property_os.Numeric.{Number, nought}
use property_os.Service.{ok, Result-cases, transaction, bind_ok, pure, transaction_ok}
use property_os.Entities.{Booking, Room, confirmed}
use property_os.Database.{Db, restore_tables}
use property_os.Inventory.Availability.{date_range, unavailable_dates}
use property_os.Inventory.Availability.Rows.{Held, book_dates-Held, book_dates-gives}
use property_os.Bookings.Request.{CreateBookingDto, Env, resolve_room_ids, calc_nights}
use property_os.Bookings.Guests.{find_or_create_guest}
use property_os.Bookings.Quote.{price_nights, generate_reference, max_attempts}
use property_os.Bookings.Create.{
  book_rooms, group_of, is_empty, create_one, create_all, create_booking, new_booking, is_excluded,
}
use property_os.Bookings.Create.Sound.{[]_of_is_empty}

module _ {N : Type 0} ⦃num : Number N⦄ where
  -- the booking is for the stay and the room, and it is confirmed
  abbrev pub IsFor : CreateBookingDto → ℕ → Booking N → Type 0
  IsFor dto room b =
      (b.room_id ≡ room)
      × (b.check_in ≡ dto.check_in)
      × (b.check_out ≡ dto.check_out)
      × (b.status ≡ confirmed)

  -- one booking for each room, in the order of the rooms
  abbrev pub ForEach : CreateBookingDto → List ℕ → List (Booking N) → Type 0
  ForEach dto [] [] = Unit
  ForEach dto (r ∷ rs) (b ∷ bs) = IsFor dto r b × ForEach dto rs bs
  ForEach dto _ _ = ⊥

  create_one_lem :
      (env : Env) (dto : CreateBookingDto) (nights : ℤ) (group : Option ℕ) (guest index room : ℕ)
      (db : Db N) (b : Booking N)
      → (create_one env dto nights group guest index room db).0 ≡ ok b
      → IsFor dto room b
        × Held (create_one env dto nights group guest index room db).1.availability b
        × ((c : Booking N)
            → Held db.availability c
            → Held (create_one env dto nights group guest index room db).1.availability c)
  unfolding create_one new_booking
  create_one_lem env dto nights group guest index room db b =
      elim (Bool-cases
        (is_empty (unavailable_dates room dto.check_in dto.check_out db.availability))) [
          | inr e ↦ rw e (λ h. absurd (cc))
          | inl e ↦ rw e (elim (Option-cases (find_one (λ (r : Room). r.id == room) db.rooms)) [
            | inl e' ↦ rw e' (λ h. absurd (cc))
            | inr (r, e') ↦
                rw e'
                  (elim (Result-cases (
                    price_nights db dto.property_id r.room_type_id (or_else dto.guest_count 1)
                      dto.check_in nights env.now 0 nought
                      (date_range dto.check_in dto.check_out))) [
                        | inr (x, p) ↦ rw p (λ h. absurd (cc))
                        | inl (total, p) ↦
                            rw p
                              (elim (Result-cases (
                                generate_reference max_attempts 0 (env.references index)
                                  db.bookings)) [
                                    | inr (x, q) ↦ rw q (λ h. absurd (cc))
                                    | inl (reference, q) ↦
                                        rw q
                                          (elim (Bool-cases (
                                            is_excluded
                                              (new_booking env dto nights group guest index room
                                                total reference)
                                              db.bookings)) [
                                                | inl x ↦ rw x (λ h. absurd (cc))
                                                | inr x ↦ rw x λ h.
                                                    let made : new_booking env dto nights group
                                                          guest index room total reference
                                                        ≡ b =
                                                      cc in
                                                    let free = []_of_is_empty _ e in
                                                    rw (← made) (
                                                      (refl, refl, refl, refl),
                                                      book_dates-gives db.availability
                                                          (new_booking env dto nights group guest
                                                            index room total reference)
                                                          free,
                                                      λ c k.
                                                          book_dates-Held (env.booking_ids index)
                                                            room dto.check_in dto.check_out
                                                            db.availability c free k,
                                                    )
                                              ])
                                  ])
                      ])
          ])
        ]

  -- a list of bookings made by `m`, with what it leaves to the bookings before
  abbrev Made : CreateBookingDto → List ℕ → Db N → List (Booking N) → Db N → Type 0
  Made dto rooms db bs d =
      ForEach dto rooms bs
      × All (Held d.availability) bs
      × ((c : Booking N) → Held db.availability c → Held d.availability c)

  create_all-Made :
      (env : Env) (dto : CreateBookingDto) (nights : ℤ) (group : Option ℕ) (guest index : ℕ)
      (rooms : List ℕ) (db : Db N) (bs : List (Booking N))
      → (create_all env dto nights group guest index rooms db).0 ≡ ok bs
      → Made dto rooms db bs (create_all env dto nights group guest index rooms db).1
  unfolding create_all
  create_all-Made env dto nights group guest index [] db [] h = (tt, tt, λ c k. k)
  create_all-Made env dto nights group guest index [] db (b ∷ bs) h = absurd (cc)
  create_all-Made env dto nights group guest index (room ∷ rooms) db bs h =
      let (b, one, first) = bind_ok (create_one env dto nights group guest index room) _ db bs h in
      let (rest, many, second) =
        bind_ok (create_all env dto nights group guest (index + 1) rooms) (λ more. pure (b ∷ more))
          (create_one env dto nights group guest index room db).1 bs (rw first at h) in
      let made = create_one_lem env dto nights group guest index room db b one in
      let more =
        create_all-Made env dto nights group guest (index + 1) rooms
          (create_one env dto nights group guest index room db).1 rest many in
      let returned : ok (b ∷ rest) ≡ ok bs = sym (ap (λ out. out.0) (first ∙ second)) ∙ h in
      let all : (b ∷ rest) ≡ bs = cc in
      rw (first ∙ second, ← all)
        ((made.0, more.0), (more.2 b made.1, more.1), λ c k. more.2 c (made.2 c k))

  -- If `createBooking` returns bookings, there is one for each room asked for, in the order of the rooms,
  -- for the stay asked for and confirmed; in the calendar it leaves, each holds its room on every night
  -- of the stay, and so does every booking that did before.
  pub create_booking-Made :
      (env : Env) (dto : CreateBookingDto) (db : Db N) (rooms : List ℕ) (bs : List (Booking N))
      → resolve_room_ids dto ≡ ok rooms
      → (create_booking env dto db).0 ≡ ok bs
      → ForEach dto rooms bs
        × All (Held (create_booking env dto db).1.availability) bs
        × ((c : Booking N)
            → Held db.availability c
            → Held (create_booking env dto db).1.availability c)
  unfolding create_booking book_rooms find_or_create_guest
  create_booking-Made env dto db rooms bs e h =
      elim (Bool-cases (ltb_ℤ (calc_nights dto.check_in dto.check_out) (pos 1))) [
        | inl n ↦ absurd (let stopped = rw n at (rw e at h) in cc)
        | inr n ↦
            rw (e, n)
              (let nights = calc_nights dto.check_in dto.check_out in
                let body = book_rooms env dto nights (group_of env rooms) rooms in
                let done : (transaction restore_tables body db).0 ≡ ok bs = rw n at (rw e at h) in
                let whole = transaction_ok restore_tables body db bs done in
                let (guest, found, rest) =
                  bind_ok (find_or_create_guest env.guest_id dto.property_id dto.guest)
                    (λ guest. create_all env dto nights (group_of env rooms) guest.id 0 rooms) db bs
                    (sym (ap (λ out. out.0) whole) ∙ done) in
                rw (whole ∙ rest) (
                  create_all-Made env dto nights (group_of env rooms) guest.id 0 rooms
                    (find_or_create_guest env.guest_id dto.property_id dto.guest db).1 bs
                    (sym (ap (λ out. out.0) (whole ∙ rest)) ∙ done)))
      ]
