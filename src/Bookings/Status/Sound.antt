-- ===== src/Bookings/Status/Sound.antt =====
-- `updateStatus`, `cancelBooking`, `cancelBookingGroup` and the invariant of the booking engine.
use property_os.Common.{
  ℕ, ◌≡◌, refl, inl, inr, String, true, false, Option, none, some, List, [], ◌∷◌, arith, In, All-In,
  All-weaken, find_one, filter, sort_by, same_key, ◌&&◌, ◌==◌, find_one-In, In-save, push, save,
  All-save, All-save_over, Distinct-save, Bool-cases, Option-cases,
}
use property_os.Numeric.{Number}
use property_os.Service.{
  then_keeps, bind_keeps, throw_if, throw_if_keeps, not_found, pure, is_truthy_text, ◌>>◌, ◌>>=◌,
}
use property_os.Entities.{
  Booking, BookingStatus, pending, confirmed, checked_in, checked_out, cancelled, no_show,
}
use property_os.Database.{Db, status_modified}
use property_os.Inventory.Availability.{release}
use property_os.Inventory.Availability.Rows.{release-Held}
use property_os.Bookings.Status.{
  is_nil, as_cancelled, note_check_in, set_id_number, after_status, update_guest_stats,
  can_transition, UpdateStatusDto, booking_named, update_status, cancel_booking, cancel_each,
  cancel_group,
}
use property_os.Bookings.Sound.{IsSound, HoldsIts, is_standing, booking_key}

-- Only a standing booking has a next status.
standing_of_transition :
    {N : Type 0} (b : Booking N) (to : BookingStatus)
    → can_transition b.status to ≡ true
    → is_standing b ≡ true
unfolding can_transition
standing_of_transition b to h = ground arith

module _ {N : Type 0} where
  -- A stored booking may be replaced by one with the same room and nights, which stands only if it does.
  pub replace-IsSound :
      (db : Db N) (y b : Booking N)
      → In y db.bookings
      → (is_standing b ≡ true → is_standing y ≡ true)
      → b.id ≡ y.id
      → b.room_id ≡ y.room_id
      → b.check_in ≡ y.check_in
      → b.check_out ≡ y.check_out
      → IsSound db
      → IsSound (record db { bookings = save booking_key b db.bookings })
  replace-IsSound db y b i stands id room start end v = record {
    distinct = Distinct-save booking_key b db.bookings v.distinct;
    held =
        All-save booking_key (HoldsIts db.availability) b db.bookings
          (λ s.
            let holds = All-In (HoldsIts db.availability) db.bookings v.held i (stands s) in
            rw (id, room, start, end) holds)
          v.held;
  }

  -- A booking may be cancelled and its dates released.
  pub cancel-IsSound :
      (db : Db N) (b : Booking N)
      → is_standing b ≡ false
      → IsSound db
      → IsSound (record db {
        bookings = save booking_key b db.bookings;
        availability = release b.id db.availability;
      })
  cancel-IsSound db b gone v = record {
    distinct = Distinct-save booking_key b db.bookings v.distinct;
    held =
        All-save_over booking_key (HoldsIts (release b.id db.availability)) b db.bookings v.distinct
          (λ stands. absurd (cc))
          (All-weaken (λ c h other s. release-Held b.id db.availability c other (h s)) db.bookings
            v.held);
  }

  note_check_in-IsSound :
      (b : Booking N) (note : Option String) (db : Db N)
      → In b db.bookings
      → IsSound db
      → IsSound (note_check_in b note db).1
  note_check_in-IsSound b none db i v = v
  note_check_in-IsSound b (some note) db i v = elim (Bool-cases (is_truthy_text (some note))) [
    | inl e ↦ rw e (replace-IsSound db b _ i (λ s. s) refl refl refl refl v)
    | inr e ↦ rw e v
  ]

  -- sound, with the bookings of `db`
  abbrev SoundWith : Db N → Db N → Type 0
  SoundWith db d = IsSound d × (d.bookings ≡ db.bookings)

  set_id_number-SoundWith :
      (guest : ℕ) (number : Option String) (db : Db N)
      → IsSound db
      → SoundWith db (set_id_number guest number db).1
  set_id_number-SoundWith guest number db v = elim (Bool-cases (is_truthy_text number)) [
    | inl e ↦ rw e (record { distinct = v.distinct; held = v.held }, refl)
    | inr e ↦ rw e (v, refl)
  ]

module _ {N : Type 0} ⦃num : Number N⦄ where
  after_status-IsSound :
      (to : BookingStatus) (dto : UpdateStatusDto) (b : Booking N) (db : Db N)
      → b.status ≡ to
      → In b db.bookings
      → IsSound db
      → IsSound (after_status to dto b db).1
  unfolding update_guest_stats
  after_status-IsSound pending dto b db e i v = v
  after_status-IsSound checked_in dto b db e i v =
      then_keeps IsSound IsSound
        (set_id_number b.guest_id dto.id_number >> note_check_in b dto.check_in_notes) _ db
        (then_keeps (SoundWith db) IsSound (set_id_number b.guest_id dto.id_number)
          (note_check_in b dto.check_in_notes) db
          (set_id_number-SoundWith b.guest_id dto.id_number db v) (λ t w. w.0)
          (λ t w. note_check_in-IsSound b dto.check_in_notes t (rw w.1 i) w.0))
        (λ t w. w) (λ t w. record { distinct = w.distinct; held = w.held })
  after_status-IsSound checked_out dto b db e i v = record { distinct = v.distinct; held = v.held }
  after_status-IsSound confirmed dto b db e i v = v
  after_status-IsSound cancelled dto b db e i v = v
  after_status-IsSound no_show dto b db e i v = v

  pub update_status-IsSound :
      (id : ℕ) (dto : UpdateStatusDto) (property_id : ℕ) (db : Db N)
      → IsSound db
      → IsSound (update_status id dto property_id db).1
  unfolding update_status
  update_status-IsSound id dto property_id db v =
      elim (Option-cases (find_one (booking_named id property_id) db.bookings)) [
        | inl e ↦ rw e v
        | inr (b, e) ↦ rw e (elim (Bool-cases (can_transition b.status dto.status)) [
          | inr s ↦ rw s v
          | inl s ↦ rw s (
              let saved : Booking N = record b { status = dto.status } in
              let stored =
                replace-IsSound db b saved (find_one-In _ db.bookings e).0
                  (λ _. standing_of_transition b dto.status s) refl refl refl refl v in
              then_keeps IsSound IsSound (after_status dto.status dto saved) _
                (record db {
                  bookings = save booking_key saved db.bookings;
                  events = push db.events (status_modified b.id b.property_id b.status dto.status);
                })
                (after_status-IsSound dto.status dto saved _ refl
                  (In-save booking_key saved db.bookings)
                  (record { distinct = stored.distinct; held = stored.held }))
                (λ t w. w) (λ t w. w))
        ])
      ]

module _ {N : Type 0} where
  pub cancel_booking-IsSound :
      (id : ℕ) (reason : Option String) (property_id now : ℕ) (db : Db N)
      → IsSound db
      → IsSound (cancel_booking id reason property_id now db).1
  unfolding cancel_booking
  cancel_booking-IsSound id reason property_id now db v =
      elim (Option-cases (find_one (booking_named id property_id) db.bookings)) [
        | inl e ↦ rw e v
        | inr (b, e) ↦ rw e (elim (Bool-cases (can_transition b.status cancelled)) [
          | inr s ↦ rw s v
          | inl s ↦ rw s (
              let done = cancel-IsSound db (as_cancelled now reason b) refl v in
              record { distinct = done.distinct; held = done.held })
        ])
      ]

  cancel_each-IsSound :
      (bs : List (Booking N)) (reason : Option String) (now : ℕ) (db : Db N)
      → IsSound db
      → IsSound (cancel_each bs reason now db).1
  unfolding cancel_each
  cancel_each-IsSound [] reason now db v = v
  cancel_each-IsSound (b ∷ bs) reason now db v =
      elim (Bool-cases (can_transition b.status cancelled)) [
        | inl e ↦ rw e (
            bind_keeps IsSound (cancel_booking b.id reason b.property_id now) _ db
              (cancel_booking-IsSound b.id reason b.property_id now db v)
              (rest (cancel_each-IsSound bs reason now)))
        | inr e ↦ rw e (rest (cancel_each-IsSound bs reason now) b db v)
      ]
    where
      rest :
          ((d : Db N) → IsSound d → IsSound (cancel_each bs reason now d).1)
          → (done : Booking N) (d : Db N) → IsSound d
          → IsSound ((cancel_each bs reason now >>= λ more. pure (done ∷ more)) d).1
      rest ih done d w = bind_keeps IsSound (cancel_each bs reason now) _ d (ih d w) (λ more t u. u)

  pub cancel_group-IsSound :
      (group : ℕ) (reason : Option String) (property_id now : ℕ) (db : Db N)
      → IsSound db
      → IsSound (cancel_group group reason property_id now db).1
  unfolding cancel_group
  cancel_group-IsSound group reason property_id now db v =
      let rows =
        sort_by (λ (b : Booking N). b.group_index)
          (filter (λ b. same_key b.group_id group && b.property_id == property_id) db.bookings) in
      then_keeps IsSound IsSound (throw_if (is_nil rows) (not_found "Booking group not found"))
        (cancel_each rows reason now) db (throw_if_keeps IsSound (is_nil rows) _ db v) (λ t w. w)
        (λ t w. cancel_each-IsSound rows reason now t w)
