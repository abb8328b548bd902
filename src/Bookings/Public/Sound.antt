-- ===== src/Bookings/Public/Sound.antt =====
-- `createPublicBooking` and the invariant of the booking engine.
use property_os.Common.{
  ℕ, ◌≡◌, refl, Option, none, some, String, Bool, List, [], ◌∷◌, All, All-save, save, Distinct-save,
  inl, inr, map, if◌then◌else◌, ◌&&◌, find_one, Bool-cases, Option-cases,
}
use property_os.Numeric.{Number, nought}
use property_os.Service.{
  Result, ok, pure, bind_keeps, if_keeps, bind_gives, is_truthy_text, Result-cases,
}
use property_os.Entities.{Booking, RoomAvailability, Property}
use property_os.Database.{Db}
use property_os.Inventory.Availability.Rows.{Held}
use property_os.Bookings.Sound.{IsSound, HoldsIts, booking_key}
use property_os.Bookings.Request.{CreateBookingDto, Env, resolve_room_ids, calc_nights}
use property_os.Bookings.Create.{create_booking}
use property_os.Bookings.Create.Rooms.{create_booking-Made}
use property_os.Bookings.Create.Sound.{create_booking-IsSound}
use property_os.Common.Int.{ℤ}
use property_os.Promos.Service.{Validation, valid, invalid, apply_discount}
use property_os.Bookings.Public.Choice.{chosen_rooms-IsSound}
use property_os.Bookings.Public.Finish.{
  save_each, discount_if, apply_promo, with_discount, total_of, amount_of, charge_levy,
  get_levy_settings, PublicBooking, record_levies, levies_if, as_pending, needs_deposit,
  create_public_booking,
}
use property_os.Bookings.Public.{PublicBookingDto, chosen_rooms, booking_dto}
use property_os.Levy.{LevySettings, calculate_levy}
use text.Mathlib.Text.{◌==◌ as ◌≟◌}

module _ {N : Type 0} ⦃num : Number N⦄ where
  -- sound, and the bookings hold their nights
  abbrev SoundFor : List (Booking N) → Db N → Type 0
  SoundFor bs d = IsSound d × All (Held d.availability) bs

  -- the change leaves the key, the room and the nights
  abbrev KeepsStay : (Booking N → Booking N) → Type 0
  KeepsStay f =
      (b : Booking N)
      → ((f b).id ≡ b.id)
        × ((f b).room_id ≡ b.room_id)
        × ((f b).check_in ≡ b.check_in)
        × ((f b).check_out ≡ b.check_out)

  store-IsSound :
      (b : Booking N) (db : Db N)
      → Held db.availability b
      → IsSound db
      → IsSound (record db { bookings = save booking_key b db.bookings })
  store-IsSound b db h v = record {
    distinct = Distinct-save booking_key b db.bookings v.distinct;
    held = All-save booking_key (HoldsIts db.availability) b db.bookings (λ s. h) v.held;
  }

  -- the table after each booking of a list is saved
  abbrev save_all : List (Booking N) → List (Booking N) → List (Booking N)
  save_all [] rows = rows
  save_all (b ∷ bs) rows = save_all bs (save booking_key b rows)

  save_each_lem :
      (f : Booking N → Booking N) (bs : List (Booking N)) (db : Db N)
      → save_each f bs db
        ≡ (ok (map f bs), record db { bookings = save_all (map f bs) db.bookings })
  unfolding save_each
  save_each_lem f [] db = refl
  save_each_lem f (b ∷ bs) db =
      rw (save_each_lem f bs (record db { bookings = save booking_key (f b) db.bookings })) refl

  save_all-IsSound :
      (bs : List (Booking N)) (db : Db N)
      → All (Held db.availability) bs
      → IsSound db
      → IsSound (record db { bookings = save_all bs db.bookings })
  save_all-IsSound [] db h v = record { distinct = v.distinct; held = v.held }
  save_all-IsSound (b ∷ bs) db h v =
      save_all-IsSound bs (record db { bookings = save booking_key b db.bookings }) h.1
        (store-IsSound b db h.0 v)

  Held-map :
      (rows : List (RoomAvailability N)) (f : Booking N → Booking N) (bs : List (Booking N))
      → KeepsStay f
      → All (Held rows) bs
      → All (Held rows) (map f bs)
  Held-map rows f [] k h = tt
  Held-map rows f (b ∷ bs) k h = (
    λ day lo hi. rw ((k b).0, (k b).1) (h.0 day (rw (k b).2 at lo) (rw (k b).3 at hi)),
    Held-map rows f bs k h.1,
  )

  -- what is returned with a sound database
  abbrev Gives : List (Booking N) → Db N → Type 0
  Gives bs d = All (Held d.availability) bs

  made-Held :
      (env : Env) (dto : CreateBookingDto) (db : Db N) (bs : List (Booking N))
      → (create_booking env dto db).0 ≡ ok bs
      → All (Held (create_booking env dto db).1.availability) bs
  unfolding create_booking
  made-Held env dto db bs h = elim (Result-cases (resolve_room_ids dto)) [
    | inl (rooms, e) ↦ (create_booking-Made env dto db rooms bs e h).1
    | inr (x, e) ↦ absurd (let stopped = rw e at h in cc)
  ]

  -- sound, and what is returned holds its nights
  abbrev Leaves : Result (N × List (Booking N)) × Db N → Type 0
  Leaves out = IsSound out.1 × ((a : N × List (Booking N)) → out.0 ≡ ok a → Gives a.1 out.1)

  returns-Leaves :
      (a : N × List (Booking N)) (db : Db N) → IsSound db → Gives a.1 db → Leaves (ok a, db)
  returns-Leaves a db v g = (v, λ c e. (let same : a ≡ c = cc in rw (← same) g))

  discount_if-Leaves :
      (to_upper : String → String) (found : Validation N) (property_id : ℕ) (code : String)
      (nights : ℤ) (bs : List (Booking N)) (db : Db N)
      → SoundFor bs db
      → Leaves (discount_if to_upper found property_id code nights bs db)
  discount_if-Leaves to_upper (invalid reason) property_id code nights bs db v =
      returns-Leaves _ db v.0 v.1
  discount_if-Leaves to_upper (valid t x) property_id code nights bs db v =
      let out = apply_discount to_upper property_id code (total_of bs) db.promo_codes in
      let f = with_discount (amount_of out.0) (total_of bs) nights (to_upper code) in
      let d : Db N = record db { promo_codes = out.1 } in
      let held = Held-map db.availability f bs (λ b. (refl, refl, refl, refl)) v.1 in
      rw (save_each_lem f bs d) (
        returns-Leaves (amount_of out.0, map f bs) _
          (save_all-IsSound (map f bs) d held (record { distinct = v.0.distinct; held = v.0.held }))
          held)

  apply_promo-Leaves :
      (to_upper : String → String) (today property_id start end : ℕ) (code : Option String)
      (bs : List (Booking N)) (db : Db N)
      → SoundFor bs db
      → Leaves (apply_promo to_upper today property_id start end code bs db)
  apply_promo-Leaves to_upper today property_id start end none bs db v = returns-Leaves _ db v.0 v.1
  apply_promo-Leaves to_upper today property_id start end (some code) bs db v =
      elim (Bool-cases (is_truthy_text (some code))) [
        | inl e ↦
            rw e (discount_if-Leaves to_upper _ property_id code (calc_nights start end) bs db v)
        | inr e ↦ rw e (returns-Leaves _ db v.0 v.1)
      ]

  record_levies-IsSound :
      (s : LevySettings N) (property_id start end : ℕ) (sum : N) (bs : List (Booking N)) (db : Db N)
      → IsSound db
      → IsSound (record_levies s property_id start end sum bs db).1
  unfolding record_levies
  record_levies-IsSound s property_id start end sum [] db v = v
  record_levies-IsSound s property_id start end sum (b ∷ bs) db v =
      let out = calculate_levy s (calc_nights start end) b.guest_count b.total_price in
      elim (Bool-cases (num.lt nought out.0)) [
        | inl e ↦ rw e (
            record_levies-IsSound s property_id start end (num.add sum out.0) bs _
              (record { distinct = v.distinct; held = v.held }))
        | inr e ↦ rw e (record_levies-IsSound s property_id start end sum bs db v)
      ]

  levies_if-IsSound :
      (s : LevySettings N) (property_id start end : ℕ) (bs : List (Booking N)) (db : Db N)
      → IsSound db
      → IsSound (levies_if s property_id start end bs db).1
  levies_if-IsSound s property_id start end bs db v =
      if_keeps IsSound s.enabled (record_levies s property_id start end nought bs) (pure nought) db
        (record_levies-IsSound s property_id start end nought bs db v) v

  charge_levy-IsSound :
      (property_id start end : ℕ) (bs : List (Booking N)) (db : Db N)
      → IsSound db
      → IsSound (charge_levy property_id start end bs db).1
  unfolding charge_levy
  charge_levy-IsSound property_id start end bs db v =
      bind_keeps IsSound (get_levy_settings property_id)
        (λ levy. levies_if levy property_id start end bs) db
        (record { distinct = v.distinct; held = v.held })
        (λ levy t w. levies_if-IsSound levy property_id start end bs t w)

  take_deposit-IsSound :
      (needed : Bool) (bs : List (Booking N)) (db : Db N)
      → SoundFor bs db
      → IsSound ((if needed then save_each as_pending bs else pure bs) db).1
  take_deposit-IsSound needed bs db v =
      if_keeps IsSound needed (save_each as_pending bs) (pure bs) db
        (rw (save_each_lem as_pending bs db) (
          save_all-IsSound (map as_pending bs) db
            (Held-map db.availability as_pending bs (λ b. (refl, refl, refl, refl)) v.1) v.0))
        v.0

  -- Whatever `createPublicBooking` is asked, and whether it returns or throws, it keeps the engine sound.
  pub create_public_booking-IsSound :
      (to_upper : String → String) (env : Env) (today : ℕ) (dto : PublicBookingDto) (db : Db N)
      → IsSound db
      → IsSound (create_public_booking to_upper env today dto db).1
  unfolding create_public_booking
  create_public_booking-IsSound to_upper env today dto db v =
      elim (Option-cases (
        find_one (λ (p : Property N). p.slug ≟ dto.property_slug && p.is_active && p.is_published)
          db.properties)) [
            | inl e ↦ rw e v
            | inr (p, e) ↦ rw e (
                bind_keeps IsSound (chosen_rooms p.id dto dto.room_id) _ db
                  (chosen_rooms-IsSound p.id dto dto.room_id db v)
                  λ rooms t w.
                    bind_gives IsSound Gives (create_booking env (booking_dto p.id rooms dto)) _ t
                      (create_booking-IsSound env (booking_dto p.id rooms dto) t w)
                      (made-Held env (booking_dto p.id rooms dto) t)
                      λ made u x g.
                        bind_gives IsSound (λ out d. Gives out.1 d)
                          (apply_promo to_upper today p.id dto.check_in dto.check_out dto.promo_code
                            made)
                          _ u
                          (apply_promo-Leaves to_upper today p.id dto.check_in dto.check_out
                            dto.promo_code made u (x, g)).0
                          (apply_promo-Leaves to_upper today p.id dto.check_in dto.check_out
                            dto.promo_code made u (x, g)).1
                          λ out q y k.
                            bind_keeps IsSound
                              (if needs_deposit p then save_each as_pending out.1 else pure out.1) _
                              q (take_deposit-IsSound (needs_deposit p) out.1 q (y, k))
                              λ bookings r z.
                                bind_keeps {B = PublicBooking N} IsSound
                                  (charge_levy p.id dto.check_in dto.check_out bookings) _ r
                                  (charge_levy-IsSound p.id dto.check_in dto.check_out bookings r z)
                                  (λ charged o u. u))
          ]
