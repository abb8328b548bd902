-- ===== src/Bookings/Portal/Access.antt =====
-- Who the guest portal lets in, and what its flags say.
use property_os.Common.{
  ℕ, ◌≡◌, refl, inl, inr, String, Bool, true, Option, some, Bool-cases, Option-cases, ◌⊎◌,
}
use property_os.Numeric.{Number}
use property_os.Service.{Result, ok, thrown, not_found}
use property_os.Entities.{Booking}
use property_os.Database.{Db}
use property_os.Bookings.Portal.{
  OnlineCheckInDto, GuestModifyDto, own_booking, by_reference, guest_of, has_email,
  guest_cancel_booking, online_check_in, guest_modify_booking,
}

module _ {N : Type 0} where
  -- the booking with the reference, if the email address is its guest's
  abbrev pub Owns : (String → String) → String → String → Db N → Booking N → Type 0
  Owns lower reference email db b =
      (by_reference reference db ≡ some b) × (has_email lower email (guest_of db b) ≡ true)

  pub own_booking-cases :
      (lower : String → String) (reference email : String) (db : Db N)
      → (own_booking lower reference email db ≡ (thrown (not_found "Booking not found"), db))
        ⊎ ((b : Booking N) × Owns lower reference email db b
            × (own_booking lower reference email db ≡ (ok b, db)))
  unfolding own_booking
  own_booking-cases lower reference email db = elim (Option-cases (by_reference reference db)) [
    | inl e ↦ inl (rw e refl)
    | inr (b, e) ↦ elim (Bool-cases (has_email lower email (guest_of db b))) [
      | inl f ↦ inr (b, (e, f), simp (e, f) refl)
      | inr f ↦ inl (simp (e, f) refl)
    ]
  ]

module _ {N : Type 0} ⦃num : Number N⦄ where
  -- An operation answers "Booking not found" and leaves the database as it is.
  abbrev pub TurnedAway : {A : Type 0} → Result A × Db N → Db N → Type 0
  TurnedAway out db = out ≡ (thrown (not_found "Booking not found"), db)

  -- The guest portal turns a visitor away who does not know both the reference of a booking and the
  -- email address of its guest: cancelling, checking in and modifying then all answer "Booking not
  -- found", whichever of the two is wrong, and nothing in the database changes.
  pub portal_guarded :
      (lower : String → String) (reference email : String) (reason : Option String)
      (whole_group : Bool) (arrival : OnlineCheckInDto) (change : GuestModifyDto) (now : ℕ)
      (db : Db N)
      → ((b : Booking N) → ¬ Owns lower reference email db b)
      → arrival.reference_number ≡ reference
      → arrival.email ≡ email
      → TurnedAway (guest_cancel_booking lower reference email reason whole_group now db) db
        × TurnedAway (online_check_in lower now arrival db) db
        × TurnedAway (guest_modify_booking lower reference email change now db) db
  unfolding guest_cancel_booking online_check_in guest_modify_booking
  portal_guarded lower reference email reason whole_group arrival change now db stranger r e =
      elim (own_booking-cases lower reference email db) [
        | inr (b, owner, _) ↦ absurd (stranger b owner)
        | inl away ↦ simp (r, e, away) (refl, refl, refl)
      ]
