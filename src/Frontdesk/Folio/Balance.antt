-- ===== src/Frontdesk/Folio/Balance.antt =====
-- The room charge of a folio, posted again.
use property_os.Common.{
  ℕ, ◌≡◌, refl, String, true, none, some, List, [], ◌∷◌, arith, find_one-In, save, is_some,
  Option-cases, inl, inr,
}
use property_os.Entities.{Booking}
use property_os.Frontdesk.Folio.{
  FolioItem, Desk, find_booking, item_key, posted_charge, room_charge_of, auto_post_room_charges,
  is_room_charge,
}

module _ {N : Type 0} where
  posted_charge-save :
      (i : FolioItem N) (rows : List (FolioItem N))
      → is_room_charge i.category ≡ true
      → is_some (posted_charge i.booking_id (save item_key i rows)) ≡ true
  posted_charge-save i [] h = ground arith
  posted_charge-save i (j ∷ rows) h = ground (arith, posted_charge-save i rows h)

  -- Without the booking, or with its charge posted, nothing is done.
  unknown_booking :
      (new_id booking_id property_id : ℕ) (describe : Booking N → String) (d : Desk N)
      → find_booking booking_id property_id d.bookings ≡ none
      → (auto_post_room_charges new_id describe booking_id property_id d).1 ≡ d
  unfolding auto_post_room_charges
  unknown_booking new_id booking_id property_id describe d e = rw e refl

  already_posted :
      (new_id booking_id property_id : ℕ) (describe : Booking N → String) (d : Desk N)
      → is_some (posted_charge booking_id d.items) ≡ true
      → (auto_post_room_charges new_id describe booking_id property_id d).1 ≡ d
  unfolding auto_post_room_charges
  already_posted new_id booking_id property_id describe d h =
      elim (Option-cases (find_booking booking_id property_id d.bookings)) [
        | inl e ↦ rw e refl
        | inr (b, e) ↦ rw e (elim (Option-cases (posted_charge booking_id d.items)) [
          | inr (i, k) ↦ rw k refl
          | inl k ↦ absurd (let none_posted = rw k at h in cc)
        ])
      ]

  posts :
      (new_id booking_id property_id : ℕ) (describe : Booking N → String) (d : Desk N)
      (b : Booking N)
      → find_booking booking_id property_id d.bookings ≡ some b
      → is_some (
          posted_charge booking_id
            (auto_post_room_charges new_id describe booking_id property_id d).1.items)
        ≡ true
  unfolding auto_post_room_charges
  posts new_id booking_id property_id describe d b e =
      rw e (elim (Option-cases (posted_charge booking_id d.items)) [
        | inr (i, k) ↦ rw k (rw k refl)
        | inl k ↦ rw k (
            let own : b.id ≡ booking_id = ground (arith, (find_one-In _ d.bookings e).1) in
            rw (← own)
              (posted_charge-save (room_charge_of new_id property_id describe b) d.items refl))
      ])

  -- After the room charge of a booking was posted, posting it again, with whatever key and description,
  -- changes nothing.
  pub charge_once :
      (new_id later_id booking_id property_id : ℕ) (describe relabel : Booking N → String)
      (d : Desk N)
      → let posted = (auto_post_room_charges new_id describe booking_id property_id d).1 in
        (auto_post_room_charges later_id relabel booking_id property_id posted).1 ≡ posted
  charge_once new_id later_id booking_id property_id describe relabel d =
      elim (Option-cases (find_booking booking_id property_id d.bookings)) [
        | inl e ↦
            rw (unknown_booking new_id booking_id property_id describe d e)
              (unknown_booking later_id booking_id property_id relabel d e)
        | inr (b, e) ↦
            already_posted later_id booking_id property_id relabel _
              (posts new_id booking_id property_id describe d b e)
      ]
