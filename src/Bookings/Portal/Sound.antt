-- ===== src/Bookings/Portal/Sound.antt =====
-- The guest portal and the invariant of the booking engine.
use property_os.Common.{
  ℕ, refl, inl, inr, String, Bool, Option, none, some, List, [], ◌∷◌, All, All-In, All-save,
  All-of_In, In, In-filter, find_one-In, Bool-cases, Distinct-save, same_key,
}
use property_os.Numeric.{Number}
use property_os.Service.{then_keeps, bind_keeps, is_truthy_text, pure, ◌>>◌}
use property_os.Entities.{Booking}
use property_os.Database.{Db}
use property_os.Bookings.Status.{cancel_booking, store}
use property_os.Bookings.Status.Sound.{
  cancel_booking-IsSound, cancel_group-IsSound, replace-IsSound,
}
use property_os.Bookings.Update.Sound.{update_booking-IsSound}
use property_os.Bookings.Sound.{IsSound, HoldsIts, booking_key}
use property_os.Bookings.Portal.{
  OnlineCheckInDto, GuestModifyDto, guest_cancel_booking, cancel_as, group_to_cancel,
  online_check_in, check_in_siblings, check_in_group, checked_in_online, joins,
  guest_modify_booking, as_update, is_open, in_time, is_confirmed,
}
use property_os.Bookings.Portal.Access.{own_booking-cases}

module _ {N : Type 0} where
  cancel_as-IsSound :
      (group : Option ℕ) (b : Booking N) (reason : Option String) (now : ℕ) (db : Db N)
      → IsSound db
      → IsSound (cancel_as group b reason now db).1
  cancel_as-IsSound (some g) b reason now db v =
      cancel_group-IsSound g reason b.property_id now db v
  cancel_as-IsSound none b reason now db v =
      bind_keeps IsSound (cancel_booking b.id reason b.property_id now) _ db
        (cancel_booking-IsSound b.id reason b.property_id now db v) (λ a t w. w)

  pub guest_cancel_booking-IsSound :
      (lower : String → String) (reference email : String) (reason : Option String)
      (whole_group : Bool) (now : ℕ) (db : Db N)
      → IsSound db
      → IsSound (guest_cancel_booking lower reference email reason whole_group now db).1
  unfolding guest_cancel_booking
  guest_cancel_booking-IsSound lower reference email reason whole_group now db v =
      elim (own_booking-cases lower reference email db) [
        | inl e ↦ simp e v
        | inr (b, _, e) ↦
            simp e (cancel_as-IsSound (group_to_cancel whole_group b.group_id) b _ now db v)
      ]

  -- the siblings hold their nights, and saving them anew changes none of that
  check_in_siblings-IsSound :
      (now : ℕ) (dto : OnlineCheckInDto) (b : Booking N) (siblings : List (Booking N)) (db : Db N)
      → All (HoldsIts db.availability) siblings
      → IsSound db
      → IsSound (check_in_siblings now dto b siblings db).1
  unfolding check_in_siblings
  check_in_siblings-IsSound now dto b [] db h v = v
  check_in_siblings-IsSound now dto b (s ∷ rest) db h v = elim (Bool-cases (joins b.id s)) [
    | inl e ↦ simp e (
        check_in_siblings-IsSound now dto b rest _ h.1 (record {
          distinct = Distinct-save booking_key _ db.bookings v.distinct;
          held = All-save booking_key (HoldsIts db.availability) _ db.bookings h.0 v.held;
        }))
    | inr e ↦ simp e (check_in_siblings-IsSound now dto b rest db h.1 v)
  ]

  check_in_group-IsSound :
      (now : ℕ) (dto : OnlineCheckInDto) (b : Booking N) (group : Option ℕ) (db : Db N)
      → IsSound db
      → IsSound (check_in_group now dto b group db).1
  check_in_group-IsSound now dto b none db v = v
  check_in_group-IsSound now dto b (some g) db v =
      check_in_siblings-IsSound now dto b _ db
        (All-of_In _ _ λ s i.
          All-In (HoldsIts db.availability) db.bookings v.held
            (In-filter (λ x. same_key x.group_id g) s db.bookings i).0)
        v

  arrival-IsSound :
      (now : ℕ) (dto : OnlineCheckInDto) (b : Booking N) (db : Db N)
      → In b db.bookings
      → IsSound db
      → let saved = checked_in_online now dto b in
        IsSound ((store saved >> (check_in_group now dto saved saved.group_id >> pure saved)) db).1
  arrival-IsSound now dto b db i v =
      let saved : Booking N = checked_in_online now dto b in
      then_keeps IsSound IsSound (check_in_group now dto saved saved.group_id) (pure saved) _
        (check_in_group-IsSound now dto saved saved.group_id _
          (replace-IsSound db b saved i (λ s. s) refl refl refl refl v))
        (λ t w. w) (λ t w. w)

  pub online_check_in-IsSound :
      (lower : String → String) (now : ℕ) (dto : OnlineCheckInDto) (db : Db N)
      → IsSound db
      → IsSound (online_check_in lower now dto db).1
  unfolding online_check_in
  online_check_in-IsSound lower now dto db v =
      elim (own_booking-cases lower dto.reference_number dto.email db) [
        | inl e ↦ simp e v
        | inr (b, owner, e) ↦ simp e (
            let here = (find_one-In _ db.bookings owner.0).0 in
            elim (Bool-cases (is_confirmed b)) [
              | inr f ↦ simp f v
              | inl f ↦ simp f (elim (Bool-cases b.online_check_in_completed) [
                | inl g ↦ rw g v
                | inr g ↦ simp g (elim (Bool-cases (is_truthy_text dto.id_number)) [
                  | inl h ↦ simp h (
                      arrival-IsSound now dto b _ here
                        (record { distinct = v.distinct; held = v.held }))
                  | inr h ↦ simp h (arrival-IsSound now dto b db here v)
                ])
              ])
            ])
      ]

module _ {N : Type 0} ⦃num : Number N⦄ where
  pub guest_modify_booking-IsSound :
      (lower : String → String) (reference email : String) (dto : GuestModifyDto) (now : ℕ)
      (db : Db N)
      → IsSound db
      → IsSound (guest_modify_booking lower reference email dto now db).1
  unfolding guest_modify_booking
  guest_modify_booking-IsSound lower reference email dto now db v =
      elim (own_booking-cases lower reference email db) [
        | inl e ↦ simp e v
        | inr (b, _, e) ↦ simp e (elim (Bool-cases (is_open b)) [
          | inr f ↦ simp f v
          | inl f ↦ simp f (elim (Bool-cases (in_time now b)) [
            | inr g ↦ simp g v
            | inl g ↦ simp g (update_booking-IsSound b.id (as_update dto) b.property_id db v)
          ])
        ])
      ]
