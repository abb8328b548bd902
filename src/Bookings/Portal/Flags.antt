-- ===== src/Bookings/Portal/Flags.antt =====
-- The flags that the guest portal shows with a booking, and what its operations then do.
use property_os.Common.{
  ℕ, ◌≡◌, ◌≢◌, ap, ◌∙◌, save, refl, inl, inr, String, Bool, true, false, ◌&&◌, ◌||◌, Option, none,
  some, List, [], ◌∷◌, All-In, In, find_one, find_one-In, Bool-cases, arith, Distinct, is_some,
  ==_self,
}
use property_os.Numeric.{Number}
use property_os.Service.{Result, ok, result?, is_truthy_text, bind_step, pure, ◌>>◌}
use property_os.Entities.{
  Booking, BookingStatus, pending, confirmed, checked_in, checked_out, cancelled, no_show,
  same_status,
}
use property_os.Database.{Db}
use property_os.Bookings.Status.{booking_named, get_booking, cancel_booking, can_transition, store}
use property_os.Bookings.Update.{update_booking}
use property_os.Bookings.Sound.{booking_key}
use property_os.Bookings.Portal.{
  OnlineCheckInDto, GuestModifyDto, own_booking, guest_cancel_booking, online_check_in,
  check_in_siblings, check_in_group, checked_in_online, cancel_as, reason_or_default, joins,
  guest_modify_booking, as_update, can_check_in_online, can_modify, can_cancel, is_confirmed,
  is_open, in_time,
}
use property_os.Bookings.Portal.Access.{Owns}

-- whether an operation returns
abbrev pub returns : {A S : Type 0} → Result A × S → Bool
returns out = is_some (result? out.0)

and_both : (a b : Bool) → (a && b) ≡ true → (a ≡ true) × (b ≡ true)
and_both a b h = ground (arith, h)

cancel_flag :
    (s : BookingStatus)
    → can_transition s cancelled ≡ (same_status s confirmed || same_status s pending)
unfolding can_transition
cancel_flag pending = refl
cancel_flag confirmed = refl
cancel_flag checked_in = refl
cancel_flag checked_out = refl
cancel_flag cancelled = refl
cancel_flag no_show = refl

module _ {N : Type 0} where
  named :
      (b : Booking N) (rows : List (Booking N))
      → Distinct booking_key rows
      → In b rows
      → find_one (booking_named b.id b.property_id) rows ≡ some b
  named b [] d i = absurd i
  named b (r ∷ rows) d (inl e) = rw (← e, ==_self b.id, ==_self b.property_id) refl
  named b (r ∷ rows) d (inr i) =
      let other = All-In (λ x. booking_key x ≢ booking_key r) rows d.0 i in
      ground (arith, other, named b rows d.1 i)

  own_booking_lem :
      (lower : String → String) (reference email : String) (db : Db N) (b : Booking N)
      → Owns lower reference email db b
      → own_booking lower reference email db ≡ (ok b, db)
  unfolding own_booking
  own_booking_lem lower reference email db b owner = simp (owner.0, owner.1)

  check_in_siblings_ok :
      (now : ℕ) (dto : OnlineCheckInDto) (b : Booking N) (siblings : List (Booking N)) (db : Db N)
      → (check_in_siblings now dto b siblings db).0 ≡ ok tt
  unfolding check_in_siblings
  check_in_siblings_ok now dto b [] db = refl
  check_in_siblings_ok now dto b (s ∷ rest) db = elim (Bool-cases (joins b.id s)) [
    | inl e ↦ simp e (check_in_siblings_ok now dto b rest _)
    | inr e ↦ simp e (check_in_siblings_ok now dto b rest db)
  ]

  check_in_group_ok :
      (now : ℕ) (dto : OnlineCheckInDto) (b : Booking N) (group : Option ℕ) (db : Db N)
      → (check_in_group now dto b group db).0 ≡ ok tt
  check_in_group_ok now dto b none db = refl
  check_in_group_ok now dto b (some g) db = check_in_siblings_ok now dto b _ db

  arrival_returns :
      (now : ℕ) (dto : OnlineCheckInDto) (saved : Booking N) (db : Db N)
      → returns ((store saved >> (check_in_group now dto saved saved.group_id >> pure saved)) db)
        ≡ true
  arrival_returns now dto saved db =
      let stored : Db N = record db { bookings = save booking_key saved db.bookings } in
      ap returns (
        bind_step (check_in_group now dto saved saved.group_id) (λ _. pure saved) stored tt
          (check_in_group_ok now dto saved saved.group_id stored))

  arrive_flag :
      (lower : String → String) (arrival : OnlineCheckInDto) (now : ℕ) (db : Db N) (b : Booking N)
      → own_booking lower arrival.reference_number arrival.email db ≡ (ok b, db)
      → returns (online_check_in lower now arrival db) ≡ can_check_in_online b
  unfolding online_check_in can_check_in_online
  arrive_flag lower arrival now db b mine = elim (Bool-cases (is_confirmed b)) [
    | inr f ↦ simp (mine, f)
    | inl f ↦ elim (Bool-cases b.online_check_in_completed) [
      | inl g ↦ simp (mine, f, g)
      | inr g ↦ elim (Bool-cases (is_truthy_text arrival.id_number)) [
        | inl k ↦
            simp (mine, f, g, k) (arrival_returns now arrival (checked_in_online now arrival b) _)
        | inr k ↦
            simp (mine, f, g, k) (arrival_returns now arrival (checked_in_online now arrival b) db)
      ]
    ]
  ]

  cancel_returns :
      (reason : Option String) (now : ℕ) (db : Db N) (b : Booking N)
      → find_one (booking_named b.id b.property_id) db.bookings ≡ some b
      → returns (cancel_as none b reason now db) ≡ can_cancel b
  unfolding cancel_booking get_booking can_cancel
  cancel_returns reason now db b stored = elim (Bool-cases (is_open b)) [
    | inl f ↦ let allowed = cancel_flag b.status ∙ f in simp (stored, allowed, f)
    | inr f ↦ let refused = cancel_flag b.status ∙ f in simp (stored, refused, f)
  ]

module _ {N : Type 0} ⦃num : Number N⦄ where
  -- The guest portal keeps what its flags say to the guest of a booking, who knows its reference and
  -- email address: online check-in returns just when `canCheckInOnline` is set, and cancelling the
  -- booking just when `canCancel` is; a change does what `updateBooking` does if `canModify` is set,
  -- and is refused if not. The stored bookings have to have distinct keys.
  pub flags_lem :
      (lower : String → String) (reference email : String) (reason : Option String)
      (arrival : OnlineCheckInDto) (change : GuestModifyDto) (now : ℕ) (db : Db N) (b : Booking N)
      → Distinct booking_key db.bookings
      → Owns lower reference email db b
      → arrival.reference_number ≡ reference
      → arrival.email ≡ email
      → (returns (online_check_in lower now arrival db) ≡ can_check_in_online b)
        × (returns (guest_cancel_booking lower reference email reason false now db) ≡ can_cancel b)
        × (can_modify now b ≡ true
            → guest_modify_booking lower reference email change now db
              ≡ update_booking b.id (as_update change) b.property_id db)
        × (can_modify now b ≡ false
            → returns (guest_modify_booking lower reference email change now db) ≡ false)
  unfolding guest_cancel_booking guest_modify_booking can_modify
  flags_lem lower reference email reason arrival change now db b d owner r m =
      let mine = own_booking_lem lower reference email db b owner in
      let stored = named b db.bookings d (find_one-In _ db.bookings owner.0).0 in
      (
        arrive_flag lower arrival now db b (rw (r, m) mine),
        simp mine (cancel_returns (reason_or_default reason) now db b stored),
        λ yes. let both = and_both (is_open b) (in_time now b) yes in simp (mine, both.0, both.1),
        λ no. elim (Bool-cases (is_open b)) [
          | inr f ↦ simp (mine, f)
          | inl f ↦ let late : in_time now b ≡ false = rw f at no in simp (mine, f, late)
        ],
      )
