-- ===== src/Bookings/Portal/Arrival.antt =====
-- Online check-in of the bookings of one group.
use property_os.Common.{
  ℕ, ◌≡◌, refl, sym, ap, ◌∙◌, inl, inr, ◌⊎◌, String, Bool, true, false, not, ◌&&◌, some, List, [],
  ◌∷◌, All, All-In, All-save, All-save_over, All-weaken, All-of_In, In, save, filter-In, Bool-cases,
  Option-cases, arith, Distinct, Distinct-save, same_key, ◌==◌, ==_iff,
}
use property_os.Service.{Result, ok, pure, ◌>>◌, bind_ok, is_truthy_text}
use property_os.Entities.{Booking}
use property_os.Database.{Db}
use property_os.Bookings.Status.{store}
use property_os.Bookings.Sound.{booking_key}
use property_os.Bookings.Portal.{
  OnlineCheckInDto, online_check_in, check_in_siblings, check_in_group, checked_in_online, joins,
  is_confirmed,
}
use property_os.Bookings.Portal.Access.{own_booking-cases}

both_true : (a b : Bool) → (a && b) ≡ true → a ≡ true
both_true a b h = ground (arith, h)

settled : (a b c d : Bool) → (a && (b && c && not d)) ≡ true → d ≡ true → ⊥
settled a b c d h e = ground (arith, h, e)

skipped : (a b : Bool) → (a && b) ≡ true → b ≡ false → ⊥
skipped a b h e = ground (arith, h, e)

returned : {A : Type 0} (a b : A) → ok a ≡ ok b → a ≡ b
returned a b h = cc h

module _ {N : Type 0} where
  abbrev IsDone : ℕ → Booking N → Type 0
  IsDone id r = r.id ≡ id → r.online_check_in_completed ≡ true

  -- a booking of the group that is still to be checked in
  abbrev wants : ℕ → ℕ → Booking N → Bool
  wants id group r = same_key r.group_id group && joins id r

  -- After the loop nothing of the group is left to check in.
  check_in_siblings-All :
      (now : ℕ) (dto : OnlineCheckInDto) (b : Booking N) (group : ℕ) (siblings : List (Booking N))
      (db : Db N)
      → Distinct booking_key db.bookings
      → All (λ r. wants b.id group r ≡ true → In r siblings) db.bookings
      → All (IsDone b.id) db.bookings
      → let after = (check_in_siblings now dto b siblings db).1.bookings in
        All (λ r. wants b.id group r ≡ false) after × All (IsDone b.id) after
  unfolding check_in_siblings
  check_in_siblings-All now dto b group [] db d left done = (
    All-weaken (λ r k. elim (Bool-cases (wants b.id group r)) [ inl e ↦ absurd (k e) | inr e ↦ e ])
        db.bookings left,
    done,
  )
  check_in_siblings-All now dto b group (s ∷ rest) db d left done =
      elim (Bool-cases (joins b.id s)) [
        | inl e ↦ simp e (
            check_in_siblings-All now dto b group rest _ (Distinct-save booking_key _ db.bookings d)
              (All-save_over booking_key (λ r. wants b.id group r ≡ true → In r rest) _ db.bookings
                d
                (λ w. absurd (
                  settled (same_key s.group_id group) (not (s.id == b.id)) (is_confirmed s) true w
                    refl))
                (All-weaken
                  (λ r k other w. elim (k w) [
                    | inl same ↦ absurd (other (ap booking_key same))
                    | inr i ↦ i
                  ])
                  db.bookings left))
              (All-save booking_key (IsDone b.id) _ db.bookings (λ _. refl) done))
        | inr e ↦ simp e (
            check_in_siblings-All now dto b group rest db d
              (All-weaken
                (λ r k w. elim (k w) [
                  | inl same ↦ absurd (skipped _ (joins b.id r) w (ap (joins b.id) same ∙ e))
                  | inr i ↦ i
                ])
                db.bookings left)
              done)
      ]

  was_wanted :
      (id group : ℕ) (s : Booking N)
      → IsDone id s
      → wants id group s ≡ false
      → same_key s.group_id group ≡ true
      → is_confirmed s ≡ true
      → s.online_check_in_completed ≡ true
  was_wanted id group s done unwanted k c = elim (Bool-cases s.online_check_in_completed) [
    | inl e ↦ e
    | inr e ↦ elim (Bool-cases (s.id == id)) [
      | inl f ↦ done ((==_iff _ _).0 f)
      | inr f ↦ absurd (cc (rw (k, c, e, f) at unwanted))
    ]
  ]

  -- the booking, or a confirmed booking of its group
  abbrev pub InParty : Booking N → Booking N → Type 0
  InParty b s =
      (s.id ≡ b.id)
      ⊎ ((group : ℕ) × (b.group_id ≡ some group)
          × (same_key s.group_id group ≡ true)
          × (is_confirmed s ≡ true))

  check_in_group-All :
      (now : ℕ) (dto : OnlineCheckInDto) (b : Booking N) (db : Db N)
      → Distinct booking_key db.bookings
      → All (IsDone b.id) db.bookings
      → All
          (λ s. InParty b s → s.online_check_in_completed ≡ true)
          (check_in_group now dto b b.group_id db).1.bookings
  check_in_group-All now dto b db d done = elim (Option-cases b.group_id) [
    | inl e ↦ simp e (
        All-weaken
          (λ s k party. elim party [ inl same ↦ k same | inr (g, f, _, _) ↦ absurd (cc f) ])
          db.bookings done)
    | inr (group, e) ↦
        let after =
          check_in_siblings-All now dto b group _ db d
            (All-of_In _ db.bookings λ r i w.
              filter-In (λ s. same_key s.group_id group) r db.bookings i
                (both_true _ (joins b.id r) w))
            done in
        simp e (
          All-of_In _ _ λ s i party.
            let done_now = All-In (IsDone b.id) _ after.1 i in
            let unwanted = All-In (λ r. wants b.id group r ≡ false) _ after.0 i in
            elim party [
              | inl same ↦ done_now same
              | inr (g, f, k, c) ↦
                  let this : g ≡ group = cc f in
                  was_wanted b.id group s done_now unwanted (rw (← this) k) c
            ])
  ]

  abbrev PartyDone : Result (Booking N) × Db N → Type 0
  PartyDone out =
      (b : Booking N)
      → out.0 ≡ ok b
      → (b.online_check_in_completed ≡ true)
        × All (λ s. InParty b s → s.online_check_in_completed ≡ true) out.1.bookings

  arrival-PartyDone :
      (now : ℕ) (dto : OnlineCheckInDto) (found : Booking N) (db : Db N)
      → Distinct booking_key db.bookings
      → let saved = checked_in_online now dto found in
        PartyDone ((store saved >> (check_in_group now dto saved saved.group_id >> pure saved)) db)
  arrival-PartyDone now dto found db d b h =
      let saved : Booking N = checked_in_online now dto found in
      let after : Db N = record db { bookings = save booking_key saved db.bookings } in
      let step =
        bind_ok (check_in_group now dto saved saved.group_id) (λ _. pure saved) after b h in
      let same : saved ≡ b =
        returned saved b (ap (λ (o : Result (Booking N) × Db N). o.0) (sym step.2) ∙ h) in
      let marked =
        check_in_group-All now dto saved after (Distinct-save booking_key saved db.bookings d) (
          All-save_over booking_key (IsDone saved.id) saved db.bookings d (λ _. refl)
            (All-of_In _ db.bookings λ s i other k. absurd (other k))) in
      simp (← same) (refl, simp step.2 marked)

  -- An online check-in that returns covers the whole party: the booking that it returns is marked as
  -- checked in online, and afterwards so are its stored row and every confirmed booking of its group.
  -- The stored bookings have to have distinct keys.
  pub arrival_complete :
      (lower : String → String) (now : ℕ) (dto : OnlineCheckInDto) (db : Db N) (b : Booking N)
      → Distinct booking_key db.bookings
      → (online_check_in lower now dto db).0 ≡ ok b
      → (b.online_check_in_completed ≡ true)
        × All
            (λ s. InParty b s → s.online_check_in_completed ≡ true)
            (online_check_in lower now dto db).1.bookings
  unfolding online_check_in
  arrival_complete lower now dto db b d h =
      elim (own_booking-cases lower dto.reference_number dto.email db) [
        | inl e ↦ absurd (cc (rw e at h))
        | inr (found, owner, e) ↦ elim (Bool-cases (is_confirmed found)) [
          | inr f ↦ absurd (cc (simp (e, f) at h))
          | inl f ↦ elim (Bool-cases found.online_check_in_completed) [
            | inl g ↦ absurd (cc (simp (e, f, g) at h))
            | inr g ↦ elim (Bool-cases (is_truthy_text dto.id_number)) [
              | inl k ↦
                  simp (e, f, g, k) (arrival-PartyDone now dto found _ d b (simp (e, f, g, k) at h))
              | inr k ↦
                  simp (e, f, g, k)
                    (arrival-PartyDone now dto found db d b (simp (e, f, g, k) at h))
            ]
          ]
        ]
      ]
