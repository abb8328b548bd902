-- ===== src/Inventory/Availability/Rows.antt =====
-- The row of a room on a day, and the nights that a booking holds, under each update of the table.
use property_os.Common.{
  All, All-In, find_one-In, ltb, ℕ, zero, suc, ◌+◌, ◌-◌, ◌≤◌, ◌<◌, ◌≡◌, ◌≢◌, ◌⊎◌, refl, inl, inr,
  String, Bool, true, false, ◌&&◌, Option, none, some, List, [], ◌∷◌, arith, any, filter, find_one,
  update_where, ◌==◌, same_key, if◌then◌else◌, Bool-cases, Option-cases,
}
use property_os.Entities.{
  Booking, RoomAvailability, booked, available, blocked, maintenance, same_availability,
}
use property_os.Inventory.Availability.{
  in_stay, as_booked, is_taken, date_range, days_from, unavailable_dates, book_dates, release,
  block_rows, unblock_rows, maintain_rows, BulkUpdate, bulk_rows, bulk_set, bulk_selects,
}

abbrev mapped : {A : Type 0} → (A → A) → Option A → Option A
mapped f none = none
mapped f (some a) = some (f a)

days_from-none :
    (p : ℕ → Bool) (fuel start end day : ℕ)
    → filter p (days_from fuel start end) ≡ []
    → start ≤ day
    → day < end
    → end ≤ start + fuel
    → p day ≡ false
unfolding days_from
days_from-none p zero start end day h lo hi enough = absurd (omega arith)
days_from-none p (suc fuel) start end day h lo hi enough =
    let more : ltb start end ≡ true = ground (arith, lo, hi) in
    let listed : filter p (start ∷ days_from fuel (start + 1) end) ≡ [] =
      rw (more, days_from, if◌then◌else◌) at h in
    elim (Bool-cases (day == start)) [
      | inl e ↦ ground arith
      | inr e ↦
          days_from-none p fuel (start + 1) end day (ground (arith, listed)) (ground arith) hi
            (omega arith)
    ]

module _ {N : Type 0} where
  abbrev at : ℕ → ℕ → RoomAvailability N → Bool
  at room day r = r.room_id == room && r.date == day

  -- the row of a room on a day
  abbrev pub row_at : ℕ → ℕ → List (RoomAvailability N) → Option (RoomAvailability N)
  row_at room day = find_one (at room day)

  -- the row is booked by the booking
  abbrev pub is_held : Option (RoomAvailability N) → ℕ → Bool
  is_held none booking = false
  is_held (some r) booking = same_availability r.status booked && same_key r.booking_id booking

  -- The booking holds its room on every night of its stay.
  abbrev pub Held : List (RoomAvailability N) → Booking N → Type 0
  Held rows b =
      (day : ℕ)
      → b.check_in ≤ day
      → day < b.check_out
      → is_held (row_at b.room_id day rows) b.id ≡ true

  -- The update leaves the key of each row alone.
  abbrev KeepsPlace : (RoomAvailability N → RoomAvailability N) → Type 0
  KeepsPlace f = (r : RoomAvailability N) → ((f r).room_id ≡ r.room_id) × ((f r).date ≡ r.date)

  row_at-update_where :
      (p : RoomAvailability N → Bool) (f : RoomAvailability N → RoomAvailability N)
      → KeepsPlace f
      → (room day : ℕ) (rows : List (RoomAvailability N))
      → row_at room day (update_where p f rows)
        ≡ mapped (λ r. if p r then f r else r) (row_at room day rows)
  row_at-update_where p f k room day [] = refl
  row_at-update_where p f k room day (r ∷ rows) =
      ground (arith, k r, row_at-update_where p f k room day rows)

  row_at-place :
      (room day : ℕ) (rows : List (RoomAvailability N)) {r : RoomAvailability N}
      → row_at room day rows ≡ some r
      → (r.room_id ≡ room) × (r.date ≡ day)
  row_at-place room day [] h = cc
  row_at-place room day (x ∷ rows) {r} h = ground (arith, row_at-place room day rows {r = r})

  -- An update that changes no row which the booking holds leaves it its nights.
  Held-update_where :
      (p : RoomAvailability N → Bool) (f : RoomAvailability N → RoomAvailability N)
      → KeepsPlace f
      → (rows : List (RoomAvailability N)) (b : Booking N)
      → ((day : ℕ) (r : RoomAvailability N)
          → row_at b.room_id day rows ≡ some r
          → is_held (some r) b.id ≡ true
          → is_held (some (if p r then f r else r)) b.id ≡ true)
      → Held rows b
      → Held (update_where p f rows) b
  Held-update_where p f k rows b spare h day lo hi =
      rw (row_at-update_where p f k b.room_id day rows)
        (elim (Option-cases (row_at b.room_id day rows)) [
          | inl e ↦ let held = h day lo hi in ground arith
          | inr (r, e) ↦ rw e (spare day r e (ground (arith, h day lo hi)))
        ])

  find-in_stay :
      (room start end day : ℕ) (rows : List (RoomAvailability N))
      → start ≤ day
      → day < end
      → find_one (λ r. r.date == day) (filter (in_stay room start end) rows) ≡ row_at room day rows
  find-in_stay room start end day [] lo hi = refl
  find-in_stay room start end day (r ∷ rows) lo hi =
      ground (arith, find-in_stay room start end day rows lo hi)

  -- Where no date of the stay is unavailable, each night has an available row.
  pub available_nights :
      (room start end day : ℕ) (rows : List (RoomAvailability N))
      → unavailable_dates room start end rows ≡ []
      → start ≤ day
      → day < end
      → is_taken (row_at room day rows) ≡ false
  unfolding unavailable_dates date_range
  available_nights room start end day rows h lo hi =
      rw (← find-in_stay room start end day rows lo hi)
        (days_from-none _ (end - start) start end day h lo hi (omega arith))

  -- Booking available nights leaves what other bookings hold, and gives the nights to the booking.
  pub book_dates-Held :
      (booking room start end : ℕ) (rows : List (RoomAvailability N)) (b : Booking N)
      → unavailable_dates room start end rows ≡ []
      → Held rows b
      → Held (book_dates booking room start end rows) b
  unfolding book_dates
  book_dates-Held booking room start end rows b free h =
      Held-update_where (in_stay room start end) _ (λ r. (refl, refl)) rows b
        (λ day r e held.
          let place = row_at-place b.room_id day rows e in
          elim (Bool-cases (in_stay room start end r)) [
            | inr out ↦ rw out held
            | inl inside ↦
                (let same : b.room_id ≡ room = ground arith in
                  let free_night : is_taken (row_at b.room_id day rows) ≡ false =
                    rw same (
                      available_nights room start end day rows free (ground arith)
                        (ground arith)) in
                  ground arith)
          ])
        h

  pub book_dates-gives :
      (rows : List (RoomAvailability N)) (b : Booking N)
      → unavailable_dates b.room_id b.check_in b.check_out rows ≡ []
      → Held (book_dates b.id b.room_id b.check_in b.check_out rows) b
  unfolding book_dates
  book_dates-gives rows b free day lo hi =
      rw
        (row_at-update_where (in_stay b.room_id b.check_in b.check_out) (as_booked b.id)
          (λ r. (refl, refl)) b.room_id day rows)
        (elim (Option-cases (row_at b.room_id day rows)) [
          | inl e ↦
              ground (arith, available_nights b.room_id b.check_in b.check_out day rows free lo hi)
          | inr (r, e) ↦ rw e (ground (arith, row_at-place b.room_id day rows e))
        ])

  -- Releasing the dates of one booking leaves the others theirs.
  pub release-Held :
      (booking : ℕ) (rows : List (RoomAvailability N)) (b : Booking N)
      → b.id ≢ booking
      → Held rows b
      → Held (release booking rows) b
  unfolding release
  release-Held booking rows b other h =
      Held-update_where (λ r. same_key r.booking_id booking) _ (λ r. (refl, refl)) rows b
        (λ day r e held. ground arith) h

  -- Blocking, unblocking and maintenance leave every booking its nights.
  pub block_rows-Held :
      (room start end : ℕ) (reason : Option String) (rows : List (RoomAvailability N))
      (b : Booking N)
      → Held rows b
      → Held (block_rows room start end reason rows) b
  unfolding block_rows
  block_rows-Held room start end reason rows b h =
      Held-update_where _ _ (λ r. (refl, refl)) rows b (λ day r e held. ground arith) h

  pub unblock_rows-Held :
      (room start end : ℕ) (rows : List (RoomAvailability N)) (b : Booking N)
      → Held rows b
      → Held (unblock_rows room start end rows) b
  unfolding unblock_rows
  unblock_rows-Held room start end rows b h =
      Held-update_where _ _ (λ r. (refl, refl)) rows b (λ day r e held. ground arith) h

  pub maintain_rows-Held :
      (room day : ℕ) (rows : List (RoomAvailability N)) (b : Booking N)
      → Held rows b
      → Held (maintain_rows room day rows) b
  unfolding maintain_rows
  maintain_rows-Held room day rows b h =
      Held-update_where _ _ (λ r. (refl, refl)) rows b (λ d r e held. ground arith) h

  -- A bulk update to `available` takes a selected date from the booking that holds it.
  pub bulk_rows_frees :
      (dto : BulkUpdate N) (rows : List (RoomAvailability N)) (room day booking : ℕ)
      → dto.status ≡ available
      → any (λ k. k == room) dto.room_ids ≡ true
      → dto.start_date ≤ day
      → day ≤ dto.end_date
      → is_held (row_at room day (bulk_rows dto rows)) booking ≡ false
  unfolding bulk_rows
  bulk_rows_frees dto rows room day booking status chosen lo hi =
      rw (row_at-update_where (bulk_selects dto) (bulk_set dto) (λ r. (refl, refl)) room day rows)
        (elim (Option-cases (row_at room day rows)) [
          | inl e ↦ rw e (refl)
          | inr (r, e) ↦ rw e (
              let place = row_at-place room day rows e in
              let member : any (λ k. k == r.room_id) dto.room_ids ≡ true = rw place.0 chosen in
              ground arith)
        ])

  -- A bulk update that sets dates blocked or in maintenance does too.
  pub bulk_rows-Held :
      (dto : BulkUpdate N) (rows : List (RoomAvailability N)) (b : Booking N)
      → (dto.status ≡ blocked) ⊎ (dto.status ≡ maintenance)
      → Held rows b
      → Held (bulk_rows dto rows) b
  unfolding bulk_rows
  bulk_rows-Held dto rows b status h =
      Held-update_where (bulk_selects dto) (bulk_set dto) (λ r. (refl, refl)) rows b
        (λ d r e held. ground arith) h

  -- the update chooses no row that is booked
  abbrev pub SparesBooked : BulkUpdate N → List (RoomAvailability N) → Type 0
  SparesBooked dto =
      All (λ r. bulk_selects dto r ≡ true → same_availability r.status booked ≡ false)

  -- So does one of any status that chooses no booked row.
  pub bulk_rows-Held_spared :
      (dto : BulkUpdate N) (rows : List (RoomAvailability N)) (b : Booking N)
      → SparesBooked dto rows
      → Held rows b
      → Held (bulk_rows dto rows) b
  unfolding bulk_rows
  bulk_rows-Held_spared dto rows b spares h =
      Held-update_where (bulk_selects dto) (bulk_set dto) (λ r. (refl, refl)) rows b
        (λ day r e held.
          let spared =
            All-In (λ x. bulk_selects dto x ≡ true → same_availability x.status booked ≡ false) rows
              spares (find_one-In _ rows e).0 in
          elim (Bool-cases (bulk_selects dto r)) [
            | inl chosen ↦ absurd (let free = spared chosen in ground arith)
            | inr other ↦ rw other held
          ])
        h
