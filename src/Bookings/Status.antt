-- ===== src/Bookings/Status.antt =====
-- `updateStatus`, `cancelBooking` and `cancelBookingGroup` of modules/bookings/bookings.service.ts.
pub mod Sound
pub mod Life
use Prim.Native.String.{◌++◌}
use property_os.Common.{
  ℕ, ◌+◌, String, Bool, true, false, not, ◌&&◌, Option, none, some, List, [], ◌∷◌, filter, find_one,
  push, save, sort_by, update_where, ◌==◌, same_key, if◌then◌else◌,
}
use property_os.Numeric.{Number}
use property_os.Service.{
  Exec, bad_request, not_found, pure, or_throw, throw_if, gets, modify, transaction, ◌>>=◌, ◌>>◌,
  is_truthy_text,
}
use property_os.Entities.{
  Booking, BookingStatus, pending, confirmed, checked_in, checked_out, cancelled, no_show, Guest,
  same_status,
}
use property_os.Database.{
  Db, BookingEvent, restore_tables, status_modified, booking_cancelled, booking_checked_in,
  booking_checked_out,
}
use property_os.Inventory.Availability.{release}

-- `VALID_TRANSITIONS`
unfoldable pub can_transition : BookingStatus → BookingStatus → Bool
can_transition pending confirmed = true
can_transition pending cancelled = true
can_transition confirmed checked_in = true
can_transition confirmed cancelled = true
can_transition confirmed no_show = true
can_transition checked_in checked_out = true
can_transition _ _ = false

pub record UpdateStatusDto : Type 0 where
  pub status : BookingStatus
  pub id_number : Option String
  pub check_in_notes : Option String

-- `[internal_notes, 'Check-in: …'].filter(Boolean).join('\n')`
abbrev check_in_note : Option String → String → String
check_in_note none note = "Check-in: " ++ note
check_in_note (some notes) note =
    if is_truthy_text (some notes)
    then notes ++ "\n" ++ "Check-in: " ++ note
    else "Check-in: " ++ note

module _ {N : Type 0} where
  abbrev pub booking_named : ℕ → ℕ → Booking N → Bool
  booking_named id property_id b = b.id == id && b.property_id == property_id

  unfoldable pub get_booking : ℕ → ℕ → Exec (Db N) (Booking N)
  get_booking id property_id = do
    rows ← gets (λ (d : Db N). d.bookings)
    or_throw (find_one (booking_named id property_id) rows) (not_found "Booking not found")

  abbrev pub store : Booking N → Exec (Db N) (Unit {0})
  store b = modify λ d. record d { bookings = save (λ (x : Booking N). x.id) b d.bookings }

  abbrev pub emit : BookingEvent → Exec (Db N) (Unit {0})
  emit e = modify λ d. record d { events = push d.events e }

  -- the booking with the note of its check-in, if there is one
  abbrev with_note : Booking N → Option String → Booking N
  with_note b none = b
  with_note b (some note) =
      if is_truthy_text (some note)
      then record b { internal_notes = some (check_in_note b.internal_notes note) }
      else b

  abbrev note_check_in : Booking N → Option String → Exec (Db N) (Unit {0})
  note_check_in b note = if is_truthy_text note then store (with_note b note) else pure tt

  abbrev set_id_number : ℕ → Option String → Exec (Db N) (Unit {0})
  set_id_number guest_id number =
      if is_truthy_text number
      then modify (λ d. record d {
        guests =
            update_where (λ (g : Guest N). g.id == guest_id) (λ g. record g { id_number = number })
              d.guests;
      })
      else pure tt

module _ {N : Type 0} ⦃num : Number N⦄ where
  open num use {add}

  -- `updateGuestStatsOnCheckout`, which is not awaited: its effect is taken where it is called.
  pub update_guest_stats : Booking N → Exec (Db N) (Unit {0})
  update_guest_stats b = modify λ d. record d {
    guests =
        update_where (λ (g : Guest N). g.id == b.guest_id)
          (λ g. record g {
            total_stays = g.total_stays + 1;
            total_revenue = add g.total_revenue b.total_price;
            last_stay_date = some b.check_out;
          })
          d.guests;
  }

  -- what follows the new status
  abbrev after_status : BookingStatus → UpdateStatusDto → Booking N → Exec (Db N) (Unit {0})
  after_status checked_in dto b =
      set_id_number b.guest_id dto.id_number
      >> note_check_in b dto.check_in_notes
      >> emit (booking_checked_in b.id b.property_id)
  after_status checked_out dto b =
      update_guest_stats b >> emit (booking_checked_out b.id b.property_id)
  after_status _ dto b = pure tt

  -- the entity that `save` returned, with what `updateStatus` changed in it later
  abbrev returned : BookingStatus → UpdateStatusDto → Booking N → Booking N
  returned checked_in dto b = with_note b dto.check_in_notes
  returned _ dto b = b

  unfoldable pub update_status : ℕ → UpdateStatusDto → ℕ → Exec (Db N) (Booking N)
  unfolding get_booking update_guest_stats can_transition
  update_status id dto property_id = do
    booking ← get_booking id property_id
    throw_if (not (can_transition booking.status dto.status)) (bad_request "Cannot transition")
    let saved : Booking N = record booking { status = dto.status }
    store saved
    emit (status_modified saved.id saved.property_id booking.status dto.status)
    after_status dto.status dto saved
    pure (returned dto.status dto saved)

module _ {N : Type 0} where
  abbrev pub as_cancelled : ℕ → Option String → Booking N → Booking N
  as_cancelled now reason b = record b {
    status = cancelled;
    cancelled_at = some now;
    cancellation_reason = reason;
  }

  abbrev store_cancelled : Booking N → Exec (Db N) (Unit {0})
  store_cancelled b = do
    store b
    modify λ d. record d { availability = release b.id d.availability }

  unfoldable pub cancel_booking : ℕ → Option String → ℕ → ℕ → Exec (Db N) (Booking N)
  unfolding get_booking
  cancel_booking id reason property_id now = do
    booking ← get_booking id property_id
    throw_if (not (can_transition booking.status cancelled)) (bad_request "Cannot cancel booking")
    let saved : Booking N = as_cancelled now reason booking
    transaction restore_tables (store_cancelled saved)
    emit (booking_cancelled saved.id saved.property_id reason)
    pure saved

  -- the loop of `cancelBookingGroup`
  cancel_each : List (Booking N) → Option String → ℕ → Exec (Db N) (List (Booking N))
  cancel_each [] reason now = pure []
  cancel_each (b ∷ bs) reason now = do
    done ←
        if can_transition b.status cancelled
        then cancel_booking b.id reason b.property_id now
        else pure b
    rest ← cancel_each bs reason now
    pure (done ∷ rest)

  abbrev is_nil : List (Booking N) → Bool
  is_nil [] = true
  is_nil (b ∷ bs) = false

  pub cancel_group : ℕ → Option String → ℕ → ℕ → Exec (Db N) (List (Booking N))
  cancel_group group reason property_id now = do
    rows ← gets (λ (d : Db N).
        sort_by (λ (b : Booking N). b.group_index)
          (filter (λ b. same_key b.group_id group && b.property_id == property_id) d.bookings))
    throw_if (is_nil rows) (not_found "Booking group not found")
    cancel_each rows reason now
