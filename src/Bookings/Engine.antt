-- ===== src/Bookings/Engine.antt =====
-- The booking engine as a step relation: the requests of modules/bookings, the cleanup job, and the
-- updates of the availability calendar by modules/inventory and modules/housekeeping.
use mathlib.Core.Path.{subst}
use property_os.Common.{
  sym, inl, inr, Bool-cases, ℕ, ◌≤◌, ◌<◌, ◌≡◌, ◌⊎◌, String, Bool, true, Option, List, In,
  All-weaken, ltb,
}
use property_os.Numeric.{Number}
use property_os.Service.{then_keeps, throw_if, throw_if_keeps}
use property_os.Entities.{Booking, RoomAvailability, blocked, maintenance}
use property_os.Database.{Db}
use property_os.Inventory.Availability.{BulkUpdate}
use property_os.Inventory.Availability.Rows.{
  Held, SparesBooked, bulk_rows-Held_spared, block_rows-Held, unblock_rows-Held, maintain_rows-Held,
  bulk_rows-Held,
}
use property_os.Inventory.Calendar.{
  BlockDates, block_dates, unblock_dates, bulk_update, block_for_maintenance, assert_room_belongs,
  assert_rooms_belong, assert_room_belongs_state, assert_rooms_belong_state,
}
use property_os.Bookings.Request.{CreateBookingDto, Env}
use property_os.Bookings.Create.{create_booking}
use property_os.Bookings.Create.Sound.{create_booking-IsSound}
use property_os.Bookings.Status.{UpdateStatusDto, update_status, cancel_booking, cancel_group}
use property_os.Bookings.Status.Sound.{
  update_status-IsSound, cancel_booking-IsSound, cancel_group-IsSound,
}
use property_os.Bookings.Update.{UpdateBookingDto, update_booking}
use property_os.Bookings.Update.Sound.{update_booking-IsSound}
use property_os.Bookings.Portal.{
  OnlineCheckInDto, GuestModifyDto, guest_cancel_booking, online_check_in, guest_modify_booking,
}
use property_os.Bookings.Portal.Sound.{
  guest_cancel_booking-IsSound, online_check_in-IsSound, guest_modify_booking-IsSound,
}
use property_os.Bookings.Cleanup.{cancel_expired}
use property_os.Bookings.Cleanup.Sound.{cancel_expired-IsSound}
use property_os.Bookings.Public.{PublicBookingDto}
use property_os.Bookings.Public.Finish.{create_public_booking}
use property_os.Bookings.Public.Sound.{create_public_booking-IsSound}
use property_os.Bookings.Sound.{IsSound, is_standing, no_double_booking}

module _ {N : Type 0} where
  rows-IsSound :
      (db : Db N) (rows : List (RoomAvailability N))
      → ((b : Booking N) → Held db.availability b → Held rows b)
      → IsSound db
      → IsSound (record db { availability = rows })
  rows-IsSound db rows k v = record {
    distinct = v.distinct;
    held = All-weaken (λ b h s. k b (h s)) db.bookings v.held;
  }

  block_dates-IsSound :
      (property_id : ℕ) (dto : BlockDates) (db : Db N)
      → IsSound db
      → IsSound (block_dates property_id dto db).1
  unfolding block_dates
  block_dates-IsSound property_id dto db v =
      then_keeps (λ d. d ≡ db) IsSound (assert_room_belongs dto.room_id property_id) _ db
        (assert_room_belongs_state dto.room_id property_id db) (λ t e. rw e v)
        λ t e.
          then_keeps IsSound IsSound (throw_if (ltb dto.end_date dto.start_date) _) _ t
            (throw_if_keeps IsSound _ _ t (rw e v)) (λ u w. w)
            λ u w.
              rows-IsSound u _
                (block_rows-Held dto.room_id dto.start_date dto.end_date dto.reason u.availability)
                w

  unblock_dates-IsSound :
      (property_id : ℕ) (dto : BlockDates) (db : Db N)
      → IsSound db
      → IsSound (unblock_dates property_id dto db).1
  unfolding unblock_dates
  unblock_dates-IsSound property_id dto db v =
      then_keeps (λ d. d ≡ db) IsSound (assert_room_belongs dto.room_id property_id) _ db
        (assert_room_belongs_state dto.room_id property_id db) (λ t e. rw e v)
        λ t e.
          rows-IsSound t _
            (unblock_rows-Held dto.room_id dto.start_date dto.end_date t.availability) (rw e v)

  bulk_update-IsSound :
      (property_id : ℕ) (dto : BulkUpdate N) (db : Db N)
      → (dto.status ≡ blocked) ⊎ (dto.status ≡ maintenance)
      → IsSound db
      → IsSound (bulk_update property_id dto db).1
  unfolding bulk_update
  bulk_update-IsSound property_id dto db status v =
      then_keeps IsSound IsSound (throw_if (ltb dto.end_date dto.start_date) _) _ db
        (throw_if_keeps IsSound _ _ db v) (λ t w. w)
        λ t w.
          then_keeps (λ d. d ≡ t) IsSound (assert_rooms_belong dto.room_ids property_id) _ t
            (assert_rooms_belong_state dto.room_ids property_id t) (λ u e. rw e w)
            λ u e. rows-IsSound u _ (λ b. bulk_rows-Held dto u.availability b status) (rw e w)

  open_bulk-IsSound :
      (property_id : ℕ) (dto : BulkUpdate N) (db : Db N)
      → SparesBooked dto db.availability
      → IsSound db
      → IsSound (bulk_update property_id dto db).1
  unfolding bulk_update
  open_bulk-IsSound property_id dto db spares v =
      elim (Bool-cases (ltb dto.end_date dto.start_date)) [
        | inl e ↦ rw e v
        | inr e ↦ rw e (
            then_keeps (λ d. d ≡ db) IsSound (assert_rooms_belong dto.room_ids property_id) _ db
              (assert_rooms_belong_state dto.room_ids property_id db) (λ u e. rw e v)
              λ u same.
                rows-IsSound u _
                  (λ b.
                    bulk_rows-Held_spared dto u.availability b
                      (subst (λ (d : Db N). SparesBooked dto d.availability) (sym same) spares))
                  (rw same v))
      ]

  block_for_maintenance-IsSound :
      (room day : ℕ) (db : Db N) → IsSound db → IsSound (block_for_maintenance room day db).1
  unfolding block_for_maintenance
  block_for_maintenance-IsSound room day db v =
      rows-IsSound db _ (maintain_rows-Held room day db.availability) v

module _ {N : Type 0} ⦃num : Number N⦄ where
  -- A request to the booking engine or the guest portal, or a job of it, whatever it returns or throws.
  -- A bulk update is one that sets dates blocked or in maintenance, or one of any status that chooses
  -- no booked row: one that sets booked dates available or booked is left out, since it takes nights
  -- from the bookings that hold them.
  pub data Step : Db N → Db N → Type 0 where
    create :
        (env : Env) (dto : CreateBookingDto) {db : Db N} → Step db (create_booking env dto db).1
    publish :
        (to_upper : String → String) (env : Env) (today : ℕ) (dto : PublicBookingDto) {db : Db N}
        → Step db (create_public_booking to_upper env today dto db).1
    update :
        (id : ℕ) (dto : UpdateBookingDto) (property_id : ℕ) {db : Db N}
        → Step db (update_booking id dto property_id db).1
    change_status :
        (id : ℕ) (dto : UpdateStatusDto) (property_id : ℕ) {db : Db N}
        → Step db (update_status id dto property_id db).1
    cancel :
        (id : ℕ) (reason : Option String) (property_id now : ℕ) {db : Db N}
        → Step db (cancel_booking id reason property_id now db).1
    cancel_all :
        (group : ℕ) (reason : Option String) (property_id now : ℕ) {db : Db N}
        → Step db (cancel_group group reason property_id now db).1
    guest_cancels :
        (lower : String → String) (reference email : String) (reason : Option String)
        (whole_group : Bool) (now : ℕ) {db : Db N}
        → Step db (guest_cancel_booking lower reference email reason whole_group now db).1
    guest_arrives :
        (lower : String → String) (now : ℕ) (dto : OnlineCheckInDto) {db : Db N}
        → Step db (online_check_in lower now dto db).1
    guest_modifies :
        (lower : String → String) (reference email : String) (dto : GuestModifyDto) (now : ℕ)
        {db : Db N}
        → Step db (guest_modify_booking lower reference email dto now db).1
    clean_up : (now : ℕ) {db : Db N} → Step db (cancel_expired now db).1
    block :
        (property_id : ℕ) (dto : BlockDates) {db : Db N}
        → Step db (block_dates property_id dto db).1
    unblock :
        (property_id : ℕ) (dto : BlockDates) {db : Db N}
        → Step db (unblock_dates property_id dto db).1
    set_bulk :
        (property_id : ℕ) (dto : BulkUpdate N) {db : Db N}
        → (dto.status ≡ blocked) ⊎ (dto.status ≡ maintenance)
        → Step db (bulk_update property_id dto db).1
    open_bulk :
        (property_id : ℕ) (dto : BulkUpdate N) {db : Db N}
        → SparesBooked dto db.availability
        → Step db (bulk_update property_id dto db).1
    maintain : (room day : ℕ) {db : Db N} → Step db (block_for_maintenance room day db).1

  pub data Reach : Db N → Db N → Type 0 where
    here : {db : Db N} → Reach db db
    after : {first db next : Db N} → Reach first db → Step db next → Reach first next

  Step-IsSound : {db next : Db N} → Step db next → IsSound db → IsSound next
  Step-IsSound (create env dto) v = create_booking-IsSound env dto _ v
  Step-IsSound (publish to_upper env today dto) v =
      create_public_booking-IsSound to_upper env today dto _ v
  Step-IsSound (update id dto p) v = update_booking-IsSound id dto p _ v
  Step-IsSound (change_status id dto p) v = update_status-IsSound id dto p _ v
  Step-IsSound (cancel id reason p now) v = cancel_booking-IsSound id reason p now _ v
  Step-IsSound (cancel_all group reason p now) v = cancel_group-IsSound group reason p now _ v
  Step-IsSound (guest_cancels lower reference email reason whole_group now) v =
      guest_cancel_booking-IsSound lower reference email reason whole_group now _ v
  Step-IsSound (guest_arrives lower now dto) v = online_check_in-IsSound lower now dto _ v
  Step-IsSound (guest_modifies lower reference email dto now) v =
      guest_modify_booking-IsSound lower reference email dto now _ v
  Step-IsSound (clean_up now) v = cancel_expired-IsSound now _ v
  Step-IsSound (block p dto) v = block_dates-IsSound p dto _ v
  Step-IsSound (unblock p dto) v = unblock_dates-IsSound p dto _ v
  Step-IsSound (set_bulk p dto s) v = bulk_update-IsSound p dto _ s v
  Step-IsSound (open_bulk p dto s) v = open_bulk-IsSound p dto _ s v
  Step-IsSound (maintain room day) v = block_for_maintenance-IsSound room day _ v

  Reach-IsSound : {first db : Db N} → Reach first db → IsSound first → IsSound db
  Reach-IsSound here v = v
  Reach-IsSound (after run step) v = Step-IsSound step (Reach-IsSound run v)

  -- After any sequence of requests from a sound database, in which no bulk update of the calendar sets
  -- booked dates available or booked, two bookings of one room that are not cancelled and share a
  -- night are one booking.
  pub never_double_booked :
      (first db : Db N) (a b : Booking N) (night : ℕ)
      → IsSound first
      → Reach first db
      → In a db.bookings
      → In b db.bookings
      → is_standing a ≡ true
      → is_standing b ≡ true
      → a.room_id ≡ b.room_id
      → (a.check_in ≤ night) × (night < a.check_out)
      → (b.check_in ≤ night) × (night < b.check_out)
      → a.id ≡ b.id
  never_double_booked first db a b night v run =
      no_double_booking db a b night (Reach-IsSound run v)
