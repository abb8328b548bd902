-- ===== src/Inventory/Availability.antt =====
-- The table `room_availability` as modules/bookings and modules/inventory query and update it.
pub mod Rows
pub mod Dates
use property_os.Common.{
  ℕ, zero, suc, ◌+◌, ◌-◌, String, Bool, true, false, not, ◌&&◌, Option, none, some, List, [], ◌∷◌,
  filter, any, find_one, update_where, ltb, leb, ◌==◌, same_key, if◌then◌else◌,
}
use property_os.Service.{is_truthy_text}
use property_os.Entities.{
  RoomAvailability, AvailabilityStatus, available, booked, blocked, maintenance, same_availability,
}

-- the loop of `dateRange`: `while (d < last)`, with fuel
days_from : ℕ → ℕ → ℕ → List ℕ
days_from zero d last = []
days_from (suc fuel) d last =
    let rest = days_from fuel (d + 1) last in if ltb d last then d ∷ rest else []

-- `dateRange(start, end)`, with fuel for each night
unfoldable pub date_range : ℕ → ℕ → List ℕ
unfolding days_from
date_range start end = days_from (end - start) start end

module _ {N : Type 0} where
  -- `room_id = $1 AND date >= $2 AND date < $3`
  abbrev pub in_stay : ℕ → ℕ → ℕ → RoomAvailability N → Bool
  in_stay room start end r = r.room_id == room && leb start r.date && ltb r.date end

  abbrev pub is_open : RoomAvailability N → Bool
  is_open r = same_availability r.status available

  -- `!row || row.status !== AVAILABLE`, for the row found on the day
  abbrev pub is_taken : Option (RoomAvailability N) → Bool
  is_taken none = true
  is_taken (some r) = not (is_open r)

  -- the locked rows, and the dates of the stay that are not available
  unfoldable pub unavailable_dates : ℕ → ℕ → ℕ → List (RoomAvailability N) → List ℕ
  unavailable_dates room start end table =
      let rows = filter (in_stay room start end) table in
      filter (λ d. is_taken (find_one (λ r. r.date == d) rows)) (date_range start end)

  abbrev pub as_booked : ℕ → RoomAvailability N → RoomAvailability N
  as_booked booking r = record r { status = booked; booking_id = some booking }

  -- `UPDATE … SET status = 'booked', booking_id = … WHERE room and dates`
  unfoldable pub book_dates : ℕ → ℕ → ℕ → ℕ → List (RoomAvailability N) → List (RoomAvailability N)
  book_dates booking room start end = update_where (in_stay room start end) (as_booked booking)

  -- `UPDATE … SET status = 'available', booking_id = NULL WHERE booking_id = …`
  unfoldable pub release : ℕ → List (RoomAvailability N) → List (RoomAvailability N)
  release booking =
      update_where (λ r. same_key r.booking_id booking)
        (λ r. record r { status = available; booking_id = none })

  -- `room_id = … AND date BETWEEN … AND …`
  abbrev pub in_period : ℕ → ℕ → ℕ → RoomAvailability N → Bool
  in_period room start end r = r.room_id == room && leb start r.date && leb r.date end

  -- the `UPDATE` of `blockDates`
  unfoldable pub block_rows :
      ℕ → ℕ → ℕ → Option String → List (RoomAvailability N) → List (RoomAvailability N)
  block_rows room start end reason =
      update_where (λ r. in_period room start end r && same_availability r.status available)
        (λ r. record r { status = blocked; blocked_reason = reason })

  -- the `UPDATE` of `unblockDates`
  unfoldable pub unblock_rows : ℕ → ℕ → ℕ → List (RoomAvailability N) → List (RoomAvailability N)
  unblock_rows room start end =
      update_where (λ r. in_period room start end r && same_availability r.status blocked)
        (λ r. record r { status = available; blocked_reason = none })

  -- the `UPDATE` of `blockRoomForMaintenance`
  unfoldable pub maintain_rows : ℕ → ℕ → List (RoomAvailability N) → List (RoomAvailability N)
  maintain_rows room day =
      update_where (λ r. r.room_id == room && r.date == day && same_availability r.status available)
        (λ r. record r { status = maintenance })

-- `BulkAvailabilityUpdateDto`
pub record BulkUpdate (N : Type 0) : Type 0 where
  pub room_ids : List ℕ
  pub start_date : ℕ
  pub end_date : ℕ
  pub status : AvailabilityStatus
  -- absent, `null` or a price
  pub price_override : Option (Option N)
  pub reason : Option String

abbrev is_one_of : List ℕ → ℕ → Bool
is_one_of rooms room = any (λ k. k == room) rooms

abbrev new_reason : AvailabilityStatus → Option String → Option String → Option String
new_reason blocked reason old = if is_truthy_text reason then reason else old
new_reason available reason old = none
new_reason _ reason old = old

abbrev new_booking : AvailabilityStatus → Option ℕ → Option ℕ
new_booking available old = none
new_booking _ old = old

module _ {N : Type 0} where
  abbrev new_price : Option (Option N) → Option N → Option N
  new_price none old = old
  new_price (some price) old = price

  -- Blocking and maintenance are for available dates alone.
  abbrev may_change : AvailabilityStatus → RoomAvailability N → Bool
  may_change blocked r = is_open r
  may_change maintenance r = is_open r
  may_change _ r = true

  abbrev pub bulk_selects : BulkUpdate N → RoomAvailability N → Bool
  bulk_selects dto r =
      is_one_of dto.room_ids r.room_id
      && leb dto.start_date r.date
      && leb r.date dto.end_date
      && may_change dto.status r

  abbrev pub bulk_set : BulkUpdate N → RoomAvailability N → RoomAvailability N
  bulk_set dto r = record r {
    status = dto.status;
    price_override = new_price dto.price_override r.price_override;
    blocked_reason = new_reason dto.status dto.reason r.blocked_reason;
    booking_id = new_booking dto.status r.booking_id;
  }

  -- the `UPDATE` of `bulkUpdateAvailability`
  unfoldable pub bulk_rows : BulkUpdate N → List (RoomAvailability N) → List (RoomAvailability N)
  bulk_rows dto = update_where (bulk_selects dto) (bulk_set dto)
