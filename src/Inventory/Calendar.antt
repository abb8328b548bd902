-- ===== src/Inventory/Calendar.antt =====
-- `blockDates`, `unblockDates` and `bulkUpdateAvailability` of modules/inventory/inventory.service.ts,
-- and `blockRoomForMaintenance` of modules/housekeeping/housekeeping.service.ts. Each returns the number
-- of rows that its `UPDATE` changed.
use property_os.Common.{
  ℕ, String, not, ◌&&◌, Option, List, [], ◌∷◌, find_one, count_where, ltb, ◌==◌, is_some, ◌≡◌, ◌∙◌,
  refl,
}
use property_os.Service.{
  Exec, bad_request, pure, throw_if, throw_if_keeps, then_keeps, gets, modify, ◌>>=◌, ◌>>◌,
}
use property_os.Entities.{Room, RoomAvailability, available, blocked, same_availability}
use property_os.Database.{Db}
use property_os.Inventory.Availability.{
  in_period, block_rows, unblock_rows, maintain_rows, BulkUpdate, bulk_selects, bulk_rows,
}

pub record BlockDates : Type 0 where
  pub room_id : ℕ
  pub start_date : ℕ
  pub end_date : ℕ
  pub reason : Option String

module _ {N : Type 0} where
  pub assert_room_belongs : ℕ → ℕ → Exec (Db N) (Unit {0})
  assert_room_belongs room property_id = do
    rooms ← gets (λ (d : Db N). d.rooms)
    throw_if
        (not
          (is_some (find_one (λ (r : Room). r.id == room && r.property_id == property_id) rooms)))
        (bad_request "Room does not belong to this property")

  unfoldable pub block_dates : ℕ → BlockDates → Exec (Db N) ℕ
  unfolding assert_room_belongs
  block_dates property_id dto = do
    assert_room_belongs dto.room_id property_id
    throw_if (ltb dto.end_date dto.start_date) (bad_request "end_date must be >= start_date")
    rows ← gets (λ (d : Db N). d.availability)
    modify λ d. record d {
      availability = block_rows dto.room_id dto.start_date dto.end_date dto.reason d.availability;
    }
    pure (
        count_where
          (λ (r : RoomAvailability N).
            in_period dto.room_id dto.start_date dto.end_date r
            && same_availability r.status available)
          rows)

  unfoldable pub unblock_dates : ℕ → BlockDates → Exec (Db N) ℕ
  unfolding assert_room_belongs
  unblock_dates property_id dto = do
    assert_room_belongs dto.room_id property_id
    rows ← gets (λ (d : Db N). d.availability)
    modify λ d. record d {
      availability = unblock_rows dto.room_id dto.start_date dto.end_date d.availability;
    }
    pure (
        count_where
          (λ (r : RoomAvailability N).
            in_period dto.room_id dto.start_date dto.end_date r
            && same_availability r.status blocked)
          rows)

  -- `for (const roomId of dto.room_ids) await this.assertRoomBelongs(…)`
  pub assert_rooms_belong : List ℕ → ℕ → Exec (Db N) (Unit {0})
  assert_rooms_belong [] property_id = pure tt
  assert_rooms_belong (room ∷ rooms) property_id =
      assert_room_belongs room property_id >> assert_rooms_belong rooms property_id

  unfoldable pub bulk_update : ℕ → BulkUpdate N → Exec (Db N) ℕ
  unfolding assert_rooms_belong assert_room_belongs
  bulk_update property_id dto = do
    throw_if (ltb dto.end_date dto.start_date) (bad_request "end_date must be >= start_date")
    assert_rooms_belong dto.room_ids property_id
    rows ← gets (λ (d : Db N). d.availability)
    modify λ d. record d { availability = bulk_rows dto d.availability }
    pure (count_where (bulk_selects dto) rows)

  unfoldable pub block_for_maintenance : ℕ → ℕ → Exec (Db N) (Unit {0})
  block_for_maintenance room day =
      modify λ d. record d { availability = maintain_rows room day d.availability }

  pub assert_room_belongs_state :
      (room property_id : ℕ) (db : Db N) → (assert_room_belongs room property_id db).1 ≡ db
  unfolding assert_room_belongs
  assert_room_belongs_state room property_id db = throw_if_keeps (λ d. d ≡ db) _ _ db refl

  pub assert_rooms_belong_state :
      (rooms : List ℕ) (property_id : ℕ) (db : Db N)
      → (assert_rooms_belong rooms property_id db).1 ≡ db
  unfolding assert_rooms_belong
  assert_rooms_belong_state [] property_id db = refl
  assert_rooms_belong_state (room ∷ rooms) property_id db =
      then_keeps (λ d. d ≡ db) (λ d. d ≡ db) (assert_room_belongs room property_id) _ db
        (assert_room_belongs_state room property_id db) (λ t h. h)
        (λ t h. assert_rooms_belong_state rooms property_id t ∙ h)
