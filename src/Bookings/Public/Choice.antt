-- ===== src/Bookings/Public/Choice.antt =====
-- The choice of the rooms of `createPublicBooking` and the invariant of the booking engine.
use property_os.Common.{
  ℕ, Option, none, some, List, [], ◌∷◌, inl, inr, not, ◌&&◌, find_one, ◌==◌, Bool-cases,
  Option-cases,
}
use property_os.Service.{bind_keeps, then_keeps, throw_if_keeps, throw_if, Result-cases}
use property_os.Entities.{Room, RoomType}
use property_os.Database.{Db}
use property_os.Bookings.Sound.{IsSound}
use property_os.Bookings.Public.{
  PublicBookingDto, RoomSelection, pick_rooms, is_too_many, is_candidate, count_blocked,
  chosen_rooms, selections,
}

module _ {N : Type 0} where
  pick_rooms-IsSound :
      (property_id start end : ℕ) (used : List ℕ) (sels : List RoomSelection) (db : Db N)
      → IsSound db
      → IsSound (pick_rooms property_id start end used sels db).1
  unfolding pick_rooms
  pick_rooms-IsSound property_id start end used [] db v = v
  pick_rooms-IsSound property_id start end used (sel ∷ sels) db v =
      elim (Option-cases (find_one (λ (t : RoomType N). t.id == sel.room_type_id) db.room_types)) [
        | inl e ↦ rw e v
        | inr (t, e) ↦ rw e (elim (Bool-cases (is_too_many sel.guest_count t.max_occupancy)) [
          | inl m ↦ rw m v
          | inr m ↦
              rw m
                (elim (Option-cases (
                  find_one (is_candidate db property_id sel.room_type_id start end used)
                    db.rooms)) [
                      | inl c ↦ rw c v
                      | inr (r, c) ↦ rw c (
                          bind_keeps IsSound (pick_rooms property_id start end (r.id ∷ used) sels) _
                            db (pick_rooms-IsSound property_id start end (r.id ∷ used) sels db v)
                            (λ rest u w. w))
                    ])
        ])
      ]

  pub chosen_rooms-IsSound :
      (property_id : ℕ) (dto : PublicBookingDto) (room : Option ℕ) (db : Db N)
      → IsSound db
      → IsSound (chosen_rooms property_id dto room db).1
  chosen_rooms-IsSound property_id dto none db v =
      elim (Result-cases (selections dto.rooms dto.room_type_id dto.guest_count)) [
        | inl (sels, e) ↦
            rw e (pick_rooms-IsSound property_id dto.check_in dto.check_out [] sels db v)
        | inr (x, e) ↦ rw e v
      ]
  chosen_rooms-IsSound property_id dto (some id) db v =
      elim (Option-cases (
        find_one (λ (r : Room). r.id == id && r.property_id == property_id && r.is_active)
          db.rooms)) [
            | inl e ↦ rw e v
            | inr (r, e) ↦ rw e (
                then_keeps IsSound IsSound
                  (throw_if
                    (not (count_blocked r.id dto.check_in dto.check_out db.availability == 0)) _)
                  _ db (throw_if_keeps IsSound _ _ db v) (λ t w. w) (λ t w. w))
          ]
