-- ===== src/Bookings/Public/Rooms.antt =====
-- The rooms that `createPublicBooking` assigns to the room types asked for.
use property_os.Common.{
  ℕ, ◌≡◌, refl, sym, ap, ◌∙◌, inl, inr, true, false, List, [], ◌∷◌, suc, All, In, arith, any,
  find_one, find_one-In, ◌==◌, Bool-cases, Option-cases, length,
}
use property_os.Service.{ok, bind_ok, pure}
use property_os.Entities.{Room, RoomType}
use property_os.Database.{Db}
use property_os.Bookings.Public.{
  RoomSelection, count_blocked, is_candidate, pick_rooms, is_too_many,
}

-- no room stands twice, and none of those taken before
abbrev pub AllNew : List ℕ → List ℕ → Type 0
AllNew used [] = Unit
AllNew used (k ∷ ks) = (any (λ x. x == k) used ≡ false) × AllNew (k ∷ used) ks

module _ {N : Type 0} where
  -- an active room of the property with no row of the stay that is not available
  abbrev pub IsFree : Db N → ℕ → ℕ → ℕ → ℕ → Type 0
  IsFree db property_id start end id =
      (r : Room) × In r db.rooms
      × (r.id ≡ id)
      × (r.property_id ≡ property_id)
      × (r.is_active ≡ true)
      × (count_blocked id start end db.availability ≡ 0)

  -- Where the assignment returns, there is a room for each selection, each of them is free for the stay,
  -- no room is assigned twice, and nothing was written.
  pub pick_rooms_lem :
      (property_id start end : ℕ) (used : List ℕ) (sels : List RoomSelection) (db : Db N)
      (rooms : List ℕ)
      → (pick_rooms property_id start end used sels db).0 ≡ ok rooms
      → All (IsFree db property_id start end) rooms
        × AllNew used rooms
        × (length rooms ≡ length sels)
        × ((pick_rooms property_id start end used sels db).1 ≡ db)
  unfolding pick_rooms
  pick_rooms_lem property_id start end used [] db [] h = (tt, tt, refl, refl)
  pick_rooms_lem property_id start end used [] db (k ∷ ks) h = absurd (cc)
  pick_rooms_lem property_id start end used (sel ∷ sels) db rooms h =
      elim (Option-cases (find_one (λ (t : RoomType N). t.id == sel.room_type_id) db.room_types)) [
        | inl e ↦ absurd (let stopped = rw e at h in cc)
        | inr (t, e) ↦ elim (Bool-cases (is_too_many sel.guest_count t.max_occupancy)) [
          | inl m ↦ absurd (let stopped = rw (e, m) at h in cc)
          | inr m ↦
              elim (Option-cases
                (find_one (is_candidate db property_id sel.room_type_id start end used) db.rooms)) [
                  | inl c ↦ absurd (let stopped = rw (e, m, c) at h in cc)
                  | inr (r, c) ↦
                      (let reached = rw (e, m, c) at h in
                        let (rest, ih, eq) =
                          bind_ok (pick_rooms property_id start end (r.id ∷ used) sels)
                            (λ more. pure (r.id ∷ more)) db rooms reached in
                        let found =
                          find_one-In (is_candidate db property_id sel.room_type_id start end used)
                            db.rooms c in
                        let others =
                          pick_rooms_lem property_id start end (r.id ∷ used) sels db rest ih in
                        let returned : ok (r.id ∷ rest) ≡ ok rooms =
                          sym (ap (λ out. out.0) eq) ∙ reached in
                        let all : (r.id ∷ rest) ≡ rooms = cc in
                        rw (e, m, c, eq, ← all)
                          (
                            (
                              (
                                r,
                                found.0,
                                refl,
                                ground (arith, found.1),
                                ground (arith, found.1),
                                ground (arith, found.1),
                              ),
                              others.0,
                            ),
                            (ground (arith, found.1), others.1),
                            ap suc others.2,
                            others.3,
                          ))
                ]
        ]
      ]
