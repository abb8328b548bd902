-- ===== src/Bookings/Search/Offers.antt =====
-- What stands behind an offer of `checkPublicAvailability`.
use property_os.Common.{
  ℕ, ◌≡◌, refl, sym, ap, ◌∙◌, inl, inr, Bool, true, false, Option, none, some, List, [], ◌∷◌, In,
  arith, any, filter, length, ◌==◌, Bool-cases, In-filter, filter-In, any-In, flat_map, flat_map-In,
  All, All-weaken, is_some, find_one, find_one-In, Option-cases, ◌⊎◌, if◌then◌else◌,
}
use property_os.Numeric.{Number}
use property_os.Service.{Result, ok, thrown, Result-cases}
use property_os.Entities.{Room, RoomType, RoomAvailability}
use property_os.Database.{Db}
use property_os.Inventory.Availability.{is_open, in_stay, unavailable_dates, date_range}
use property_os.Inventory.Restrictions.{get_yield_restrictions, refuses}
use property_os.Bookings.Request.{calc_nights}
use property_os.Bookings.Search.{
  Offer, Query, offer_of, offers, collect, total_for, free_rooms, active_rooms, blocked_rows,
  blocking,
}

module _ {N : Type 0} ⦃num : Number N⦄ (db : Db N) (q : Query) (property_id : ℕ) where
  -- What an offer for a room type is made of.
  pub record Backed (blocked : List (RoomAvailability N)) (rt : RoomType N) (o : Offer N)
      : Type 0 where
    pub of_type : o.room_type_id ≡ rt.id
    pub of_rooms : o.rooms ≡ free_rooms db blocked rt
    pub priced : total_for db q property_id rt ≡ ok o.total_price
    pub allowed :
        refuses
          (get_yield_restrictions db.rate_periods rt.id property_id q.check_in q.check_out)
          (calc_nights q.check_in q.check_out)
        ≡ false

  same_list : {xs ys : List (Offer N)} → ok xs ≡ ok ys → xs ≡ ys
  same_list h = cc h

  offer_same : {x y : Offer N} → ok (some x) ≡ ok (some y) → x ≡ y
  offer_same h = cc h

  pub offer_of-Backed :
      (blocked : List (RoomAvailability N)) (rt : RoomType N) (o : Offer N)
      → offer_of db q property_id blocked rt ≡ ok (some o)
      → Backed blocked rt o
  unfolding offer_of
  offer_of-Backed blocked rt o h = elim (Bool-cases (length (free_rooms db blocked rt) == 0)) [
    | inl e ↦ absurd (cc (rw (e, if◌then◌else◌) at h))
    | inr e ↦
        elim (Bool-cases (
          refuses (get_yield_restrictions db.rate_periods rt.id property_id q.check_in q.check_out)
            (calc_nights q.check_in q.check_out))) [
              | inl f ↦ absurd (cc (rw (e, f, if◌then◌else◌) at h))
              | inr f ↦ elim (Result-cases (total_for db q property_id rt)) [
                | inr (x, g) ↦ absurd (cc (rw (e, f, g, if◌then◌else◌) at h))
                | inl (total, g) ↦
                    let same = offer_same (rw (e, f, g, if◌then◌else◌) at h) in
                    record {
                      of_type = ap (λ (x : Offer N). x.room_type_id) (sym same);
                      of_rooms = ap (λ (x : Offer N). x.rooms) (sym same);
                      priced = g ∙ ap (λ (x : Offer N). ok x.total_price) same;
                      allowed = f;
                    }
              ]
            ]
  ]

  collect-In :
      (r : Result (Option (Offer N))) (rest : Result (List (Offer N))) (os : List (Offer N))
      (o : Offer N)
      → collect r rest ≡ ok os
      → In o os
      → (r ≡ ok (some o)) ⊎ ((ps : List (Offer N)) × (rest ≡ ok ps) × In o ps)
  collect-In (thrown e) rest os o h i = absurd (cc)
  collect-In (ok p) (thrown e) os o h i = absurd (cc)
  collect-In (ok none) (ok ps) os o h i = inr (ps, refl, rw (same_list h) i)
  collect-In (ok (some p)) (ok ps) os o h i = elim (rw (← same_list h) at i) [
    | inl e ↦ inl (ap (λ x. ok (some x)) (sym e))
    | inr j ↦ inr (ps, refl, j)
  ]

  pub offers-In :
      (blocked : List (RoomAvailability N)) (types : List (RoomType N)) (os : List (Offer N))
      (o : Offer N)
      → offers db q property_id blocked types ≡ ok os
      → In o os
      → (rt : RoomType N) × In rt types × (offer_of db q property_id blocked rt ≡ ok (some o))
  unfolding offers
  offers-In blocked [] os o h i = absurd (rw (← same_list h) at i)
  offers-In blocked (rt ∷ types) os o h i =
      elim (collect-In (offer_of db q property_id blocked rt)
        (offers db q property_id blocked types) os o h i) [
          | inl e ↦ (rt, inl refl, e)
          | inr (ps, e, j) ↦
              let found = offers-In blocked types ps o e j in (found.0, inr found.1, found.2)
        ]

-- A free room of a type is not blocked: in the nights of the stay its calendar is available.
module _ {N : Type 0} (db : Db N) (start end : ℕ) (types : List (RoomType N)) where
  row_open :
      (room : Room) (a : RoomAvailability N)
      → any (λ r. r.id == a.room_id) (flat_map (active_rooms db) types) ≡ true
      → any (λ (b : RoomAvailability N). b.room_id == room.id) (blocked_rows db start end types)
        ≡ false
      → In a db.availability
      → in_stay room.id start end a ≡ true
      → is_open a ≡ true
  row_open room a listed free i stay = elim (Bool-cases (is_open a)) [
    | inl e ↦ e
    | inr e ↦
        let hit =
          any-In (λ (b : RoomAvailability N). b.room_id == room.id) a _ (ground (arith, stay))
            (filter-In (blocking (flat_map (active_rooms db) types) start end) a db.availability i
              (rw (listed, e) (ground (arith, stay)))) in
        absurd (cc (hit, free))
  ]

  nothing_left : (p : ℕ → Bool) (xs : List ℕ) → All (λ x. p x ≡ false) xs → filter p xs ≡ []
  nothing_left p [] h = refl
  nothing_left p (x ∷ xs) h = ground (arith, h.0, nothing_left p xs h.1)

  -- the calendar has a row for every night of the stay
  abbrev pub Covered : Room → Type 0
  Covered room =
      All
        (λ d.
          is_some (
            find_one (λ (a : RoomAvailability N). a.date == d)
              (filter (in_stay room.id start end) db.availability))
          ≡ true)
        (date_range start end)

  pub free_room :
      (rt : RoomType N) (room : Room)
      → In rt types
      → In room (free_rooms db (blocked_rows db start end types) rt)
      → Covered room
      → unavailable_dates room.id start end db.availability ≡ []
  unfolding unavailable_dates
  free_room rt room i j cover =
      let kept = In-filter _ room (active_rooms db rt) j in
      let free : any (λ (b : RoomAvailability N). b.room_id == room.id)
            (blocked_rows db start end types)
          ≡ false =
        ground (arith, kept.1) in
      let here = flat_map-In (active_rooms db) rt room types i kept.0 in
      nothing_left _ (date_range start end) (
        All-weaken
          (λ d seen.
            elim (Option-cases (
              find_one (λ (a : RoomAvailability N). a.date == d)
                (filter (in_stay room.id start end) db.availability))) [
                  | inl e ↦ absurd (cc (rw e at seen))
                  | inr (a, e) ↦
                      let found = In-filter _ a db.availability (find_one-In _ _ e).0 in
                      let listed =
                        any-In (λ (r : Room). r.id == a.room_id) room _ (ground (arith, found.1))
                          here in
                      let open_row = row_open room a listed free found.0 found.1 in
                      rw (e, open_row) refl
                ])
          (date_range start end) cover)
