-- ===== src/Bookings/Search/Honoured.antt =====
-- What `checkPublicAvailability` offers against what `createBooking` then does.
use property_os.Common.{ℕ, ◌≡◌, ap, ◌∙◌, inl, inr, false, some, Bool-cases, if◌then◌else◌, String}
use property_os.Common.Int.{pos, ltb_ℤ}
use property_os.Numeric.{Number}
use property_os.Service.{ok, Result-cases}
use property_os.Entities.{Property, Room}
use property_os.Database.{Db}
use property_os.Bookings.Request.{CreateBookingDto, Env, calc_nights}
use property_os.Bookings.Search.{
  Stay, Query, check_public_availability, public_property, filtered_types, blocked_rows, offers,
}

-- the search that a request answers
abbrev pub query_of : Env → CreateBookingDto → Query
query_of env dto = record {
  check_in = dto.check_in;
  check_out = dto.check_out;
  guests = dto.guest_count;
  now = env.now;
}

abbrev pub room_key : Room → ℕ
room_key r = r.id

module _ {N : Type 0} ⦃num : Number N⦄ where
  same_rooms : {x y : Stay N} → ok x ≡ ok y → x.available_rooms ≡ y.available_rooms
  same_rooms {x} {y} h = let same : x ≡ y = cc h in ap (λ (z : Stay N). z.available_rooms) same

  -- What an answer to a search holds.
  pub search-offers :
      (db : Db N) (slug : String) (q : Query) (p : Property N) (stay : Stay N)
      → public_property db slug ≡ some p
      → check_public_availability db slug q ≡ ok stay
      → let types = filtered_types db p.id q.guests in
        (ltb_ℤ (calc_nights q.check_in q.check_out) (pos 1) ≡ false)
        × (offers db q p.id (blocked_rows db q.check_in q.check_out types) types
            ≡ ok stay.available_rooms)
  unfolding check_public_availability
  search-offers db slug q p stay e h =
      elim (Bool-cases (ltb_ℤ (calc_nights q.check_in q.check_out) (pos 1))) [
        | inl f ↦ absurd (cc (rw (e, f, if◌then◌else◌) at h))
        | inr f ↦
            elim (Result-cases (
              offers db q p.id
                (blocked_rows db q.check_in q.check_out (filtered_types db p.id q.guests))
                (filtered_types db p.id q.guests))) [
                  | inl (os, g) ↦ (f, g ∙ ap ok (same_rooms (rw (e, f, g, if◌then◌else◌) at h)))
                  | inr (x, g) ↦ absurd (cc (rw (e, f, g, if◌then◌else◌) at h))
                ]
      ]
