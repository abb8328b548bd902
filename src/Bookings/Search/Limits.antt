-- ===== src/Bookings/Search/Limits.antt =====
-- The rate periods behind an offer of `checkPublicAvailability`.
use property_os.Common.{
  ℕ, ◌≡◌, refl, inl, inr, Bool, false, not, ◌||◌, Option, none, some, List, [], ◌∷◌, In, All, arith,
  any, filter, filter-In, In-append_left, In-append_right, All-In, All-of_In, Bool-cases,
  if◌then◌else◌, ltb, String,
}
use property_os.Common.Int.{ℤ}
use property_os.Numeric.{Number}
use property_os.Service.{ok}
use property_os.Entities.{Property, RatePeriod}
use property_os.Database.{Db}
use property_os.Inventory.Prices.{covers, specific_first, is_specific}
use property_os.Inventory.Restrictions.{
  YieldRestrictions, restrict, restrict_all, unrestricted, stricter, get_yield_restrictions,
  refuses, below, above,
}
use property_os.Bookings.Request.{calc_nights}
use property_os.Bookings.Search.{
  Offer, Stay, Query, check_public_availability, public_property, filtered_types, blocked_rows,
}
use property_os.Bookings.Search.Offers.{offer_of-Backed, offers-In}
use property_os.Bookings.Search.Honoured.{search-offers}

below-stricter :
    (nights : ℤ) (kept next : Option ℕ)
    → below nights (stricter (λ a b. ltb b a) kept next) ≡ false
    → (below nights kept ≡ false) × (below nights next ≡ false)
below-stricter nights kept none h = (h, refl)
below-stricter nights none (some b) h = (refl, h)
below-stricter nights (some a) (some b) h = elim (Bool-cases (ltb a b)) [
  | inl e ↦ let k = rw (e, if◌then◌else◌) at h in (ground (arith, e, k), k)
  | inr e ↦ let k = rw (e, if◌then◌else◌) at h in (k, ground (arith, e, k))
]

above-stricter :
    (nights : ℤ) (kept next : Option ℕ)
    → above nights (stricter (λ a b. ltb a b) kept next) ≡ false
    → (above nights kept ≡ false) × (above nights next ≡ false)
above-stricter nights kept none h = (h, refl)
above-stricter nights none (some b) h = (refl, h)
above-stricter nights (some a) (some b) h = elim (Bool-cases (ltb b a)) [
  | inl e ↦ let k = rw (e, if◌then◌else◌) at h in (ground (arith, e, k), k)
  | inr e ↦ let k = rw (e, if◌then◌else◌) at h in (k, ground (arith, e, k))
]

-- A period on the day of arrival that lets a stay through.
pub record Allows {N : Type 0} (nights : ℤ) (p : RatePeriod N) : Type 0 where
  pub sells : p.stop_sell ≡ false
  pub takes_arrivals : p.closed_to_arrival ≡ false
  pub takes_departures : p.closed_to_departure ≡ false
  pub long_enough : below nights p.min_stay ≡ false
  pub short_enough : above nights p.max_stay ≡ false

or_false : (a b : Bool) → (a || b) ≡ false → (a ≡ false) × (b ≡ false)
or_false a b h = ground (arith, h)

-- a stay that the restrictions do not refuse
record Open (nights : ℤ) (y : YieldRestrictions) : Type 0 where
  sells : y.stop_sell ≡ false
  arrivals : y.closed_to_arrival ≡ false
  departures : y.closed_to_departure ≡ false
  least : below nights y.min_stay ≡ false
  most : above nights y.max_stay ≡ false

refuses-Open : (nights : ℤ) (y : YieldRestrictions) → refuses y nights ≡ false → Open nights y
refuses-Open nights y h =
    let a =
      or_false
        (y.stop_sell || y.closed_to_arrival || y.closed_to_departure || below nights y.min_stay)
        (above nights y.max_stay) h in
    let b =
      or_false (y.stop_sell || y.closed_to_arrival || y.closed_to_departure)
        (below nights y.min_stay) a.0 in
    let c = or_false (y.stop_sell || y.closed_to_arrival) y.closed_to_departure b.0 in
    let d = or_false y.stop_sell y.closed_to_arrival c.0 in
    record { sells = d.0; arrivals = d.1; departures = c.1; least = b.1; most = a.1 }

Open-refuses : (nights : ℤ) (y : YieldRestrictions) → Open nights y → refuses y nights ≡ false
Open-refuses nights y o = rw (o.sells, o.arrivals, o.departures, o.least, o.most) refl

module _ {N : Type 0} where
  refuses-restrict :
      (nights : ℤ) (y : YieldRestrictions) (p : RatePeriod N)
      → refuses (restrict y p) nights ≡ false
      → (refuses y nights ≡ false) × Allows nights p
  refuses-restrict nights y p h =
      let o = refuses-Open nights (restrict y p) h in
      let sold = or_false y.stop_sell p.stop_sell o.sells in
      let arrive = or_false y.closed_to_arrival p.closed_to_arrival o.arrivals in
      let depart = or_false y.closed_to_departure p.closed_to_departure o.departures in
      let least = below-stricter nights y.min_stay p.min_stay o.least in
      let most = above-stricter nights y.max_stay p.max_stay o.most in
      (
        Open-refuses nights y (record {
          sells = sold.0;
          arrivals = arrive.0;
          departures = depart.0;
          least = least.0;
          most = most.0;
        }),
        record {
          sells = sold.1;
          takes_arrivals = arrive.1;
          takes_departures = depart.1;
          long_enough = least.1;
          short_enough = most.1;
        },
      )

  refuses-restrict_all :
      (nights : ℤ) (y : YieldRestrictions) (periods : List (RatePeriod N))
      → refuses (restrict_all y periods) nights ≡ false
      → (refuses y nights ≡ false) × All (Allows nights) periods
  unfolding restrict_all
  refuses-restrict_all nights y [] h = (h, tt)
  refuses-restrict_all nights y (p ∷ periods) h =
      let rest = refuses-restrict_all nights (restrict y p) periods h in
      let here = refuses-restrict nights y p rest.0 in (here.0, (here.1, rest.1))

  In-specific_first :
      (p : RatePeriod N) (periods : List (RatePeriod N))
      → In p periods
      → In p (specific_first periods)
  unfolding specific_first
  In-specific_first p periods i = elim (Bool-cases (is_specific p.room_type_id)) [
    | inl e ↦ In-append_left p _ _ (filter-In (λ r. is_specific r.room_type_id) p periods i e)
    | inr e ↦
        In-append_right p (filter (λ r. is_specific r.room_type_id) periods) _
          (filter-In (λ r. not (is_specific r.room_type_id)) p periods i (rw e refl))
  ]

  none_closed :
      (periods : List (RatePeriod N))
      → any (λ p. p.closed_to_departure) periods ≡ false
      → All (λ p. p.closed_to_departure ≡ false) periods
  none_closed [] h = tt
  none_closed (p ∷ periods) h =
      let both = or_false p.closed_to_departure _ h in (both.0, none_closed periods both.1)

module _ {N : Type 0} ⦃num : Number N⦄ where
  -- An offer of `checkPublicAvailability` respects the rate periods of the property: every active
  -- period for the room type, or for all types, on the day of arrival is on sale, open to arrival and
  -- departure, and has its minimum and maximum stay kept; and every one on the day of departure is
  -- open to departure.
  pub restrictions_respected :
      (db : Db N) (slug : String) (q : Query) (p : Property N) (stay : Stay N) (o : Offer N)
      → public_property db slug ≡ some p
      → check_public_availability db slug q ≡ ok stay
      → In o stay.available_rooms
      → All
          (Allows (calc_nights q.check_in q.check_out))
          (filter (covers p.id o.room_type_id q.check_in) db.rate_periods)
        × All
            (λ r. r.closed_to_departure ≡ false)
            (filter (covers p.id o.room_type_id q.check_out) db.rate_periods)
  unfolding get_yield_restrictions
  restrictions_respected db slug q p stay o e h i =
      let nights = calc_nights q.check_in q.check_out in
      let types = filtered_types db p.id q.guests in
      let blocked = blocked_rows db q.check_in q.check_out types in
      let found = search-offers db slug q p stay e h in
      let made = offers-In db q p.id blocked types stay.available_rooms o found.1 i in
      let backed = offer_of-Backed db q p.id blocked made.0 o made.2 in
      let arrivals = filter (covers p.id made.0.id q.check_in) db.rate_periods in
      let y = restrict_all unrestricted (specific_first arrivals) in
      let o =
        refuses-Open nights
          (get_yield_restrictions db.rate_periods made.0.id p.id q.check_in q.check_out)
          backed.allowed in
      let depart = or_false y.closed_to_departure _ o.departures in
      let kept = refuses-restrict_all nights unrestricted (specific_first arrivals) (
        Open-refuses nights y (record {
          sells = o.sells;
          arrivals = o.arrivals;
          departures = depart.0;
          least = o.least;
          most = o.most;
        })) in
      rw backed.of_type (
        All-of_In _ arrivals (λ r j. All-In _ _ kept.1 (In-specific_first r arrivals j)),
        none_closed _ depart.1,
      )
