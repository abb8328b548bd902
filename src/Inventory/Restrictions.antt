-- ===== src/Inventory/Restrictions.antt =====
-- `getYieldRestrictions` of modules/inventory/inventory.service.ts.
use property_os.Common.{
  ℕ, Bool, false, ◌||◌, Option, none, some, List, [], ◌∷◌, filter, any, ltb, if◌then◌else◌,
}
use property_os.Common.Int.{ℤ, pos, ltb_ℤ}
use property_os.Entities.{RatePeriod}
use property_os.Inventory.Prices.{covers, specific_first}

pub record YieldRestrictions : Type 0 where
  pub min_stay : Option ℕ
  pub max_stay : Option ℕ
  pub closed_to_arrival : Bool
  pub closed_to_departure : Bool
  pub stop_sell : Bool

abbrev pub unrestricted : YieldRestrictions
unrestricted = record {
  min_stay = none;
  max_stay = none;
  closed_to_arrival = false;
  closed_to_departure = false;
  stop_sell = false;
}

-- `if (next != null && (kept == null || next > kept)) kept = next`, and with `<`
abbrev pub stricter : (ℕ → ℕ → Bool) → Option ℕ → Option ℕ → Option ℕ
stricter beats kept none = kept
stricter beats none (some next) = some next
stricter beats (some kept) (some next) = if beats next kept then some next else some kept

module _ {N : Type 0} where
  abbrev pub restrict : YieldRestrictions → RatePeriod N → YieldRestrictions
  restrict y p = record {
    min_stay = stricter (λ next kept. ltb kept next) y.min_stay p.min_stay;
    max_stay = stricter (λ next kept. ltb next kept) y.max_stay p.max_stay;
    closed_to_arrival = y.closed_to_arrival || p.closed_to_arrival;
    closed_to_departure = y.closed_to_departure || p.closed_to_departure;
    stop_sell = y.stop_sell || p.stop_sell;
  }

  -- the loop over the periods on the day of arrival
  unfoldable pub restrict_all : YieldRestrictions → List (RatePeriod N) → YieldRestrictions
  restrict_all y [] = y
  restrict_all y (p ∷ periods) = restrict_all (restrict y p) periods

  unfoldable pub get_yield_restrictions : List (RatePeriod N) → ℕ → ℕ → ℕ → ℕ → YieldRestrictions
  unfolding restrict_all specific_first
  get_yield_restrictions periods type property_id check_in check_out =
      let y =
        restrict_all unrestricted
          (specific_first (filter (covers property_id type check_in) periods)) in
      record y {
        closed_to_departure =
            y.closed_to_departure
            || any (λ p. p.closed_to_departure)
                (filter (covers property_id type check_out) periods);
      }

abbrev pub below : ℤ → Option ℕ → Bool
below nights none = false
below nights (some least) = ltb_ℤ nights (pos least)

abbrev pub above : ℤ → Option ℕ → Bool
above nights none = false
above nights (some most) = ltb_ℤ (pos most) nights

-- what makes `checkPublicAvailability` pass over a room type
abbrev pub refuses : YieldRestrictions → ℤ → Bool
refuses y nights =
    y.stop_sell
    || y.closed_to_arrival
    || y.closed_to_departure
    || below nights y.min_stay
    || above nights y.max_stay
