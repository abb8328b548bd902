-- ===== src/Bookings/Quote.antt =====
-- The price and the reference number of a new booking, in `createBooking` and `generateRefNumber` of
-- modules/bookings/bookings.service.ts.
pub mod Reference
use text.Mathlib.Text.{◌==◌ as ◌≟◌}
use property_os.Common.{ℕ, zero, suc, ◌+◌, String, true, false, List, [], ◌∷◌, any}
use property_os.Common.Int.{ℤ}
use property_os.Numeric.{Number, nought}
use property_os.Service.{Result, ok, thrown, conflict}
use property_os.Entities.{Booking}
use property_os.Database.{Db}
use property_os.Pricing.Calculate.{Night, calculate_price}
use property_os.Inventory.Prices.{get_effective_price, get_derived_price}

module _ {N : Type 0} where
  -- the retries of `generateRefNumber`: the first reference drawn that no booking has
  unfoldable pub generate_reference : ℕ → ℕ → (ℕ → String) → List (Booking N) → Result String
  generate_reference zero attempt draw bookings =
      thrown (conflict "Could not generate a unique booking reference")
  generate_reference (suc left) attempt draw bookings =
      elim (any (λ (b : Booking N). b.reference_number ≟ draw attempt) bookings) [
        | true ↦ generate_reference left (attempt + 1) draw bookings
        | false ↦ ok (draw attempt)
      ]

abbrev pub max_attempts : ℕ
max_attempts = 10

module _ {N : Type 0} ⦃num : Number N⦄ where
  open num use {add}

  abbrev continue_total : Result N → (N → Result N) → Result N
  continue_total (ok base) f = f base
  continue_total (thrown e) f = thrown e

  -- the loop over the nights: `i` is the index of the night and `total` the sum so far
  unfoldable pub price_nights :
      Db N → (property_id type guest_count check_in : ℕ) → ℤ → ℕ → ℕ → N → List ℕ → Result N
  price_nights db property_id type guest_count check_in nights now i total [] = ok total
  price_nights db property_id type guest_count check_in nights now i total (day ∷ days) =
      continue_total (get_effective_price db.room_types db.rate_periods type property_id day)
        λ base.
          let derived = get_derived_price db.room_types type base guest_count in
          let night : Night N = record {
            property_id = property_id;
            room_type_id = type;
            check_in = check_in;
            night_index = i;
            total_nights = nights;
            occupancy_percent = nought;
            now = now;
          } in
          let price = (calculate_price db.pricing_rules night derived).0 in
          price_nights db property_id type guest_count check_in nights now (i + 1) (add total price)
            days
