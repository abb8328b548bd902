-- ===== src/Bookings/Public/Finish.antt =====
-- What `createPublicBooking` of modules/bookings/bookings.service.ts does once the rooms are chosen:
-- the bookings, the promo code over them, the deposit and the levy.
use property_os.Common.{
  ℕ, ◌-◌, String, Bool, false, ◌&&◌, Option, none, some, List, [], ◌∷◌, find_one, push, ◌==◌,
  if◌then◌else◌,
}
use property_os.Common.Int.{ℤ}
use property_os.Numeric.{Number, nought, hundred, round_cents, sum_from}
use property_os.Service.{
  Exec, Result, ok, thrown, not_found, pure, or_throw, gets, modify, ◌>>=◌, ◌>>◌, is_truthy_text,
}
use text.Mathlib.Text.{◌==◌ as ◌≟◌}
use property_os.Entities.{Booking, pending, Property}
use property_os.Database.{Db}
use property_os.Levy.{LevySettings, LevyRecord, per_night, calculate_levy}
use property_os.Promos.Service.{Validation, valid, invalid, validate, apply_discount}
use property_os.Bookings.Request.{Env, calc_nights}
use property_os.Bookings.Create.{create_booking}
use property_os.Bookings.Status.{store}
use property_os.Bookings.Public.{PublicBookingDto, chosen_rooms, booking_dto}

-- the answer of `createPublicBooking`
pub record PublicBooking (N : Type 0) : Type 0 where
  pub bookings : List (Booking N)
  pub total_price : N
  pub deposit_required : Bool
  pub deposit_amount : N
  pub discount_amount : N
  pub tourism_levy : N

module _ {N : Type 0} ⦃num : Number N⦄ where
  open num use {of_int, add, sub, mul, div, round, min, max, lt, is_truthy}

  abbrev pub total_of : List (Booking N) → N
  total_of bookings = sum_from nought (λ b. b.total_price) bookings

  -- a booking with its share of a discount on the total of the group
  abbrev pub with_discount : N → N → ℤ → String → Booking N → Booking N
  with_discount discount total nights code b =
      let share = round_cents (mul discount (div b.total_price total)) in
      let price = sub b.total_price share in
      record b {
        total_price = price;
        promo_code = some code;
        discount_amount = share;
        nightly_rate = round_cents (div price (of_int nights));
      }

  -- the loops that save each booking after a change
  unfoldable pub save_each :
      (Booking N → Booking N) → List (Booking N) → Exec (Db N) (List (Booking N))
  save_each f [] = pure []
  save_each f (b ∷ bs) = do store (f b); rest ← save_each f bs; pure (f b ∷ rest)

  -- `result.discountAmount`; `applyDiscount` does not throw
  abbrev pub amount_of : Result (N × N) → N
  amount_of (ok (price, amount)) = amount
  amount_of (thrown e) = nought

  abbrev pub discount_if :
      (String → String)
      → Validation N
      → ℕ
      → String
      → ℤ
      → List (Booking N)
      → Exec (Db N) (N × List (Booking N))
  discount_if to_upper (invalid reason) property_id code nights bookings = pure (nought, bookings)
  discount_if to_upper (valid type value) property_id code nights bookings = do
    codes ← gets (λ (d : Db N). d.promo_codes)
    let out = apply_discount to_upper property_id code (total_of bookings) codes
    modify λ d. record d { promo_codes = out.1 }
    saved ←
        save_each (with_discount (amount_of out.0) (total_of bookings) nights (to_upper code))
          bookings
    pure (amount_of out.0, saved)

  -- `if (dto.promoCode) …`
  abbrev pub apply_promo :
      (String → String)
      → ℕ
      → ℕ
      → ℕ
      → ℕ
      → Option String
      → List (Booking N)
      → Exec (Db N) (N × List (Booking N))
  apply_promo to_upper today property_id start end none bookings = pure (nought, bookings)
  apply_promo to_upper today property_id start end (some code) bookings =
      if is_truthy_text (some code)
      then (gets (λ (d : Db N). d.promo_codes) >>= λ codes.
          discount_if to_upper
            (validate to_upper codes property_id code today (some (end - start))
              (some (total_of bookings)))
            property_id code (calc_nights start end) bookings)
      else pure (nought, bookings)

  abbrev pub as_pending : Booking N → Booking N
  as_pending b = record b { status = pending }

  abbrev default_levy : ℕ → LevySettings N
  default_levy property_id = record {
    property_id = property_id;
    enabled = false;
    levy_type = per_night;
    levy_amount = nought;
    levy_percent = nought;
    levy_name = "Tourism Levy";
  }

  abbrev levy_or_default : ℕ → Option (LevySettings N) → LevySettings N
  levy_or_default property_id none = default_levy property_id
  levy_or_default property_id (some s) = s

  abbrev keep_levy : ℕ → Option (LevySettings N) → List (LevySettings N) → List (LevySettings N)
  keep_levy property_id none rows = push rows (default_levy property_id)
  keep_levy property_id (some s) rows = rows

  -- `getSettings` of modules/tourism-levy
  unfoldable pub get_levy_settings : ℕ → Exec (Db N) (LevySettings N)
  get_levy_settings property_id = do
    rows ← gets (λ (d : Db N). d.levy_settings)
    let found = find_one (λ (s : LevySettings N). s.property_id == property_id) rows
    modify λ d. record d { levy_settings = keep_levy property_id found rows }
    pure (levy_or_default property_id found)

  abbrev levy_record : LevySettings N → ℕ → ℕ → ℕ → Booking N → N → N → LevyRecord N
  levy_record s property_id start end b levy rate = record {
    property_id = property_id;
    booking_id = b.id;
    guest_id = b.guest_id;
    levy_name = s.levy_name;
    levy_type = s.levy_type;
    nights = calc_nights start end;
    guest_count = b.guest_count;
    rate = rate;
    total_levy = levy;
    check_in = start;
    check_out = end;
  }

  -- the loop over the bookings, with the levy so far
  unfoldable pub record_levies : LevySettings N → ℕ → ℕ → ℕ → N → List (Booking N) → Exec (Db N) N
  record_levies s property_id start end sum [] = pure sum
  record_levies s property_id start end sum (b ∷ bs) =
      let (levy, rate) = calculate_levy s (calc_nights start end) b.guest_count b.total_price in
      let charged = record_levies s property_id start end (add sum levy) bs in
      let spared = record_levies s property_id start end sum bs in
      if lt nought levy
      then modify (λ (d : Db N). record d {
        levy_records = push d.levy_records (levy_record s property_id start end b levy rate);
      })
        >> charged
      else spared

  abbrev pub levies_if : LevySettings N → ℕ → ℕ → ℕ → List (Booking N) → Exec (Db N) N
  levies_if s property_id start end bookings =
      if s.enabled then record_levies s property_id start end nought bookings else pure nought

  unfoldable pub charge_levy : ℕ → ℕ → ℕ → List (Booking N) → Exec (Db N) N
  unfolding get_levy_settings
  charge_levy property_id start end bookings = do
    levy ← get_levy_settings property_id
    levies_if levy property_id start end bookings

  -- `property.deposit_required && Number(property.deposit_percentage) > 0`
  abbrev pub needs_deposit : Property N → Bool
  needs_deposit p = p.deposit_required && lt nought p.deposit_percentage

  -- `Math.max(0, Math.min(100, Number(property.deposit_percentage) || 0))`
  abbrev deposit_percent : Property N → N
  deposit_percent p =
      max nought
        (min hundred (if is_truthy p.deposit_percentage then p.deposit_percentage else nought))

  abbrev pub deposit_of : Property N → N → N
  deposit_of p total =
      if needs_deposit p then round (div (mul total (deposit_percent p)) hundred) else nought

  unfoldable pub create_public_booking :
      (String → String) → Env → ℕ → PublicBookingDto → Exec (Db N) (PublicBooking N)
  unfolding save_each
  create_public_booking to_upper env today dto = do
    rows ← gets (λ (d : Db N). d.properties)
    property ←
        or_throw
          (find_one
            (λ (p : Property N). p.slug ≟ dto.property_slug && p.is_active && p.is_published) rows)
          (not_found "Property not found")
    rooms ← chosen_rooms property.id dto dto.room_id
    made ← create_booking env (booking_dto property.id rooms dto)
    (discount, reduced) ←
        apply_promo to_upper today property.id dto.check_in dto.check_out dto.promo_code made
    bookings ← if needs_deposit property then save_each as_pending reduced else pure reduced
    charged ← charge_levy property.id dto.check_in dto.check_out bookings
    pure (record {
      bookings = bookings;
      total_price = total_of bookings;
      deposit_required = needs_deposit property;
      deposit_amount = deposit_of property (total_of bookings);
      discount_amount = discount;
      tourism_levy = charged;
    })
