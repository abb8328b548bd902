-- ===== src/Promos/Service.antt =====
-- `validate` and `applyDiscount` of modules/promos/promos.service.ts. `to_upper` is the runtime's
-- `toUpperCase`, and `today` the day of the clock.
use text.Mathlib.Text.{◌==◌ as ◌≟◌}
use property_os.Common.{
  ℕ, ◌+◌, String, Bool, false, not, ◌&&◌, Option, none, some, List, find_one, save, ltb, leb, ◌==◌,
  if◌then◌else◌,
}
use property_os.Numeric.{Number, nought, hundred, round_cents}
use property_os.Service.{Exec, pure, modify, ◌>>◌}
use property_os.Promos.Model.{PromoCode, DiscountType, percentage, fixed}

pub data Validation (N : Type 0) : Type 0 where
  valid : DiscountType → N → Validation N
  invalid : String → Validation N

-- `promo.valid_from && today < promo.valid_from`
abbrev before_start : Option ℕ → ℕ → Bool
before_start none today = false
before_start (some start) today = ltb today start

abbrev after_end : Option ℕ → ℕ → Bool
after_end none today = false
after_end (some last) today = ltb last today

-- `promo.usage_limit && promo.usage_count >= promo.usage_limit`: a limit of 0 is no limit
abbrev used_up : Option ℕ → ℕ → Bool
used_up none count = false
used_up (some limit) count = not (limit == 0) && leb limit count

-- `promo.min_nights && nights && nights < promo.min_nights`
abbrev too_short : Option ℕ → Option ℕ → Bool
too_short (some least) (some nights) = not (least == 0) && not (nights == 0) && ltb nights least
too_short _ _ = false

module _ {N : Type 0} ⦃num : Number N⦄ (to_upper : String → String) where
  open num use {sub, mul, div, min, lt, is_truthy}

  -- `promo.min_amount && totalAmount && totalAmount < Number(promo.min_amount)`
  abbrev too_cheap : Option N → Option N → Bool
  too_cheap (some least) (some total) = is_truthy least && is_truthy total && lt total least
  too_cheap _ _ = false

  abbrev pub find_active : ℕ → String → List (PromoCode N) → Option (PromoCode N)
  find_active property_id code =
      find_one (λ p. p.property_id == property_id && p.code ≟ to_upper code && p.is_active)

  abbrev check : PromoCode N → ℕ → Option ℕ → Option N → Validation N
  check p today nights total =
      if before_start p.valid_from today
      then invalid "Promo code is not yet active"
      else if after_end p.valid_to today
      then invalid "Promo code has expired"
      else if used_up p.usage_limit p.usage_count
      then invalid "Promo code usage limit reached"
      else if too_short p.min_nights nights
      then invalid "Minimum nights required"
      else if too_cheap p.min_amount total
      then invalid "Minimum booking amount required"
      else valid p.discount_type p.discount_value

  abbrev check_found : Option (PromoCode N) → ℕ → Option ℕ → Option N → Validation N
  check_found none today nights total = invalid "Invalid promo code"
  check_found (some p) today nights total = check p today nights total

  unfoldable pub validate : List (PromoCode N) → ℕ → String → ℕ → Option ℕ → Option N → Validation N
  validate table property_id code today nights total =
      check_found (find_active property_id code table) today nights total

  -- the amount taken off, by the kind of the discount
  pub discount_of : PromoCode N → DiscountType → N → N
  discount_of p percentage total = round_cents (mul total (div p.discount_value hundred))
  discount_of p fixed total = min p.discount_value total

  -- `discountedPrice` and `discountAmount`
  abbrev apply_found : Option (PromoCode N) → N → Exec (List (PromoCode N)) (N × N)
  apply_found none total = pure (total, nought)
  apply_found (some p) total = do
    let amount : N = discount_of p p.discount_type total
    modify (save (λ (x : PromoCode N). x.id) (record p { usage_count = p.usage_count + 1 }))
    pure (round_cents (sub total amount), amount)

  unfoldable pub apply_discount : ℕ → String → N → Exec (List (PromoCode N)) (N × N)
  apply_discount property_id code total table =
      apply_found (find_active property_id code table) total table
