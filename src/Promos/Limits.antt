-- ===== src/Promos/Limits.antt =====
-- The limit on the use of a promo code, in `validate` and `applyDiscount`.
use property_os.Common.{
  ℕ, suc, ◌+◌, ◌≤◌, ◌≡◌, arith, String, Option, some, List, In, In-save, leb, Bool-cases, inl, inr,
}
use property_os.Numeric.{Number}
use property_os.Promos.Model.{PromoCode, DiscountType}
use property_os.Promos.Service.{valid, validate, find_active, apply_discount}

module _ {N : Type 0} ⦃num : Number N⦄ (to_upper : String → String) where
  -- A code that is found valid and then applied is used once more, and where it has a limit (one of 0 is
  -- none) it has not been used more often than the limit.
  pub applied_within_limit :
      (table : List (PromoCode N)) (property_id : ℕ) (code : String) (today : ℕ) (nights : Option ℕ)
      (amount total : N) (p : PromoCode N) (t : DiscountType) (v : N)
      → find_active to_upper property_id code table ≡ some p
      → validate to_upper table property_id code today nights (some amount) ≡ valid t v
      → In
          (record p { usage_count = p.usage_count + 1 })
          (apply_discount to_upper property_id code total table).1
        × ((limit : ℕ) → p.usage_limit ≡ some (suc limit) → p.usage_count + 1 ≤ suc limit)
  unfolding validate apply_discount
  applied_within_limit table property_id code today nights amount total p t v f h = (
    rw f (In-save (λ (x : PromoCode N). x.id) _ table),
    λ limit e.
        (let checked = rw e at (rw f at h) in
          elim (Bool-cases (leb (suc limit) p.usage_count)) [
            | inl k ↦ ground (arith, checked)
            | inr k ↦ ground arith
          ]),
  )
