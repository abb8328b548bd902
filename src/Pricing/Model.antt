-- ===== src/Pricing/Model.antt =====
-- modules/pricing/entities/pricing-rule.entity.ts.
use property_os.Common.{ℕ, String, Bool, Option}
use property_os.Common.Int.{ℤ}

pub data PricingRuleType : Type 0 where
  weekend weekday last_minute early_bird length_of_stay occupancy : PricingRuleType

pub record PricingRule (N : Type 0) : Type 0 where
  pub id : ℕ
  pub property_id : ℕ
  pub room_type_id : Option ℕ
  pub name : String
  pub rule_type : PricingRuleType
  pub modifier_percent : N
  pub days_before_checkin : Option ℤ
  pub min_nights : Option ℤ
  pub occupancy_threshold_percent : Option N
  pub priority : ℤ
  pub is_active : Bool
