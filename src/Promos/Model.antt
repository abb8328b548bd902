-- ===== src/Promos/Model.antt =====
-- modules/promos/entities/promo-code.entity.ts.
use property_os.Common.{ℕ, String, Bool, Option}

pub data DiscountType : Type 0 where
  percentage fixed : DiscountType

pub record PromoCode (N : Type 0) : Type 0 where
  pub id : ℕ
  pub property_id : ℕ
  pub code : String
  pub description : Option String
  pub discount_type : DiscountType
  pub discount_value : N
  pub valid_from : Option ℕ
  pub valid_to : Option ℕ
  pub usage_limit : Option ℕ
  pub usage_count : ℕ
  pub min_nights : Option ℕ
  pub min_amount : Option N
  pub is_active : Bool
