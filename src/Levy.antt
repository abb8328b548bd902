-- ===== src/Levy.antt =====
-- modules/tourism-levy of the API: the settings of a property, the levy of a stay, and its record.
use property_os.Common.{ℕ, String, Bool, true, false}
use property_os.Common.Int.{ℤ, pos}
use property_os.Numeric.{Number, nought, hundred, round_cents}

pub data LevyType : Type 0 where
  per_night per_guest_per_night percentage : LevyType

pub record LevySettings (N : Type 0) : Type 0 where
  pub property_id : ℕ
  pub enabled : Bool
  pub levy_type : LevyType
  pub levy_amount : N
  pub levy_percent : N
  pub levy_name : String

pub record LevyRecord (N : Type 0) : Type 0 where
  pub property_id : ℕ
  pub booking_id : ℕ
  pub guest_id : ℕ
  pub levy_name : String
  pub levy_type : LevyType
  pub nights : ℤ
  pub guest_count : ℕ
  pub rate : N
  pub total_levy : N
  pub check_in : ℕ
  pub check_out : ℕ

module _ {N : Type 0} ⦃num : Number N⦄ where
  open num use {of_int, mul, div}

  -- the `switch` on `settings.levy_type`: the levy and its rate
  levy_by_type : LevyType → LevySettings N → ℤ → ℕ → N → N × N
  levy_by_type per_night s nights guests total =
      (round_cents (mul s.levy_amount (of_int nights)), s.levy_amount)
  levy_by_type per_guest_per_night s nights guests total =
      (round_cents (mul (mul s.levy_amount (of_int nights)) (of_int (pos guests))), s.levy_amount)
  levy_by_type percentage s nights guests total =
      (round_cents (div (mul total s.levy_percent) hundred), s.levy_percent)

  unfoldable pub calculate_levy : LevySettings N → ℤ → ℕ → N → N × N
  unfolding levy_by_type
  calculate_levy s nights guests total = elim s.enabled [
    | false ↦ (nought, nought)
    | true ↦ levy_by_type s.levy_type s nights guests total
  ]
