-- ===== src/Pricing/Calculate.antt =====
-- `calculatePrice` of modules/pricing/pricing.service.ts. `now` is the clock in milliseconds, and days
-- are counted from 1970-01-01, a Thursday.
use property_os.Common.{
  ℕ, ◌+◌, ◌/◌, ◌%◌, String, Bool, true, false, not, ◌&&◌, ◌||◌, Option, none, some, List, [], ◌∷◌,
  filter, push, ◌==◌, if◌then◌else◌,
}
use property_os.Common.Int.{ℤ, pos, sub_ℕ, leb_ℤ}
use property_os.Numeric.{Number, nought, hundred, round_cents}
use property_os.Pricing.Model.{
  PricingRule, PricingRuleType, weekend, weekday, last_minute, early_bird, length_of_stay,
  occupancy,
}

-- `date.getDay()`, where 0 is Sunday
pub day_of_week : ℕ → ℕ
day_of_week day = (day + 4) % 7

unfoldable pub is_weekend : ℕ → Bool
unfolding day_of_week
is_weekend day = let d = day_of_week day in d == 0 || d == 5 || d == 6

-- `Math.ceil((new Date(day).getTime() - now) / 86400000)`
unfoldable pub days_until : ℕ → ℕ → ℤ
days_until day now = sub_ℕ day (now / 86_400_000)

abbrev at_most : ℤ → Option ℤ → Bool
at_most a none = false
at_most a (some b) = leb_ℤ a b

abbrev at_least : ℤ → Option ℤ → Bool
at_least a none = false
at_least a (some b) = leb_ℤ b a

-- `rule.room_type_id && rule.room_type_id !== roomTypeId`
abbrev pub of_other_type : Option ℕ → ℕ → Bool
of_other_type none type = false
of_other_type (some t) type = not (t == type)

-- `order: { priority: 'DESC' }`; rows of one priority stay in the order of the table
module _ {N : Type 0} where
  insert_by_priority : PricingRule N → List (PricingRule N) → List (PricingRule N)
  insert_by_priority r [] = r ∷ []
  insert_by_priority r (x ∷ xs) =
      let rest = x ∷ insert_by_priority r xs in
      if leb_ℤ x.priority r.priority then r ∷ x ∷ xs else rest

  unfoldable pub by_priority : List (PricingRule N) → List (PricingRule N)
  unfolding insert_by_priority
  by_priority [] = []
  by_priority (r ∷ rs) = insert_by_priority r (by_priority rs)

-- what the price of one night is asked for
pub record Night (N : Type 0) : Type 0 where
  pub property_id : ℕ
  pub room_type_id : ℕ
  pub check_in : ℕ
  pub night_index : ℕ
  pub total_nights : ℤ
  pub occupancy_percent : N
  pub now : ℕ

module _ {N : Type 0} ⦃num : Number N⦄ where
  open num use {of_int, add, mul, div, max, le}

  abbrev reaches : N → Option N → Bool
  reaches a none = false
  reaches a (some b) = le b a

  -- the `switch` on `rule.rule_type`
  abbrev pub rule_applies : PricingRuleType → PricingRule N → Night N → Bool
  rule_applies weekend r q = is_weekend (q.check_in + q.night_index)
  rule_applies weekday r q = not (is_weekend (q.check_in + q.night_index))
  rule_applies last_minute r q = at_most (days_until q.check_in q.now) r.days_before_checkin
  rule_applies early_bird r q = at_least (days_until q.check_in q.now) r.days_before_checkin
  rule_applies length_of_stay r q = at_least q.total_nights r.min_nights
  rule_applies occupancy r q = reaches q.occupancy_percent r.occupancy_threshold_percent

  -- `Math.round(price * (1 + Number(rule.modifier_percent) / 100) * 100) / 100`
  pub modify_price : N → N → N
  modify_price price percent = round_cents (mul price (add (of_int (pos 1)) (div percent hundred)))

  -- the loop over the rules, with `price` and `appliedRules`
  pub apply_rules : List (PricingRule N) → Night N → N → List String → N × List String
  apply_rules [] q price applied = (price, applied)
  apply_rules (r ∷ rs) q price applied = elim (of_other_type r.room_type_id q.room_type_id) [
    | true ↦ apply_rules rs q price applied
    | false ↦ elim (rule_applies r.rule_type r q) [
      | true ↦ apply_rules rs q (modify_price price r.modifier_percent) (push applied r.name)
      | false ↦ apply_rules rs q price applied
    ]
  ]

  unfoldable pub calculate_price : List (PricingRule N) → Night N → N → N × List String
  unfolding apply_rules
  calculate_price table q base =
      let rules =
        by_priority
          (filter (λ (r : PricingRule N). r.property_id == q.property_id && r.is_active) table) in
      let (price, applied) = apply_rules rules q base [] in (max nought price, applied)
