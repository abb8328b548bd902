-- ===== src/Inventory/Prices.antt =====
-- `getEffectivePrice` and `getDerivedPrice` of modules/inventory/inventory.service.ts: the price of a
-- room type on one night, before the pricing rules.
use property_os.Common.{
  ℕ, ◌-◌, Bool, true, false, not, ◌&&◌, Option, none, some, List, ◌++◌, filter, find_one, ltb, leb,
  ◌==◌, if◌then◌else◌,
}
use property_os.Common.Int.{pos}
use property_os.Numeric.{Number, hundred, round_cents}
use property_os.Service.{Result, ok, thrown, not_found}
use property_os.Entities.{RoomType, RatePeriod}

abbrev pub for_type : Option ℕ → ℕ → Bool
for_type none type = true
for_type (some t) type = t == type

abbrev pub is_specific : Option ℕ → Bool
is_specific none = false
is_specific (some t) = true

module _ {N : Type 0} where
  -- the `where` of the queries on rate periods: active, of the property, over the day, and of the
  -- room type or of every type
  abbrev pub covers : ℕ → ℕ → ℕ → RatePeriod N → Bool
  covers property_id type day r =
      r.property_id == property_id
      && r.is_active
      && leb r.start_date day
      && leb day r.end_date
      && for_type r.room_type_id type

  -- `ORDER BY room_type_id DESC NULLS LAST` among periods of one type or of every type
  unfoldable pub specific_first : List (RatePeriod N) → List (RatePeriod N)
  specific_first rows =
      filter (λ r. is_specific r.room_type_id) rows
      ++ filter (λ r. not (is_specific r.room_type_id)) rows

module _ {N : Type 0} ⦃num : Number N⦄ where
  open num use {of_int, add, mul, div, is_truthy}

  abbrev is_set : Option N → Bool
  is_set none = false
  is_set (some x) = is_truthy x

  abbrev modified_price : Option N → N → N
  modified_price none base = base
  modified_price (some percent) base =
      if is_truthy percent
      then round_cents (mul base (add (of_int (pos 1)) (div percent hundred)))
      else base

  abbrev overridden_price : Option N → Option N → N → N
  overridden_price none modifier base = modified_price modifier base
  overridden_price (some price) modifier base =
      if is_truthy price then price else modified_price modifier base

  abbrev price_under : Option (RatePeriod N) → N → N
  price_under none base = base
  price_under (some r) base = overridden_price r.price_override r.price_modifier base

  abbrev first : List (RatePeriod N) → Option (RatePeriod N)
  first = find_one (λ _. true)

  abbrev price_of_type : List (RatePeriod N) → ℕ → ℕ → ℕ → Option (RoomType N) → Result N
  price_of_type periods type property_id day none = thrown (not_found "Room type not found")
  price_of_type periods type property_id day (some rt) = ok (
      price_under (first (specific_first (filter (covers property_id type day) periods)))
        rt.base_price)

  unfoldable pub get_effective_price :
      List (RoomType N) → List (RatePeriod N) → ℕ → ℕ → ℕ → Result N
  unfolding specific_first
  get_effective_price types periods type property_id day =
      price_of_type periods type property_id day
        (find_one (λ (rt : RoomType N). rt.id == type && rt.property_id == property_id) types)

  -- `rt.base_occupancy || 2`
  abbrev occupancy_base : RoomType N → ℕ
  occupancy_base rt = if rt.base_occupancy == 0 then 2 else rt.base_occupancy

  abbrev with_extra_guests : RoomType N → N → ℕ → Option N → N
  with_extra_guests rt base guests none = base
  with_extra_guests rt base guests (some rate) =
      if ltb (occupancy_base rt) guests
      then round_cents (add base (mul (of_int (pos (guests - occupancy_base rt))) rate))
      else base

  abbrev derived_price : RoomType N → N → ℕ → Option N → N
  derived_price rt base guests none = with_extra_guests rt base guests rt.extra_person_rate
  derived_price rt base guests (some rate) =
      if guests == 1 then rate else with_extra_guests rt base guests rt.extra_person_rate

  abbrev derived_for : Option (RoomType N) → N → ℕ → N
  derived_for none base guests = base
  derived_for (some rt) base guests = derived_price rt base guests rt.single_occupancy_rate

  unfoldable pub get_derived_price : List (RoomType N) → ℕ → N → ℕ → N
  get_derived_price types type base guests =
      derived_for (find_one (λ (rt : RoomType N). rt.id == type) types) base guests
