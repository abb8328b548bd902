-- ===== src/Numeric/Defs.antt =====
-- The JavaScript `number`, as the services compute with it: an IEEE double, whose type and operations
-- are a parameter. `Number` names the operations that the code applies to prices, amounts, rates and
-- percentages; `IsDouble` states the facts about doubles that the theorems rest on. Each of them is
-- true of infinities too, and of NaN where no premise excludes it (a NaN is not `<=` itself).
use property_os.Common.{◌≡◌, Bool, true, not, Option, List, [], ◌∷◌}
use property_os.Common.Int.{ℤ, pos}

pub record Number (N : Type 0) : Type 0 where
  -- the value of an integer
  pub of_int : ℤ → N
  pub add : N → N → N
  pub sub : N → N → N
  pub mul : N → N → N
  pub div : N → N → N
  -- `Math.round`, `Math.ceil`, `Math.min`, `Math.max`
  pub round : N → N
  pub ceil : N → N
  pub min : N → N → N
  pub max : N → N → N
  -- `a < b`, `a <= b`, and the truth of a value in a test, a number or what the driver returns for a
  -- `decimal` column
  pub lt : N → N → Bool
  pub le : N → N → Bool
  pub is_truthy : N → Bool
  -- what a column of type `decimal(10,2)` keeps of a value, if it takes the value
  pub column : N → Option N

module _ {N : Type 0} ⦃num : Number N⦄ where
  open num use {of_int, add, mul, div, round}

  abbrev pub nought : N
  nought = of_int (pos 0)

  abbrev pub hundred : N
  hundred = of_int (pos 100)

  -- `Math.round(x * 100) / 100`
  pub round_cents : N → N
  round_cents x = div (round (mul x hundred)) hundred

  -- `rows.reduce((sum, r) => sum + value(r), start)`
  abbrev pub sum_from {ℓ} : {A : Type ℓ} → N → (A → N) → List A → N
  sum_from s value [] = s
  sum_from s value (x ∷ xs) = sum_from (add s (value x)) value xs

infix 4 ◌≼◌
abbrev pub ◌≼◌ : {N : Type 0} ⦃num : Number N⦄ → N → N → Type 0
◌≼◌ ⦃num⦄ x y = num.le x y ≡ true

pub record IsDouble (N : Type 0) ⦃num : Number N⦄ : Type 0 where
  pub nought_refl : ◌≼◌ {N = N} nought nought
  pub refl_of_le : (x y : N) → x ≼ y → (x ≼ x) × (y ≼ y)
  pub le_trans : (x y z : N) → x ≼ y → y ≼ z → x ≼ z
  pub lt_of_lt_of_le : (x y z : N) → num.lt x y ≡ true → y ≼ z → num.lt x z ≡ true
  pub lt-eq-not-le : (x y : N) → x ≼ x → y ≼ y → num.lt x y ≡ not (num.le y x)
  pub le-add : (x y : N) → nought ≼ x → nought ≼ y → x ≼ num.add x y
  pub add_mono : (x y z : N) → nought ≼ x → x ≼ y → nought ≼ z → num.add x z ≼ num.add y z
  pub min-le : (x y : N) → x ≼ x → y ≼ y → (num.min x y ≼ x) × (num.min x y ≼ y)
  pub le-min : (x y z : N) → z ≼ x → z ≼ y → z ≼ num.min x y
  pub le-max : (x y : N) → x ≼ x → y ≼ y → (x ≼ num.max x y) × (y ≼ num.max x y)
  pub max-le : (x y z : N) → x ≼ z → y ≼ z → num.max x y ≼ z
