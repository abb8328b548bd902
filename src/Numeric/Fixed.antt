-- ===== src/Numeric/Fixed.antt =====
-- A concrete number type that meets the laws: integers counting ten-thousandths, with products and
-- quotients cut to four decimals. Examples and tests run on it.
use property_os.Common.{
  ℕ, suc, ◌+◌, ◌*◌, ◌/◌, refl, Bool, true, false, not, some, none, ltb, arith, if◌then◌else◌, ◌==◌,
}
use property_os.Common.Int.{
  ℤ, pos, negsuc, pos_part, neg_part, sub_ℕ, ◌+ℤ◌, ◌-ℤ◌, ◌*ℤ◌, ltb_ℤ, leb_ℤ, +ℤ_parts,
}
use property_os.Numeric.Defs.{Number, IsDouble}

abbrev pub Fixed : Type 0
Fixed = ℤ

abbrev scale : ℕ
scale = 10_000

abbrev magnitude : ℤ → ℕ
magnitude a = pos_part a + neg_part a

abbrev is_negative : ℤ → Bool
is_negative (pos n) = false
is_negative (negsuc n) = true

-- a quotient cut towards zero, with the sign of `a * b`
abbrev signed : ℤ → ℤ → ℕ → ℤ
signed (pos a) b n = if is_negative b then sub_ℕ 0 n else pos n
signed (negsuc a) b n = if is_negative b then pos n else sub_ℕ 0 n

-- the magnitude rounded to two decimals, a half away from zero
abbrev cents : ℤ → ℕ
cents a = (magnitude a + 50) / 100 * 100

abbrev floor : ℤ → ℤ
floor (pos n) = pos (n / scale * scale)
floor (negsuc n) = sub_ℕ 0 (suc (n / scale) * scale)

instance abbrev pub fixed_number : Number Fixed
fixed_number = record {
  of_int = λ z. z *ℤ pos scale;
  add = λ a b. a +ℤ b;
  sub = λ a b. a -ℤ b;
  mul = λ a b. signed a b (magnitude a * magnitude b / scale);
  div = λ a b. if magnitude b == 0 then pos 0 else signed a b (magnitude a * scale / magnitude b);
  round = λ a. floor (a +ℤ pos 5000);
  ceil = λ a. floor (a +ℤ pos 9999);
  min = λ a b. if leb_ℤ a b then a else b;
  max = λ a b. if leb_ℤ a b then b else a;
  lt = λ a b. ltb_ℤ a b;
  le = λ a b. leb_ℤ a b;
  is_truthy = λ a. not (magnitude a == 0);
  column = λ a. if ltb (cents a) 1_000_000_000_000 then some (signed a (pos 1) (cents a)) else none;
}

-- Whole tens of thousandths meet the laws.
pub Fixed-IsDouble : IsDouble Fixed
Fixed-IsDouble = record {
  nought_refl = refl;
  refl_of_le = λ x y h. ground arith;
  le_trans = λ x y z h k. ground arith;
  lt_of_lt_of_le = λ x y z h k. ground arith;
  lt-eq-not-le = λ x y h k. ground arith;
  le-add = λ x y h k. ground (arith, +ℤ_parts x y);
  add_mono = λ x y z h k l. ground (arith, +ℤ_parts x z, +ℤ_parts y z);
  min-le = λ x y h k. ground arith;
  le-min = λ x y z h k. ground arith;
  le-max = λ x y h k. ground arith;
  max-le = λ x y z h k. ground arith;
}
