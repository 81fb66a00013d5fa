-- ===== src/Number/Fixed.antt =====
-- A concrete number type that meets the laws: NaN, infinity, and integers that count millionths.
-- It instantiates the theorems at concrete inputs; it is not IEEE arithmetic.
use beam_clmm.Prelude.{
  ℕ, suc, ◌+◌, ◌*◌, ◌/◌, ◌^◌, ◌%◌, Bool, true, false, ◌&&◌, arith, ◌==◌, if◌then◌else◌,
}
use beam_clmm.Prelude.Int.{
  ℤ, pos, negsuc, ◌+ℤ◌, ◌-ℤ◌, ◌*ℤ◌, leb_ℤ, ltb_ℤ, quot, diff, plus_part, minus_part,
}
use beam_clmm.Number.{Number}
use beam_clmm.Number.Order.{IsOrdered}

pub data Fixed : Type 0 where
  nan : Fixed
  inf : Fixed
  fin : ℤ → Fixed

abbrev scale : ℕ
scale = 1_000_000

abbrev fixed_lit : ℕ → ℕ → Fixed
fixed_lit m k = fin (pos (m * scale / 10 ^ k))

abbrev lift : (ℤ → ℤ → ℤ) → Fixed → Fixed → Fixed
lift f (fin a) (fin b) = fin (f a b)
lift f _ _ = nan

-- Sums and positive multiples of infinity are infinite.
abbrev fixed_add : Fixed → Fixed → Fixed
fixed_add (fin a) (fin b) = fin (a +ℤ b)
fixed_add (fin a) inf = inf
fixed_add inf (fin b) = inf
fixed_add inf inf = inf
fixed_add _ _ = nan

abbrev fixed_mul : Fixed → Fixed → Fixed
fixed_mul (fin a) (fin b) = fin (quot (a *ℤ b) scale)
fixed_mul (fin (pos (suc a))) inf = inf
fixed_mul inf (fin (pos (suc b))) = inf
fixed_mul inf inf = inf
fixed_mul _ _ = nan

abbrev fixed_div : Fixed → Fixed → Fixed
fixed_div (fin a) (fin (pos (suc d))) = fin (quot (a *ℤ pos scale) (suc d))
fixed_div (fin a) (fin (negsuc d)) = fin (quot (pos 0 -ℤ a *ℤ pos scale) (suc d))
fixed_div _ _ = nan

abbrev fixed_le : Fixed → Fixed → Bool
fixed_le (fin a) (fin b) = leb_ℤ a b
fixed_le (fin a) inf = true
fixed_le inf inf = true
fixed_le _ _ = false

abbrev fixed_lt : Fixed → Fixed → Bool
fixed_lt (fin a) (fin b) = ltb_ℤ a b
fixed_lt (fin a) inf = true
fixed_lt _ _ = false

abbrev fixed_min : Fixed → Fixed → Fixed
fixed_min nan y = nan
fixed_min x nan = nan
fixed_min x y = if fixed_le x y then x else y

abbrev fixed_max : Fixed → Fixed → Fixed
fixed_max nan y = nan
fixed_max x nan = nan
fixed_max x y = if fixed_le x y then y else x

abbrev fixed_neg : Fixed → Fixed
fixed_neg (fin a) = fin (pos 0 -ℤ a)
fixed_neg _ = nan

abbrev fixed_abs : Fixed → Fixed
fixed_abs (fin a) = fin (pos (plus_part a + minus_part a))
fixed_abs x = x

abbrev fixed_floor : Fixed → Fixed
fixed_floor (fin (pos m)) = fin (pos (m / scale * scale))
fixed_floor (fin (negsuc m)) = fin (diff 0 ((m / scale + 1) * scale))
fixed_floor x = x

abbrev fixed_finite : Fixed → Bool
fixed_finite (fin a) = true
fixed_finite _ = false

abbrev fixed_integer : Fixed → Bool
fixed_integer (fin a) = (plus_part a + minus_part a) % scale == 0
fixed_integer _ = false

abbrev fixed_big : Fixed → ℤ
fixed_big (fin (pos m)) = pos (m / scale)
fixed_big (fin (negsuc m)) = diff 0 (suc m / scale)
fixed_big _ = pos 0

instance abbrev pub fixed_number : Number Fixed
fixed_number = record {
  lit = fixed_lit;
  infinity = inf;
  add = fixed_add;
  sub = lift ◌-ℤ◌;
  mul = fixed_mul;
  div = fixed_div;
  neg = fixed_neg;
  abs = fixed_abs;
  floor = fixed_floor;
  min = fixed_min;
  max = fixed_max;
  le = fixed_le;
  lt = fixed_lt;
  eq = λ a b. fixed_le a b && fixed_le b a;
  is_finite = fixed_finite;
  is_integer = fixed_integer;
  to_big = fixed_big;
  of_big = λ z. fin (z *ℤ pos scale);
}

pub Fixed-IsOrdered : IsOrdered Fixed
Fixed-IsOrdered = ground arith
