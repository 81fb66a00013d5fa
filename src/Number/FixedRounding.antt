-- ===== src/Number/FixedRounding.antt =====
-- The decimal type meets the laws of rounded arithmetic.
use native.Mathlib.Nat.{le-div_iff_mul-le, div-mul-le_self, mul-le-mul_left, one-le-pow}
use beam_clmm.Prelude.{◌≡◌, ℕ, true, ◌≤◌, refl, le→leb, suc, ◌<◌, ◌+◌, arith, zero, ◌*◌, ◌/◌, ◌^◌}
use beam_clmm.Prelude.Int.{ℤ, pos, negsuc, ◌-ℤ◌, ◌+ℤ◌, quot, ◌*ℤ◌, leb_ℤ, diff}
use beam_clmm.Number.Order.{◌≼◌}
use beam_clmm.Number.Fixed.{Fixed, nan, inf, fin, fixed_number}
use beam_clmm.Number.Rounding.{IsRounded}

div_mono : (a b d : ℕ) → 0 < d → a ≤ b → a / d ≤ b / d
div_mono a b d p h = (le-div_iff_mul-le p).1 (omega (arith, div-mul-le_self a d))

leb-diff : (x y x' y' : ℕ) → x + y' ≤ x' + y → leb_ℤ (diff x y) (diff x' y') ≡ true
leb-diff x y x' y' h = ground arith

leb-diff_pos : (k b : ℕ) → leb_ℤ (diff 0 k) (pos b) ≡ true
leb-diff_pos k b = ground arith

quot_mono : (u v : ℤ) → leb_ℤ u v ≡ true → leb_ℤ (quot u 1_000_000) (quot v 1_000_000) ≡ true
unfolding quot
quot_mono (pos a) (pos b) h =
    le→leb _ _ (omega (arith, div_mono a b 1_000_000 (omega arith) (ground arith)))
quot_mono (pos a) (negsuc b) h = ground arith
quot_mono (negsuc a) (pos b) h = leb-diff_pos (suc a / 1_000_000) (b / 1_000_000)
quot_mono (negsuc a) (negsuc b) h =
    leb-diff 0 (suc a / 1_000_000) 0 (suc b / 1_000_000)
      (omega (arith, div_mono (suc b) (suc a) 1_000_000 (omega arith) (ground arith)))

mul_mono : (c : ℕ) (u v : ℤ) → leb_ℤ u v ≡ true → leb_ℤ (pos c *ℤ u) (pos c *ℤ v) ≡ true
unfolding ◌*ℤ◌
mul_mono c (pos a) (pos b) h =
    leb-diff (c * a + 0 * 0) (c * 0 + 0 * a) (c * b + 0 * 0) (c * 0 + 0 * b)
      (omega (arith, mul-le-mul_left {m = a} {n = b} c (ground arith)))
mul_mono c (pos a) (negsuc b) h = ground arith
mul_mono c (negsuc a) (pos b) h =
    leb-diff (c * 0 + 0 * suc a) (c * suc a + 0 * 0) (c * b + 0 * 0) (c * 0 + 0 * b) (omega arith)
mul_mono c (negsuc a) (negsuc b) h =
    leb-diff (c * 0 + 0 * suc a) (c * suc a + 0 * 0) (c * 0 + 0 * suc b) (c * suc b + 0 * 0)
      (omega (arith, mul-le-mul_left {m = suc b} {n = suc a} c (ground arith)))

add_mono_fixed :
    (x y z : Fixed)
    → fixed_number.is_finite z ≡ true
    → x ≼ y
    → fixed_number.add z x ≼ fixed_number.add z y
unfolding ◌+ℤ◌
add_mono_fixed x y z f h = ground arith

sub_sign_fixed :
    (x y : Fixed)
    → fixed_number.is_finite x ≡ true
    → fixed_number.is_finite y ≡ true
    → fixed_number.lt (fixed_number.lit 0 0) (fixed_number.sub x y) ≡ fixed_number.lt y x
unfolding ◌-ℤ◌
sub_sign_fixed (fin (pos a)) (fin (pos b)) p q = ground arith
sub_sign_fixed (fin (pos a)) (fin (negsuc b)) p q = ground arith
sub_sign_fixed (fin (negsuc a)) (fin (pos b)) p q = ground arith
sub_sign_fixed (fin (negsuc a)) (fin (negsuc b)) p q = ground arith
sub_sign_fixed nan y p q = cc
sub_sign_fixed inf y p q = cc
sub_sign_fixed (fin a) nan p q = cc
sub_sign_fixed (fin a) inf p q = cc

mul_mono_fixed :
    (x y z : Fixed)
    → fixed_number.is_finite z ≡ true
    → fixed_number.lt (fixed_number.lit 0 0) z ≡ true
    → x ≼ y
    → fixed_number.mul z x ≼ fixed_number.mul z y
mul_mono_fixed (fin x) (fin y) (fin (pos (suc c))) f p h = quot_mono _ _ (mul_mono (suc c) x y h)
mul_mono_fixed (fin x) inf (fin (pos (suc c))) f p h = refl
mul_mono_fixed inf inf (fin (pos (suc c))) f p h = refl
mul_mono_fixed x y (fin (pos zero)) f p h = ground arith
mul_mono_fixed x y (fin (negsuc c)) f p h = ground arith
mul_mono_fixed x y nan f p h = cc
mul_mono_fixed x y inf f p h = cc
mul_mono_fixed nan y (fin (pos (suc c))) f p h = cc
mul_mono_fixed inf (fin y) (fin (pos (suc c))) f p h = cc
mul_mono_fixed inf nan (fin (pos (suc c))) f p h = cc
mul_mono_fixed (fin x) nan (fin (pos (suc c))) f p h = cc

lit_mono_fixed : (m k d : ℕ) → m ≤ k → fixed_number.lit m d ≼ fixed_number.lit k d
lit_mono_fixed m k d h = le→leb _ _ (
    omega (
      arith,
      div_mono (m * 1_000_000) (k * 1_000_000) (10 ^ d) (one-le-pow d 10 (omega arith))
          (omega arith),
    ))

pub Fixed-IsRounded : IsRounded Fixed
Fixed-IsRounded = record {
  add_mono = add_mono_fixed;
  mul_mono = mul_mono_fixed;
  sub_sign = sub_sign_fixed;
  one_finite = refl;
  lit_mono = lit_mono_fixed;
}
