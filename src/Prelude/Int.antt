-- ===== src/Prelude/Int.antt =====
-- Integers over the native numbers (bigint values), under the library's names.
use Prim.Native.Nat.{ℕ, suc, ◌+◌, ◌-◌, ◌*◌, ◌/◌}
use mathlib.Core.Bool.{Bool, true, ◌&&◌}
use mathlib.Core.Path.{◌≡◌, refl}
use native.Mathlib.Omega.{arith}
use beam_clmm.Prelude.Tests.{leb, ltb, if◌then◌else◌}

-- `negsuc n` is -(n + 1).
pub data ℤ : Type 0 where
  pos : ℕ → ℤ
  negsuc : ℕ → ℤ

abbrev pub plus_part : ℤ → ℕ
plus_part (pos n) = n
plus_part (negsuc n) = 0

abbrev pub minus_part : ℤ → ℕ
minus_part (pos n) = 0
minus_part (negsuc n) = suc n

-- The difference of two numbers.
abbrev pub diff : ℕ → ℕ → ℤ
diff a b = if leb b a then pos (a - b) else negsuc (b - a - 1)

infixl 65 ◌+ℤ◌ ◌-ℤ◌
infixl 70 ◌*ℤ◌
unfoldable pub ◌+ℤ◌ : ℤ → ℤ → ℤ
a +ℤ b = diff (plus_part a + plus_part b) (minus_part a + minus_part b)

unfoldable pub ◌-ℤ◌ : ℤ → ℤ → ℤ
a -ℤ b = diff (plus_part a + minus_part b) (minus_part a + plus_part b)

unfoldable pub ◌*ℤ◌ : ℤ → ℤ → ℤ
a *ℤ b =
    diff (plus_part a * plus_part b + minus_part a * minus_part b)
      (plus_part a * minus_part b + minus_part a * plus_part b)

abbrev pub leb_ℤ : ℤ → ℤ → Bool
leb_ℤ a b = leb (plus_part a + minus_part b) (plus_part b + minus_part a)

abbrev pub ltb_ℤ : ℤ → ℤ → Bool
ltb_ℤ a b = ltb (plus_part a + minus_part b) (plus_part b + minus_part a)

abbrev pub eq_ℤ : ℤ → ℤ → Bool
eq_ℤ a b = leb_ℤ a b && leb_ℤ b a

pub eq_ℤ_refl : (a : ℤ) → eq_ℤ a a ≡ true
eq_ℤ_refl a = ground arith

pub eq_ℤ_sound : (a b : ℤ) → eq_ℤ a b ≡ true → a ≡ b
eq_ℤ_sound (pos m) (pos n) h = let e : m ≡ n = ground arith in rw e refl
eq_ℤ_sound (negsuc m) (negsuc n) h = let e : m ≡ n = ground arith in rw e refl
eq_ℤ_sound (pos m) (negsuc n) h = ground arith
eq_ℤ_sound (negsuc m) (pos n) h = ground arith

-- bigint division by a positive number, which truncates toward zero.
unfoldable pub quot : ℤ → ℕ → ℤ
quot (pos n) d = pos (n / d)
quot (negsuc n) d = diff 0 (suc n / d)
