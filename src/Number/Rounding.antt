-- ===== src/Number/Rounding.antt =====
-- Laws of rounded arithmetic: IEEE 754 rounds monotonically, and the sign of a difference of finite
-- numbers is right.
use beam_clmm.Prelude.{◌≡◌, true, ℕ, ◌≤◌, false, sym, ◌∙◌}
use beam_clmm.Number.{Number}
use beam_clmm.Number.Order.{◌≼◌, IsOrdered, le_of_lt, le_of_not_lt}

pub record IsRounded (F : Type 0) ⦃n : Number F⦄ : Type 0 where
  pub add_mono : (x y z : F) → n.is_finite z ≡ true → x ≼ y → n.add z x ≼ n.add z y
  pub mul_mono :
      (x y z : F) → n.is_finite z ≡ true → n.lt (n.lit 0 0) z ≡ true → x ≼ y → n.mul z x ≼ n.mul z y
  pub sub_sign :
      (x y : F)
      → n.is_finite x ≡ true
      → n.is_finite y ≡ true
      → n.lt (n.lit 0 0) (n.sub x y) ≡ n.lt y x
  pub one_finite : n.is_finite (n.lit 1 0) ≡ true
  -- Literals with the same number of decimals keep their order.
  pub lit_mono : (m k d : ℕ) → m ≤ k → n.lit m d ≼ n.lit k d

module _ {F : Type 0} ⦃n : Number F⦄ (laws : IsOrdered F) (rounded : IsRounded F) where
  -- What the sign of `y - x` says of two finite numbers.
  pub lt_of_sub :
      (x y : F)
      → n.is_finite y ≡ true
      → n.is_finite x ≡ true
      → n.lt (n.lit 0 0) (n.sub y x) ≡ true
      → x ≼ y
  lt_of_sub x y q p e = le_of_lt laws x y (sym (rounded.sub_sign y x q p) ∙ e)

  pub le_of_sub :
      (x y : F)
      → n.is_finite y ≡ true
      → n.is_finite x ≡ true
      → n.lt (n.lit 0 0) (n.sub y x) ≡ false
      → y ≼ x
  le_of_sub x y q p e =
      le_of_not_lt laws x y (laws.num_of_finite x p) (laws.num_of_finite y q)
        (sym (rounded.sub_sign y x q p) ∙ e)
