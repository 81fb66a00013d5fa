-- ===== src/Number/Order.antt =====
-- The laws of comparison, Math.min and Math.max on which the theorems rely, and what follows.
use beam_clmm.Prelude.{◌≡◌, ◌⊎◌, true, not, ◌&&◌, arith, false, ℕ, ◌≤◌}
use beam_clmm.Number.{Number}
use beam_clmm.Prelude.Int.{minus_part}

module _ {F : Type 0} ⦃n : Number F⦄ where
  -- Not NaN: the only value that is not `<=` itself.
  abbrev pub IsNum : F → Type 0
  IsNum x = n.le x x ≡ true

  infix 4 ◌≼◌
  abbrev pub ◌≼◌ : F → F → Type 0
  x ≼ y = n.le x y ≡ true

  infix 4 ◌≺◌
  abbrev pub ◌≺◌ : F → F → Type 0
  x ≺ y = n.lt x y ≡ true

-- IEEE 754: comparisons with NaN are false, away from it `<=` is a total order and `<` its strict
-- part; `===` is `<=` both ways; Math.min and Math.max return an argument, and bound both of them
-- away from NaN; what lies between two finite numbers is finite.
pub record IsOrdered (F : Type 0) ⦃n : Number F⦄ : Type 0 where
  pub num_of_le : (x y : F) → x ≼ y → IsNum x × IsNum y
  pub num_of_finite : (x : F) → n.is_finite x ≡ true → IsNum x
  pub le_trans : (x y z : F) → x ≼ y → y ≼ z → x ≼ z
  pub le_total : (x y : F) → IsNum x → IsNum y → (x ≼ y) ⊎ (y ≼ x)
  pub lt-eq-not-le : (x y : F) → IsNum x → IsNum y → n.lt x y ≡ not (n.le y x)
  pub num_of_lt : (x y : F) → x ≺ y → IsNum x × IsNum y
  pub eq-eq-le : (x y : F) → n.eq x y ≡ (n.le x y && n.le y x)
  pub min_cases : (x y : F) → (n.min x y ≡ x) ⊎ (n.min x y ≡ y)
  pub max_cases : (x y : F) → (n.max x y ≡ x) ⊎ (n.max x y ≡ y)
  pub min-le : (x y : F) → IsNum x → IsNum y → (n.min x y ≼ x) × (n.min x y ≼ y)
  pub le-max : (x y : F) → IsNum x → IsNum y → (x ≼ n.max x y) × (y ≼ n.max x y)
  pub min_num : (x y : F) → IsNum (n.min x y) → IsNum x × IsNum y
  pub max_num : (x y : F) → IsNum (n.max x y) → IsNum x × IsNum y
  pub finite_between :
      (x y z : F)
      → n.is_finite x ≡ true
      → x ≼ y
      → y ≼ z
      → n.is_finite z ≡ true
      → n.is_finite y ≡ true
  pub finite_of_integer : (x : F) → n.is_integer x ≡ true → n.is_finite x ≡ true
  -- The whole part of a finite number that is not negative is not negative.
  pub to_big-floor :
      (x : F) → n.is_finite x ≡ true → n.lit 0 0 ≼ x → minus_part (n.to_big (n.floor x)) ≡ 0
  pub zero_finite : n.is_finite (n.lit 0 0) ≡ true
  pub infinity_num : IsNum n.infinity
  -- Conversion of whole numbers is monotone.
  pub int_mono : (m k : ℕ) → m ≤ k → n.lit m 0 ≼ n.lit k 0
  -- A literal or a count is never NaN.
  pub lit_num : (m k : ℕ) → IsNum (n.lit m k)

module _ {F : Type 0} ⦃n : Number F⦄ (laws : IsOrdered F) where
  open laws use {
    num_of_le, num_of_lt, num_of_finite, lt-eq-not-le, le_total, max_cases, max_num, finite_between,
  }

  pub le_of_not_lt : (x y : F) → IsNum x → IsNum y → n.lt x y ≡ false → y ≼ x
  le_of_not_lt x y p q h = ground (arith, lt-eq-not-le x y p q)

  pub lt_of_not_le : (x y : F) → IsNum x → IsNum y → n.le x y ≡ false → y ≺ x
  lt_of_not_le x y p q h = ground (arith, lt-eq-not-le y x q p)

  pub le_of_lt : (x y : F) → x ≺ y → x ≼ y
  le_of_lt x y h =
      let (p, q) = num_of_lt x y h in ground (arith, lt-eq-not-le x y p q, le_total x y p q)

  pub not_le_of_lt : (x y : F) → x ≺ y → n.le y x ≡ false
  not_le_of_lt x y h = let (p, q) = num_of_lt x y h in ground (arith, lt-eq-not-le x y p q)

  pub not_lt_of_le : (x y : F) → x ≼ y → n.lt y x ≡ false
  not_lt_of_le x y h = let (p, q) = num_of_le x y h in ground (arith, lt-eq-not-le y x q p)

  pub lt_of_lt_of_le : (x y z : F) → x ≺ y → y ≼ z → x ≺ z
  lt_of_lt_of_le x y z h k =
      let (p, _) = num_of_lt x y h in
      let (_, q) = num_of_le y z k in
      ground (arith, lt-eq-not-le x z p q, laws.le_trans y z x k, not_le_of_lt x y h)

  pub lt_of_le_of_lt : (x y z : F) → x ≼ y → y ≺ z → x ≺ z
  lt_of_le_of_lt x y z h k =
      let (p, _) = num_of_le x y h in
      let (_, q) = num_of_lt y z k in
      ground (arith, lt-eq-not-le x z p q, laws.le_trans z x y, not_le_of_lt y z k)

  -- A minimum is above a number exactly when both of its arguments are.
  pub lt-min : (z x y : F) → z ≺ n.min x y → (z ≺ x) × (z ≺ y)
  lt-min z x y h =
      let (p, q) = laws.min_num x y (num_of_lt z _ h).1 in
      let (a, b) = laws.min-le x y p q in (lt_of_lt_of_le z _ x h a, lt_of_lt_of_le z _ y h b)

  pub min_lt : (z x y : F) → z ≺ x → z ≺ y → z ≺ n.min x y
  min_lt z x y h k = ground (arith, laws.min_cases x y)

  pub max_finite :
      (x y : F) → n.is_finite x ≡ true → n.is_finite y ≡ true → n.is_finite (n.max x y) ≡ true
  max_finite x y h k = ground (arith, max_cases x y)
