-- ===== src/Number.antt =====
-- The source's `number`: a type with the operations that the code applies to it, and the laws of
-- IEEE 754 comparison and of Math.min and Math.max that the theorems rely on. Arithmetic rounds, so
-- no algebraic law of it is assumed.
pub mod Order
pub mod Fixed
pub mod Rounding
pub mod FixedRounding
use beam_clmm.Prelude.{ℕ, ◌≡◌, ◌⊎◌, Bool, true, false, not, ◌&&◌, if◌then◌else◌}
use beam_clmm.Prelude.Int.{ℤ}

pub record Number (F : Type 0) : Type 0 where
  -- the number nearest n / 10^k: the literals of the source
  pub lit : ℕ → ℕ → F
  pub infinity : F
  pub add : F → F → F
  pub sub : F → F → F
  pub mul : F → F → F
  pub div : F → F → F
  pub neg : F → F
  pub abs : F → F
  pub floor : F → F
  pub min : F → F → F
  pub max : F → F → F
  pub le : F → F → Bool
  pub lt : F → F → Bool
  pub eq : F → F → Bool
  pub is_finite : F → Bool
  pub is_integer : F → Bool
  -- `BigInt` of an integer
  pub to_big : F → ℤ
  -- `Number` of a bigint
  pub of_big : ℤ → F

module _ {F : Type 0} ⦃n : Number F⦄ where
  infixl 65 ◌⊕◌ ◌⊖◌
  infixl 70 ◌⊗◌ ◌⊘◌
  infix 50 ◌≤?◌ ◌<?◌ ◌≥?◌ ◌>?◌ ◌≟◌
  abbrev pub lit : ℕ → ℕ → F
  lit = n.lit

  -- an integer literal, or a count such as the length of an array
  abbrev pub int : ℕ → F
  int m = n.lit m 0

  abbrev pub infinity : F
  infinity = n.infinity

  abbrev pub ◌⊕◌ : F → F → F
  ◌⊕◌ = n.add

  abbrev pub ◌⊖◌ : F → F → F
  ◌⊖◌ = n.sub

  abbrev pub ◌⊗◌ : F → F → F
  ◌⊗◌ = n.mul

  abbrev pub ◌⊘◌ : F → F → F
  ◌⊘◌ = n.div

  abbrev pub neg : F → F
  neg = n.neg

  abbrev pub abs : F → F
  abs = n.abs

  abbrev pub floor : F → F
  floor = n.floor

  abbrev pub min : F → F → F
  min = n.min

  abbrev pub max : F → F → F
  max = n.max

  abbrev pub ◌≤?◌ : F → F → Bool
  ◌≤?◌ = n.le

  abbrev pub ◌<?◌ : F → F → Bool
  ◌<?◌ = n.lt

  abbrev pub ◌≥?◌ : F → F → Bool
  a ≥? b = n.le b a

  abbrev pub ◌>?◌ : F → F → Bool
  a >? b = n.lt b a

  -- `===` on numbers
  abbrev pub ◌≟◌ : F → F → Bool
  ◌≟◌ = n.eq

  abbrev pub is_finite : F → Bool
  is_finite = n.is_finite

  abbrev pub is_integer : F → Bool
  is_integer = n.is_integer

  abbrev pub of_big : ℤ → F
  of_big = n.of_big
