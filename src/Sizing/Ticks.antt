-- ===== src/Sizing/Ticks.antt =====
-- `floorRangeToMinPct` of engine/range-floor.ts. The powers of 1.0001, `Math.log1p`, `Math.log`,
-- `Math.ceil` and `Math.round` are parameters.
use beam_clmm.Prelude.{
  Bool, ◌≡◌, Bool-cases, ◌&&◌, some, not, if◌then◌else◌, ◌||◌, false, inl, ◌⊎◌, inr, true, refl,
  arith, guards,
}
use beam_clmm.Number.{Number, is_finite, neg, int, ◌⊘◌, max, lit, min, ◌⊗◌, floor, ◌⊖◌, ◌⊕◌, ◌≤?◌}
use beam_clmm.Number.Order.{◌≼◌, IsOrdered, IsNum}
use beam_clmm.Sizing.Width.{apply_min_range_pct}

pub record FlooredTickRange (F : Type 0) : Type 0 where
  pub lower_bin_id : F
  pub upper_bin_id : F

pub record Maths (F : Type 0) : Type 0 where
  pub pow : F → F → F
  pub log : F → F
  pub log1p : F → F
  pub ceil : F → F
  pub round : F → F

module _ {F : Type 0} ⦃n : Number F⦄ where
  abbrev pub uniswap_min_tick : F
  uniswap_min_tick = neg (int 887272)

  abbrev pub uniswap_max_tick : F
  uniswap_max_tick = int 887272

malformed : (a s l : Bool) → (not a || (not s || l)) ≡ true → (a && (s && not l)) ≡ false
malformed a s l h = ground arith

module _ {F : Type 0} ⦃n : Number F⦄ (maths : Maths F) where
  abbrev align_tick : F → F → F
  align_tick step t = maths.round (t ⊘ step) ⊗ step

  abbrev half_width_pct : F → F → F → F
  half_width_pct step lower upper =
      maths.pow (lit 10001 4) (((upper ⊖ lower) ⊘ int 2) ⊗ step) ⊖ int 1

  -- The range as it is, on usable ticks and within their domain.
  abbrev realigned : F → F → F → FlooredTickRange F
  realigned step lower upper =
      let low = align_tick step lower in
      let high = align_tick step upper in
      record {
        lower_bin_id = max uniswap_min_tick low;
        upper_bin_id =
            min uniswap_max_tick (if high ≤? low then min uniswap_max_tick (low ⊕ step) else high);
      }

  abbrev half_ticks : F → F → F
  half_ticks step floored = maths.ceil (maths.log1p floored ⊘ maths.log (lit 10001 4) ⊘ step) ⊗ step

  abbrev widened_around : F → F → F → FlooredTickRange F
  widened_around active step half =
      let low = max uniswap_min_tick (floor ((active ⊖ half) ⊘ step) ⊗ step) in
      let high = min uniswap_max_tick (maths.ceil ((active ⊕ half) ⊘ step) ⊗ step) in
      if high ≤? low
      then record {
        lower_bin_id = max uniswap_min_tick (align_tick step active ⊖ step);
        upper_bin_id =
            min uniswap_max_tick (max uniswap_min_tick (align_tick step active ⊖ step) ⊕ step);
      }
      else record { lower_bin_id = low; upper_bin_id = high }

  unfoldable pub floor_range_to_min_pct : F → F → F → F → F → FlooredTickRange F
  unfolding apply_min_range_pct
  floor_range_to_min_pct active step lower upper min_full =
      let half = half_width_pct step lower upper in
      let floored = apply_min_range_pct half (some min_full) in
      if not (is_finite active) || (not (is_finite step) || (step ≤? int 0))
      then record { lower_bin_id = lower; upper_bin_id = upper }
      else if floored ≤? half
      then realigned step lower upper
      else widened_around active step (half_ticks step floored)

  -- Both bounds are clamped to the domain of ticks.
  abbrev pub IsClamped : FlooredTickRange F → Type 0
  IsClamped r =
      ((x : F) × (r.lower_bin_id ≡ max uniswap_min_tick x))
      × ((y : F) × (r.upper_bin_id ≡ min uniswap_max_tick y))

  realigned-IsClamped : (step lower upper : F) → IsClamped (realigned step lower upper)
  realigned-IsClamped step lower upper = ((_, refl), (_, refl))

  widened_around-IsClamped : (active step half : F) → IsClamped (widened_around active step half)
  widened_around-IsClamped active step half =
      elim (Bool-cases (
        min uniswap_max_tick (maths.ceil ((active ⊕ half) ⊘ step) ⊗ step)
        ≤? max uniswap_min_tick (floor ((active ⊖ half) ⊘ step) ⊗ step))) [
          | inl e ↦ rw e ((_, refl), (_, refl))
          | inr e ↦ rw e ((_, refl), (_, refl))
        ]

  -- A range comes back within the domain of usable ticks, unless the active tick or the spacing is
  -- malformed, which returns it as it was; the bounds that come back are not NaN.
  pub floor_range_to_min_pct_bounds :
      (laws : IsOrdered F) (active step lower upper min_full : F)
      → IsNum (floor_range_to_min_pct active step lower upper min_full).lower_bin_id
      → IsNum (floor_range_to_min_pct active step lower upper min_full).upper_bin_id
      → ((is_finite active && (is_finite step && not (step ≤? int 0))) ≡ false)
        ⊎ (uniswap_min_tick
            ≼ (floor_range_to_min_pct active step lower upper min_full).lower_bin_id)
          × ((floor_range_to_min_pct active step lower upper min_full).upper_bin_id
              ≼ uniswap_max_tick)
  unfolding floor_range_to_min_pct
  floor_range_to_min_pct_bounds laws active step lower upper min_full p q =
      clamped (floor_range_to_min_pct active step lower upper min_full) cases p q
    where
      cases :
          ((is_finite active && (is_finite step && not (step ≤? int 0))) ≡ false)
          ⊎ IsClamped (floor_range_to_min_pct active step lower upper min_full)
      cases =
          guards
            (λ r.
              ((is_finite active && (is_finite step && not (step ≤? int 0))) ≡ false) ⊎ IsClamped r)
            (not (is_finite active) || (not (is_finite step) || (step ≤? int 0)))
            (apply_min_range_pct (half_width_pct step lower upper) (some min_full)
              ≤? half_width_pct step lower upper)
            (λ bad. inl (malformed (is_finite active) (is_finite step) (step ≤? int 0) bad))
            (λ good wide. inr (realigned-IsClamped step lower upper))
            (λ good narrow. inr (
              widened_around-IsClamped active step (
                half_ticks step
                  (apply_min_range_pct (half_width_pct step lower upper) (some min_full)))))

      clamped :
          (r : FlooredTickRange F)
          → ((is_finite active && (is_finite step && not (step ≤? int 0))) ≡ false) ⊎ IsClamped r
          → IsNum r.lower_bin_id
          → IsNum r.upper_bin_id
          → ((is_finite active && (is_finite step && not (step ≤? int 0))) ≡ false)
            ⊎ (uniswap_min_tick ≼ r.lower_bin_id) × (r.upper_bin_id ≼ uniswap_max_tick)
      clamped r (inl bad) num1 num2 = inl bad
      clamped r (inr ((x, e), (y, f))) num1 num2 =
          let (a, b) = laws.max_num _ x (rw e at num1) in
          let (c, d) = laws.min_num _ y (rw f at num2) in
          inr (rw e (laws.le-max _ x a b).0, rw f (laws.min-le _ y c d).0)
