-- ===== src/Sizing/Width.antt =====
-- `applyMinRangePct` of engine/range-floor.ts.
use beam_clmm.Number.{Number, lit, is_finite, ◌<?◌, ◌≥?◌, int, max, ◌⊘◌, ◌≤?◌}
use beam_clmm.Number.Order.{IsOrdered, IsNum, ◌≼◌, not_lt_of_le}
use beam_clmm.Prelude.{Option, if◌then◌else◌, ◌or◌, not, ◌≡◌, ◌||◌, ◌&&◌, ◌⊎◌, arith, false}

module _ {F : Type 0} ⦃n : Number F⦄ where
  -- DEFAULT_MIN_FULL_RANGE_PCT
  abbrev default_min_full_range_pct : F
  default_min_full_range_pct = lit 2 1

  -- Half of the full range asked for, or of the default where that is malformed.
  abbrev pub min_half_width : Option F → F
  min_half_width option =
      let full = option or default_min_full_range_pct in
      (if is_finite full && (full ≥? int 0) then full else default_min_full_range_pct) ⊘ int 2

  unfoldable pub apply_min_range_pct : F → Option F → F
  apply_min_range_pct half_width option =
      if not (is_finite half_width) || (half_width <? int 0)
      then min_half_width option
      else max half_width (min_half_width option)

  -- The half-width is never below half of the full range asked for; a finite half-width that
  -- is not negative is never narrowed; and the result is one of the two, so what is malformed becomes the floor.
  apply_min_range_pct_bounds :
      IsOrdered F
      → (half_width : F) (option : Option F) → IsNum (min_half_width option)
      → let width = apply_min_range_pct half_width option in
        (min_half_width option ≼ width)
        × (((is_finite half_width && (int 0 ≤? half_width)) ≡ false) ⊎ (half_width ≼ width))
        × ((width ≡ min_half_width option) ⊎ (width ≡ half_width))
  unfolding apply_min_range_pct
  apply_min_range_pct_bounds laws half_width option num =
      let low = min_half_width option in
      ground (
        arith,
        laws.num_of_finite half_width,
        laws.le-max half_width low,
        laws.max_cases half_width low,
        not_lt_of_le laws (int 0) half_width,
      )
