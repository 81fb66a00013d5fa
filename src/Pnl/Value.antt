-- ===== src/Pnl/Value.antt =====
-- `computeClmmValueUsd` of engine/pnl.ts: the value of a position at a price.
use beam_clmm.Prelude.{
  Bool, ◌≡◌, Option, if◌then◌else◌, true, not, some, false, none, ◌&&◌, ◌||◌, guards, guard_passed,
  true_of_not,
}
use beam_clmm.Number.{Number, ◌>?◌, ◌⊘◌, ◌⊗◌, int, ◌≤?◌, is_finite, ◌<?◌, ◌⊖◌, ◌≥?◌, lit, ◌⊕◌}

pub record ClmmInput (F : Type 0) : Type 0 where
  pub deposited_usd : F
  pub entry_price_usd : F
  pub lower_bin_id : F
  pub upper_bin_id : F
  pub current_price_usd : F
  pub lower_price_usd : Option F
  pub upper_price_usd : Option F

module _ {F : Type 0} ⦃n : Number F⦄ where
  abbrev pub has_valid_clmm_core_inputs : F → F → F → Bool
  has_valid_clmm_core_inputs deposited entry current =
      (deposited >? int 0) && ((entry >? int 0) && (current >? int 0))

  abbrev ordered_bounds : F → F → Option (F × F)
  ordered_bounds lower upper =
      if not ((lower >? int 0) && (upper >? lower)) then none else some (lower, upper)

  -- The bounds in USD where both are given, and neither bound where one is.
  abbrev pub clmm_price_bounds : (F → F → F) → F → F → Option F → Option F → Option (F × F)
  clmm_price_bounds pow lower_bin upper_bin none none =
      ordered_bounds (pow (lit 10001 4) lower_bin) (pow (lit 10001 4) upper_bin)
  clmm_price_bounds pow lower_bin upper_bin (some lower) (some upper) = ordered_bounds lower upper
  clmm_price_bounds pow lower_bin upper_bin _ _ = none

  abbrev pub clmm_value_per_l : F → F → F → F → F → F → F
  clmm_value_per_l price pa pb spa spb sp =
      if price ≤? pa
      then (int 1 ⊘ spa ⊖ int 1 ⊘ spb) ⊗ price
      else if price ≥? pb
      then spb ⊖ spa
      else (int 1 ⊘ sp ⊖ int 1 ⊘ spb) ⊗ price ⊕ (sp ⊖ spa)

  module _ (sqrt : F → F) (pow : F → F → F) where
    abbrev value_per_l_at : F → F × F → F
    value_per_l_at price (pa, pb) = clmm_value_per_l price pa pb (sqrt pa) (sqrt pb) (sqrt price)

    abbrev pub anchored_value : ClmmInput F → F × F → F
    anchored_value i bounds =
        (i.deposited_usd ⊘ value_per_l_at i.entry_price_usd bounds)
        ⊗ value_per_l_at i.current_price_usd bounds

    abbrev pub value_within : ClmmInput F → Option (F × F) → Option F
    value_within i none = none
    value_within i (some bounds) =
        if not (value_per_l_at i.entry_price_usd bounds >? int 0)
        then none
        else if not (is_finite (anchored_value i bounds)) || (anchored_value i bounds <? int 0)
        then none
        else some (anchored_value i bounds)

    unfoldable pub compute_clmm_value_usd : ClmmInput F → Option F
    compute_clmm_value_usd i =
        if not (has_valid_clmm_core_inputs i.deposited_usd i.entry_price_usd i.current_price_usd)
        then none
        else if not (i.lower_bin_id <? i.upper_bin_id)
        then none
        else value_within i (
            clmm_price_bounds pow i.lower_bin_id i.upper_bin_id i.lower_price_usd i.upper_price_usd)

    -- What a value stands on.
    pub record IsValued (i : ClmmInput F) (value : F) : Type 0 where
      pub positive_inputs :
          has_valid_clmm_core_inputs i.deposited_usd i.entry_price_usd i.current_price_usd ≡ true
      pub proper_bins : (i.lower_bin_id <? i.upper_bin_id) ≡ true
      pub finite_value : is_finite value ≡ true
      pub not_negative : (value <? int 0) ≡ false

    within-IsValued :
        (i : ClmmInput F) (o : Option (F × F)) (value : F)
        → value_within i o ≡ some value
        → (is_finite value ≡ true) × ((value <? int 0) ≡ false)
    within-IsValued i none value h = cc
    within-IsValued i (some bounds) value h =
        guards (λ o. o ≡ some value → (is_finite value ≡ true) × ((value <? int 0) ≡ false))
          (not (value_per_l_at i.entry_price_usd bounds >? int 0))
          (not (is_finite (anchored_value i bounds)) || (anchored_value i bounds <? int 0))
          (λ bad k. cc) (λ good bad k. cc)
          (λ good fine k.
            let e : anchored_value i bounds ≡ value = cc k in rw (← e) (guard_passed fine))
          h

    -- A value is only given for positive amounts and prices and a proper range, and it is finite and
    -- not negative: what rounding or overflow makes of the formula is never passed on.
    pub compute_clmm_value_usd-IsValued :
        (i : ClmmInput F) (value : F) → compute_clmm_value_usd i ≡ some value → IsValued i value
    unfolding compute_clmm_value_usd
    compute_clmm_value_usd-IsValued i value h =
        guards (λ o. o ≡ some value → IsValued i value)
          (not (has_valid_clmm_core_inputs i.deposited_usd i.entry_price_usd i.current_price_usd))
          (not (i.lower_bin_id <? i.upper_bin_id)) (λ bad k. cc) (λ good bad k. cc)
          (λ good proper k.
            let (finite, above) = within-IsValued i _ value k in
            record {
              positive_inputs = true_of_not good;
              proper_bins = true_of_not proper;
              finite_value = finite;
              not_negative = above;
            })
          h
