-- ===== src/Pools/Challenge.antt =====
-- The scores, the range and the rotation signal of engine/challenge-strategy.ts, with constructors for
-- the reasons. `toUpperCase`, `Math.log` and `Math.round` are parameters.
use beam_clmm.Prelude.{
  Bool, ◌or◌, List, String, ℕ, if◌then◌else◌, Option, is_empty, ◌∷◌, any, false, some, ltb, none,
  str_eq, [], ◌&&◌, ◌+◌, ◌++◌, ◌||◌,
}
use beam_clmm.Number.{
  Number, int, neg, ◌⊘◌, max, lit, ◌⊗◌, ◌≟◌, ◌≥?◌, ◌>?◌, ◌⊕◌, ◌<?◌, ◌≤?◌, ◌⊖◌, min,
}
use beam_clmm.Pools.{PoolState, PoolSnapshot}

pub data ChallengeTier : Type 0 where
  tier_s tier_a tier_b no_tier : ChallengeTier

pub data ChallengeReason : Type 0 where
  small_tvl no_measured_fees deep_drawdown stable_leg low_score : ChallengeReason
  high_fee_tier mid_fee_tier low_fee_tier : ChallengeReason

pub record ChallengePoolScore (F : Type 0) : Type 0 where
  pub score : F
  pub tier : ChallengeTier
  pub reasons : List ChallengeReason
  pub yield_per_day_pct : F
  pub drawdown_24h : F

abbrev challenge_stable_symbols : List String
challenge_stable_symbols = "USDG" ∷ "USDC" ∷ "USDT" ∷ "DAI" ∷ []

abbrev low_reason : ChallengeTier → List ChallengeReason
low_reason ChallengeTier.no_tier = ChallengeReason.low_score ∷ []
low_reason _ = []

module _ {F : Type 0} ⦃n : Number F⦄ where
  abbrev pub drawdown_of : PoolState F → F
  drawdown_of pool = pool.drawdown_24h or int 0

  abbrev pub yield_pct : F → F → F
  yield_pct fees tvl = if tvl >? int 0 then (fees ⊘ tvl) ⊗ int 100 else int 0

  abbrev unscored : ChallengeReason → F → F → ChallengePoolScore F
  unscored reason yield dd = record {
    score = int 0;
    tier = ChallengeTier.no_tier;
    reasons = reason ∷ [];
    yield_per_day_pct = yield;
    drawdown_24h = dd;
  }

  abbrev pub challenge_base_score : F → F → F
  challenge_base_score yield dd =
      let factor = int 1 ⊕ dd ⊘ int 100 in
      if dd <? int 0 then yield ⊗ factor ⊗ factor else yield ⊗ factor

  abbrev implied_fee_rate : PoolState F → F
  implied_fee_rate pool =
      if pool.volume_24h_usd >? int 0 then pool.fees_24h_usd ⊘ pool.volume_24h_usd else int 0

  abbrev pub challenge_fee_tier_info : PoolState F → F × ChallengeReason
  challenge_fee_tier_info pool =
      if implied_fee_rate pool ≥? lit 3 3
      then (lit 10 1, ChallengeReason.high_fee_tier)
      else if implied_fee_rate pool ≥? lit 5 4
      then (lit 85 2, ChallengeReason.mid_fee_tier)
      else (lit 5 1, ChallengeReason.low_fee_tier)

  abbrev pub challenge_tier_for : F → Bool → ChallengeTier
  challenge_tier_for score stable =
      if (score ≥? int 15) && stable
      then ChallengeTier.tier_s
      else if score ≥? int 10
      then ChallengeTier.tier_a
      else if score ≥? int 4
      then ChallengeTier.tier_b
      else ChallengeTier.no_tier

  abbrev scored : F → Bool → F × ChallengeReason → F → F → ChallengePoolScore F
  scored score stable (factor, tier_reason) yield dd = record {
    score = score ⊗ factor;
    tier = challenge_tier_for (score ⊗ factor) stable;
    reasons =
        (if stable then ChallengeReason.stable_leg ∷ [] else [])
        ++ (tier_reason ∷ low_reason (challenge_tier_for (score ⊗ factor) stable));
    yield_per_day_pct = yield;
    drawdown_24h = dd;
  }

  module _ (to_upper_case : String → String) where
    abbrev pub challenge_has_stable_leg : PoolState F → Bool
    challenge_has_stable_leg pool =
        any (str_eq (to_upper_case pool.token_x_symbol)) challenge_stable_symbols
        || any (str_eq (to_upper_case pool.token_y_symbol)) challenge_stable_symbols

    abbrev challenge_scored : PoolState F → ChallengePoolScore F
    challenge_scored pool =
        let yield = yield_pct pool.fees_24h_usd pool.tvl_usd in
        let base = challenge_base_score yield (drawdown_of pool) in
        let stable = challenge_has_stable_leg pool in
        scored (if stable then base ⊗ lit 115 2 else base) stable (challenge_fee_tier_info pool)
          yield (drawdown_of pool)

    unfoldable pub challenge_pool_score : PoolState F → ChallengePoolScore F
    challenge_pool_score pool =
        let yield = yield_pct pool.fees_24h_usd pool.tvl_usd in
        if pool.tvl_usd <? int 1000
        then unscored ChallengeReason.small_tvl (int 0) (drawdown_of pool)
        else if yield ≤? int 0
        then unscored ChallengeReason.no_measured_fees (int 0) (drawdown_of pool)
        else if drawdown_of pool <? neg (int 5)
        then unscored ChallengeReason.deep_drawdown yield (drawdown_of pool)
        else challenge_scored pool

pub record ChallengeRange (F : Type 0) : Type 0 where
  pub lower_bin_id : F
  pub upper_bin_id : F
  pub half_width : F

module _ {F : Type 0} ⦃n : Number F⦄ (log round : F → F) where
  abbrev pub min_tick : F
  min_tick = neg (int 887272)

  abbrev pub max_tick : F
  max_tick = int 887272

  -- `snapped === 0 ? 0 : snapped` turns -0 into 0.
  abbrev align : F → F → F
  align spacing t =
      let snapped = round (t ⊘ spacing) ⊗ spacing in if snapped ≟ int 0 then int 0 else snapped

  unfoldable pub challenge_range_from_volatility : F → F → F → F → ChallengeRange F
  challenge_range_from_volatility active_tick spacing volatility_pct k =
      let sigma = max (int 0) volatility_pct ⊘ int 100 in
      let half = max (int 2) (round (log (int 1 ⊕ k ⊗ sigma) ⊘ log (lit 10001 4))) in
      let lower = max min_tick (align spacing (active_tick ⊖ half)) in
      let upper = min max_tick (align spacing (active_tick ⊕ half)) in
      record {
        lower_bin_id = lower;
        upper_bin_id = if upper ≤? lower then min max_tick (lower ⊕ spacing) else upper;
        half_width = half;
      }

-- A rotation is held, or the position leaves for a reason.
pub data ChallengeRotation : Type 0 where
  hold drawdown_exit collapse_exit decay_exit : ChallengeRotation

module _ {F : Type 0} ⦃n : Number F⦄ where
  abbrev pub yield_decay_exit_fraction : F
  yield_decay_exit_fraction = lit 7 1

  abbrev pub yield_collapse_exit_fraction : F
  yield_collapse_exit_fraction = lit 5 1

  abbrev pub on_yield : F → F → ChallengeRotation
  on_yield yield average =
      if yield <? average ⊗ yield_collapse_exit_fraction
      then ChallengeRotation.collapse_exit
      else if yield <? average ⊗ yield_decay_exit_fraction
      then ChallengeRotation.decay_exit
      else ChallengeRotation.hold

  abbrev pub on_average : PoolState F → Option F → ChallengeRotation
  on_average pool none = ChallengeRotation.hold
  on_average pool (some average) =
      if average >? int 0
      then on_yield (yield_pct pool.fees_24h_usd pool.tvl_usd) average
      else ChallengeRotation.hold

  unfoldable pub challenge_rotation_signal : PoolState F → Option F → F → ChallengeRotation
  challenge_rotation_signal pool average exit_pct =
      if drawdown_of pool <? neg exit_pct
      then ChallengeRotation.drawdown_exit
      else on_average pool average

  unfoldable pub challenge_yield_below_exit_threshold : PoolState F → Option F → Bool
  challenge_yield_below_exit_threshold pool none = false
  challenge_yield_below_exit_threshold pool (some average) =
      if average ≤? int 0
      then false
      else yield_pct pool.fees_24h_usd pool.tvl_usd <? average ⊗ yield_decay_exit_fraction

  abbrev count_yield : F × ℕ → PoolSnapshot F → F × ℕ
  count_yield (sum, count) s =
      if s.tvl_usd >? int 0
      then (sum ⊕ (s.fees_24h_usd ⊘ s.tvl_usd) ⊗ int 100, count + 1)
      else (sum, count)

  unfoldable pub sum_yields : F × ℕ → List (PoolSnapshot F) → F × ℕ
  sum_yields acc [] = acc
  sum_yields acc (s ∷ ss) = sum_yields (count_yield acc s) ss

  abbrev average_of : F × ℕ → Option F
  average_of (sum, count) = if ltb 0 count then some (sum ⊘ int count) else none

  unfoldable pub avg_fee_yield_pct : List (PoolSnapshot F) → Option F
  unfolding sum_yields
  avg_fee_yield_pct snapshots =
      if is_empty snapshots then none else average_of (sum_yields (int 0, 0) snapshots)
