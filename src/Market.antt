-- ===== src/Market.antt =====
-- The market-scan gate, engine/market-gate.ts: which pools of a snapshot are scanned. A refusal is a
-- constructor where the source puts the numbers into a message.
pub mod Score
pub mod Rank
pub mod Laws
pub mod Counts
pub mod Order
use beam_clmm.Prelude.{
  Bool, ◌or◌, Option, String, if◌then◌else◌, true, not, ◌or_else◌, List, some, none, str_eq, false,
  ◌&&◌, ◌||◌, any,
}
use beam_clmm.Number.{Number, ◌⊗◌, ◌⊘◌, int, ◌>?◌, is_finite, ◌≥?◌, max, ◌<?◌, ◌≤?◌, is_integer}

pub record DiscoveredPool (F : Type 0) : Type 0 where
  pub address : String
  pub tvl_usd : F
  pub volume_24h_usd : F
  pub fees_24h_usd : F
  pub bin_step : F
  pub token_x : String
  pub token_y : String
  pub token_x_symbol : Option String
  pub token_y_symbol : Option String
  pub token_x_verified : Option Bool
  pub token_y_verified : Option Bool
  pub token_x_freeze_disabled : Option Bool
  pub token_y_freeze_disabled : Option Bool
  pub token_x_holders : Option F
  pub token_y_holders : Option F

pub data MarketScanRankMode : Type 0 where
  capital_fit depth : MarketScanRankMode

pub record MarketGateConfig (F : Type 0) : Type 0 where
  pub min_tvl_usd : F
  pub absolute_min_tvl_usd : Option F
  pub high_turnover_bypass : Option F
  pub max_tvl_usd : F
  pub target_tvl_usd : F
  pub rank_mode : MarketScanRankMode
  pub min_fee_apr : F
  pub min_volume_turnover : F
  pub max_volume_turnover : F
  pub min_holders : F
  pub min_bin_step : F
  pub max_bin_step : F
  pub stablecoin_mints : List String

pub data MarketRejection : Type 0 where
  tvl_not_finite tvl_under_dust_floor tvl_under_minimum mega_book : MarketRejection
  no_fees low_fee_apr no_volume low_turnover wash_turnover : MarketRejection
  fine_bins coarse_bins unsafe_leg_x unsafe_leg_y : MarketRejection

abbrev pub sol_mint : String
sol_mint = "So11111111111111111111111111111111111111112"

-- `value === true`, `value === false`
abbrev pub is_true : Option Bool → Bool
is_true (some b) = b
is_true none = false

abbrev pub is_false : Option Bool → Bool
is_false (some b) = not b
is_false none = false

abbrev pub is_stable_or_sol : String → List String → Bool
is_stable_or_sol mint stablecoin_mints = str_eq mint sol_mint || any (str_eq mint) stablecoin_mints

pub record MarketLeg (F : Type 0) : Type 0 where
  pub stable_or_sol : Bool
  pub verified : Option Bool
  pub freeze_disabled : Option Bool
  pub holders : Option F

module _ {F : Type 0} ⦃n : Number F⦄ where
  -- `leg.holders === undefined || leg.holders >= minHolders`
  abbrev pub has_holders : Option F → F → Bool
  has_holders none min_holders = true
  has_holders (some h) min_holders = h ≥? min_holders

  unfoldable pub market_leg_passes : MarketLeg F → F → Bool
  market_leg_passes leg min_holders =
      if leg.stable_or_sol
      then true
      else if is_true leg.verified
      then if is_false leg.freeze_disabled then has_holders leg.holders min_holders else true
      else if is_false leg.freeze_disabled
      then false
      else has_holders leg.holders min_holders

  abbrev pub bypass_armed : DiscoveredPool F → MarketGateConfig F → Bool
  bypass_armed pool config =
      ((config.high_turnover_bypass or int 0) >? int 0)
      && ((pool.volume_24h_usd >? int 0)
          && (pool.volume_24h_usd ⊘ max pool.tvl_usd (int 1)
              ≥? (config.high_turnover_bypass or int 0)))

  -- `none` when the pool is admitted.
  unfoldable pub gate_market_tvl : DiscoveredPool F → MarketGateConfig F → Option MarketRejection
  gate_market_tvl pool config =
      if not (is_finite pool.tvl_usd)
      then some MarketRejection.tvl_not_finite
      else if ((config.absolute_min_tvl_usd or int 0) >? int 0)
          && (pool.tvl_usd <? (config.absolute_min_tvl_usd or int 0))
      then some MarketRejection.tvl_under_dust_floor
      else if (pool.tvl_usd <? config.min_tvl_usd) && not (bypass_armed pool config)
      then some MarketRejection.tvl_under_minimum
      else if (config.max_tvl_usd >? int 0) && (pool.tvl_usd >? config.max_tvl_usd)
      then some MarketRejection.mega_book
      else none

  abbrev pub fee_apr_pct : DiscoveredPool F → F
  fee_apr_pct pool = (pool.fees_24h_usd ⊗ int 365 ⊗ int 100) ⊘ pool.tvl_usd

  abbrev pub volume_turnover : DiscoveredPool F → F
  volume_turnover pool = pool.volume_24h_usd ⊘ pool.tvl_usd

  -- The gate's measures; `none` in place of a reason when they are within the limits.
  unfoldable pub gate_and_rank_market_gate_metrics :
      DiscoveredPool F → MarketGateConfig F → Option MarketRejection
  unfolding gate_market_tvl
  gate_and_rank_market_gate_metrics pool config =
      gate_market_tvl pool config
      or_else (if not (is_finite pool.fees_24h_usd) || (pool.fees_24h_usd ≤? int 0)
          then some MarketRejection.no_fees
          else if fee_apr_pct pool <? config.min_fee_apr
          then some MarketRejection.low_fee_apr
          else if not (is_finite pool.volume_24h_usd) || (pool.volume_24h_usd ≤? int 0)
          then some MarketRejection.no_volume
          else if volume_turnover pool <? config.min_volume_turnover
          then some MarketRejection.low_turnover
          else if volume_turnover pool >? config.max_volume_turnover
          then some MarketRejection.wash_turnover
          else if not (is_integer pool.bin_step) || (pool.bin_step <? config.min_bin_step)
          then some MarketRejection.fine_bins
          else if pool.bin_step >? config.max_bin_step
          then some MarketRejection.coarse_bins
          else none)

  abbrev pub leg_x : DiscoveredPool F → MarketGateConfig F → MarketLeg F
  leg_x pool config = record {
    stable_or_sol = is_stable_or_sol pool.token_x config.stablecoin_mints;
    verified = pool.token_x_verified;
    freeze_disabled = pool.token_x_freeze_disabled;
    holders = pool.token_x_holders;
  }

  abbrev pub leg_y : DiscoveredPool F → MarketGateConfig F → MarketLeg F
  leg_y pool config = record {
    stable_or_sol = is_stable_or_sol pool.token_y config.stablecoin_mints;
    verified = pool.token_y_verified;
    freeze_disabled = pool.token_y_freeze_disabled;
    holders = pool.token_y_holders;
  }

  unfoldable pub gate_and_rank_market_token_safety :
      DiscoveredPool F → MarketGateConfig F → Option MarketRejection
  unfolding market_leg_passes
  gate_and_rank_market_token_safety pool config =
      if not (market_leg_passes (leg_x pool config) config.min_holders)
      then some MarketRejection.unsafe_leg_x
      else if not (market_leg_passes (leg_y pool config) config.min_holders)
      then some MarketRejection.unsafe_leg_y
      else none
