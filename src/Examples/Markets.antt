-- ===== src/Examples/Markets.antt =====
-- Pools, the market gate, fees and ticks at concrete inputs.
use beam_clmm.Prelude.{some, none, List, [], ◌∷◌, refl, ◌≡◌, String, Option, ◌||◌}
use beam_clmm.Examples.Data.{num}
use beam_clmm.Number.Fixed.{Fixed, fixed_number, Fixed-IsOrdered}
use beam_clmm.Number.FixedRounding.{Fixed-IsRounded}
use beam_clmm.Market.{DiscoveredPool, MarketGateConfig, MarketScanRankMode}
use beam_clmm.Market.Counts.{IsCounted, gate_and_rank_market_pools-IsCounted}
use beam_clmm.Pools.{PoolState, PoolSnapshot, StatsSource}
use beam_clmm.Pools.Challenge.{
  challenge_rotation_signal, drawdown_of, challenge_yield_below_exit_threshold,
}
use beam_clmm.Market.Rank.{gate_and_rank_market_pools}
use beam_clmm.Pools.Hysteresis.{is_exit, challenge_rotation_signal-eq}
use beam_clmm.Number.{lit, neg, ◌<?◌}
use beam_clmm.Fees.Persistence.{FeePersistenceOptions}
use beam_clmm.Pools.Depeg.{IsDrain, drain_since-IsDrain, drain_since}
use beam_clmm.Prelude.Int.{◌-ℤ◌, quot, ◌*ℤ◌}

abbrev market_config : MarketGateConfig Fixed
market_config = record {
  min_tvl_usd = num 1000;
  absolute_min_tvl_usd = some (num 100);
  high_turnover_bypass = none;
  max_tvl_usd = num 0;
  target_tvl_usd = num 10000;
  rank_mode = MarketScanRankMode.capital_fit;
  min_fee_apr = num 10;
  min_volume_turnover = lit 1 1;
  max_volume_turnover = num 20;
  min_holders = num 50;
  min_bin_step = num 1;
  max_bin_step = num 200;
  stablecoin_mints = "usd" ∷ [];
}

abbrev pool_with : String → Fixed → Fixed → DiscoveredPool Fixed
pool_with address tvl fees = record {
  address = address;
  tvl_usd = tvl;
  volume_24h_usd = num 8000;
  fees_24h_usd = fees;
  bin_step = num 60;
  token_x = "tok";
  token_y = "usd";
  token_x_symbol = some "TOK";
  token_y_symbol = some "USDC";
  token_x_verified = none;
  token_y_verified = none;
  token_x_freeze_disabled = none;
  token_y_freeze_disabled = none;
  token_x_holders = some (num 90);
  token_y_holders = none;
}

abbrev snapshot : List (DiscoveredPool Fixed)
snapshot =
    pool_with "A" (num 4000) (num 20)
    ∷ pool_with "B" (num 50) (num 20)
    ∷ pool_with "C" (num 5000) (num 60)
    ∷ []

abbrev no_log : Fixed → Fixed
no_log x = num 0

abbrev same_text : String → String
same_text s = s

gate_and_rank_market_pools-IsCounted_example :
    IsCounted no_log same_text market_config snapshot
      (gate_and_rank_market_pools no_log same_text snapshot market_config)
gate_and_rank_market_pools-IsCounted_example =
    gate_and_rank_market_pools-IsCounted no_log same_text market_config snapshot

abbrev pool_now : PoolState Fixed
pool_now = record {
  token_x = "tok";
  token_y = "usd";
  token_x_symbol = "TOK";
  token_y_symbol = "USDC";
  tvl_usd = num 400;
  volume_24h_usd = num 100;
  fees_24h_usd = num 1;
  current_price = num 2;
  stats_source = some StatsSource.krystal;
  drawdown_24h = some (num 0);
}

abbrev pool_before : PoolSnapshot Fixed
pool_before = record {
  tvl_usd = num 1000;
  volume_24h_usd = num 500;
  fees_24h_usd = num 5;
  stats_source = some StatsSource.krystal;
}

challenge_rotation_signal-eq_example :
    is_exit (challenge_rotation_signal pool_now (some (num 1)) (num 5)) ≡ (
      (drawdown_of pool_now <? neg (num 5))
      || challenge_yield_below_exit_threshold pool_now (some (num 1)))
challenge_rotation_signal-eq_example =
    challenge_rotation_signal-eq Fixed-IsOrdered Fixed-IsRounded pool_now (some (num 1)) (num 5)
      refl

drain_since-IsDrain_example :
    (r : PoolSnapshot Fixed) × (◌≡◌ {A = Option (PoolSnapshot Fixed)} (some pool_before) (some r))
    × IsDrain pool_now r (lit 5 1) (record { tvl_pct = neg (lit 6 1); volume_pct = neg (lit 8 1) })
unfolding drain_since quot ◌*ℤ◌ ◌-ℤ◌
drain_since-IsDrain_example =
    drain_since-IsDrain pool_now (some pool_before) (lit 5 1)
      (record { tvl_pct = neg (lit 6 1); volume_pct = neg (lit 8 1) }) refl

abbrev daily_fees : List (Option Fixed)
daily_fees = some (num 4) ∷ none ∷ some (num 5) ∷ some (num 6) ∷ some (num 9) ∷ []

abbrev defaults : FeePersistenceOptions Fixed
defaults = record { window_days = none; min_positive_days = none; max_spike_ratio = none }
