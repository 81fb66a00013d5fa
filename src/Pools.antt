-- ===== src/Pools.antt =====
-- What the measured state of a pool says: scores and rotation of the challenge strategy
-- (engine/challenge-strategy.ts), and depeg and drain signals (engine/depeg-liquidity-detector.ts).
-- Of `PoolState` and `PoolSnapshot` (engine/types.ts) the fields that these read.
pub mod Challenge
pub mod Hysteresis
pub mod Depeg
use beam_clmm.Prelude.{Bool, String, Option, false, some, true, none}

pub data StatsSource : Type 0 where
  datapi krystal geckoterminal heuristic : StatsSource

pub record PoolState (F : Type 0) : Type 0 where
  pub token_x : String
  pub token_y : String
  pub token_x_symbol : String
  pub token_y_symbol : String
  pub tvl_usd : F
  pub volume_24h_usd : F
  pub fees_24h_usd : F
  pub current_price : F
  pub stats_source : Option StatsSource
  pub drawdown_24h : Option F

pub record PoolSnapshot (F : Type 0) : Type 0 where
  pub tvl_usd : F
  pub volume_24h_usd : F
  pub fees_24h_usd : F
  pub stats_source : Option StatsSource

abbrev pub is_measured_stats_source : Option StatsSource → Bool
is_measured_stats_source none = false
is_measured_stats_source (some StatsSource.heuristic) = false
is_measured_stats_source (some _) = true
