-- ===== src/Market/Score.antt =====
-- The composite rank of engine/market-gate.ts. `Math.log10` and `toUpperCase` are parameters; a note
-- is a constructor with the numbers that the source prints.
use beam_clmm.Prelude.{Bool, List, String, Option, if◌then◌else◌, ◌∷◌, ◌||◌, [], any, str_eq, ◌or◌}
use beam_clmm.Number.{Number, ◌⊗◌, min, max, lit, ◌≥?◌, ◌>?◌, ◌⊖◌, int, abs, ◌⊘◌}
use beam_clmm.Market.{DiscoveredPool, MarketGateConfig, MarketScanRankMode}

pub data MarketNote (F : Type 0) : Type 0 where
  fee_apr turnover depth_factor capital_fit_factor : F → MarketNote F
  fee_tier turnover_tier : F → MarketNote F
  stable_leg : MarketNote F

pub record MarketPoolScore (F : Type 0) : Type 0 where
  pub score : F
  pub notes : List (MarketNote F)

pub record MarketPoolRank (F : Type 0) : Type 0 where
  pub pool : DiscoveredPool F
  pub fee_apr_pct : F
  pub volume_turnover : F
  pub score : F
  pub notes : List (MarketNote F)

abbrev stable_symbols : List String
stable_symbols = "USDC" ∷ "USDBC" ∷ "USDT" ∷ "DAI" ∷ "USD+" ∷ "USDG" ∷ "PYUSD" ∷ []

module _ {F : Type 0} ⦃n : Number F⦄ (log10 : F → F) (to_upper_case : String → String) where
  unfoldable pub depth_liquidity_factor : F → F
  depth_liquidity_factor tvl = min (max (log10 (max tvl (int 1)) ⊘ int 6) (lit 6 1)) (lit 14 1)

  unfoldable pub capital_fit_size_factor : F → F → F
  capital_fit_size_factor tvl target =
      min (max (lit 125 2 ⊖ lit 5 1 ⊗ abs (log10 (max tvl (int 1) ⊘ max target (int 1)))) (lit 2 1))
        (lit 135 2)

  abbrev implied_fee : DiscoveredPool F → F
  implied_fee pool =
      if pool.volume_24h_usd >? int 0 then pool.fees_24h_usd ⊘ pool.volume_24h_usd else int 0

  unfoldable pub fee_tier_score_factor : DiscoveredPool F → F
  fee_tier_score_factor pool =
      if implied_fee pool ≥? lit 9 3
      then lit 125 2
      else if implied_fee pool ≥? lit 25 4
      then lit 11 1
      else if implied_fee pool ≥? lit 4 4
      then lit 85 2
      else lit 55 2

  abbrev has_stable_symbol : Option String → Bool
  has_stable_symbol symbol = any (str_eq (to_upper_case (symbol or ""))) stable_symbols

  abbrev is_stable_leg : DiscoveredPool F → Bool
  is_stable_leg pool =
      has_stable_symbol pool.token_x_symbol || has_stable_symbol pool.token_y_symbol

  abbrev stable_leg_score_factor : DiscoveredPool F → F
  stable_leg_score_factor pool = if is_stable_leg pool then lit 115 2 else int 1

  unfoldable pub turnover_score_factor : F → F
  turnover_score_factor t =
      if t ≥? int 8
      then lit 15 1
      else if t ≥? int 4
      then lit 135 2
      else if t ≥? int 2
      then lit 12 1
      else if t ≥? lit 5 1
      then lit 11 1
      else int 1

  unfoldable pub score_size_factor : MarketScanRankMode → DiscoveredPool F → MarketGateConfig F → F
  score_size_factor MarketScanRankMode.depth pool config = depth_liquidity_factor pool.tvl_usd
  score_size_factor MarketScanRankMode.capital_fit pool config =
      capital_fit_size_factor pool.tvl_usd config.target_tvl_usd

  abbrev pub size_note : MarketScanRankMode → F → MarketNote F
  size_note MarketScanRankMode.depth x = MarketNote.depth_factor x
  size_note MarketScanRankMode.capital_fit x = MarketNote.capital_fit_factor x

  abbrev score_notes : DiscoveredPool F → F → F → MarketGateConfig F → List (MarketNote F)
  score_notes pool apr t config =
      MarketNote.fee_apr apr
      ∷ size_note config.rank_mode (score_size_factor config.rank_mode pool config)
      ∷ MarketNote.fee_tier (fee_tier_score_factor pool)
      ∷ MarketNote.turnover_tier (turnover_score_factor t)
      ∷ (if is_stable_leg pool then MarketNote.stable_leg ∷ [] else [])

  unfoldable pub market_pool_score :
      DiscoveredPool F → F → F → MarketGateConfig F → MarketPoolScore F
  unfolding fee_tier_score_factor
  market_pool_score pool apr t config = record {
    score =
        apr
        ⊗ score_size_factor config.rank_mode pool config
        ⊗ fee_tier_score_factor pool
        ⊗ stable_leg_score_factor pool
        ⊗ turnover_score_factor t;
    notes = score_notes pool apr t config;
  }
