-- ===== src/Market/Rank.antt =====
-- `gateAndRankMarketPools` of engine/market-gate.ts.
use beam_clmm.Prelude.{Bool, Option, List, String, sort_by, ◌∷◌, [], ◌or_else◌, some, none}
use beam_clmm.Number.{Number, ◌⊖◌, ◌>?◌, int}
use beam_clmm.Market.{
  fee_apr_pct, volume_turnover, DiscoveredPool, MarketGateConfig, MarketRejection,
  gate_and_rank_market_gate_metrics, gate_and_rank_market_token_safety,
}
use beam_clmm.Market.Score.{MarketPoolRank, market_pool_score, MarketNote}

pub record RejectedPool : Type 0 where
  pub address : String
  pub reason : MarketRejection

pub record MarketGateResult (F : Type 0) : Type 0 where
  pub ranked : List (MarketPoolRank F)
  pub rejected : List RejectedPool

module _ {F : Type 0} ⦃n : Number F⦄ where
  -- The reason of the loop's first `reject`, if it gets to one.
  abbrev pub market_rejection : DiscoveredPool F → MarketGateConfig F → Option MarketRejection
  market_rejection pool config =
      gate_and_rank_market_gate_metrics pool config
      or_else gate_and_rank_market_token_safety pool config

  abbrev pub scores_less : MarketPoolRank F → MarketPoolRank F → Bool
  scores_less a b = (b.score ⊖ a.score) >? int 0

-- The notes with the turnover after the first one.
abbrev pub insert_second {ℓ} : {A : Type ℓ} → A → A → List A → List A
insert_second missing x [] = missing ∷ x ∷ []
insert_second missing x (y ∷ ys) = y ∷ x ∷ ys

module _ {F : Type 0} ⦃n : Number F⦄ (log10 : F → F) (to_upper_case : String → String) where
  abbrev pub rank_of : DiscoveredPool F → MarketGateConfig F → MarketPoolRank F
  rank_of pool config =
      let scored =
        market_pool_score log10 to_upper_case pool (fee_apr_pct pool) (volume_turnover pool)
          config in
      record {
        pool = pool;
        fee_apr_pct = fee_apr_pct pool;
        volume_turnover = volume_turnover pool;
        score = scored.score;
        notes =
            insert_second (MarketNote.fee_apr (fee_apr_pct pool))
              (MarketNote.turnover (volume_turnover pool)) scored.notes;
      }

  -- One round of the loop, before the rounds for the later pools.
  abbrev pub add_pool :
      Option MarketRejection
      → DiscoveredPool F
      → MarketGateConfig F
      → MarketGateResult F
      → MarketGateResult F
  add_pool none pool config later = record {
    ranked = rank_of pool config ∷ later.ranked;
    rejected = later.rejected;
  }
  add_pool (some reason) pool config later = record {
    ranked = later.ranked;
    rejected = record { address = pool.address; reason = reason } ∷ later.rejected;
  }

  unfoldable pub gate_pools : List (DiscoveredPool F) → MarketGateConfig F → MarketGateResult F
  gate_pools [] config = record { ranked = []; rejected = [] }
  gate_pools (pool ∷ pools) config =
      add_pool (market_rejection pool config) pool config (gate_pools pools config)

  unfoldable pub gate_and_rank_market_pools :
      List (DiscoveredPool F) → MarketGateConfig F → MarketGateResult F
  unfolding gate_pools sort_by gate_and_rank_market_token_safety gate_and_rank_market_gate_metrics
      market_pool_score
  gate_and_rank_market_pools pools config =
      let gated = gate_pools pools config in
      record gated { ranked = sort_by scores_less gated.ranked }
