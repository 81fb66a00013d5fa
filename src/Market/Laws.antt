-- ===== src/Market/Laws.antt =====
-- Which pools `gateAndRankMarketPools` of engine/market-gate.ts admits, and in which order.
use beam_clmm.Prelude.{
  Bool, Option, ◌&&◌, is_none, not, if◌then◌else◌, ◌≡◌, ◌or◌, some, arith, ◌||◌, ◌or_else◌, none,
  ◌∙◌, refl,
}
use beam_clmm.Number.{Number, is_integer, is_finite, ◌≤?◌, ◌<?◌, int, ◌>?◌}
use beam_clmm.Market.{
  fee_apr_pct, volume_turnover, DiscoveredPool, MarketGateConfig, MarketLeg, market_leg_passes,
  gate_market_tvl, is_false, leg_x, is_true, leg_y, bypass_armed, has_holders,
  gate_and_rank_market_gate_metrics, gate_and_rank_market_token_safety,
}
use beam_clmm.Market.Rank.{market_rejection}

is_none-or_else {ℓ} :
    {A : Type ℓ} (o p : Option A) → is_none (o or_else p) ≡ (is_none o && is_none p)
is_none-or_else none p = refl
is_none-or_else (some x) p = refl

-- A chain of guards with their reasons answers nothing exactly when no guard holds.
tvl_tests {ℓ} :
    {A : Type ℓ} (f d l b m : Bool) (x1 x2 x3 x4 : A)
    → is_none (
        if not f
        then some x1
        else if d
        then some x2
        else if l && not b
        then some x3
        else if m
        then some x4
        else none)
      ≡ (f && (not d && ((not l || b) && not m)))
tvl_tests f d l b m x1 x2 x3 x4 = ground arith

measure_tests {ℓ} :
    {A : Type ℓ} (f p a v q l w i s c : Bool) (x1 x2 x3 x4 x5 x6 x7 : A)
    → is_none (
        if not f || p
        then some x1
        else if a
        then some x2
        else if not v || q
        then some x3
        else if l
        then some x4
        else if w
        then some x5
        else if not i || s
        then some x6
        else if c
        then some x7
        else none)
      ≡ (((f && not p) && (not a && ((v && not q) && (not l && not w)))) && (i && (not s && not c)))
measure_tests f p a v q l w i s c x1 x2 x3 x4 x5 x6 x7 = ground arith

safety_tests {ℓ} :
    {A : Type ℓ} (a b : Bool) (x1 x2 : A)
    → is_none (if not a then some x1 else if not b then some x2 else none) ≡ (a && b)
safety_tests a b x1 x2 = ground arith

both_equal : {a b c d : Bool} → a ≡ b → c ≡ d → (a && c) ≡ (b && d)
both_equal e f = cc

regroup : (a b c d e : Bool) → ((a && (b && c)) && (d && e)) ≡ (a && (b && (c && (d && e))))
regroup a b c d e = ground arith

module _ {F : Type 0} ⦃n : Number F⦄ where
  -- What the gates let through, condition by condition.
  abbrev pub meets_tvl_limits : DiscoveredPool F → MarketGateConfig F → Bool
  meets_tvl_limits pool config =
      is_finite pool.tvl_usd
      && (not (
            ((config.absolute_min_tvl_usd or int 0) >? int 0)
            && (pool.tvl_usd <? (config.absolute_min_tvl_usd or int 0)))
          && ((not (pool.tvl_usd <? config.min_tvl_usd) || bypass_armed pool config)
              && not ((config.max_tvl_usd >? int 0) && (pool.tvl_usd >? config.max_tvl_usd))))

  abbrev pub meets_flow_limits : DiscoveredPool F → MarketGateConfig F → Bool
  meets_flow_limits pool config =
      (is_finite pool.fees_24h_usd && not (pool.fees_24h_usd ≤? int 0))
      && (not (fee_apr_pct pool <? config.min_fee_apr)
          && ((is_finite pool.volume_24h_usd && not (pool.volume_24h_usd ≤? int 0))
              && (not (volume_turnover pool <? config.min_volume_turnover)
                  && not (volume_turnover pool >? config.max_volume_turnover))))

  abbrev pub meets_bin_limits : DiscoveredPool F → MarketGateConfig F → Bool
  meets_bin_limits pool config =
      is_integer pool.bin_step
      && (not (pool.bin_step <? config.min_bin_step) && not (pool.bin_step >? config.max_bin_step))

  -- A leg is known to be risky when its freeze authority is known to be live on an unverified token,
  -- or its holders are known to be too few and it is not verified with the authority gone or unknown.
  abbrev pub is_risky_leg : MarketLeg F → F → Bool
  is_risky_leg leg min_holders =
      not leg.stable_or_sol
      && ((is_false leg.freeze_disabled && not (is_true leg.verified))
          || (not (has_holders leg.holders min_holders)
              && not (is_true leg.verified && not (is_false leg.freeze_disabled))))

  pub market_leg_passes-eq-not-is_risky_leg :
      (leg : MarketLeg F) (min_holders : F)
      → market_leg_passes leg min_holders ≡ not (is_risky_leg leg min_holders)
  unfolding market_leg_passes
  market_leg_passes-eq-not-is_risky_leg leg min_holders = ground arith

  abbrev pub is_admissible : DiscoveredPool F → MarketGateConfig F → Bool
  is_admissible pool config =
      meets_tvl_limits pool config
      && (meets_flow_limits pool config
          && (meets_bin_limits pool config
              && (not (is_risky_leg (leg_x pool config) config.min_holders)
                  && not (is_risky_leg (leg_y pool config) config.min_holders))))

  gate_market_tvl-eq :
      (pool : DiscoveredPool F) (config : MarketGateConfig F)
      → is_none (gate_market_tvl pool config) ≡ meets_tvl_limits pool config
  unfolding gate_market_tvl
  gate_market_tvl-eq pool config =
      tvl_tests (is_finite pool.tvl_usd)
        (((config.absolute_min_tvl_usd or int 0) >? int 0)
          && (pool.tvl_usd <? (config.absolute_min_tvl_usd or int 0)))
        (pool.tvl_usd <? config.min_tvl_usd) (bypass_armed pool config)
        ((config.max_tvl_usd >? int 0) && (pool.tvl_usd >? config.max_tvl_usd)) _ _ _ _

  metrics-eq :
      (pool : DiscoveredPool F) (config : MarketGateConfig F)
      → is_none (gate_and_rank_market_gate_metrics pool config) ≡ (
          meets_tvl_limits pool config
          && (meets_flow_limits pool config && meets_bin_limits pool config))
  unfolding gate_and_rank_market_gate_metrics
  metrics-eq pool config =
      is_none-or_else (gate_market_tvl pool config) _
      ∙ both_equal (gate_market_tvl-eq pool config) (
          measure_tests (is_finite pool.fees_24h_usd) (pool.fees_24h_usd ≤? int 0)
            (fee_apr_pct pool <? config.min_fee_apr) (is_finite pool.volume_24h_usd)
            (pool.volume_24h_usd ≤? int 0) (volume_turnover pool <? config.min_volume_turnover)
            (volume_turnover pool >? config.max_volume_turnover) (is_integer pool.bin_step)
            (pool.bin_step <? config.min_bin_step) (pool.bin_step >? config.max_bin_step) _ _ _ _ _
            _ _)

  safety-eq :
      (pool : DiscoveredPool F) (config : MarketGateConfig F)
      → is_none (gate_and_rank_market_token_safety pool config) ≡ (
          not (is_risky_leg (leg_x pool config) config.min_holders)
          && (not (is_risky_leg (leg_y pool config) config.min_holders)))
  unfolding gate_and_rank_market_token_safety
  safety-eq pool config =
      safety_tests (market_leg_passes (leg_x pool config) config.min_holders)
        (market_leg_passes (leg_y pool config) config.min_holders) _ _
      ∙ both_equal (market_leg_passes-eq-not-is_risky_leg (leg_x pool config) config.min_holders)
          (market_leg_passes-eq-not-is_risky_leg (leg_y pool config) config.min_holders)

  -- The loop rejects a pool exactly when the pool misses one of the limits or has a leg that is known
  -- to be risky.
  pub market_rejection-eq :
      (pool : DiscoveredPool F) (config : MarketGateConfig F)
      → is_none (market_rejection pool config) ≡ is_admissible pool config
  market_rejection-eq pool config =
      is_none-or_else (gate_and_rank_market_gate_metrics pool config) _
      ∙ both_equal (metrics-eq pool config) (safety-eq pool config)
      ∙ regroup (meets_tvl_limits pool config) (meets_flow_limits pool config)
          (meets_bin_limits pool config) (not (is_risky_leg (leg_x pool config) config.min_holders))
          (not (is_risky_leg (leg_y pool config) config.min_holders))
