-- ===== src/Risk/Enter.antt =====
-- What an approved ENTER is worth: engine/risk-service.ts, gates 2 to 7.
use beam_clmm.Prelude.{
  ◌≡◌, true, false, Option, none, some, arith, str_eq_iff, sym, ◌∙◌, ◌⊎◌, Bool-cases, str_eq, inl,
  inr,
}
use beam_clmm.Number.{Number, int, lit, ◌⊘◌, abs, ◌<?◌, is_finite}
use beam_clmm.Number.Order.{le_of_not_lt, lt_of_not_le, IsOrdered, IsNum, ◌≼◌, ◌≺◌}
use beam_clmm.Risk.{AgentDecision, RiskContext, RiskConfig, enter}
use beam_clmm.Risk.Gates.{
  gate_confidence, gate_per_pool_cap, gate_drawdown, gate_observed_volatility, pool_position_count,
  evaluate_risk,
}
use beam_clmm.Risk.GateLemmas.{Passed, approved-Passed}

module _ {F : Type 0} ⦃n : Number F⦄ where
  -- The thresholds of the configuration are numbers, not NaN.
  pub record IsNumericConfig (cfg : RiskConfig F) : Type 0 where
    pub threshold : IsNum cfg.confidence_threshold
    pub positions : IsNum cfg.max_positions_per_pool
    pub range : IsNum cfg.max_observed_price_range_pct
    pub stop_loss : IsNum (n.neg cfg.stop_loss_pct)
    pub width : IsNum cfg.max_rebalance_range_bins

  abbrev IsCalm : Option F → F → Type 0
  IsCalm none limit = Unit {0}
  IsCalm (some v) limit = ¬ (limit ≺ v)

  pub record IsSafeEntry (cfg : RiskConfig F) (d : AgentDecision F) (ctx : RiskContext F)
      : Type 0 where
    pub finite_confidence : is_finite d.confidence ≡ true
    pub confident : cfg.confidence_threshold ≼ d.confidence
    pub has_room :
        (d.pool_address ≡ "") ⊎ (int (pool_position_count d ctx) ≺ cfg.max_positions_per_pool)
    pub finite_portfolio : is_finite ctx.portfolio_value_usd ≡ true
    pub finite_pnl : is_finite ctx.recent_pnl_usd ≡ true
    pub small_loss : ¬ (
        (int 0 ≺ ctx.portfolio_value_usd)
        × (ctx.recent_pnl_usd ≺ int 0)
        × (lit 1 1 ≺ (abs ctx.recent_pnl_usd ⊘ ctx.portfolio_value_usd)))
    pub calm : IsCalm ctx.observed_price_range_pct cfg.max_observed_price_range_pct

  module _ (laws : IsOrdered F) where
    open laws use {num_of_finite, lit_num}

    Passed-IsSafeEntry :
        (cfg : RiskConfig F) (d : AgentDecision F) (ctx : RiskContext F)
        → IsNumericConfig cfg
        → d.action ≡ enter
        → Passed cfg d ctx
        → IsSafeEntry cfg d ctx
    unfolding gate_confidence gate_per_pool_cap gate_drawdown gate_observed_volatility
    Passed-IsSafeEntry cfg d ctx num is_enter p =
        let finite : is_finite d.confidence ≡ true = ground (arith, p.confident) in
        let below : (d.confidence <? cfg.confidence_threshold) ≡ false =
          ground (arith, p.confident) in
        record {
          finite_confidence = finite;
          confident = le_of_not_lt laws _ _ (num_of_finite _ finite) num.threshold below;
          has_room = elim (Bool-cases (str_eq d.pool_address "")) [
            | inl unnamed ↦ inl ((str_eq_iff _ _).0 unnamed)
            | inr named ↦ inr (
                lt_of_not_le laws _ _ num.positions (lit_num _ _)
                  (ground (arith, p.has_room, str_eq_iff d.pool_address "")))
          ];
          finite_portfolio = ground (arith, p.no_drawdown);
          finite_pnl = ground (arith, p.no_drawdown);
          small_loss = ground (arith, p.no_drawdown);
          calm = ground (arith, p.calm);
        }

    -- Where the thresholds of the configuration are not NaN, an ENTER is approved only with the confidence
    -- that the configuration asks for, with room on the pool if it names one, with finite portfolio
    -- figures, without a drawdown beyond a tenth of the portfolio and without an observed price range
    -- beyond the limit.
    pub evaluate_risk-IsSafeEntry :
        (cfg : RiskConfig F) (d : AgentDecision F) (ctx : RiskContext F)
        → IsNumericConfig cfg
        → d.action ≡ enter
        → (evaluate_risk cfg d ctx).approved ≡ true
        → IsSafeEntry cfg d ctx
    evaluate_risk-IsSafeEntry cfg d ctx num is_enter ok =
        Passed-IsSafeEntry cfg d ctx num is_enter
          (approved-Passed cfg d ctx (λ e. cc (sym is_enter ∙ e)) ok).0
