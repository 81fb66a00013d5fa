-- ===== src/Risk/Gates.antt =====
-- The eight gates of `evaluateRisk` in engine/risk-service.ts, in their order.
use beam_clmm.Prelude.{
  ℕ, Bool, true, false, not, ◌&&◌, ◌||◌, Option, none, some, List, String, str_eq, length, find,
  if◌then◌else◌, ◌or◌, ◌or_else◌, is_none,
}
use beam_clmm.Number.{
  Number, int, lit, ◌⊖◌, ◌⊗◌, ◌⊘◌, neg, abs, max, ◌≤?◌, ◌<?◌, ◌≥?◌, ◌>?◌, is_finite,
}
use beam_clmm.Risk.{
  hold, rebalance, exit, enter, same_action, Position, RebalanceParams, AgentDecision, RiskContext,
  RiskConfig, on_pool, pool_positions, pool_exposure, entry_size_floor_usd,
}

pub data RiskReason : Type 0 where
  exit_capital_protection confidence_not_finite confidence_below_threshold : RiskReason
  per_pool_cap_reached drawdown_not_finite drawdown_exceeded too_volatile : RiskReason
  stop_loss_triggered size_below_minimum size_not_finite exposure_fills_cap : RiskReason
  headroom_below_minimum size_capped invalid_range range_too_wide : RiskReason
  range_misses_active_bin all_checks_passed : RiskReason

pub record RiskResult (F : Type 0) : Type 0 where
  pub approved : Bool
  pub reason : RiskReason
  pub adjusted_size_usd : Option F

abbrev pub reject : {F : Type 0} → RiskReason → Option (RiskResult F)
reject why = some (record { approved = false; reason = why; adjusted_size_usd = none })

abbrev pub approve : {F : Type 0} → RiskReason → Option F → RiskResult F
approve why size = record { approved = true; reason = why; adjusted_size_usd = size }

module _ {F : Type 0} ⦃n : Number F⦄ where
  unfoldable pub gate_exit : AgentDecision F → Option (RiskResult F)
  gate_exit d =
      if same_action d.action exit then some (approve exit_capital_protection none) else none

  unfoldable pub gate_confidence : AgentDecision F → RiskConfig F → Option (RiskResult F)
  gate_confidence d cfg =
      if not (is_finite d.confidence)
      then reject confidence_not_finite
      else if d.confidence <? cfg.confidence_threshold
      then reject confidence_below_threshold
      else none

  abbrev pub pool_position_count : AgentDecision F → RiskContext F → ℕ
  pool_position_count d ctx = length (pool_positions d.pool_address ctx.open_positions)

  unfoldable pub gate_per_pool_cap :
      AgentDecision F → RiskContext F → RiskConfig F → Option (RiskResult F)
  gate_per_pool_cap d ctx cfg =
      if not (same_action d.action enter) || str_eq d.pool_address ""
      then none
      else if int (pool_position_count d ctx) ≥? cfg.max_positions_per_pool
      then reject per_pool_cap_reached
      else none

  unfoldable pub gate_drawdown : AgentDecision F → RiskContext F → Option (RiskResult F)
  gate_drawdown d ctx =
      if not (same_action d.action enter)
      then none
      else if not (is_finite ctx.portfolio_value_usd) || not (is_finite ctx.recent_pnl_usd)
      then reject drawdown_not_finite
      else if ctx.portfolio_value_usd >? int 0
      then (if (ctx.recent_pnl_usd <? int 0)
            && ((abs ctx.recent_pnl_usd ⊘ ctx.portfolio_value_usd) >? lit 1 1)
          then reject drawdown_exceeded
          else none)
      else none

  abbrev above : Option F → F → Bool
  above none limit = false
  above (some v) limit = v >? limit

  unfoldable pub gate_observed_volatility :
      AgentDecision F → RiskContext F → RiskConfig F → Option (RiskResult F)
  gate_observed_volatility d ctx cfg =
      if not (same_action d.action enter) || is_none ctx.observed_price_range_pct
      then none
      else if above ctx.observed_price_range_pct cfg.max_observed_price_range_pct
      then reject too_volatile
      else none

  abbrev has_id : String → Position F → Bool
  has_id target p = str_eq p.id target

  abbrev find_target : Option String → String → List (Position F) → Option (Position F)
  find_target none pool ps = find (on_pool pool) ps
  find_target (some id) pool ps = find (has_id id) ps

  -- The position that a decision is about: by its id, by the context's, or else by the pool.
  unfoldable pub stop_loss_target : AgentDecision F → RiskContext F → Option (Position F)
  unfolding find
  stop_loss_target d ctx =
      find_target (d.position_id or_else ctx.position_id) d.pool_address ctx.open_positions

  abbrev pub loss_pct : Position F → F
  loss_pct p = (p.current_value_usd ⊖ p.deposited_usd) ⊘ p.deposited_usd

  abbrev stop_loss_check : Option (Position F) → RiskConfig F → Option (RiskResult F)
  stop_loss_check none cfg = none
  stop_loss_check (some p) cfg =
      if p.deposited_usd ≤? int 0
      then none
      else if loss_pct p <? neg cfg.stop_loss_pct
      then reject stop_loss_triggered
      else none

  unfoldable pub gate_stop_loss :
      AgentDecision F → RiskContext F → RiskConfig F → Option (RiskResult F)
  gate_stop_loss d ctx cfg =
      if not (same_action d.action hold) && not (same_action d.action rebalance)
      then none
      else stop_loss_check (stop_loss_target d ctx) cfg

  abbrev pub max_entry_size : AgentDecision F → RiskContext F → RiskConfig F → F
  max_entry_size d ctx cfg =
      max
        (ctx.portfolio_value_usd ⊗ cfg.max_per_pool_allocation_pct
          ⊖ pool_exposure d.pool_address ctx.open_positions)
        (int 0)

  unfoldable pub size_check :
      F → AgentDecision F → RiskContext F → RiskConfig F → F → Option (RiskResult F)
  size_check size d ctx cfg min_size =
      let max_size = max_entry_size d ctx cfg in
      if size <? min_size
      then reject size_below_minimum
      else if not (is_finite size)
          || (not (is_finite ctx.portfolio_value_usd)
              || not (is_finite (pool_exposure d.pool_address ctx.open_positions)))
      then reject size_not_finite
      else if size ≤? max_size
      then none
      else if max_size ≤? int 0
      then reject exposure_fills_cap
      else if max_size <? min_size
      then reject headroom_below_minimum
      else some (approve size_capped (some max_size))

  abbrev sized :
      Option F → AgentDecision F → RiskContext F → RiskConfig F → F → Option (RiskResult F)
  sized none d ctx cfg min_size = none
  sized (some size) d ctx cfg min_size = size_check size d ctx cfg min_size

  unfoldable pub gate_position_size :
      AgentDecision F → RiskContext F → RiskConfig F → F → Option (RiskResult F)
  gate_position_size d ctx cfg min_size =
      if not (same_action d.action enter)
      then none
      else sized d.position_size_usd d ctx cfg min_size

  -- `activeBinId !== undefined && isFinite(activeBinId) && (below || above)`
  abbrev pub misses_active_bin : Option F → RebalanceParams F → Bool
  misses_active_bin none p = false
  misses_active_bin (some bin) p =
      is_finite bin && ((bin <? p.new_lower_bin_id) || (bin >? p.new_upper_bin_id))

  abbrev range_check :
      Option (RebalanceParams F) → RiskContext F → RiskConfig F → Option (RiskResult F)
  range_check none ctx cfg = none
  range_check (some p) ctx cfg =
      if p.new_upper_bin_id ≤? p.new_lower_bin_id
      then reject invalid_range
      else if (p.new_upper_bin_id ⊖ p.new_lower_bin_id) >? cfg.max_rebalance_range_bins
      then reject range_too_wide
      else if misses_active_bin ctx.active_bin_id p
      then reject range_misses_active_bin
      else none

  unfoldable pub gate_rebalance :
      AgentDecision F → RiskContext F → RiskConfig F → Option (RiskResult F)
  gate_rebalance d ctx cfg =
      if not (same_action d.action rebalance) then none else range_check d.rebalance_params ctx cfg

  abbrev pub min_entry_size : RiskContext F → F
  min_entry_size ctx = ctx.min_entry_size_usd or entry_size_floor_usd

  -- The first gate that answers decides; with no answer the decision is approved as it is.
  unfoldable pub evaluate_risk : RiskConfig F → AgentDecision F → RiskContext F → RiskResult F
  evaluate_risk cfg d ctx =
      (gate_exit d
        or_else (gate_confidence d cfg
            or_else (gate_per_pool_cap d ctx cfg
                or_else (gate_drawdown d ctx
                    or_else (gate_observed_volatility d ctx cfg
                        or_else (gate_stop_loss d ctx cfg
                            or_else (gate_position_size d ctx cfg (min_entry_size ctx)
                                or_else gate_rebalance d ctx cfg)))))))
      or approve all_checks_passed none
