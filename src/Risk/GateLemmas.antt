-- ===== src/Risk/GateLemmas.antt =====
-- The gates of `evaluateRisk` one by one, and what an approval says of all of them.
use beam_clmm.Prelude.{◌≡◌, ◌≢◌, Bool, true, false, Option, none, some, ◌or◌, ◌or_else◌, arith}
use beam_clmm.Number.{Number}
use beam_clmm.Risk.{AgentDecision, RiskContext, RiskConfig, exit, enter}
use beam_clmm.Risk.Gates.{
  RiskResult, approve, all_checks_passed, gate_exit, gate_confidence, gate_per_pool_cap,
  gate_drawdown, gate_observed_volatility, gate_stop_loss, gate_position_size, gate_rebalance,
  min_entry_size, evaluate_risk,
}

-- Whether a gate's answer is an approval.
abbrev pub can_approve : {F : Type 0} → Option (RiskResult F) → Bool
can_approve none = false
can_approve (some r) = r.approved

module _ {F : Type 0} ⦃n : Number F⦄ (cfg : RiskConfig F) (d : AgentDecision F)
    (ctx : RiskContext F) where
  confidence_rejects : can_approve (gate_confidence d cfg) ≡ false
  unfolding gate_confidence
  confidence_rejects = ground arith

  per_pool_cap_rejects : can_approve (gate_per_pool_cap d ctx cfg) ≡ false
  unfolding gate_per_pool_cap
  per_pool_cap_rejects = ground arith

  drawdown_rejects : can_approve (gate_drawdown d ctx) ≡ false
  unfolding gate_drawdown
  drawdown_rejects = ground arith

  volatility_rejects : can_approve (gate_observed_volatility d ctx cfg) ≡ false
  unfolding gate_observed_volatility
  volatility_rejects = ground arith

  stop_loss_rejects : can_approve (gate_stop_loss d ctx cfg) ≡ false
  unfolding gate_stop_loss
  stop_loss_rejects = ground arith

  pub rebalance_rejects : can_approve (gate_rebalance d ctx cfg) ≡ false
  unfolding gate_rebalance
  rebalance_rejects = ground arith

  exit_only : d.action ≢ exit → gate_exit d ≡ none
  unfolding gate_exit
  exit_only h = ground arith

  pub size_only_enter : d.action ≢ enter → gate_position_size d ctx cfg (min_entry_size ctx) ≡ none
  unfolding gate_position_size
  size_only_enter h = ground arith

  -- The gates before the one for the size.
  pub record Passed : Type 0 where
    pub confident : gate_confidence d cfg ≡ none
    pub has_room : gate_per_pool_cap d ctx cfg ≡ none
    pub no_drawdown : gate_drawdown d ctx ≡ none
    pub calm : gate_observed_volatility d ctx cfg ≡ none
    pub no_stop_loss : gate_stop_loss d ctx cfg ≡ none

  abbrev pub last_gates : RiskResult F
  last_gates =
      (gate_position_size d ctx cfg (min_entry_size ctx) or_else gate_rebalance d ctx cfg)
      or approve all_checks_passed none

  -- An approval of anything but an EXIT has passed every gate up to the size, and is what the last
  -- two gates answer.
  pub approved-Passed :
      d.action ≢ exit
      → (evaluate_risk cfg d ctx).approved ≡ true
      → Passed × (evaluate_risk cfg d ctx ≡ last_gates)
  unfolding evaluate_risk
  approved-Passed not_exit h = ground (
    arith,
    exit_only not_exit,
    confidence_rejects,
    per_pool_cap_rejects,
    drawdown_rejects,
    volatility_rejects,
    stop_loss_rejects,
  )

  -- Conversely, what has passed those gates is decided by the last two.
  pub Passed-evaluate : d.action ≢ exit → Passed → evaluate_risk cfg d ctx ≡ last_gates
  unfolding evaluate_risk
  Passed-evaluate not_exit p =
      ground
        (arith, exit_only not_exit, p.confident, p.has_room, p.no_drawdown, p.calm, p.no_stop_loss)
