-- ===== src/Examples/Moves.antt =====
-- A rebalance of a position that has lost less than the stop, and deposits, at concrete inputs.
use beam_clmm.Examples.Data.{num, decide, context, risk_config, range, held}
use beam_clmm.Prelude.{◌≡◌, refl, some, none, true, ◌↔◌, ◌∷◌, []}
use beam_clmm.Number.Fixed.{Fixed, fixed_number, Fixed-IsOrdered}
use beam_clmm.Risk.{rebalance, AgentDecision, pool_exposure}
use beam_clmm.Risk.Gates.{
  evaluate_risk, gate_exit, gate_confidence, gate_per_pool_cap, gate_drawdown,
  gate_observed_volatility, gate_stop_loss, stop_loss_target, gate_position_size, gate_rebalance,
}
use beam_clmm.Risk.Rebalance.{IsSafeRange, evaluate_risk-IsSafeRange}
use beam_clmm.Risk.Allocation.{PerPoolAllocationInput, evaluate_per_pool_allocation}
use beam_clmm.Risk.Admitted.{IsAdmitted, evaluate_per_pool_allocation_iff}
use beam_clmm.Number.{lit}
use beam_clmm.Prelude.Int.{quot, ◌*ℤ◌, ◌-ℤ◌, ◌+ℤ◌}

abbrev move : AgentDecision Fixed
move = decide rebalance "A" (some range) none

approved : (evaluate_risk risk_config move (context "A")).approved ≡ true
unfolding evaluate_risk gate_exit gate_confidence gate_per_pool_cap gate_drawdown
    gate_observed_volatility gate_stop_loss stop_loss_target quot ◌*ℤ◌ ◌-ℤ◌ gate_position_size
    gate_rebalance
approved = refl

evaluate_risk-IsSafeRange_example : IsSafeRange risk_config (context "A") range
evaluate_risk-IsSafeRange_example =
    evaluate_risk-IsSafeRange Fixed-IsOrdered risk_config move (context "A") range refl refl refl
      refl approved

abbrev deposit : PerPoolAllocationInput Fixed
deposit = record {
  proposed_deposit_usd = num 400;
  portfolio_value_usd = num 1000;
  open_positions = held ∷ [];
  max_per_pool_allocation_pct = lit 25 2;
  max_open_positions = num 5;
  pool_address = "A";
  max_positions_per_pool = num 2;
  pool_tvl_usd = none;
  challenge_pool_share_cap_pct = none;
  counted_open_positions = none;
  counted_pool_positions = none;
}

evaluate_per_pool_allocation_iff_example :
    ((evaluate_per_pool_allocation deposit).approved ≡ true) ↔ IsAdmitted deposit
unfolding quot ◌*ℤ◌ pool_exposure ◌-ℤ◌ ◌+ℤ◌
evaluate_per_pool_allocation_iff_example =
    evaluate_per_pool_allocation_iff Fixed-IsOrdered deposit refl
