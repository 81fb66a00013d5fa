-- ===== src/Examples/Entries.antt =====
-- Entries at concrete inputs: a size below the headroom of a pool and one above it.
use beam_clmm.Examples.Data.{num, decide, context, risk_config}
use beam_clmm.Prelude.{◌≡◌, refl, some, none, true, arith}
use beam_clmm.Number.Fixed.{Fixed, fixed_number, Fixed-IsOrdered, nan}
use beam_clmm.Risk.{enter, AgentDecision, pool_positions, pool_exposure, RiskConfig}
use beam_clmm.Risk.Gates.{
  evaluate_risk, approve, gate_exit, gate_confidence, gate_per_pool_cap, gate_drawdown,
  gate_observed_volatility, gate_stop_loss, gate_position_size, size_check, min_entry_size,
  size_capped, max_entry_size,
}
use beam_clmm.Risk.Enter.{IsSafeEntry, evaluate_risk-IsSafeEntry}
use beam_clmm.Risk.Size.{IsSafeSize, executed_size, evaluate_risk-IsSafeSize, size_check_nan}
use beam_clmm.Prelude.Int.{◌-ℤ◌, quot, ◌*ℤ◌}

abbrev too_large : AgentDecision Fixed
too_large = decide enter "B" none (some (num 400))

abbrev executed : Fixed
executed = executed_size (evaluate_risk risk_config too_large (context "B")) (num 400)

approved : (evaluate_risk risk_config too_large (context "B")).approved ≡ true
unfolding evaluate_risk gate_exit gate_confidence gate_per_pool_cap pool_positions gate_drawdown
    gate_observed_volatility gate_stop_loss gate_position_size size_check pool_exposure ◌-ℤ◌ quot
    ◌*ℤ◌
approved = refl

evaluate_risk-IsSafeEntry_example : IsSafeEntry risk_config too_large (context "B")
unfolding ◌-ℤ◌
evaluate_risk-IsSafeEntry_example =
    evaluate_risk-IsSafeEntry Fixed-IsOrdered risk_config too_large (context "B")
      (record { threshold = refl; positions = refl; range = refl; stop_loss = refl; width = refl })
      refl approved

evaluate_risk-IsSafeSize_example :
    IsSafeSize Fixed-IsOrdered risk_config too_large (context "B") (num 400) executed
unfolding pool_exposure ◌-ℤ◌ quot ◌*ℤ◌
evaluate_risk-IsSafeSize_example =
    evaluate_risk-IsSafeSize Fixed-IsOrdered risk_config too_large (context "B") (num 400) refl refl
      refl refl approved

abbrev nan_share : RiskConfig Fixed
nan_share = record risk_config { max_per_pool_allocation_pct = nan }

size_check_nan_example :
    size_check (num 400) too_large (context "B") nan_share (min_entry_size (context "B"))
    ≡ some (approve size_capped (some (max_entry_size too_large (context "B") nan_share)))
unfolding pool_exposure
size_check_nan_example =
    size_check_nan Fixed-IsOrdered nan_share too_large (context "B") (num 400) (λ h. ground arith)
      refl refl refl refl
