-- ===== src/Examples/Proposals.antt =====
-- Agents' proposals at concrete inputs: an entry above the caps and a rebalance.
use beam_clmm.Examples.Data.{num, decide, context, range}
use beam_clmm.Prelude.{◌≡◌, refl, some, none, any, filter, find}
use beam_clmm.Number.{lit}
use beam_clmm.Number.Fixed.{Fixed, fixed_number, Fixed-IsOrdered}
use beam_clmm.Risk.{enter, rebalance, AgentDecision, pool_exposure, pool_positions, sum_value_from}
use beam_clmm.Risk.ProposalGates.{
  AgentProposal, ProposalConfig, validate_early_gates, gate_action, gate_pool, gate_downgrade,
  gate_promotion, gate_confidence_range, preserves_original_decision, gate_enter_size,
  gate_rebalance_position, gate_exit_position, gate_size_finite, has_position,
}
use beam_clmm.Risk.Proposal.{
  evaluate_agent_proposal, cap_proposal_size, gate_rebalance_params, resolve_position_id,
}
use beam_clmm.Risk.ProposalSize.{IsCappedSize, evaluate_agent_proposal-IsCappedSize}
use beam_clmm.Risk.ProposalSafety.{IsSafeProposal, evaluate_agent_proposal-IsSafeProposal}
use beam_clmm.Prelude.Int.{quot, ◌*ℤ◌, ◌-ℤ◌, ◌+ℤ◌}
use beam_clmm.Risk.Allocation.{evaluate_per_pool_allocation}

abbrev config : ProposalConfig Fixed
config = record {
  agent_proposal_min_confidence = lit 5 1;
  agent_proposal_max_position_size_pct = lit 2 1;
  max_per_pool_allocation_pct = lit 25 2;
  max_open_positions = num 5;
  max_positions_per_pool = num 2;
  max_rebalance_range_bins = num 60;
}

abbrev entry : AgentProposal Fixed
entry = record { decision = decide enter "B" none (some (num 400)); original_action = some enter }

abbrev move : AgentProposal Fixed
move = record { decision = decide rebalance "A" (some range) none; original_action = none }

-- The decisions that come back.
abbrev entered : AgentDecision Fixed
entered = decide enter "B" none (some (num 200))

abbrev moved : AgentDecision Fixed
moved = record (decide rebalance "A" (some range) none) { position_id = some "pos-1" }

entry-entered :
    (evaluate_agent_proposal entry (context "B") config).adjusted_decision ≡ some entered
unfolding evaluate_agent_proposal validate_early_gates gate_action gate_pool gate_downgrade
    gate_promotion gate_confidence_range preserves_original_decision gate_enter_size
    gate_rebalance_position gate_exit_position gate_size_finite cap_proposal_size
    evaluate_per_pool_allocation pool_positions quot ◌*ℤ◌ ◌-ℤ◌ ◌+ℤ◌ pool_exposure any filter find
    gate_rebalance_params resolve_position_id has_position sum_value_from
entry-entered = refl

move-moved : (evaluate_agent_proposal move (context "A") config).adjusted_decision ≡ some moved
unfolding evaluate_agent_proposal validate_early_gates gate_action gate_pool gate_downgrade
    gate_promotion gate_confidence_range preserves_original_decision gate_enter_size
    gate_rebalance_position gate_exit_position gate_size_finite cap_proposal_size
    evaluate_per_pool_allocation pool_positions quot ◌*ℤ◌ ◌-ℤ◌ ◌+ℤ◌ pool_exposure any filter find
    gate_rebalance_params resolve_position_id has_position sum_value_from
move-moved = refl

evaluate_agent_proposal-IsSafeProposal_example : IsSafeProposal move (context "A") config moved
evaluate_agent_proposal-IsSafeProposal_example =
    evaluate_agent_proposal-IsSafeProposal move (context "A") config moved move-moved

evaluate_agent_proposal-IsCappedSize_example :
    IsCappedSize Fixed-IsOrdered entry (context "B") config (num 400) (num 200)
unfolding quot ◌*ℤ◌ pool_exposure ◌-ℤ◌
evaluate_agent_proposal-IsCappedSize_example =
    evaluate_agent_proposal-IsCappedSize Fixed-IsOrdered entry (context "B") config entered
      (num 400) (num 200) refl entry-entered refl refl refl
