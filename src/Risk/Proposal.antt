-- ===== src/Risk/Proposal.antt =====
-- `evaluateAgentProposal` of engine/risk-service.ts: capping the size, checking the range, choosing the
-- position, and the whole validation.
use beam_clmm.Risk.{
  AgentDecision, Position, RiskContext, exit, RebalanceParams, same_action, on_pool, enter,
  rebalance, pool_positions,
}
use beam_clmm.Prelude.{
  Option, List, false, Bool, find, String, if◌then◌else◌, true, none, not, some, ◌or_else◌, ◌or◌,
  str_eq, ◌∷◌, ◌||◌, [],
}
use beam_clmm.Risk.Allocation.{PerPoolAllocationInput, evaluate_per_pool_allocation}
use beam_clmm.Number.{Number, is_integer, ◌≟◌, ◌⊗◌, min, ◌⊖◌, ◌≤?◌, ◌>?◌}
use beam_clmm.Risk.Gates.{misses_active_bin}
use beam_clmm.Risk.ProposalGates.{
  AgentProposal, ProposalConfig, SizeCap, PositionChoice, capped, ProposalValidation, cap_error,
  chosen, foreign_position, validate_early_gates, proposal_validated, invalid, position_not_in_pool,
  bins_not_integers, preserves_original_decision, allocation_refused, range_invalid, range_too_wide,
  refuse, range_misses_active,
}

module _ {F : Type 0} ⦃n : Number F⦄ where
  abbrev pub agent_max_size : RiskContext F → ProposalConfig F → F
  agent_max_size ctx cfg = ctx.portfolio_value_usd ⊗ cfg.agent_proposal_max_position_size_pct

  abbrev pub pool_max_size : RiskContext F → ProposalConfig F → F
  pool_max_size ctx cfg = ctx.portfolio_value_usd ⊗ cfg.max_per_pool_allocation_pct

  -- `Math.min(size, agentMax, perPool)`
  abbrev pub capped_size : F → RiskContext F → ProposalConfig F → F
  capped_size size ctx cfg = min (min size (agent_max_size ctx cfg)) (pool_max_size ctx cfg)

  abbrev pub allocation_input :
      F → AgentProposal F → RiskContext F → ProposalConfig F → PerPoolAllocationInput F
  allocation_input size p ctx cfg = record {
    proposed_deposit_usd = size;
    portfolio_value_usd = ctx.portfolio_value_usd;
    open_positions = ctx.open_positions;
    max_per_pool_allocation_pct = cfg.max_per_pool_allocation_pct;
    max_open_positions = cfg.max_open_positions;
    pool_address = p.pool_address;
    max_positions_per_pool = cfg.max_positions_per_pool;
    pool_tvl_usd = none;
    challenge_pool_share_cap_pct = none;
    counted_open_positions = none;
    counted_pool_positions = none;
  }

  abbrev changed : F → F → Option (SizeCap F)
  changed size new = if not (new ≟ size) then some (capped new) else none

  abbrev cap_size :
      Option F → AgentProposal F → RiskContext F → ProposalConfig F → Option (SizeCap F)
  cap_size none p ctx cfg = none
  cap_size (some size) p ctx cfg =
      let small = capped_size size ctx cfg in
      let allocation = evaluate_per_pool_allocation (allocation_input small p ctx cfg) in
      if same_action p.action enter
      then (if not allocation.approved
          then some (cap_error allocation.reason)
          else changed size allocation.adjusted_deposit_usd)
      else changed size small

  unfoldable pub cap_proposal_size :
      AgentProposal F → RiskContext F → ProposalConfig F → Option (SizeCap F)
  cap_proposal_size p ctx cfg = cap_size p.position_size_usd p ctx cfg

  abbrev params_check :
      Option (RebalanceParams F) → RiskContext F → ProposalConfig F → Option (ProposalValidation F)
  params_check none ctx cfg = none
  params_check (some r) ctx cfg =
      if not (is_integer r.new_lower_bin_id) || not (is_integer r.new_upper_bin_id)
      then some (invalid bins_not_integers)
      else if r.new_upper_bin_id ≤? r.new_lower_bin_id
      then some (invalid range_invalid)
      else if (r.new_upper_bin_id ⊖ r.new_lower_bin_id) >? cfg.max_rebalance_range_bins
      then some (invalid range_too_wide)
      else refuse (misses_active_bin ctx.active_bin_id r) range_misses_active

  unfoldable pub gate_rebalance_params :
      AgentProposal F → RiskContext F → ProposalConfig F → Option (ProposalValidation F)
  gate_rebalance_params p ctx cfg = params_check p.rebalance_params ctx cfg

  abbrev pub has_id : String → Position F → Bool
  has_id id q = str_eq q.id id

  abbrev original_position : Option (AgentDecision F) → Option String
  original_position none = none
  original_position (some o) = o.position_id

  abbrev in_pool : Option (Position F) → String → Bool
  in_pool none pool = false
  in_pool (some q) pool = on_pool pool q

  abbrev only_position : List (Position F) → Option String
  only_position (q ∷ []) = some q.id
  only_position _ = none

  abbrev choose : Option String → AgentProposal F → RiskContext F → PositionChoice
  choose (some id) p ctx =
      if in_pool (find (has_id id) ctx.open_positions) p.pool_address
      then chosen (some id)
      else foreign_position
  choose none p ctx =
      if same_action p.action exit || same_action p.action rebalance
      then chosen (only_position (pool_positions p.pool_address ctx.open_positions))
      else chosen none

  unfoldable pub resolve_position_id : AgentProposal F → RiskContext F → PositionChoice
  unfolding find
  resolve_position_id p ctx =
      choose (p.position_id or_else original_position ctx.original_decision) p ctx

  abbrev pub adjusted_size : Option (SizeCap F) → AgentProposal F → Option F
  adjusted_size (some (capped size)) p = some size
  adjusted_size _ p = p.position_size_usd

  abbrev pub kept_confidence : Bool → Option (AgentDecision F) → F → F
  kept_confidence true (some o) own = o.confidence
  kept_confidence _ _ own = own

  abbrev pub validated :
      AgentProposal F → RiskContext F → Option (SizeCap F) → Option String → ProposalValidation F
  validated p ctx cap id = record {
    valid = true;
    reason = proposal_validated;
    adjusted_decision = some (record {
      action = p.action;
      pool_address = p.pool_address;
      confidence =
          kept_confidence (preserves_original_decision p ctx) ctx.original_decision p.confidence;
      reasoning = p.reasoning;
      rebalance_params = p.rebalance_params;
      position_size_usd = adjusted_size cap p;
      position_id = id;
    });
  }

  abbrev pub with_position :
      PositionChoice → AgentProposal F → RiskContext F → Option (SizeCap F) → ProposalValidation F
  with_position foreign_position p ctx cap = invalid position_not_in_pool
  with_position (chosen id) p ctx cap = validated p ctx cap id

  abbrev pub with_size :
      Option (SizeCap F) → AgentProposal F → RiskContext F → ProposalConfig F → ProposalValidation F
  with_size (some (cap_error why)) p ctx cfg = invalid (allocation_refused why)
  with_size cap p ctx cfg =
      gate_rebalance_params p ctx cfg or with_position (resolve_position_id p ctx) p ctx cap

  unfoldable pub evaluate_agent_proposal :
      AgentProposal F → RiskContext F → ProposalConfig F → ProposalValidation F
  evaluate_agent_proposal p ctx cfg =
      validate_early_gates p ctx cfg (preserves_original_decision p ctx)
      or with_size (cap_proposal_size p ctx cfg) p ctx cfg
