-- ===== src/Risk/ProposalSize.antt =====
-- The size and the range that a valid proposal carries: `capProposalSize` and
-- `proposalGateRebalanceParams` of engine/risk-service.ts.
use beam_clmm.Number.{Number, ◌≟◌, int, is_integer, ◌⊖◌}
use beam_clmm.Number.Order.{IsOrdered, IsNum, ◌≺◌, ◌≼◌, lt_of_not_le, lt_of_lt_of_le}
use beam_clmm.Risk.ProposalGates.{AgentProposal, ProposalConfig, cap_error}
use beam_clmm.Risk.{RiskContext, RebalanceParams, AgentDecision, enter}
use beam_clmm.Risk.Proposal.{
  gate_rebalance_params, cap_proposal_size, evaluate_agent_proposal, allocation_input,
  adjusted_size, agent_max_size, capped_size, pool_max_size,
}
use beam_clmm.Risk.Allocation.{
  PerPoolAllocationResult, evaluate_per_pool_allocation, headroom, AllocationReason,
  approved-IsBounded,
}
use beam_clmm.Prelude.{◌≡◌, true, some, none, arith, ◌⊎◌, ◌≢◌, sym, ◌∙◌, inl, inr}
use beam_clmm.Risk.ProposalSafety.{decision-IsValidated}
use beam_clmm.Risk.Rebalance.{HoldsActive, active-HoldsActive}

module _ {F : Type 0} ⦃n : Number F⦄ (laws : IsOrdered F) (p : AgentProposal F)
    (ctx : RiskContext F) (cfg : ProposalConfig F) where
  open laws use {num_of_finite, min-le, min_num, le_trans, eq-eq-le, finite_of_integer}

  abbrev allocation : F → PerPoolAllocationResult F
  allocation size =
      evaluate_per_pool_allocation (allocation_input (capped_size size ctx cfg) p ctx cfg)

  pub record IsCappedSize (asked given : F) : Type 0 where
    pub positive : int 0 ≺ given
    pub not_raised : given ≼ asked
    pub under_agent_cap : given ≼ agent_max_size ctx cfg
    pub under_pool_cap : given ≼ pool_max_size ctx cfg
    pub under_headroom : given ≼ headroom (allocation_input asked p ctx cfg)

  -- The amount that the allocation gate admits is within all the caps.
  allocated-IsCappedSize :
      (asked : F)
      → IsNum (headroom (allocation_input asked p ctx cfg))
      → (allocation asked).approved ≡ true
      → IsCappedSize asked (allocation asked).adjusted_deposit_usd
  allocated-IsCappedSize asked num ok =
      let small = capped_size asked ctx cfg in
      let i = allocation_input small p ctx cfg in
      let b = approved-IsBounded laws i num ok in
      let small_num = (laws.num_of_le _ _ b.under_proposal).1 in
      let (inner_num, pool_num) = min_num _ _ small_num in
      let (asked_num, agent_num) = min_num _ _ inner_num in
      let (to_inner, to_pool) = min-le _ _ inner_num pool_num in
      let (to_asked, to_agent) = min-le _ _ asked_num agent_num in
      record {
        positive = b.positive;
        not_raised = le_trans _ _ _ b.under_proposal (le_trans _ _ _ to_inner to_asked);
        under_agent_cap = le_trans _ _ _ b.under_proposal (le_trans _ _ _ to_inner to_agent);
        under_pool_cap = le_trans _ _ _ b.under_proposal to_pool;
        under_headroom = b.under_headroom;
      }

  -- The size asked for is kept only if the allocation gate left it as it was.
  kept-IsCappedSize :
      (asked given : F)
      → IsCappedSize asked given
      → (given ≟ asked) ≡ true
      → IsCappedSize asked asked
  kept-IsCappedSize asked given v e =
      let back : asked ≼ given = ground (arith, eq-eq-le given asked) in
      record {
        positive = lt_of_lt_of_le laws _ _ _ v.positive v.not_raised;
        not_raised = (laws.num_of_le _ _ back).0;
        under_agent_cap = le_trans _ _ _ back v.under_agent_cap;
        under_pool_cap = le_trans _ _ _ back v.under_pool_cap;
        under_headroom = le_trans _ _ _ back v.under_headroom;
      }

  enter_approved :
      (asked : F)
      → p.action ≡ enter
      → p.position_size_usd ≡ some asked
      → ((why : AllocationReason) → cap_proposal_size p ctx cfg ≢ some (cap_error why))
      → (allocation asked).approved ≡ true
  unfolding cap_proposal_size
  enter_approved asked is_enter e no_error = ground (arith, no_error (allocation asked).reason)

  enter_size :
      (asked given : F)
      → p.action ≡ enter
      → p.position_size_usd ≡ some asked
      → (allocation asked).approved ≡ true
      → adjusted_size (cap_proposal_size p ctx cfg) p ≡ some given
      → (given ≡ (allocation asked).adjusted_deposit_usd)
        ⊎ (given ≡ asked) × (((allocation asked).adjusted_deposit_usd ≟ asked) ≡ true)
  unfolding cap_proposal_size
  enter_size asked given is_enter e ok h = ground arith

  -- A valid ENTER carries a size that is positive, not above the size that the agent asked for, and
  -- not above the agent's cap, the pool's cap or the pool's remaining headroom, where that headroom
  -- is a number.
  pub evaluate_agent_proposal-IsCappedSize :
      (d : AgentDecision F) (asked given : F)
      → IsNum (headroom (allocation_input asked p ctx cfg))
      → (evaluate_agent_proposal p ctx cfg).adjusted_decision ≡ some d
      → d.action ≡ enter
      → p.position_size_usd ≡ some asked
      → d.position_size_usd ≡ some given
      → IsCappedSize asked given
  evaluate_agent_proposal-IsCappedSize d asked given num h is_enter e k =
      let v = decision-IsValidated p ctx cfg d h in
      let enters = sym v.action ∙ is_enter in
      let ok = enter_approved asked enters e v.no_cap_error in
      let within = allocated-IsCappedSize asked num ok in
      elim (enter_size asked given enters e ok (sym v.size ∙ k)) [
        | inl same ↦ rw same within
        | inr (same, equal) ↦ rw same (kept-IsCappedSize asked _ within equal)
      ]

  -- The bins are integers, in order, within the widest range, around the active bin.
  pub record IsSafeBins (r : RebalanceParams F) : Type 0 where
    pub integers : (is_integer r.new_lower_bin_id ≡ true) × (is_integer r.new_upper_bin_id ≡ true)
    pub ordered : r.new_lower_bin_id ≺ r.new_upper_bin_id
    pub narrow : ¬ (cfg.max_rebalance_range_bins ≺ (r.new_upper_bin_id ⊖ r.new_lower_bin_id))
    pub holds_active : HoldsActive ctx.active_bin_id r

  params-IsSafeBins :
      (r : RebalanceParams F)
      → p.rebalance_params ≡ some r
      → gate_rebalance_params p ctx cfg ≡ none
      → IsSafeBins r
  unfolding gate_rebalance_params
  params-IsSafeBins r e h =
      let a : is_integer r.new_lower_bin_id ≡ true = ground arith in
      let b : is_integer r.new_upper_bin_id ≡ true = ground arith in
      let x = num_of_finite _ (finite_of_integer _ a) in
      let y = num_of_finite _ (finite_of_integer _ b) in
      record {
        integers = (a, b);
        ordered = lt_of_not_le laws _ _ y x (ground arith);
        narrow = ground arith;
        holds_active = active-HoldsActive laws ctx.active_bin_id r x y (ground arith);
      }

  -- A valid proposal's range has integer bins, the lower below the upper, is not wider than allowed,
  -- and holds the active bin where that is known and finite.
  pub evaluate_agent_proposal-IsSafeBins :
      (d : AgentDecision F) (r : RebalanceParams F)
      → (evaluate_agent_proposal p ctx cfg).adjusted_decision ≡ some d
      → d.rebalance_params ≡ some r
      → IsSafeBins r
  evaluate_agent_proposal-IsSafeBins d r h e =
      let v = decision-IsValidated p ctx cfg d h in
      params-IsSafeBins r (sym v.params ∙ e) v.range_ok
