-- ===== src/Risk/ProposalSafety.antt =====
-- What a valid proposal may and may not do: the gates of `evaluateAgentProposal`.
use beam_clmm.Prelude.{
  refl, Option, Bool, false, some, ◌≡◌, none, true, arith, str_eq_iff, String, not, any-Member, ◌⊎◌,
  Member, ◌≢◌, inl, is_none, inr, ◌∙◌, ◌||◌, Option-cases, find, find-Member,
}
use beam_clmm.Number.{Number}
use beam_clmm.Risk.ProposalGates.{
  AgentProposal, ProposalValidation, ProposalConfig, gate_pool, validate_early_gates, gate_action,
  preserves_original_decision, gate_downgrade, gate_promotion, gate_confidence_range,
  gate_enter_size, gate_rebalance_position, gate_exit_position, has_position, gate_size_finite,
  chosen, cap_error,
}
use beam_clmm.Risk.{
  RiskContext, rebalance, exit, AgentDecision, Position, ActionType, on_pool, enter, hold,
}
use beam_clmm.Risk.Proposal.{
  with_size, evaluate_agent_proposal, cap_proposal_size, gate_rebalance_params, resolve_position_id,
  adjusted_size, has_id,
}
use beam_clmm.Risk.Allocation.{AllocationReason}

abbrev says_valid : {F : Type 0} → Option (ProposalValidation F) → Bool
says_valid none = false
says_valid (some r) = r.valid || not (is_none r.adjusted_decision)

module _ {F : Type 0} ⦃n : Number F⦄ (p : AgentProposal F) (ctx : RiskContext F)
    (cfg : ProposalConfig F) where
  -- Each early gate refuses or keeps silent.
  early_refuses :
      says_valid (validate_early_gates p ctx cfg (preserves_original_decision p ctx)) ≡ false
  unfolding validate_early_gates gate_action gate_pool gate_downgrade gate_promotion
      gate_confidence_range gate_enter_size gate_rebalance_position gate_exit_position
      gate_size_finite
  early_refuses = ground arith

  -- All the early gates kept silent.
  pub record Cleared : Type 0 where
    pub same_pool : gate_pool p ctx ≡ none
    pub not_downgraded : gate_downgrade p ≡ none
    pub not_promoted : gate_promotion p ≡ none
    pub confident : gate_confidence_range p cfg (preserves_original_decision p ctx) ≡ none
    pub sized : gate_enter_size p ≡ none
    pub can_rebalance : gate_rebalance_position p ctx ≡ none
    pub can_exit : gate_exit_position p ctx ≡ none

  early-Cleared :
      validate_early_gates p ctx cfg (preserves_original_decision p ctx) ≡ none → Cleared
  unfolding validate_early_gates
  early-Cleared h = ground arith

  abbrev late_answer : ProposalValidation F
  late_answer = with_size (cap_proposal_size p ctx cfg) p ctx cfg

  -- A valid answer comes from the steps after the early gates.
  pub valid-Cleared :
      (evaluate_agent_proposal p ctx cfg).valid ≡ true
      → Cleared × (evaluate_agent_proposal p ctx cfg ≡ late_answer)
  unfolding evaluate_agent_proposal
  valid-Cleared h =
      let early = validate_early_gates p ctx cfg (preserves_original_decision p ctx) in
      let silent : early ≡ none = ground (arith, early_refuses) in
      (early-Cleared silent, ground (arith, silent))

  params_refuse : says_valid (gate_rebalance_params p ctx cfg) ≡ false
  unfolding gate_rebalance_params
  params_refuse = ground arith

  late_consistent : late_answer.valid ≡ not (is_none late_answer.adjusted_decision)
  late_consistent = ground (arith, params_refuse)

  -- A proposal is valid exactly when it comes back with a decision.
  valid-eq-has_decision :
      (evaluate_agent_proposal p ctx cfg).valid
      ≡ not (is_none (evaluate_agent_proposal p ctx cfg).adjusted_decision)
  unfolding evaluate_agent_proposal
  valid-eq-has_decision = ground (arith, early_refuses, late_consistent)

  -- What the decision of a valid proposal is made of.
  pub record IsValidated (d : AgentDecision F) : Type 0 where
    pub cleared : Cleared
    pub range_ok : gate_rebalance_params p ctx cfg ≡ none
    pub position : resolve_position_id p ctx ≡ chosen d.position_id
    pub size : d.position_size_usd ≡ adjusted_size (cap_proposal_size p ctx cfg) p
    pub no_cap_error : (why : AllocationReason) → cap_proposal_size p ctx cfg ≢ some (cap_error why)
    pub action : d.action ≡ p.action
    pub pool : d.pool_address ≡ p.pool_address
    pub params : d.rebalance_params ≡ p.rebalance_params

  late-IsValidated :
      (d : AgentDecision F) → Cleared → late_answer.adjusted_decision ≡ some d → IsValidated d
  unfolding gate_rebalance_params
  late-IsValidated d c h = ground arith

  pub decision-IsValidated :
      (d : AgentDecision F)
      → (evaluate_agent_proposal p ctx cfg).adjusted_decision ≡ some d
      → IsValidated d
  decision-IsValidated d h =
      let (c, answer) = valid-Cleared (ground (arith, valid-eq-has_decision)) in
      late-IsValidated d c (ground (arith, answer))

  abbrev pub InPool : String → Type 0
  InPool pool = (q : Position F) × Member q ctx.open_positions × (q.pool_address ≡ pool)

  -- What each action needs: of the engine's own action, of the open positions, and of the size.
  abbrev Permits : ActionType → String → Type 0
  Permits ActionType.hold pool = p.original_action ≢ some exit
  Permits rebalance pool = (p.original_action ≢ some exit) × InPool pool
  Permits exit pool = InPool pool ⊎ (p.original_action ≡ some exit)
  Permits enter pool =
      ((p.original_action ≡ none) ⊎ (p.original_action ≡ some enter))
      × (is_none p.position_size_usd ≡ false)

  -- A position that the proposal names is the one that is decided on, and is open on the pool.
  abbrev OwnedBy : Option String → Option String → String → Type 0
  OwnedBy decided none pool = Unit {0}
  OwnedBy decided (some id) pool =
      (decided ≡ some id)
      × ((q : Position F) × Member q ctx.open_positions × (q.id ≡ id) × (q.pool_address ≡ pool))

  -- What a proposal that is carried out respects.
  pub record IsSafeProposal (d : AgentDecision F) : Type 0 where
    pub same_action : d.action ≡ p.action
    pub evaluated_pool : d.pool_address ≡ ctx.pool_address
    pub permitted : Permits d.action d.pool_address
    pub owned : OwnedBy d.position_id p.position_id d.pool_address

  has_position-InPool : has_position p ctx ≡ true → InPool p.pool_address
  unfolding has_position
  has_position-InPool h =
      let (q, m, e) = any-Member (on_pool p.pool_address) ctx.open_positions h in
      (q, m, (str_eq_iff _ _).0 e)

  rebalance-InPool :
      gate_rebalance_position p ctx ≡ none → p.action ≡ rebalance → InPool p.pool_address
  unfolding gate_rebalance_position
  rebalance-InPool h e = has_position-InPool (ground arith)

  exit-InPool :
      gate_exit_position p ctx ≡ none
      → p.action ≡ exit
      → (b : Bool) → has_position p ctx ≡ b
      → InPool p.pool_address ⊎ (p.original_action ≡ some exit)
  unfolding gate_exit_position
  exit-InPool h e true k = inl (has_position-InPool k)
  exit-InPool h e false k = inr (ground arith)

  pool-eq : gate_pool p ctx ≡ none → p.pool_address ≡ ctx.pool_address
  unfolding gate_pool
  pool-eq h = (str_eq_iff _ _).0 (ground arith)

  -- A proposal that names its position names one of the evaluated pool.
  owned-OwnedBy :
      (named decided : Option String)
      → p.position_id ≡ named
      → resolve_position_id p ctx ≡ chosen decided
      → OwnedBy decided named p.pool_address
  unfolding resolve_position_id
  owned-OwnedBy none decided e h = tt
  owned-OwnedBy (some id) decided e h = elim (Option-cases (find (has_id id) ctx.open_positions)) [
    | inl none_found ↦ absurd (ground (arith, none_found))
    | inr (q, found) ↦
        let (m, same) = find-Member (has_id id) ctx.open_positions q found in
        (
          ground (arith, found),
          (q, m, (str_eq_iff _ _).0 same, (str_eq_iff _ _).0 (ground (arith, found))),
        )
  ]

  action-Permits : (a : ActionType) → p.action ≡ a → Cleared → Permits a p.pool_address
  unfolding gate_downgrade gate_promotion gate_enter_size
  action-Permits hold e c = ground (arith, c.not_downgraded)
  action-Permits rebalance e c =
      (ground (arith, c.not_downgraded), rebalance-InPool c.can_rebalance e)
  action-Permits exit e c = exit-InPool c.can_exit e (has_position p ctx) refl
  action-Permits enter e c = ground (arith, c.not_promoted, c.sized)

  -- A valid proposal keeps its action and the evaluated pool; it holds or rebalances only where the
  -- engine did not want to exit, rebalances only a pool with an open position, exits only such a pool
  -- or what the engine wanted to exit, enters only where the engine wanted to enter or did not say,
  -- and with a size; and if it names a position, that position is decided on and open on the pool.
  pub evaluate_agent_proposal-IsSafeProposal :
      (d : AgentDecision F)
      → (evaluate_agent_proposal p ctx cfg).adjusted_decision ≡ some d
      → IsSafeProposal d
  evaluate_agent_proposal-IsSafeProposal d h =
      let v = decision-IsValidated d h in
      record {
        same_action = v.action;
        evaluated_pool = v.pool ∙ pool-eq v.cleared.same_pool;
        permitted = rw (v.action, v.pool) (action-Permits p.action refl v.cleared);
        owned = rw v.pool (owned-OwnedBy p.position_id d.position_id refl v.position);
      }
