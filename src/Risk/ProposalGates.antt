-- ===== src/Risk/ProposalGates.antt =====
-- The data of `evaluateAgentProposal` in engine/risk-service.ts and the gates that a proposal passes
-- before its size and its range are looked at.
use beam_clmm.Risk.{
  AgentDecision, RiskContext, exit, RebalanceParams, ActionType, hold, same_action, on_pool, enter,
  rebalance,
}
use beam_clmm.Prelude.{
  Option, List, false, Bool, any, String, if◌then◌else◌, true, none, not, some, is_none, ◌&&◌,
  ◌or_else◌, str_eq, ◌∷◌, ◌||◌, [],
}
use beam_clmm.Risk.Allocation.{AllocationReason}
use beam_clmm.Number.{Number, ◌≟◌, is_finite, abs, ◌⊖◌, ◌≤?◌, ◌<?◌, int, lit, ◌>?◌}

-- A proposal is a decision with the engine's own action beside it; its bookkeeping fields (id, times,
-- source, status) are read by no gate.
pub record AgentProposal (F : Type 0) : Type 0 where
  pub decision : AgentDecision F
  pub open decision use *
  pub original_action : Option ActionType

-- The fields of AppConfig that the gates read.
pub record ProposalConfig (F : Type 0) : Type 0 where
  pub agent_proposal_min_confidence : F
  pub agent_proposal_max_position_size_pct : F
  pub max_per_pool_allocation_pct : F
  pub max_open_positions : F
  pub max_positions_per_pool : F
  pub max_rebalance_range_bins : F

pub data ProposalReason : Type 0 where
  invalid_action pool_mismatch exit_downgraded promoted_to_enter : ProposalReason
  confidence_out_of_range enter_without_size enter_size_not_positive : ProposalReason
  rebalance_without_params rebalance_without_position exit_without_position : ProposalReason
  size_not_finite bins_not_integers range_invalid range_too_wide range_misses_active :
      ProposalReason
  allocation_refused : AllocationReason → ProposalReason
  position_not_in_pool proposal_validated : ProposalReason

pub record ProposalValidation (F : Type 0) : Type 0 where
  pub valid : Bool
  pub reason : ProposalReason
  pub adjusted_decision : Option (AgentDecision F)

-- `{ capped } | { error } | null` is an optional value of this type.
pub data SizeCap (F : Type 0) : Type 0 where
  capped : F → SizeCap F
  cap_error : AllocationReason → SizeCap F

-- `{ positionId? } | { error }`
pub data PositionChoice : Type 0 where
  chosen : Option String → PositionChoice
  foreign_position : PositionChoice

abbrev pub invalid : {F : Type 0} → ProposalReason → ProposalValidation F
invalid why = record { valid = false; reason = why; adjusted_decision = none }

abbrev pub refuse : {F : Type 0} → Bool → ProposalReason → Option (ProposalValidation F)
refuse test why = if test then some (invalid why) else none

abbrev is_action : Option ActionType → ActionType → Bool
is_action none a = false
is_action (some b) a = same_action b a

abbrev valid_actions : List ActionType
valid_actions = hold ∷ rebalance ∷ exit ∷ enter ∷ []

module _ {F : Type 0} ⦃n : Number F⦄ where
  abbrev rebalance_params_equal : RebalanceParams F → RebalanceParams F → Bool
  rebalance_params_equal a b =
      (a.new_lower_bin_id ≟ b.new_lower_bin_id) && (a.new_upper_bin_id ≟ b.new_upper_bin_id)

  unfoldable pub gate_action : AgentProposal F → Option (ProposalValidation F)
  unfolding any
  gate_action p = refuse (not (any (same_action p.action) valid_actions)) invalid_action

  unfoldable pub gate_pool : AgentProposal F → RiskContext F → Option (ProposalValidation F)
  gate_pool p ctx = refuse (not (str_eq p.pool_address ctx.pool_address)) pool_mismatch

  unfoldable pub gate_downgrade : AgentProposal F → Option (ProposalValidation F)
  gate_downgrade p =
      refuse (is_action p.original_action exit && not (same_action p.action exit)) exit_downgraded

  unfoldable pub gate_promotion : AgentProposal F → Option (ProposalValidation F)
  gate_promotion p =
      refuse
        (not (is_none p.original_action)
          && (not (is_action p.original_action enter) && same_action p.action enter))
        promoted_to_enter

  -- `===` on sizes that may both be undefined.
  abbrev same_size : Option F → Option F → Bool
  same_size none none = true
  same_size (some a) (some b) = a ≟ b
  same_size _ _ = false

  abbrev keeps_params : Option (RebalanceParams F) → Option (RebalanceParams F) → Bool
  keeps_params none o = true
  keeps_params (some a) none = false
  keeps_params (some a) (some b) = rebalance_params_equal a b

  abbrev preserves : AgentProposal F → Option (AgentDecision F) → Bool
  preserves p none = false
  preserves p (some o) =
      same_action p.action o.action
      && ((abs (p.confidence ⊖ o.confidence) <? lit 5 3)
          && ((is_none p.position_size_usd || same_size p.position_size_usd o.position_size_usd)
              && keeps_params p.rebalance_params o.rebalance_params))

  unfoldable pub preserves_original_decision : AgentProposal F → RiskContext F → Bool
  preserves_original_decision p ctx = preserves p ctx.original_decision

  unfoldable pub gate_confidence_range :
      AgentProposal F → ProposalConfig F → Bool → Option (ProposalValidation F)
  gate_confidence_range p cfg kept =
      refuse
        (not kept
          && (not (is_finite p.confidence)
              || ((p.confidence <? cfg.agent_proposal_min_confidence) || (p.confidence >? int 1))))
        confidence_out_of_range

  abbrev not_positive : Option F → Bool
  not_positive none = true
  not_positive (some size) = not (is_finite size) || (size ≤? int 0)

  unfoldable pub gate_enter_size : AgentProposal F → Option (ProposalValidation F)
  gate_enter_size p =
      if same_action p.action enter && is_none p.position_size_usd
      then some (invalid enter_without_size)
      else refuse (same_action p.action enter && not_positive p.position_size_usd)
          enter_size_not_positive

  unfoldable pub has_position : AgentProposal F → RiskContext F → Bool
  unfolding any
  has_position p ctx = any (on_pool p.pool_address) ctx.open_positions

  unfoldable pub gate_rebalance_position :
      AgentProposal F → RiskContext F → Option (ProposalValidation F)
  gate_rebalance_position p ctx =
      if not (same_action p.action rebalance)
      then none
      else if is_none p.rebalance_params
      then some (invalid rebalance_without_params)
      else refuse (not (has_position p ctx)) rebalance_without_position

  unfoldable pub gate_exit_position :
      AgentProposal F → RiskContext F → Option (ProposalValidation F)
  gate_exit_position p ctx =
      if not (same_action p.action exit)
      then none
      else refuse (not (has_position p ctx) && not (is_action p.original_action exit))
          exit_without_position

  abbrev not_finite_size : Option F → Bool
  not_finite_size none = false
  not_finite_size (some size) = not (is_finite size) || (size <? int 0)

  unfoldable pub gate_size_finite : AgentProposal F → Option (ProposalValidation F)
  gate_size_finite p = refuse (not_finite_size p.position_size_usd) size_not_finite

  unfoldable pub validate_early_gates :
      AgentProposal F → RiskContext F → ProposalConfig F → Bool → Option (ProposalValidation F)
  validate_early_gates p ctx cfg kept =
      gate_action p
      or_else (gate_pool p ctx
          or_else (gate_downgrade p
              or_else (gate_promotion p
                  or_else (gate_confidence_range p cfg kept
                      or_else (gate_enter_size p
                          or_else (gate_rebalance_position p ctx
                              or_else (gate_exit_position p ctx or_else gate_size_finite p)))))))
