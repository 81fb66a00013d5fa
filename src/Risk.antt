-- ===== src/Risk.antt =====
-- The data of engine/risk-service.ts (with the records of engine/types.ts and engine/services.ts that
-- it reads), over any type of numbers. A message is named by a constructor: the text around the
-- numbers is left out. Of a position and of a decision the fields that these gates read are kept.
pub mod Gates
pub mod GateLemmas
pub mod Enter
pub mod Size
pub mod Rebalance
pub mod Allocation
pub mod Admitted
pub mod Costs
pub mod CostLaws
pub mod ProposalGates
pub mod Proposal
pub mod ProposalSafety
pub mod ProposalSize
pub mod Amounts
use beam_clmm.Prelude.{
  ℕ, Bool, true, false, ◌&&◌, Option, none, some, List, [], ◌∷◌, String, str_eq, length, filter,
}
use beam_clmm.Number.{Number, int, lit, ◌⊕◌}

pub data ActionType : Type 0 where
  hold rebalance exit enter : ActionType

-- `===` on the action strings.
abbrev pub same_action : ActionType → ActionType → Bool
same_action hold hold = true
same_action rebalance rebalance = true
same_action exit exit = true
same_action enter enter = true
same_action _ _ = false

pub record Position (F : Type 0) : Type 0 where
  pub id : String
  pub pool_address : String
  pub deposited_usd : F
  pub current_value_usd : F

pub record RebalanceParams (F : Type 0) : Type 0 where
  pub new_lower_bin_id : F
  pub new_upper_bin_id : F
  pub slippage_bps : F

pub record AgentDecision (F : Type 0) : Type 0 where
  pub action : ActionType
  pub pool_address : String
  pub confidence : F
  pub reasoning : String
  pub rebalance_params : Option (RebalanceParams F)
  pub position_size_usd : Option F
  pub position_id : Option String

pub record RiskContext (F : Type 0) : Type 0 where
  pub open_positions : List (Position F)
  pub portfolio_value_usd : F
  pub recent_pnl_usd : F
  pub pool_address : String
  pub original_decision : Option (AgentDecision F)
  pub active_bin_id : Option F
  pub position_id : Option String
  pub min_entry_size_usd : Option F
  pub observed_price_range_pct : Option F

pub record RiskConfig (F : Type 0) : Type 0 where
  pub confidence_threshold : F
  pub max_rebalance_range_bins : F
  pub stop_loss_pct : F
  pub max_per_pool_allocation_pct : F
  pub max_positions_per_pool : F
  pub max_observed_price_range_pct : F

-- `openPositions.filter((p) => p.poolAddress === pool)`
abbrev pub on_pool : {F : Type 0} → String → Position F → Bool
on_pool pool p = str_eq p.pool_address pool

unfoldable pub pool_positions : {F : Type 0} → String → List (Position F) → List (Position F)
unfolding filter
pool_positions pool = filter (on_pool pool)

module _ {F : Type 0} ⦃n : Number F⦄ where
  -- `reduce((sum, p) => sum + p.currentValueUsd, sum)`
  unfoldable pub sum_value_from : F → List (Position F) → F
  sum_value_from sum [] = sum
  sum_value_from sum (p ∷ ps) = sum_value_from (sum ⊕ p.current_value_usd) ps

  unfoldable pub pool_exposure : String → List (Position F) → F
  unfolding sum_value_from pool_positions
  pool_exposure pool ps = sum_value_from (int 0) (pool_positions pool ps)

  -- ENTRY_SIZE_FLOOR_USD of engine/entry-sizing.ts
  abbrev pub entry_size_floor_usd : F
  entry_size_floor_usd = int 10
