-- ===== src/Examples/Data.antt =====
-- Test data that the examples share.
use beam_clmm.Prelude.{ℕ, Option, some, none, [], ◌∷◌, String}
use beam_clmm.Number.Fixed.{Fixed, fixed_number}
use beam_clmm.Number.{lit, int}
use beam_clmm.Risk.{Position, RebalanceParams, AgentDecision, RiskContext, RiskConfig, ActionType}

abbrev pub num : ℕ → Fixed
num = int

abbrev pub held : Position Fixed
held = record {
  id = "pos-1";
  pool_address = "A";
  deposited_usd = num 100;
  current_value_usd = num 95;
}

abbrev pub range : RebalanceParams Fixed
range = record { new_lower_bin_id = num 10; new_upper_bin_id = num 30; slippage_bps = num 50 }

abbrev pub decide :
    ActionType → String → Option (RebalanceParams Fixed) → Option Fixed → AgentDecision Fixed
decide action pool params size = record {
  action = action;
  pool_address = pool;
  confidence = lit 8 1;
  reasoning = "fees";
  rebalance_params = params;
  position_size_usd = size;
  position_id = none;
}

abbrev pub context : String → RiskContext Fixed
context pool = record {
  open_positions = held ∷ [];
  portfolio_value_usd = num 1000;
  recent_pnl_usd = num 5;
  pool_address = pool;
  original_decision = none;
  active_bin_id = some (num 20);
  position_id = none;
  min_entry_size_usd = none;
  observed_price_range_pct = none;
}

abbrev pub risk_config : RiskConfig Fixed
risk_config = record {
  confidence_threshold = lit 6 1;
  max_rebalance_range_bins = num 60;
  stop_loss_pct = lit 2 1;
  max_per_pool_allocation_pct = lit 25 2;
  max_positions_per_pool = num 2;
  max_observed_price_range_pct = num 40;
}
