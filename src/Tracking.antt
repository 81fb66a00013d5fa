-- ===== src/Tracking.antt =====
-- The positions that the engine tracks, of engine/program.ts and engine/db-service.ts: a Map by
-- position id, kept beside the rows of the positions table. Ticks are integers, times whole
-- milliseconds, other figures any numbers.
pub mod Reconcile
pub mod Managed
pub mod Stable
pub mod Table
pub mod View
pub mod Keys
pub mod Again
pub mod Complete
pub mod Untracked
pub mod Synced
use beam_clmm.Prelude.{
  [], StringMap, String, List, Bool, map, Option, str_eq, ℕ, filter, some, ◌∷◌, map_get, none,
}
use beam_clmm.Prelude.Int.{ℤ}

pub record PositionRecord (F : Type 0) : Type 0 where
  pub position_id : String
  pub pool_address : String
  pub position_pub_key : Option String
  pub deposited_usd : F
  pub current_value_usd : F
  pub token_x_symbol : String
  pub token_y_symbol : String
  pub active_bin_id : ℤ
  pub lower_bin_id : ℤ
  pub upper_bin_id : ℤ
  pub timestamp : ℕ
  pub out_of_range_since : Option ℕ
  pub oor_cycle_count : ℕ
  pub last_fee_claim_at : ℕ
  pub trailing_stop_threshold : Option F
  pub highest_value_usd : Option F
  pub last_rebalance_at : ℕ
  pub paper_exited_at : Option ℕ
  pub entry_signal_timestamp : Option ℕ
  pub entry_signal_snapshot_id : Option ℕ
  pub entry_price_usd : Option F
  pub entry_amount_x_usd : Option F
  pub entry_amount_y_usd : Option F
  pub cumulative_fees_claimed_usd : F
  pub cumulative_rewards_claimed_usd : F
  pub closed_at : Option ℕ
  pub realized_pnl_usd : Option F
  pub position_mode : Option String
  pub tp_ladder_json : Option String
  pub invalidation_stop_price : Option F

-- A row of `getAllWalletPositions`.
pub record OnChainPosition : Type 0 where
  pub pool_address : String
  pub position_pub_key : String
  pub lower_bin_id : ℤ
  pub upper_bin_id : ℤ
  pub liquidity_shares : ℤ
  pub tokens_owed_x : ℤ
  pub tokens_owed_y : ℤ

-- What adopting a position reads of the state of its pool.
pub record PoolView : Type 0 where
  pub token_x_symbol : String
  pub token_y_symbol : String
  pub active_bin_id : ℤ

module _ {F : Type 0} where
  in_pool : String → String × PositionRecord F → Bool
  in_pool pool entry = str_eq entry.1.pool_address pool

  unfoldable pub positions_for_pool :
      StringMap (PositionRecord F) → String → List (PositionRecord F)
  unfolding in_pool
  positions_for_pool tracked pool = map (λ entry. entry.1) (filter (in_pool pool) tracked)

  abbrev only : List (PositionRecord F) → Option (PositionRecord F)
  only (p ∷ []) = some p
  only ps = none

  -- The position that a decision names, or the only one of its pool.
  unfoldable pub resolve_target_position :
      StringMap (PositionRecord F) → Option String → String → Option (PositionRecord F)
  resolve_target_position tracked (some id) pool = map_get id tracked
  resolve_target_position tracked none pool = only (positions_for_pool tracked pool)
