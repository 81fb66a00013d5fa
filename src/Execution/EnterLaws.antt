-- ===== src/Execution/EnterLaws.antt =====
-- What an ENTER of engine/program.ts stands on when it reports success, and what it leaves alone when it
-- does not.
use beam_clmm.Prelude.{none, some, Bool, Option, String, ◌≡◌, map_get, refl, arith, false, ◌or◌}
use beam_clmm.Number.{Number, ◌⊕◌, of_big, lit, ◌≥?◌, ◌⊗◌, int}
use beam_clmm.Sizing.Ticks.{Maths, FlooredTickRange, floor_range_to_min_pct}
use beam_clmm.Execution.{Write, put_operation, ExecutionOperation, World}
use beam_clmm.Execution.Enter.{
  EnterRequest, EnterAnswers, Minted, fail_enter, recommend_bin_range, min_native_for_entry_wei,
}
use beam_clmm.Tracking.{PositionRecord}
use beam_clmm.Prelude.Int.{ℤ, ltb_ℤ}
use beam_clmm.Settlement.{ok}
use beam_clmm.Execution.Exit.{min_native_for_gas_wei}
use beam_clmm.Sizing.Gas.{entry_budget_wei}

module _ {F : Type 0} ⦃n : Number F⦄ (maths : Maths F) (accepted : Write F → Bool) where
  rows-put_operation :
      (o : ExecutionOperation) (w : World F) → (put_operation accepted o w).rows ≡ w.rows
  unfolding put_operation
  rows-put_operation o w = ground arith

  -- An open record of the request's pool, price, mode, ladder and stop, with the amounts that were
  -- deposited and the bounds that were minted, or those that were asked for where the mint names none.
  pub record IsBooked (r : EnterRequest F) (m : Minted F) (floored : FlooredTickRange F)
      (p : PositionRecord F) : Type 0 where
    pub id : p.position_id ≡ m.position_pub_key
    pub key : p.position_pub_key ≡ some m.position_pub_key
    pub pool : p.pool_address ≡ r.pool_address
    pub deposited : p.deposited_usd ≡ (m.amount_x_usd ⊕ m.amount_y_usd)
    pub amount_x : p.entry_amount_x_usd ≡ some m.amount_x_usd
    pub amount_y : p.entry_amount_y_usd ≡ some m.amount_y_usd
    pub worth : p.current_value_usd ≡ (m.amount_x_usd ⊕ m.amount_y_usd)
    pub price : p.entry_price_usd ≡ some r.current_price
    pub mode : p.position_mode ≡ r.position_mode
    pub ladder : p.tp_ladder_json ≡ r.tp_ladder_json
    pub stop : p.invalidation_stop_price ≡ r.invalidation_stop_price
    pub entered : p.timestamp ≡ r.now
    pub rebalanced : p.last_rebalance_at ≡ r.now
    pub still_open : p.closed_at ≡ none
    pub lower : p.lower_bin_id ≡ (m.lower_bin_id or n.to_big floored.lower_bin_id)
    pub upper : p.upper_bin_id ≡ (m.upper_bin_id or n.to_big floored.upper_bin_id)

  -- What a successful entry went through: the balance, the size, the range and the mint, and the record
  -- that is tracked for it.
  pub record IsEntered (r : EnterRequest F) (a : EnterAnswers F) (v : World F) : Type 0 where
    pub balance : ℤ
    pub size : F
    pub floored : FlooredTickRange F
    pub minted : Minted F
    pub read : a.native_balance ≡ ok balance
    pub funded :
        ltb_ℤ
          (entry_budget_wei balance
            (some (maths.round ((r.gas_reserve_pct or lit 1 1) ⊗ int 100)))
            (some (r.min_native_for_gas_wei or min_native_for_gas_wei)))
          (r.min_native_for_entry_wei or min_native_for_entry_wei)
        ≡ false
    pub sized : r.position_size_usd ≡ some size
    pub recommended_not_empty :
        let range =
          recommend_bin_range maths (of_big r.active_bin_id) r.bin_step r.entry_range_half_width in
        (range.lower_bin_id ≥? range.upper_bin_id) ≡ false
    pub widened :
        let range =
          recommend_bin_range maths (of_big r.active_bin_id) r.bin_step r.entry_range_half_width in
        floored
        ≡ floor_range_to_min_pct maths
            (of_big r.active_bin_id)
            r.bin_step
            range.lower_bin_id
            range.upper_bin_id
            (r.entry_min_range_pct or lit 2 1)
    pub sent :
        a.enter_position (n.to_big floored.lower_bin_id) (n.to_big floored.upper_bin_id) size
        ≡ ok minted
    pub position : PositionRecord F
    pub tracked : map_get minted.position_pub_key v.tracked ≡ some position
    pub booked : IsBooked r minted floored position

  module _ (r : EnterRequest F) (a : EnterAnswers F) where
    fail_enter_fails :
        (o : Option ExecutionOperation) (message : String) (w : World F)
        → (fail_enter maths accepted r.now o message w).0.executed ≡ false
    fail_enter_fails none message w = refl
    fail_enter_fails (some o) message w = refl
