-- ===== src/Execution/Enter.antt =====
-- The ENTER branch of executeLive of engine/program.ts: planLiveEntryOperation, topUpNativeForEntry,
-- readNativeBalanceGate, resolveLiveEnterRange, buildLiveEnterPosition, persistLiveEnterSuccess and
-- executeLiveEnterMint. The top-up is a swap whose only trace is the balance read after it; what it
-- asks for is `top_up`. The strategy's `recommendBinRange` is in engine/strategy-service.ts. Messages
-- stand without their figures and causes.
use beam_clmm.Prelude.{
  none, some, Option, String, Bool, ℕ, if◌then◌else◌, ◌or◌, false, not, ◌&&◌, map_set, str_eq, true,
}
use beam_clmm.Number.{Number, ◌≤?◌, lit, max, ◌>?◌, of_big, ◌⊕◌, ◌≟◌, ◌≥?◌, int, ◌⊗◌, ◌⊖◌, ◌⊘◌, min}
use beam_clmm.Prelude.Int.{ℤ, pos, ltb_ℤ, ◌-ℤ◌}
use beam_clmm.Settlement.{Reply, ok, err}
use beam_clmm.Execution.{
  AutonomousContext, Write, World, ExecutionOperation, put_operation, Outcome, put_event,
  updated_operation, confirmed, failed, enter_event, operation_record, entry, put_row,
  save_operation,
}
use beam_clmm.Sizing.Ticks.{
  Maths, FlooredTickRange, uniswap_min_tick, floor_range_to_min_pct, uniswap_max_tick,
}
use beam_clmm.Sizing.Gas.{entry_budget_wei}
use beam_clmm.Execution.Exit.{Plan, min_native_for_gas_wei}
use beam_clmm.Tracking.{PositionRecord}

-- What `enterPosition` returns.
pub record Minted (F : Type 0) : Type 0 where
  pub position_pub_key : String
  pub tx_signature : String
  pub amount_x_usd : F
  pub amount_y_usd : F
  pub lower_bin_id : Option ℤ
  pub upper_bin_id : Option ℤ

-- What the adapter answers during one entry; `native_balance` is read after the top-up. A price that
-- is no number is `none`.
pub record EnterAnswers (F : Type 0) : Type 0 where
  pub balance_before : Option ℤ
  pub live_native_price : Option F
  pub native_balance : Reply ℤ
  pub enter_position : ℤ → ℤ → F → Reply (Minted F)

pub record EnterRequest (F : Type 0) : Type 0 where
  pub pool_address : String
  pub position_size_usd : Option F
  pub position_mode : Option String
  pub tp_ladder_json : Option String
  pub invalidation_stop_price : Option F
  pub token_x : Option String
  pub token_x_symbol : String
  pub token_y_symbol : String
  pub active_bin_id : ℤ
  pub bin_step : F
  pub current_price : F
  pub entry_range_half_width : Option F
  pub entry_min_range_pct : Option F
  pub min_native_for_entry_wei : Option ℤ
  pub min_native_for_gas_wei : Option ℤ
  pub gas_reserve_pct : Option F
  pub native_price_usd : F
  pub autonomous : Option AutonomousContext
  pub operation_id : String
  pub signal_timestamp : Option ℕ
  pub signal_snapshot_id : Option ℕ
  pub now : ℕ

-- What a swap for gas asks for.
pub record TopUp (F : Type 0) : Type 0 where
  pub threshold_wei : ℤ
  pub stablecoin : F

abbrev pub min_native_for_entry_wei : ℤ
min_native_for_entry_wei = pos 2000000000000000

module _ {F : Type 0} ⦃n : Number F⦄ (maths : Maths F) where
  -- A price or a size that is missing, 0 or NaN is as false as null.
  abbrev is_truthy : Option F → Bool
  is_truthy none = false
  is_truthy (some x) = not (x ≟ int 0) && (x ≟ x)

  abbrev usable_price : Option F → F → F
  usable_price none fallback = fallback
  usable_price (some price) fallback = if price >? int 0 then price else fallback

  abbrev top_up_usd : ℤ → F → F
  top_up_usd deficit price =
      if price >? int 0
      then max (int 2)
          (maths.ceil ((of_big deficit ⊘ lit 1000000000000000000 0) ⊗ price ⊗ lit 12 1))
      else int 2

  abbrev entry_reserve : EnterRequest F → ℤ
  entry_reserve r = r.min_native_for_entry_wei or min_native_for_entry_wei

  abbrev top_up_by : EnterRequest F → EnterAnswers F → Option ℤ → Option (TopUp F)
  top_up_by r a none = none
  top_up_by r a (some balance) =
      if ltb_ℤ balance (entry_reserve r)
      then some (record {
        threshold_wei = entry_reserve r;
        stablecoin =
            top_up_usd (entry_reserve r -ℤ balance)
              (usable_price a.live_native_price r.native_price_usd);
      })
      else none

  unfoldable pub top_up : EnterRequest F → EnterAnswers F → Option (TopUp F)
  top_up r a = top_up_by r a a.balance_before

  abbrev pub spendable : EnterRequest F → ℤ → ℤ
  spendable r balance =
      entry_budget_wei balance (some (maths.round ((r.gas_reserve_pct or lit 1 1) ⊗ int 100)))
        (some (r.min_native_for_gas_wei or min_native_for_gas_wei))

  abbrev pub is_fundable : EnterRequest F → ℤ → Bool
  is_fundable r balance =
      not (ltb_ℤ (spendable r balance) (r.min_native_for_entry_wei or min_native_for_entry_wei))

  baseline_half_width_for_bin_step : F → F
  baseline_half_width_for_bin_step step =
      if step ≤? int 10 then int 25 else if step ≤? int 25 then int 20 else int 15

  -- The bounds on usable ticks around the active one, one spacing apart at least. The SDK's bounds on
  -- ticks are the Uniswap v3 constants that engine/range-floor.ts repeats.
  unfoldable pub recommend_bin_range : F → F → Option F → FlooredTickRange F
  unfolding baseline_half_width_for_bin_step
  recommend_bin_range active step override =
      let half = override or baseline_half_width_for_bin_step step in
      let lower = max uniswap_min_tick (maths.round ((active ⊖ half) ⊘ step) ⊗ step) in
      let upper = min uniswap_max_tick (maths.round ((active ⊕ half) ⊘ step) ⊗ step) in
      record {
        lower_bin_id = lower;
        upper_bin_id = if upper ≤? lower then min uniswap_max_tick (lower ⊕ step) else upper;
      }

  -- None for a range that is empty at the edge of the domain.
  unfoldable pub resolve_live_enter_range : EnterRequest F → Option (FlooredTickRange F)
  resolve_live_enter_range r =
      let active = of_big r.active_bin_id in
      let recommended = recommend_bin_range active r.bin_step r.entry_range_half_width in
      if recommended.lower_bin_id ≥? recommended.upper_bin_id
      then none
      else some (
          floor_range_to_min_pct maths active r.bin_step recommended.lower_bin_id
            recommended.upper_bin_id (r.entry_min_range_pct or lit 2 1))

  unfoldable pub build_live_enter_position :
      EnterRequest F → Minted F → FlooredTickRange F → PositionRecord F
  build_live_enter_position r m floored = record {
    position_id = m.position_pub_key;
    pool_address = r.pool_address;
    position_pub_key = some m.position_pub_key;
    deposited_usd = m.amount_x_usd ⊕ m.amount_y_usd;
    current_value_usd = m.amount_x_usd ⊕ m.amount_y_usd;
    token_x_symbol = r.token_x_symbol;
    token_y_symbol = r.token_y_symbol;
    active_bin_id = r.active_bin_id;
    lower_bin_id = m.lower_bin_id or n.to_big floored.lower_bin_id;
    upper_bin_id = m.upper_bin_id or n.to_big floored.upper_bin_id;
    timestamp = r.now;
    out_of_range_since = none;
    oor_cycle_count = 0;
    last_fee_claim_at = r.now;
    trailing_stop_threshold = none;
    highest_value_usd = none;
    last_rebalance_at = r.now;
    paper_exited_at = none;
    entry_signal_timestamp = r.signal_timestamp;
    entry_signal_snapshot_id = r.signal_snapshot_id;
    entry_price_usd = some r.current_price;
    entry_amount_x_usd = some m.amount_x_usd;
    entry_amount_y_usd = some m.amount_y_usd;
    cumulative_fees_claimed_usd = int 0;
    cumulative_rewards_claimed_usd = int 0;
    closed_at = none;
    realized_pnl_usd = none;
    position_mode = r.position_mode;
    tp_ladder_json = r.tp_ladder_json;
    invalidation_stop_price = r.invalidation_stop_price;
  }

  module _ (accepted : Write F → Bool) where
    -- The plan's error comes with no operation.
    abbrev pub enter_plan_by :
        EnterRequest F → World F → Option AutonomousContext → Option String → Plan F
    enter_plan_by r w (some context) (some mint) =
        if is_truthy r.position_size_usd && not (str_eq mint "")
        then (let o =
              operation_record context r.operation_id none none r.pool_address mint entry r.now in
            if accepted (save_operation o)
            then record { error = none; operation = some o; world = put_operation accepted o w }
            else record {
              error = some "Unable to persist entry operation before execution";
              operation = none;
              world = w;
            })
        else record { error = none; operation = none; world = w }
    enter_plan_by r w context mint = record { error = none; operation = none; world = w }

    -- An entry that is given up closes its operation.
    abbrev pub fail_enter : ℕ → Option ExecutionOperation → String → World F → Outcome × World F
    fail_enter now none message w = (record { executed = false; error = some message }, w)
    fail_enter now (some o) message w = (
      record { executed = false; error = some message },
      put_operation accepted (updated_operation o failed (some message) none now) w,
    )

    abbrev pub confirm_enter : ℕ → Option ExecutionOperation → Minted F → World F → World F
    confirm_enter now none m w = w
    confirm_enter now (some o) m w =
        put_operation accepted
          (record o {
            position_id = some m.position_pub_key;
            status = confirmed;
            tx_signature = some m.tx_signature;
            updated_at = now;
          })
          w

    unfoldable pub persist_live_enter_success :
        EnterRequest F
        → F
        → PositionRecord F
        → Minted F
        → Option ExecutionOperation
        → World F
        → World F
    persist_live_enter_success r size p m o w =
        let tracked = record w { tracked = map_set p.position_id p w.tracked } in
        confirm_enter r.now o m (
          put_event accepted
            (record {
              position_id = p.position_id;
              pool_address = r.pool_address;
              event = enter_event;
              value_usd = some size;
              fees_usd = none;
            })
            (put_row accepted p tracked))

    abbrev pub on_minted :
        EnterRequest F
        → F
        → FlooredTickRange F
        → Option ExecutionOperation
        → Reply (Minted F)
        → World F
        → Outcome × World F
    on_minted r size floored o (ok m) w = (
      record { executed = true; error = none },
      persist_live_enter_success r size (build_live_enter_position r m floored) m o w,
    )
    on_minted r size floored o (err message) w = fail_enter r.now o message w

    abbrev pub mint_in :
        EnterRequest F
        → EnterAnswers F
        → F
        → Option (FlooredTickRange F)
        → Option ExecutionOperation
        → World F
        → Outcome × World F
    mint_in r a size none o w = fail_enter r.now o "ENTER skipped: pool at tick-domain edge" w
    mint_in r a size (some f) o w =
        on_minted r size f o
          (a.enter_position (n.to_big f.lower_bin_id) (n.to_big f.upper_bin_id) size) w

    abbrev pub enter_mint_by :
        EnterRequest F
        → EnterAnswers F
        → Option F
        → Option ExecutionOperation
        → World F
        → Outcome × World F
    enter_mint_by r a none o w = fail_enter r.now o "ENTER decision missing position size" w
    enter_mint_by r a (some size) o w = mint_in r a size (resolve_live_enter_range r) o w

    abbrev pub enter_gated :
        EnterRequest F
        → EnterAnswers F
        → Reply ℤ
        → Option ExecutionOperation
        → World F
        → Outcome × World F
    enter_gated r a (err message) o w = fail_enter r.now o ("Unable to read native ETH balance") w
    enter_gated r a (ok balance) o w =
        if is_fundable r balance
        then enter_mint_by r a r.position_size_usd o w
        else fail_enter r.now o "Insufficient ETH for ENTER" w

    abbrev pub enter_planned :
        EnterRequest F → EnterAnswers F → Option String → Plan F → Outcome × World F
    enter_planned r a (some message) plan =
        (record { executed = false; error = some message }, plan.world)
    enter_planned r a none plan = enter_gated r a a.native_balance plan.operation plan.world

    -- `executeLive` on an ENTER, with a wallet.
    unfoldable pub execute_live_enter :
        EnterRequest F → EnterAnswers F → World F → Outcome × World F
    execute_live_enter r a w =
        let plan = enter_plan_by r w r.autonomous r.token_x in enter_planned r a plan.error plan
