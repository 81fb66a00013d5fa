-- ===== src/Examples/Enters.antt =====
-- Entries at concrete inputs.
use beam_clmm.Prelude.{some, none, refl, ℕ, ◌≡◌}
use beam_clmm.Execution.Enter.{Minted, top_up, execute_live_enter, EnterRequest, EnterAnswers}
use beam_clmm.Sizing.Ticks.{Maths}
use beam_clmm.Examples.Exits.{all_accepted, world, owner}
use beam_clmm.Number.Fixed.{Fixed, fixed_number}
use beam_clmm.Prelude.Int.{pos, quot, ◌*ℤ◌, ◌-ℤ◌}
use beam_clmm.Examples.Data.{num}
use beam_clmm.Settlement.{ok}
use beam_clmm.Execution.EnterFails.{execute_live_enter_fails}
use beam_clmm.Sizing.Gas.{entry_budget_wei, whole_pct}

abbrev simple_maths : Maths Fixed
simple_maths = record {
  pow = λ a b. num 1;
  log = λ x. num 1;
  log1p = λ x. num 100;
  ceil = λ x. x;
  round = λ x. x;
}

abbrev entry_request : EnterRequest Fixed
entry_request = record {
  pool_address = "B";
  position_size_usd = some (num 40);
  position_mode = none;
  tp_ladder_json = none;
  invalidation_stop_price = none;
  token_x = some "0xt";
  token_x_symbol = "LINK";
  token_y_symbol = "USDC";
  active_bin_id = pos 100;
  bin_step = num 10;
  current_price = num 2;
  entry_range_half_width = some (num 20);
  entry_min_range_pct = none;
  min_native_for_entry_wei = some (pos 100);
  min_native_for_gas_wei = some (pos 50);
  gas_reserve_pct = none;
  native_price_usd = num 150;
  autonomous = some owner;
  operation_id = "op-3";
  signal_timestamp = none;
  signal_snapshot_id = none;
  now = 5000;
}

abbrev minted : Minted Fixed
minted = record {
  position_pub_key = "p9";
  tx_signature = "0xsig";
  amount_x_usd = num 19;
  amount_y_usd = num 20;
  lower_bin_id = none;
  upper_bin_id = none;
}

abbrev entry_answers : ℕ → EnterAnswers Fixed
entry_answers balance = record {
  balance_before = some (pos balance);
  live_native_price = none;
  native_balance = ok (pos balance);
  enter_position = λ lower upper size. ok minted;
}

-- The stablecoin for a wallet that is short of gas.
short_wallet_tops_up :
    top_up simple_maths entry_request (entry_answers 90)
    ≡ some (record { threshold_wei = pos 100; stablecoin = num 2 })
unfolding top_up quot ◌*ℤ◌ ◌-ℤ◌
short_wallet_tops_up = refl

execute_live_enter_fails_example :
    ((execute_live_enter simple_maths all_accepted entry_request
        (entry_answers 120)
        world).1.tracked
      ≡ world.tracked)
    × ((execute_live_enter simple_maths all_accepted entry_request (entry_answers 120) world).1.rows
        ≡ world.rows)
unfolding execute_live_enter entry_budget_wei ◌-ℤ◌ quot ◌*ℤ◌ whole_pct
execute_live_enter_fails_example =
    execute_live_enter_fails simple_maths all_accepted entry_request (entry_answers 120) world refl
