-- ===== src/Examples/Costs.antt =====
-- The cost gates at concrete inputs.
use beam_clmm.Examples.Data.{num}
use beam_clmm.Prelude.{
  ◌≡◌, some, none, true, false, List, String, if◌then◌else◌, str_eq, inr, ◌∷◌, [], all, filter,
}
use beam_clmm.Number.{lit}
use beam_clmm.Number.Fixed.{Fixed, fixed_number}
use beam_clmm.Risk.Costs.{PaperValidationInput, CompoundGateInput, CapitalGateInput, GasGateInput}
use beam_clmm.Prelude.Int.{pos}
use beam_clmm.Fees.Harvest.{HarvestGateOptions}
use beam_clmm.Fees.Destination.{
  summarize_accumulation, accumulate_quote, FeeSwap, summarize_accumulation-eq, total_output,
  signatures,
}

abbrev gas : GasGateInput Fixed
gas = record {
  rebalance_gas_cost_native = lit 1 3;
  native_price_usd = num 150;
  position_daily_fees_usd = num 2;
  min_days_of_fees_paid_ahead = num 1;
}

abbrev fees : CompoundGateInput Fixed
fees = record {
  net_fees_usd = num 5;
  min_compound_fees_usd = num 1;
  compound_gas_buffer_usd = lit 5 1;
  rebalance_gas_cost_usd = lit 1 1;
}

abbrev capital : CapitalGateInput Fixed
capital = record {
  now = 5_000;
  last_rebalance_at = 1_000;
  position_timestamp = some 500;
  min_rebalance_interval_ms = 3_000;
  oor_grace_expired = false;
  gas = gas;
  recovery_probability = lit 2 1;
  oor_recovery_hold_threshold = lit 6 1;
}

abbrev paper : PaperValidationInput Fixed
paper = record {
  paper_trading = false;
  paper_days_accumulated = num 3;
  min_days = num 7;
  enforce = true;
}

-- `toUpperCase` on the one symbol of the example.
abbrev upper : String → String
upper s = if str_eq s "usdc" then "USDC" else s

abbrev no_options : HarvestGateOptions Fixed
no_options = record { min_net_usd = none; max_gas_pct = none }

abbrev swaps : List FeeSwap
swaps =
    record { input_mint = "x"; amount_atomic = pos 5; output_atomic = pos 7; signature = some "s1" }
    ∷ record { input_mint = "y"; amount_atomic = pos 2; output_atomic = pos 3; signature = none }
    ∷ []

summarize_accumulation-eq_example :
    summarize_accumulation accumulate_quote swaps "q"
    ≡ inr (record {
      destination = accumulate_quote;
      output_atomic = pos 10;
      tx_signatures = "s1" ∷ [];
    })
unfolding all total_output signatures filter
summarize_accumulation-eq_example = summarize_accumulation-eq accumulate_quote swaps "q"
