-- ===== src/Examples/Sizes.antt =====
-- Sizes, budgets and widths at concrete inputs.
use beam_clmm.Examples.Data.{num}
use beam_clmm.Prelude.{some, none}
use beam_clmm.Number.{lit}
use beam_clmm.Number.Fixed.{Fixed, fixed_number}
use beam_clmm.Sizing.Entry.{EntrySizeInput}

abbrev wallet : EntrySizeInput Fixed
wallet = record {
  equity_fraction_usd = some (lit 5 2);
  portfolio_value_usd = some (num 2000);
  wallet_balance_usd = num 300;
  tvl_usd = num 50_000;
  max_size_usd = none;
  tvl_fraction_usd = none;
  floor_usd = none;
}
