-- ===== src/Risk/Costs.antt =====
-- The cost gates of engine/risk-service.ts: gas, compounding, the capital gates of a REBALANCE that an
-- agent asks for, and paper-trading validation.
use beam_clmm.Prelude.{Bool, ℕ, Option, if◌then◌else◌, not, ◌+◌, true, false, ltb, ◌&&◌, ◌||◌, ◌or◌}
use beam_clmm.Number.{Number, ◌⊖◌, ◌⊕◌, ◌≥?◌, is_finite, ◌⊗◌, int, ◌≤?◌, ◌>?◌}

pub record GasGateInput (F : Type 0) : Type 0 where
  pub rebalance_gas_cost_native : F
  pub native_price_usd : F
  pub position_daily_fees_usd : F
  pub min_days_of_fees_paid_ahead : F

pub data GasReason : Type 0 where
  gas_not_finite gas_not_positive no_fees gas_exceeds_fees gas_covered : GasReason

pub record GasGateResult (F : Type 0) : Type 0 where
  pub approved : Bool
  pub reason : GasReason
  pub gas_cost_usd : F
  pub fees_threshold_usd : F

pub record CompoundGateInput (F : Type 0) : Type 0 where
  pub net_fees_usd : F
  pub min_compound_fees_usd : F
  pub compound_gas_buffer_usd : F
  pub rebalance_gas_cost_usd : F

pub data CompoundReason : Type 0 where
  compound_not_finite nothing_to_compound cost_not_covered cost_covered : CompoundReason

pub record CompoundGateResult (F : Type 0) : Type 0 where
  pub approved : Bool
  pub reason : CompoundReason
  pub threshold_usd : F
  pub savings_usd : F

-- Times are whole milliseconds after the epoch.
pub record CapitalGateInput (F : Type 0) : Type 0 where
  pub now : ℕ
  pub last_rebalance_at : ℕ
  pub position_timestamp : Option ℕ
  pub min_rebalance_interval_ms : ℕ
  pub oor_grace_expired : Bool
  pub gas : GasGateInput F
  pub recovery_probability : F
  pub oor_recovery_hold_threshold : F

pub data CapitalReason : Type 0 where
  blocked_by_min_interval : CapitalReason
  blocked_by_gas_gate : GasReason → CapitalReason
  blocked_by_recovery_gate capital_gates_passed : CapitalReason

pub record CapitalGateVerdict : Type 0 where
  pub approved : Bool
  pub reason : CapitalReason

pub record PaperValidationInput (F : Type 0) : Type 0 where
  pub paper_trading : Bool
  pub paper_days_accumulated : F
  pub min_days : F
  pub enforce : Bool

pub data PaperReason : Type 0 where
  paper_trading_on validation_passed validation_not_enforced validation_missing : PaperReason

pub record PaperValidationResult : Type 0 where
  pub approved : Bool
  pub reason : PaperReason
  pub warning : Bool

abbrev verdict : Bool → CapitalReason → CapitalGateVerdict
verdict ok why = record { approved = ok; reason = why }

abbrev paper_result : Bool → PaperReason → Bool → PaperValidationResult
paper_result ok why warned = record { approved = ok; reason = why; warning = warned }

module _ {F : Type 0} ⦃n : Number F⦄ where
  abbrev pub gas_cost : GasGateInput F → F
  gas_cost i = i.rebalance_gas_cost_native ⊗ i.native_price_usd

  abbrev pub fees_threshold : GasGateInput F → F
  fees_threshold i = i.position_daily_fees_usd ⊗ i.min_days_of_fees_paid_ahead

  abbrev gas_result : GasGateInput F → Bool → GasReason → GasGateResult F
  gas_result i ok why = record {
    approved = ok;
    reason = why;
    gas_cost_usd = gas_cost i;
    fees_threshold_usd = fees_threshold i;
  }

  unfoldable pub evaluate_gas_gate : GasGateInput F → GasGateResult F
  evaluate_gas_gate i =
      if not (is_finite (gas_cost i)) || not (is_finite (fees_threshold i))
      then gas_result i false gas_not_finite
      else if gas_cost i ≤? int 0
      then gas_result i false gas_not_positive
      else if i.position_daily_fees_usd ≤? int 0
      then gas_result i false no_fees
      else if gas_cost i >? fees_threshold i
      then gas_result i false gas_exceeds_fees
      else gas_result i true gas_covered

  abbrev pub compound_threshold : CompoundGateInput F → F
  compound_threshold i =
      i.min_compound_fees_usd ⊕ i.compound_gas_buffer_usd ⊕ i.rebalance_gas_cost_usd

  abbrev pub compound_savings : CompoundGateInput F → F
  compound_savings i = i.net_fees_usd ⊖ compound_threshold i

  abbrev compound_result : CompoundGateInput F → Bool → CompoundReason → CompoundGateResult F
  compound_result i ok why = record {
    approved = ok;
    reason = why;
    threshold_usd = compound_threshold i;
    savings_usd = compound_savings i;
  }

  abbrev pub finite_fees : CompoundGateInput F → Bool
  finite_fees i =
      is_finite i.net_fees_usd
      && (is_finite i.min_compound_fees_usd
          && (is_finite i.compound_gas_buffer_usd && is_finite i.rebalance_gas_cost_usd))

  unfoldable pub evaluate_compound_gate : CompoundGateInput F → CompoundGateResult F
  evaluate_compound_gate i =
      if not (finite_fees i)
      then compound_result i false compound_not_finite
      else if i.net_fees_usd ≤? int 0
      then compound_result i false nothing_to_compound
      else if compound_savings i ≤? int 0
      then compound_result i false cost_not_covered
      else compound_result i true cost_covered

  -- engine/strategy-service.ts
  unfoldable pub should_hold_for_recovery : F → F → Bool
  should_hold_for_recovery probability threshold = probability ≥? threshold

  -- The last rebalance, or else the opening of the position.
  abbrev pub interval_anchor : CapitalGateInput F → ℕ
  interval_anchor i =
      if ltb 0 i.last_rebalance_at
      then i.last_rebalance_at
      else i.position_timestamp or i.last_rebalance_at

  -- `now - anchor < minRebalanceIntervalMs`, on whole numbers of either order.
  unfoldable pub evaluate_capital_gates : CapitalGateInput F → CapitalGateVerdict
  evaluate_capital_gates i =
      let gas = evaluate_gas_gate i.gas in
      if ltb i.now (interval_anchor i + i.min_rebalance_interval_ms) && not i.oor_grace_expired
      then verdict false blocked_by_min_interval
      else if not gas.approved
      then verdict false (blocked_by_gas_gate gas.reason)
      else if should_hold_for_recovery i.recovery_probability i.oor_recovery_hold_threshold
      then verdict false blocked_by_recovery_gate
      else verdict true capital_gates_passed

  unfoldable pub evaluate_paper_validation : PaperValidationInput F → PaperValidationResult
  evaluate_paper_validation i =
      if i.paper_trading
      then paper_result true paper_trading_on false
      else if i.paper_days_accumulated ≥? i.min_days
      then paper_result true validation_passed false
      else if not i.enforce
      then paper_result true validation_not_enforced true
      else paper_result false validation_missing false
