-- ===== src/Risk/CostLaws.antt =====
-- When the cost gates of engine/risk-service.ts approve.
use beam_clmm.Prelude.{Bool, not, ◌≡◌, ◌+◌, true, ◌≤◌, ◌&&◌, ◌⊎◌, arith, ◌↔◌}
use beam_clmm.Number.{Number, ◌≥?◌, is_finite, int}
use beam_clmm.Number.Order.{
  IsOrdered, IsNum, not_le_of_lt, ◌≺◌, ◌≼◌, lt_of_not_le, not_lt_of_le, le_of_not_lt,
}
use beam_clmm.Risk.Costs.{
  evaluate_capital_gates, evaluate_compound_gate, CompoundGateInput, evaluate_gas_gate,
  evaluate_paper_validation, CapitalGateInput, GasGateInput, gas_cost, compound_savings,
  PaperValidationInput, finite_fees, should_hold_for_recovery, interval_anchor, fees_threshold,
}

module _ {F : Type 0} ⦃n : Number F⦄ where
  -- What makes a rebalance worth its gas.
  pub record IsGasCovered (i : GasGateInput F) : Type 0 where
    pub finite_cost : is_finite (gas_cost i) ≡ true
    pub finite_threshold : is_finite (fees_threshold i) ≡ true
    pub costs : int 0 ≺ gas_cost i
    pub earns : int 0 ≺ i.position_daily_fees_usd
    pub covered : gas_cost i ≼ fees_threshold i

  -- What makes accrued fees worth compounding.
  pub record IsWorthCompounding (i : CompoundGateInput F) : Type 0 where
    pub finite : finite_fees i ≡ true
    pub earned : int 0 ≺ i.net_fees_usd
    pub saves : int 0 ≺ compound_savings i

  -- What lets an agent's rebalance through.
  pub record IsCapitalSafe (i : CapitalGateInput F) : Type 0 where
    pub waited :
        (interval_anchor i + i.min_rebalance_interval_ms ≤ i.now) ⊎ (i.oor_grace_expired ≡ true)
    pub gas_covered : IsGasCovered i.gas
    pub no_recovery : ¬ (i.oor_recovery_hold_threshold ≼ i.recovery_probability)

  module _ (laws : IsOrdered F) where
    open laws use {num_of_finite, lit_num, num_of_lt}

    covered_of_approved :
        (i : GasGateInput F)
        → IsNum i.position_daily_fees_usd
        → (evaluate_gas_gate i).approved ≡ true
        → IsGasCovered i
    unfolding evaluate_gas_gate
    covered_of_approved i num h =
        let f : is_finite (gas_cost i) ≡ true = ground arith in
        let g : is_finite (fees_threshold i) ≡ true = ground arith in
        let p = num_of_finite _ f in
        let q = num_of_finite _ g in
        record {
          finite_cost = f;
          finite_threshold = g;
          costs = lt_of_not_le laws _ _ p (lit_num 0 0) (ground arith);
          earns = lt_of_not_le laws _ _ num (lit_num 0 0) (ground arith);
          covered = le_of_not_lt laws _ _ q p (ground arith);
        }

    approved_of_covered :
        (i : GasGateInput F) → IsGasCovered i → (evaluate_gas_gate i).approved ≡ true
    unfolding evaluate_gas_gate
    approved_of_covered i v = ground (
      arith,
      v.finite_cost,
      v.finite_threshold,
      not_le_of_lt laws _ _ v.costs,
      not_le_of_lt laws _ _ v.earns,
      not_lt_of_le laws _ _ v.covered,
    )

    -- A rebalance is worth its gas exactly when the cost and the fees ahead are finite, the cost is
    -- positive, the position earns fees, and the fees of the days ahead cover the cost, where the
    -- daily fees are a number.
    evaluate_gas_gate_iff :
        (i : GasGateInput F)
        → IsNum i.position_daily_fees_usd
        → ((evaluate_gas_gate i).approved ≡ true) ↔ IsGasCovered i
    evaluate_gas_gate_iff i num = (covered_of_approved i num, approved_of_covered i)

    -- Fees are compounded exactly when all amounts are finite, the fees are positive and so is what is
    -- left of them after the minimum, the buffer and the gas, where that remainder is a number.
    evaluate_compound_gate_iff :
        (i : CompoundGateInput F)
        → IsNum (compound_savings i)
        → ((evaluate_compound_gate i).approved ≡ true) ↔ IsWorthCompounding i
    unfolding evaluate_compound_gate
    evaluate_compound_gate_iff i num = (
      λ h.
          let f : finite_fees i ≡ true = ground arith in
          let g : is_finite i.net_fees_usd ≡ true = ground arith in
          record {
            finite = f;
            earned = lt_of_not_le laws _ _ (num_of_finite _ g) (lit_num 0 0) (ground arith);
            saves = lt_of_not_le laws _ _ num (lit_num 0 0) (ground arith);
          },
      λ v. ground (arith, v.finite, not_le_of_lt laws _ _ v.earned, not_le_of_lt laws _ _ v.saves),
    )

    -- An agent's REBALANCE passes exactly when the interval since the last one (or since the position
    -- opened) is over or the grace out of range has run out, its gas is covered by fees, and the
    -- price is not expected to recover.
    pub evaluate_capital_gates_iff :
        (i : CapitalGateInput F)
        → IsNum i.gas.position_daily_fees_usd
        → ((evaluate_capital_gates i).approved ≡ true) ↔ IsCapitalSafe i
    unfolding evaluate_capital_gates should_hold_for_recovery
    evaluate_capital_gates_iff i num = (
      λ h. record {
        waited = ground arith;
        gas_covered = covered_of_approved i.gas num (ground arith);
        no_recovery = ground arith;
      },
      λ v. ground (arith, approved_of_covered i.gas v.gas_covered, v.waited, v.no_recovery),
    )

  -- A live entry is blocked exactly when paper trading is off, validation is enforced and too few days
  -- are on record; a warning is given exactly when it goes ahead with too few.
  evaluate_paper_validation_iff :
      (i : PaperValidationInput F)
      → let short : Bool = not i.paper_trading && not (i.paper_days_accumulated ≥? i.min_days) in
        ((evaluate_paper_validation i).approved ≡ not (short && i.enforce))
        × ((evaluate_paper_validation i).warning ≡ (short && not i.enforce))
  unfolding evaluate_paper_validation
  evaluate_paper_validation_iff i = ground arith
