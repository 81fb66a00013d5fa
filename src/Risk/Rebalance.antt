-- ===== src/Risk/Rebalance.antt =====
-- What an approved HOLD or REBALANCE is worth: gates 2, 6 and 8 of engine/risk-service.ts.
use beam_clmm.Number.{Number, int, ◌⊖◌, is_finite, neg}
use beam_clmm.Number.Order.{IsOrdered, ◌≺◌, IsNum, lt_of_not_le, not_le_of_lt, le_of_not_lt, ◌≼◌}
use beam_clmm.Risk.{
  RiskConfig, AgentDecision, Position, RiskContext, RebalanceParams, hold, rebalance,
}
use beam_clmm.Risk.Gates.{
  gate_stop_loss, gate_rebalance, loss_pct, stop_loss_target, evaluate_risk, misses_active_bin,
}
use beam_clmm.Prelude.{◌≡◌, some, ◌⊎◌, none, true, arith, Option, false, Bool-cases, inr, inl}
use beam_clmm.Risk.GateLemmas.{approved-Passed, size_only_enter, rebalance_rejects}

module _ {F : Type 0} ⦃n : Number F⦄ where
  -- The position's loss, if it can be computed, has not passed the stop.
  pub record IsAboveStop (cfg : RiskConfig F) (p : Position F) : Type 0 where
    pub above_stop : ¬ ((int 0 ≺ p.deposited_usd) × (loss_pct p ≺ neg cfg.stop_loss_pct))

  -- A range holds the active bin, unless that is unknown or not finite.
  abbrev pub HoldsActive : Option F → RebalanceParams F → Type 0
  HoldsActive none p = Unit {0}
  HoldsActive (some bin) p =
      (is_finite bin ≡ false) ⊎ ((p.new_lower_bin_id ≼ bin) × (bin ≼ p.new_upper_bin_id))

  -- The range lies the right way round, is narrow enough, and holds the active bin.
  pub record IsSafeRange (cfg : RiskConfig F) (ctx : RiskContext F) (p : RebalanceParams F)
      : Type 0 where
    pub ordered : p.new_lower_bin_id ≺ p.new_upper_bin_id
    pub narrow : ¬ (cfg.max_rebalance_range_bins ≺ (p.new_upper_bin_id ⊖ p.new_lower_bin_id))
    pub holds_active : HoldsActive ctx.active_bin_id p

  module _ (laws : IsOrdered F) where
    open laws use {num_of_finite}

    pub active-HoldsActive :
        (active : Option F) (p : RebalanceParams F)
        → IsNum p.new_lower_bin_id
        → IsNum p.new_upper_bin_id
        → misses_active_bin active p ≡ false
        → HoldsActive active p
    active-HoldsActive none p a b h = tt
    active-HoldsActive (some bin) p a b h = elim (Bool-cases (is_finite bin)) [
      | inr unknown ↦ inl unknown
      | inl f ↦ inr (
        le_of_not_lt laws bin p.new_lower_bin_id (num_of_finite bin f) a (ground arith),
        le_of_not_lt laws p.new_upper_bin_id bin b (num_of_finite bin f) (ground arith),
      )
    ]

    passed-IsSafeRange :
        (cfg : RiskConfig F) (d : AgentDecision F) (ctx : RiskContext F) (p : RebalanceParams F)
        → d.action ≡ rebalance
        → d.rebalance_params ≡ some p
        → IsNum p.new_lower_bin_id
        → IsNum p.new_upper_bin_id
        → gate_rebalance d ctx cfg ≡ none
        → IsSafeRange cfg ctx p
    unfolding gate_rebalance
    passed-IsSafeRange cfg d ctx p is_rebalance e a b h = record {
      ordered = lt_of_not_le laws _ _ b a (ground arith);
      narrow = ground arith;
      holds_active = active-HoldsActive ctx.active_bin_id p a b (ground arith);
    }

    passed-IsAboveStop :
        (cfg : RiskConfig F) (d : AgentDecision F) (ctx : RiskContext F) (p : Position F)
        → (d.action ≡ hold) ⊎ (d.action ≡ rebalance)
        → stop_loss_target d ctx ≡ some p
        → gate_stop_loss d ctx cfg ≡ none
        → IsAboveStop cfg p
    unfolding gate_stop_loss
    passed-IsAboveStop cfg d ctx p a e h = record {
      above_stop = λ lost. ground (arith, not_le_of_lt laws _ _ lost.0, lost.1);
    }

    -- A position past its stop loss is not held and not rebalanced: an approved HOLD or REBALANCE
    -- leaves alone only a position whose loss has not passed the stop.
    pub evaluate_risk-IsAboveStop :
        (cfg : RiskConfig F) (d : AgentDecision F) (ctx : RiskContext F) (p : Position F)
        → (d.action ≡ hold) ⊎ (d.action ≡ rebalance)
        → stop_loss_target d ctx ≡ some p
        → (evaluate_risk cfg d ctx).approved ≡ true
        → IsAboveStop cfg p
    evaluate_risk-IsAboveStop cfg d ctx p a e ok =
        passed-IsAboveStop cfg d ctx p a e
          (approved-Passed cfg d ctx (λ x. ground arith) ok).0.no_stop_loss

    -- An approved REBALANCE that comes with a range, whose ends are not NaN, has the lower end of it below
    -- the upper end, is not wider than the configuration allows, and holds the pool's active bin where
    -- that is known and finite.
    pub evaluate_risk-IsSafeRange :
        (cfg : RiskConfig F) (d : AgentDecision F) (ctx : RiskContext F) (p : RebalanceParams F)
        → d.action ≡ rebalance
        → d.rebalance_params ≡ some p
        → IsNum p.new_lower_bin_id
        → IsNum p.new_upper_bin_id
        → (evaluate_risk cfg d ctx).approved ≡ true
        → IsSafeRange cfg ctx p
    evaluate_risk-IsSafeRange cfg d ctx p is_rebalance e a b ok =
        let (_, answer) = approved-Passed cfg d ctx (λ x. ground arith) ok in
        let sized = size_only_enter cfg d ctx (λ x. ground arith) in
        passed-IsSafeRange cfg d ctx p is_rebalance e a b
          (ground (arith, sized, rebalance_rejects cfg d ctx))
