-- ===== src/Risk/Size.antt =====
-- The size of an approved ENTER: gate 7 of engine/risk-service.ts.
use beam_clmm.Prelude.{
  ◌≡◌, inl, inr, refl, true, none, some, ◌or◌, arith, sym, ◌∙◌, Option-cases, false,
}
use beam_clmm.Number.{Number, int, is_finite, ◌<?◌}
use beam_clmm.Number.Order.{
  le_of_not_lt, lt_of_not_le, IsOrdered, IsNum, ◌≼◌, not_lt_of_le, le_of_lt,
}
use beam_clmm.Risk.{AgentDecision, RiskContext, RiskConfig, enter, pool_exposure}
use beam_clmm.Risk.Gates.{
  RiskResult, gate_confidence, gate_per_pool_cap, gate_drawdown, gate_observed_volatility,
  gate_position_size, gate_rebalance, size_check, max_entry_size, min_entry_size, evaluate_risk,
  approve, gate_stop_loss, all_checks_passed, stop_loss_target, size_capped,
}
use beam_clmm.Risk.GateLemmas.{Passed, approved-Passed, last_gates, Passed-evaluate}

module _ {F : Type 0} ⦃n : Number F⦄ where
  -- The size that is executed: the adjusted one, or else the decision's.
  abbrev pub executed_size : RiskResult F → F → F
  executed_size r size = r.adjusted_size_usd or size

  module _ (laws : IsOrdered F) where
    open laws use {num_of_finite, lit_num, finite_between, zero_finite}

    -- The size check either passes the size or cuts it to the headroom, which is then smaller.
    pub record IsSafeSize (cfg : RiskConfig F) (d : AgentDecision F) (ctx : RiskContext F)
        (size executed : F) : Type 0 where
      pub floor_kept : min_entry_size ctx ≼ executed
      pub under_headroom : executed ≼ max_entry_size d ctx cfg
      pub not_raised : executed ≼ size
      pub finite : is_finite executed ≡ true

    passed-IsSafeSize :
        (cfg : RiskConfig F) (d : AgentDecision F) (ctx : RiskContext F) (size : F)
        → IsNum (min_entry_size ctx)
        → size_check size d ctx cfg (min_entry_size ctx) ≡ none
        → IsSafeSize cfg d ctx size size
    unfolding size_check
    passed-IsSafeSize cfg d ctx size m h =
        let finite : is_finite size ≡ true = ground arith in
        let num = num_of_finite size finite in
        record {
          floor_kept = le_of_not_lt laws _ _ num m (ground arith);
          under_headroom = ground arith;
          not_raised = num;
          finite = finite;
        }

    capped-IsSafeSize :
        (cfg : RiskConfig F) (d : AgentDecision F) (ctx : RiskContext F) (size : F)
        {r : RiskResult F}
        → IsNum (min_entry_size ctx)
        → IsNum (max_entry_size d ctx cfg)
        → size_check size d ctx cfg (min_entry_size ctx) ≡ some r
        → r.approved ≡ true
        → IsSafeSize cfg d ctx size (executed_size r size)
    unfolding size_check
    capped-IsSafeSize cfg d ctx size {r} m k h ok =
        let top = max_entry_size d ctx cfg in
        let finite : is_finite size ≡ true = ground arith in
        let num = num_of_finite size finite in
        let cut : executed_size r size ≡ top = ground arith in
        let smaller : top ≼ size =
          le_of_lt laws _ _ (lt_of_not_le laws size top num k (ground arith)) in
        let above : int 0 ≼ top =
          le_of_lt laws _ _ (lt_of_not_le laws top (int 0) k (lit_num 0 0) (ground arith)) in
        rw cut (record {
          floor_kept = le_of_not_lt laws _ _ k m (ground arith);
          under_headroom = k;
          not_raised = smaller;
          finite = finite_between _ _ _ zero_finite above smaller finite;
        })

    size_answer-IsSafeSize :
        (cfg : RiskConfig F) (d : AgentDecision F) (ctx : RiskContext F) (size : F)
        → IsNum (min_entry_size ctx)
        → IsNum (max_entry_size d ctx cfg)
        → (size_check size d ctx cfg (min_entry_size ctx)
            or approve all_checks_passed none).approved
          ≡ true
        → IsSafeSize cfg d ctx size (
            executed_size
              (size_check size d ctx cfg (min_entry_size ctx) or approve all_checks_passed none)
              size)
    size_answer-IsSafeSize cfg d ctx size m k ok =
        elim (Option-cases (size_check size d ctx cfg (min_entry_size ctx))) [
          | inl e ↦ rw e (passed-IsSafeSize cfg d ctx size m e)
          | inr (r, e) ↦ rw e (capped-IsSafeSize cfg d ctx size m k e (rw e at ok))
        ]

    last_gates-size :
        (cfg : RiskConfig F) (d : AgentDecision F) (ctx : RiskContext F) (size : F)
        → d.action ≡ enter
        → d.position_size_usd ≡ some size
        → last_gates cfg d ctx
          ≡ (size_check size d ctx cfg (min_entry_size ctx) or approve all_checks_passed none)
    unfolding gate_position_size gate_rebalance
    last_gates-size cfg d ctx size is_enter e = ground arith

    -- The size that an approved ENTER executes is finite, not below the minimum, not above the pool's
    -- remaining headroom and never above the size asked for, if the minimum and the headroom are
    -- numbers.
    pub evaluate_risk-IsSafeSize :
        (cfg : RiskConfig F) (d : AgentDecision F) (ctx : RiskContext F) (size : F)
        → IsNum (min_entry_size ctx)
        → IsNum (max_entry_size d ctx cfg)
        → d.action ≡ enter
        → d.position_size_usd ≡ some size
        → (evaluate_risk cfg d ctx).approved ≡ true
        → IsSafeSize cfg d ctx size (executed_size (evaluate_risk cfg d ctx) size)
    evaluate_risk-IsSafeSize cfg d ctx size m k is_enter e ok =
        let (p, answer) = approved-Passed cfg d ctx (λ x. cc (sym is_enter ∙ x)) ok in
        let same = answer ∙ last_gates-size cfg d ctx size is_enter e in
        rw same (size_answer-IsSafeSize cfg d ctx size m k (rw same at ok))

    abbrev pub resized : AgentDecision F → F → AgentDecision F
    resized d size = record d { position_size_usd = some size }

    resized-Passed :
        (cfg : RiskConfig F) (d : AgentDecision F) (ctx : RiskContext F) (size : F)
        → Passed cfg d ctx
        → Passed cfg (resized d size) ctx
    unfolding gate_confidence gate_per_pool_cap gate_drawdown gate_observed_volatility
        gate_stop_loss stop_loss_target
    resized-Passed cfg d ctx size p = record {
      confident = p.confident;
      has_room = p.has_room;
      no_drawdown = p.no_drawdown;
      calm = p.calm;
      no_stop_loss = p.no_stop_loss;
    }

    safe_size_passes :
        (cfg : RiskConfig F) (d : AgentDecision F) (ctx : RiskContext F) (size executed : F)
        → Passed cfg d ctx
        → is_finite ctx.portfolio_value_usd ≡ true
        → is_finite (pool_exposure d.pool_address ctx.open_positions) ≡ true
        → IsSafeSize cfg d ctx size executed
        → size_check executed d ctx cfg (min_entry_size ctx) ≡ none
    unfolding size_check
    safe_size_passes cfg d ctx size executed p f g s =
        ground (arith, s.floor_kept, not_lt_of_le laws _ _ s.floor_kept, s.under_headroom, s.finite)

    finite_data :
        (cfg : RiskConfig F) (d : AgentDecision F) (ctx : RiskContext F) (size : F)
        → Passed cfg d ctx
        → d.action ≡ enter
        → (size_check size d ctx cfg (min_entry_size ctx)
            or approve all_checks_passed none).approved
          ≡ true
        → (is_finite ctx.portfolio_value_usd ≡ true)
          × (is_finite (pool_exposure d.pool_address ctx.open_positions) ≡ true)
    unfolding gate_drawdown size_check
    finite_data cfg d ctx size p is_enter ok = ground (arith, p.no_drawdown)

    -- Sizing is settled after one round: the executed size of an approved ENTER, evaluated again in
    -- the same context, is approved as it is.
    evaluate_risk-resized :
        (cfg : RiskConfig F) (d : AgentDecision F) (ctx : RiskContext F) (size : F)
        → IsNum (min_entry_size ctx)
        → IsNum (max_entry_size d ctx cfg)
        → d.action ≡ enter
        → d.position_size_usd ≡ some size
        → (evaluate_risk cfg d ctx).approved ≡ true
        → evaluate_risk cfg (resized d (executed_size (evaluate_risk cfg d ctx) size)) ctx
          ≡ approve all_checks_passed none
    evaluate_risk-resized cfg d ctx size m k is_enter e ok =
        let executed = executed_size (evaluate_risk cfg d ctx) size in
        let d' = resized d executed in
        let (p, answer) = approved-Passed cfg d ctx (λ x. cc (sym is_enter ∙ x)) ok in
        let same = answer ∙ last_gates-size cfg d ctx size is_enter e in
        let (f, g) = finite_data cfg d ctx size p is_enter (rw same at ok) in
        let safe = evaluate_risk-IsSafeSize cfg d ctx size m k is_enter e ok in
        let again : IsSafeSize cfg d' ctx size executed = record {
          floor_kept = safe.floor_kept;
          under_headroom = safe.under_headroom;
          not_raised = safe.not_raised;
          finite = safe.finite;
        } in
        Passed-evaluate cfg d' ctx (λ x. cc (sym is_enter ∙ x))
          (resized-Passed cfg d ctx executed p)
        ∙ last_gates-size cfg d' ctx executed is_enter refl
        ∙ rw (
            safe_size_passes cfg d' ctx size executed (resized-Passed cfg d ctx executed p) f g
              again)

    -- Where the headroom is NaN, as it is for an allocation share that is NaN, the check does not
    -- refuse: a finite size that is not below the minimum is approved, and replaced by NaN.
    pub size_check_nan :
        (cfg : RiskConfig F) (d : AgentDecision F) (ctx : RiskContext F) (size : F)
        → ¬ IsNum (max_entry_size d ctx cfg)
        → is_finite size ≡ true
        → is_finite ctx.portfolio_value_usd ≡ true
        → is_finite (pool_exposure d.pool_address ctx.open_positions) ≡ true
        → (size <? min_entry_size ctx) ≡ false
        → size_check size d ctx cfg (min_entry_size ctx)
          ≡ some (approve size_capped (some (max_entry_size d ctx cfg)))
    unfolding size_check
    size_check_nan cfg d ctx size nan f g h k =
        let top = max_entry_size d ctx cfg in
        ground (
          arith,
          laws.num_of_le size top,
          laws.num_of_le top (int 0),
          laws.num_of_lt top (min_entry_size ctx),
        )
