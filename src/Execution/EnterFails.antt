-- ===== src/Execution/EnterFails.antt =====
-- What an ENTER of engine/program.ts that reports failure leaves behind.
use beam_clmm.Prelude.{
  none, some, Bool, ◌≡◌, arith, Option, String, false, refl, ◌∙◌, Bool-cases, inl, inr,
}
use beam_clmm.Number.{Number}
use beam_clmm.Sizing.Ticks.{Maths, FlooredTickRange}
use beam_clmm.Execution.{Write, World, put_operation, ExecutionOperation, AutonomousContext}
use beam_clmm.Execution.Enter.{
  EnterRequest, EnterAnswers, execute_live_enter, enter_mint_by, Minted, mint_in, enter_gated,
  on_minted, resolve_live_enter_range, fail_enter, enter_plan_by, enter_planned, is_fundable,
}
use beam_clmm.Settlement.{Reply, ok, err}
use beam_clmm.Prelude.Int.{ℤ}
use beam_clmm.Execution.Exit.{Plan}

module _ {F : Type 0} ⦃n : Number F⦄ (maths : Maths F) (accepted : Write F → Bool) where
  abbrev IsSpared : World F → World F → Type 0
  IsSpared w v = (v.tracked ≡ w.tracked) × (v.rows ≡ w.rows)

  put_operation-IsSpared :
      (o : ExecutionOperation) (w : World F) → IsSpared w (put_operation accepted o w)
  unfolding put_operation
  put_operation-IsSpared o w = (ground arith, ground arith)

  module _ (r : EnterRequest F) (a : EnterAnswers F) where
    fail_enter-IsSpared :
        (o : Option ExecutionOperation) (message : String) (w : World F)
        → IsSpared w (fail_enter maths accepted r.now o message w).1
    fail_enter-IsSpared none message w = (refl, refl)
    fail_enter-IsSpared (some o) message w = put_operation-IsSpared _ w

    on_minted-IsSpared :
        (size : F) (f : FlooredTickRange F) (o : Option ExecutionOperation)
        (reply : Reply (Minted F)) (w : World F)
        → (on_minted maths accepted r size f o reply w).0.executed ≡ false
        → IsSpared w (on_minted maths accepted r size f o reply w).1
    on_minted-IsSpared size f o (ok m) w h = cc
    on_minted-IsSpared size f o (err message) w h = fail_enter-IsSpared o message w

    mint_in-IsSpared :
        (size : F) (f : Option (FlooredTickRange F)) (o : Option ExecutionOperation) (w : World F)
        → (mint_in maths accepted r a size f o w).0.executed ≡ false
        → IsSpared w (mint_in maths accepted r a size f o w).1
    mint_in-IsSpared size none o w h = fail_enter-IsSpared o _ w
    mint_in-IsSpared size (some f) o w h = on_minted-IsSpared size f o _ w h

    enter_mint_by-IsSpared :
        (size : Option F) (o : Option ExecutionOperation) (w : World F)
        → (enter_mint_by maths accepted r a size o w).0.executed ≡ false
        → IsSpared w (enter_mint_by maths accepted r a size o w).1
    enter_mint_by-IsSpared none o w h = fail_enter-IsSpared o _ w
    enter_mint_by-IsSpared (some size) o w h =
        mint_in-IsSpared size (resolve_live_enter_range maths r) o w h

    enter_gated-IsSpared :
        (reply : Reply ℤ) (o : Option ExecutionOperation) (w : World F)
        → (enter_gated maths accepted r a reply o w).0.executed ≡ false
        → IsSpared w (enter_gated maths accepted r a reply o w).1
    enter_gated-IsSpared (err message) o w h = fail_enter-IsSpared o _ w
    enter_gated-IsSpared (ok balance) o w h = elim (Bool-cases (is_fundable maths r balance)) [
      | inl b ↦
          let h2 : (enter_mint_by maths accepted r a r.position_size_usd o w).0.executed ≡ false =
            rw b at h in
          rw b (enter_mint_by-IsSpared r.position_size_usd o w h2)
      | inr b ↦ rw b (fail_enter-IsSpared o "Insufficient ETH for ENTER" w)
    ]

    enter_planned-IsSpared :
        (error : Option String) (plan : Plan F)
        → (enter_planned maths accepted r a error plan).0.executed ≡ false
        → IsSpared plan.world (enter_planned maths accepted r a error plan).1
    enter_planned-IsSpared (some message) plan h = (refl, refl)
    enter_planned-IsSpared none plan h =
        enter_gated-IsSpared a.native_balance plan.operation plan.world h

    enter_plan_by-IsSpared :
        (w : World F) (c : Option AutonomousContext) (mint : Option String)
        → IsSpared w (enter_plan_by maths accepted r w c mint).world
    unfolding put_operation
    enter_plan_by-IsSpared w none mint = (refl, refl)
    enter_plan_by-IsSpared w (some c) none = (refl, refl)
    enter_plan_by-IsSpared w (some c) (some mint) = (ground arith, ground arith)

    -- An ENTER that reports failure leaves the tracked positions and the rows of the table as they
    -- were.
    pub execute_live_enter_fails :
        (w : World F)
        → (execute_live_enter maths accepted r a w).0.executed ≡ false
        → ((execute_live_enter maths accepted r a w).1.tracked ≡ w.tracked)
          × ((execute_live_enter maths accepted r a w).1.rows ≡ w.rows)
    unfolding execute_live_enter
    execute_live_enter_fails w h =
        let plan = enter_plan_by maths accepted r w r.autonomous r.token_x in
        let (t, s) = enter_plan_by-IsSpared w r.autonomous r.token_x in
        let (t2, s2) = enter_planned-IsSpared plan.error plan h in (t2 ∙ t, s2 ∙ s)
