-- ===== src/Execution/Live.antt =====
-- The EXIT branch of executeLive of engine/program.ts, and settleAttemptedExit.
use beam_clmm.Prelude.{
  none, some, Bool, ℕ, String, Option, List, true, false, if◌then◌else◌, length,
}
use beam_clmm.Number.{Number}
use beam_clmm.Execution.{Write, AutonomousContext, World, Outcome}
use beam_clmm.Execution.Exit.{
  ExitRequest, ExitAnswers, ExitResult, Plan, ExitAttempt, sync_exit_operation_state,
  run_live_exit_attempt, plan_live_exit_operation,
}
use beam_clmm.Tracking.{PositionRecord, resolve_target_position}
use beam_clmm.Execution.Settle.{
  Returned, record_jobs, attributable, settle_unresolved_exit, close_exited_position,
  record_exit_sweep_events,
}

module _ {F : Type 0} ⦃n : Number F⦄ (accepted : Write F → Bool) (fresh_id : ℕ → String) where
  abbrev settle_message : String
  settle_message = "Unable to persist all exit settlement jobs; reconciliation required"

  abbrev pub settled_by :
      ℕ
      → PositionRecord F
      → String
      → List Returned
      → ExitResult F
      → Bool × World F
      → Outcome × World F
  settled_by now p pool items e (saved, w) =
      if saved
      then (
        record { executed = true; error = none },
        close_exited_position accepted fresh_id p pool e (length items) now
            (record_exit_sweep_events accepted fresh_id p pool e w),
      )
      else (record { executed = false; error = some settle_message }, w)

  -- The settlement of an autonomous exit with a result and known tokens.
  unfoldable pub settle_with_jobs :
      AutonomousContext
      → ℕ
      → PositionRecord F
      → String
      → List Returned
      → ExitResult F
      → World F
      → Outcome × World F
  settle_with_jobs context now p pool items e w =
      settled_by now p pool items e
        (record_jobs accepted fresh_id context p.position_id pool now items 0 w)

  abbrev pub settle_by :
      ExitRequest F
      → PositionRecord F
      → World F
      → Option AutonomousContext
      → Option (ExitResult F)
      → Option String
      → Option String
      → Outcome × World F
  settle_by r p w (some context) (some result) (some x) (some y) =
      settle_with_jobs context r.now p r.pool_address (attributable x y result) result w
  settle_by r p w context result x y = (
    record { executed = true; error = none },
    settle_unresolved_exit accepted fresh_id r.now p r.pool_address result w,
  )

  -- Which of the two ways an exit is settled.
  unfoldable pub settle_attempted_exit :
      ExitRequest F
      → Option (PositionRecord F)
      → Option (ExitResult F)
      → World F
      → Outcome × World F
  settle_attempted_exit r none e w = (record { executed = true; error = none }, w)
  settle_attempted_exit r (some p) e w = settle_by r p w r.autonomous e r.token_x r.token_y

  abbrev pub key_of : Option (PositionRecord F) → Option String
  key_of none = none
  key_of (some p) = p.position_pub_key

  abbrev pub finish_with :
      ExitRequest F → Option (PositionRecord F) → ExitAttempt F → Bool → World F → Outcome × World F
  finish_with r p t true w = settle_attempted_exit r p t.result w
  finish_with r p t false w = (record { executed = false; error = t.error }, w)

  abbrev pub finish_exit :
      ExitRequest F → Option (PositionRecord F) → ExitAttempt F × World F → Outcome × World F
  finish_exit r p (t, w) = finish_with r p t t.exited (sync_exit_operation_state accepted t r.now w)

  abbrev pub exit_planned :
      ExitRequest F
      → ExitAnswers F
      → Option (PositionRecord F)
      → Option String
      → Plan F
      → Outcome × World F
  exit_planned r a p (some message) plan =
      (record { executed = false; error = some message }, plan.world)
  exit_planned r a p none plan =
      finish_exit r p (run_live_exit_attempt accepted r a (key_of p) plan.operation plan.world)

  -- `executeLive` on an EXIT, with a wallet.
  unfoldable pub execute_live_exit :
      ExitRequest F → ExitAnswers F → Option String → World F → Outcome × World F
  execute_live_exit r a position w =
      let p = resolve_target_position w.tracked position r.pool_address in
      let plan = plan_live_exit_operation accepted r p w in exit_planned r a p plan.error plan
