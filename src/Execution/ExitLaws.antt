-- ===== src/Execution/ExitLaws.antt =====
-- What an EXIT of engine/program.ts stands on when it reports success, and what it leaves alone when it
-- does not.
use beam_clmm.Prelude.{
  [], ◌∷◌, none, some, Bool, ℕ, String, ◌∙◌, ◌≡◌, refl, Bool-cases, true, List, inl, inr, ◌+◌,
  Option, str_eq, false,
}
use beam_clmm.Number.{Number}
use beam_clmm.Execution.{
  Write, put_operation, put_pause, World, ExecutionOperation, put_job, AutonomousContext,
  save_operation, save_pause, save_job, is_planned,
}
use beam_clmm.Execution.Settle.{record_jobs, Returned, exit_job, attributable}
use beam_clmm.Execution.Exit.{
  ExitAttempt, ExitRequest, planned_with, sync_known, ExitAnswers, save_known, ExitResult,
  run_live_exit_attempt, attempt_with_key, plan_by, is_below_gas_floor, synced_operation,
  after_failure, after_exit_call, probe_mined_exit, sync_exit_operation_state, Plan,
  plan_live_exit_operation,
}
use beam_clmm.Settlement.Pause.{SafetyPause}
use beam_clmm.Tracking.{PositionRecord, resolve_target_position}
use beam_clmm.Execution.Live.{
  settle_with_jobs, settle_by, settle_attempted_exit, execute_live_exit, exit_planned, finish_exit,
  key_of, finish_with,
}
use beam_clmm.Settlement.{Reply, ok, err}

module _ {F : Type 0} ⦃n : Number F⦄ (accepted : Write F → Bool) (fresh_id : ℕ → String) where
  -- What stays: the tracked positions and the rows of the table.
  pub record IsUntouched (w v : World F) : Type 0 where
    pub same_tracked : v.tracked ≡ w.tracked
    pub same_rows : v.rows ≡ w.rows

  untouched : (w : World F) → IsUntouched w w
  untouched w = record { same_tracked = refl; same_rows = refl }

  then-IsUntouched : (u v w : World F) → IsUntouched u v → IsUntouched v w → IsUntouched u w
  then-IsUntouched u v w a b = record {
    same_tracked = b.same_tracked ∙ a.same_tracked;
    same_rows = b.same_rows ∙ a.same_rows;
  }

  put_operation-IsUntouched :
      (o : ExecutionOperation) (w : World F) → IsUntouched w (put_operation accepted o w)
  unfolding put_operation
  put_operation-IsUntouched o w = elim (Bool-cases (accepted (save_operation o))) [
    | inl e ↦ rw e (record { same_tracked = refl; same_rows = refl })
    | inr e ↦ rw e (record { same_tracked = refl; same_rows = refl })
  ]

  put_pause-IsUntouched : (p : SafetyPause) (w : World F) → IsUntouched w (put_pause accepted p w)
  unfolding put_pause
  put_pause-IsUntouched p w = elim (Bool-cases (accepted (save_pause p))) [
    | inl e ↦ rw e (record { same_tracked = refl; same_rows = refl })
    | inr e ↦ rw e (record { same_tracked = refl; same_rows = refl })
  ]

  record_jobs-IsUntouched :
      (c : AutonomousContext) (position pool : String) (now : ℕ) (items : List Returned) (i : ℕ)
      (w : World F)
      → IsUntouched w (record_jobs accepted fresh_id c position pool now items i w).1
  unfolding record_jobs put_job
  record_jobs-IsUntouched c position pool now [] i w = untouched w
  record_jobs-IsUntouched c position pool now (item ∷ items) i w =
      let job = exit_job {F = F} fresh_id c position pool now item i in
      elim (Bool-cases (accepted (save_job job))) [
        | inl e ↦ rw e (
            then-IsUntouched w (put_job accepted job w) _
              (record { same_tracked = refl; same_rows = refl })
              (record_jobs-IsUntouched c position pool now items (i + 1) (put_job accepted job w)))
        | inr e ↦ rw e (put_pause-IsUntouched _ w)
      ]

  sync_known-IsUntouched :
      (t : ExitAttempt F) (now : ℕ) (o : Option ExecutionOperation) (w : World F)
      → IsUntouched w (sync_known accepted t now o w)
  sync_known-IsUntouched t now none w = untouched w
  sync_known-IsUntouched t now (some o) w = elim (Bool-cases (is_planned o.status)) [
    | inl e ↦ rw e (put_operation-IsUntouched (synced_operation accepted o t now) w)
    | inr e ↦ rw e (untouched w)
  ]

  save_known-IsUntouched :
      (o : Option ExecutionOperation) (w : World F) → IsUntouched w (save_known accepted o w)
  save_known-IsUntouched none w = untouched w
  save_known-IsUntouched (some o) w = put_operation-IsUntouched o w

  planned_with-IsUntouched :
      (o : ExecutionOperation) (w : World F) → IsUntouched w (planned_with accepted o w).world
  planned_with-IsUntouched o w = elim (Bool-cases (accepted (save_operation o))) [
    | inl e ↦ rw e (put_operation-IsUntouched o w)
    | inr e ↦ rw e (untouched w)
  ]

  module _ (r : ExitRequest F) (a : ExitAnswers F) where
    plan_by-IsUntouched :
        (w : World F) (c : Option AutonomousContext) (p : Option (PositionRecord F))
        (mint : Option String)
        → IsUntouched w (plan_by accepted r w c p mint).world
    plan_by-IsUntouched w none p mint = untouched w
    plan_by-IsUntouched w (some c) none mint = untouched w
    plan_by-IsUntouched w (some c) (some p) none = untouched w
    plan_by-IsUntouched w (some c) (some p) (some mint) = elim (Bool-cases (str_eq mint "")) [
      | inl e ↦ rw e (untouched w)
      | inr e ↦ rw e (planned_with-IsUntouched _ w)
    ]

    after_failure-IsUntouched :
        (o : Option ExecutionOperation) (message : String) (e : Option (ExitResult F)) (w : World F)
        → IsUntouched w (after_failure accepted r o message e w).1
    after_failure-IsUntouched o message none w = record { same_tracked = refl; same_rows = refl }
    after_failure-IsUntouched o message (some e) w = untouched w

    after_exit_call-IsUntouched :
        (key : String) (o : Option ExecutionOperation) (reply : Reply (ExitResult F)) (w : World F)
        → IsUntouched w (after_exit_call accepted r a key o reply w).1
    after_exit_call-IsUntouched key o (ok e) w = save_known-IsUntouched _ w
    after_exit_call-IsUntouched key o (err message) w =
        after_failure-IsUntouched o message (probe_mined_exit accepted a key) w

    attempt_with_key-IsUntouched :
        (key : String) (o : Option ExecutionOperation) (w : World F)
        → IsUntouched w (attempt_with_key accepted r a key o w).1
    attempt_with_key-IsUntouched key o w =
        elim (Bool-cases (is_below_gas_floor accepted r a.native_balance)) [
          | inl e ↦ rw e (save_known-IsUntouched _ w)
          | inr e ↦ rw e (after_exit_call-IsUntouched key o a.exit_position w)
        ]

    run_live_exit_attempt-IsUntouched :
        (key : Option String) (o : Option ExecutionOperation) (w : World F)
        → IsUntouched w (run_live_exit_attempt accepted r a key o w).1
    unfolding run_live_exit_attempt
    run_live_exit_attempt-IsUntouched none o w = untouched w
    run_live_exit_attempt-IsUntouched (some key) o w = elim (Bool-cases (str_eq key "")) [
      | inl e ↦ rw e (untouched w)
      | inr e ↦ rw e (attempt_with_key-IsUntouched key o w)
    ]

    -- Settling with jobs either succeeds or leaves the positions alone.
    settle_by_harmless :
        (p : PositionRecord F) (w : World F) (c : Option AutonomousContext)
        (e : Option (ExitResult F)) (x y : Option String)
        → (settle_by accepted fresh_id r p w c e x y).0.executed ≡ false
        → IsUntouched w (settle_by accepted fresh_id r p w c e x y).1
    unfolding settle_with_jobs
    settle_by_harmless p w (some c) (some e) (some x) (some y) h =
        let items = attributable x y e in
        let saved = record_jobs accepted fresh_id c p.position_id r.pool_address r.now items 0 w in
        let kept = record_jobs-IsUntouched c p.position_id r.pool_address r.now items 0 w in
        elim (Bool-cases saved.0) [
          | inl b ↦ let t : true ≡ false = rw b at h in cc
          | inr b ↦ rw b kept
        ]
    settle_by_harmless p w none e x y h = cc
    settle_by_harmless p w (some c) none x y h = cc
    settle_by_harmless p w (some c) (some e) none y h = cc
    settle_by_harmless p w (some c) (some e) (some x) none h = cc

    settle_attempted_exit_harmless :
        (p : Option (PositionRecord F)) (e : Option (ExitResult F)) (w : World F)
        → (settle_attempted_exit accepted fresh_id r p e w).0.executed ≡ false
        → IsUntouched w (settle_attempted_exit accepted fresh_id r p e w).1
    unfolding settle_attempted_exit
    settle_attempted_exit_harmless none e w h = cc
    settle_attempted_exit_harmless (some p) e w h =
        settle_by_harmless p w r.autonomous e r.token_x r.token_y h

    finish_with_harmless :
        (p : Option (PositionRecord F)) (t : ExitAttempt F) (exited : Bool) (w : World F)
        → (finish_with accepted fresh_id r p t exited w).0.executed ≡ false
        → IsUntouched w (finish_with accepted fresh_id r p t exited w).1
    finish_with_harmless p t true w h = settle_attempted_exit_harmless p t.result w h
    finish_with_harmless p t false w h = untouched w

    finish_exit_harmless :
        (p : Option (PositionRecord F)) (t : ExitAttempt F) (w : World F)
        → (finish_exit accepted fresh_id r p (t, w)).0.executed ≡ false
        → IsUntouched w (finish_exit accepted fresh_id r p (t, w)).1
    unfolding sync_exit_operation_state
    finish_exit_harmless p t w h =
        let v = sync_exit_operation_state accepted t r.now w in
        then-IsUntouched w v _ (sync_known-IsUntouched t r.now t.operation w)
          (finish_with_harmless p t t.exited v h)

    exit_planned_harmless :
        (p : Option (PositionRecord F)) (error : Option String) (plan : Plan F)
        → (exit_planned accepted fresh_id r a p error plan).0.executed ≡ false
        → IsUntouched plan.world (exit_planned accepted fresh_id r a p error plan).1
    exit_planned_harmless p (some message) plan h = untouched plan.world
    exit_planned_harmless p none plan h =
        let attempt =
          run_live_exit_attempt accepted r a (key_of accepted fresh_id p) plan.operation
            plan.world in
        then-IsUntouched plan.world attempt.1 _
          (run_live_exit_attempt-IsUntouched (key_of accepted fresh_id p) plan.operation plan.world)
          (finish_exit_harmless p attempt.0 attempt.1 h)

    -- An EXIT that reports failure leaves the tracked positions and their rows as they were, whether
    -- its operation could not be saved, the gas did not suffice, the call failed, or its settlement
    -- jobs could not be saved.
    pub execute_live_exit-IsUntouched :
        (position : Option String) (w : World F)
        → (execute_live_exit accepted fresh_id r a position w).0.executed ≡ false
        → IsUntouched w (execute_live_exit accepted fresh_id r a position w).1
    unfolding execute_live_exit plan_live_exit_operation
    execute_live_exit-IsUntouched position w h =
        let p = resolve_target_position w.tracked position r.pool_address in
        let plan = plan_live_exit_operation accepted r p w in
        then-IsUntouched w plan.world _ (plan_by-IsUntouched w r.autonomous p r.token_x)
          (exit_planned_harmless p plan.error plan h)
