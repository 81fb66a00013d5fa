-- ===== src/Execution/Finished.antt =====
-- The row of an EXIT's own operation, of engine/program.ts: it ends confirmed or failed.
use mathlib.Core.Path.{subst}
use beam_clmm.Prelude.{
  [], ◌∷◌, none, some, Bool, ℕ, String, ◌≡◌, map_get, true, ◌⊎◌, false, str_eq_iff, map_get-set,
  refl, inl, inr, if◌then◌else◌, ap, ◌∙◌, ◌or◌, Option, Bool-cases, List, str_eq, ◌+◌, length,
  arith, sym,
}
use beam_clmm.Number.{Number}
use beam_clmm.Execution.{
  Write, ExecutionOperation, World, save_operation, is_planned, put_operation, updated_operation,
  confirmed, failed, put_job, put_pause, operation_record, AutonomousContext, exit_operation,
  save_job,
}
use beam_clmm.Execution.Exit.{
  ExitAttempt, sync_exit_operation_state, synced_operation, sync_known, signature_of, ExitRequest,
  ExitAnswers, plan_live_exit_operation, attempt_with_key, run_live_exit_attempt, ExitResult,
  after_exit_call, is_below_gas_floor, after_failure, plan_by, probe_mined_exit,
}
use beam_clmm.Execution.Live.{
  execute_live_exit, settle_with_jobs, finish_exit, settle_attempted_exit, finish_with, settle_by,
  exit_planned,
}
use beam_clmm.Execution.Settle.{
  record_jobs, Returned, attributable, record_exit_sweep_events, exit_job,
}
use beam_clmm.Tracking.{PositionRecord, resolve_target_position}
use beam_clmm.Settlement.{Reply, ok, err}
use beam_clmm.Execution.Booked.{
  record_exit_sweep_events-IsAside, close_exited_position-IsAside, settle_unresolved_exit-IsAside,
}

module _ {F : Type 0} ⦃n : Number F⦄ (accepted : Write F → Bool) (fresh_id : ℕ → String) where
  -- The row of an id is there, and confirmed or failed.
  pub record IsFinished (id : String) (w : World F) : Type 0 where
    pub row : ExecutionOperation
    pub found : map_get id w.operations ≡ some row
    pub ended : (row.status ≡ confirmed) ⊎ (row.status ≡ failed)

  -- An operation that is still planned, or whose row is finished already.
  record IsOpen (o : ExecutionOperation) (t : ExitAttempt F) (w : World F) : Type 0 where
    kept : t.operation ≡ some o
    state : (is_planned o.status ≡ true) ⊎ IsFinished o.id w

  IsFinished-same :
      (id : String) (w v : World F)
      → v.operations ≡ w.operations
      → IsFinished id w
      → IsFinished id v
  IsFinished-same id w v e f = record {
    row = f.row;
    found = ap (map_get id) e ∙ f.found;
    ended = f.ended;
  }

  operations-record_jobs :
      (c : AutonomousContext) (position pool : String) (now : ℕ) (items : List Returned) (i : ℕ)
      (w : World F)
      → (record_jobs accepted fresh_id c position pool now items i w).1.operations ≡ w.operations
  unfolding record_jobs put_job put_pause
  operations-record_jobs c position pool now [] i w = refl
  operations-record_jobs c position pool now (item ∷ items) i w =
      let job = exit_job {F = F} fresh_id c position pool now item i in
      elim (Bool-cases (accepted (save_job job))) [
        | inl e ↦
            rw e (operations-record_jobs c position pool now items (i + 1) (put_job accepted job w))
        | inr e ↦ rw e (ground arith)
      ]

  operations-settle_by :
      (r : ExitRequest F) (p : PositionRecord F) (w : World F) (c : Option AutonomousContext)
      (e : Option (ExitResult F)) (x y : Option String)
      → (settle_by accepted fresh_id r p w c e x y).1.operations ≡ w.operations
  unfolding settle_with_jobs
  operations-settle_by r p w (some c) (some e) (some x) (some y) =
      let items = attributable x y e in
      let jobs = record_jobs accepted fresh_id c p.position_id r.pool_address r.now items 0 w in
      let same = operations-record_jobs c p.position_id r.pool_address r.now items 0 w in
      let swept = record_exit_sweep_events accepted fresh_id p r.pool_address e jobs.1 in
      let a = record_exit_sweep_events-IsAside accepted fresh_id p r.pool_address e jobs.1 in
      let b =
        close_exited_position-IsAside accepted fresh_id p r.pool_address e (length items) r.now
          swept in
      elim (Bool-cases jobs.0) [
        | inl s ↦ rw s (b.same_operations ∙ a.same_operations ∙ same)
        | inr s ↦ rw s same
      ]
  operations-settle_by r p w none e x y =
      (settle_unresolved_exit-IsAside accepted fresh_id r.now p r.pool_address e w).same_operations
  operations-settle_by r p w (some c) none x y =
      (settle_unresolved_exit-IsAside accepted fresh_id r.now p r.pool_address none
        w).same_operations
  operations-settle_by r p w (some c) (some e) none y =
      (settle_unresolved_exit-IsAside accepted fresh_id r.now p r.pool_address (some e)
        w).same_operations
  operations-settle_by r p w (some c) (some e) (some x) none =
      (settle_unresolved_exit-IsAside accepted fresh_id r.now p r.pool_address (some e)
        w).same_operations

  module _ (saved : (o : ExecutionOperation) → accepted (save_operation o) ≡ true) where
    put_operation-IsFinished :
        (o : ExecutionOperation) (w : World F)
        → (o.status ≡ confirmed) ⊎ (o.status ≡ failed)
        → IsFinished o.id (put_operation accepted o w)
    unfolding put_operation
    put_operation-IsFinished o w h =
        let same = (str_eq_iff o.id o.id).1 refl in
        rw (saved o)
          (record { row = o; found = rw same at (map_get-set o.id o.id o w.operations); ended = h })

    sync_known-IsFinished :
        (t : ExitAttempt F) (now : ℕ) (o : ExecutionOperation) (w : World F)
        → (is_planned o.status ≡ true) ⊎ IsFinished o.id w
        → IsFinished o.id (sync_known accepted t now (some o) w)
    unfolding updated_operation
    sync_known-IsFinished t now o w s = by_planned (is_planned o.status) s
      where
        synced :
            (exited : Bool)
            → IsFinished o.id (
                put_operation accepted
                  (if exited
                    then updated_operation o confirmed none
                        (some (signature_of accepted t.result))
                        now
                    else updated_operation o failed
                        (some (t.error or "EXIT execution failed"))
                        none
                        now)
                  w)
        synced true = put_operation-IsFinished _ w (inl refl)
        synced false = put_operation-IsFinished _ w (inr refl)

        by_planned :
            (b : Bool)
            → (b ≡ true) ⊎ IsFinished o.id w
            → IsFinished o.id
                (if b then put_operation accepted (synced_operation accepted o t now) w else w)
        by_planned true s = synced t.exited
        by_planned false (inl e) = cc
        by_planned false (inr f) = f

    module _ (r : ExitRequest F) (a : ExitAnswers F) (o : ExecutionOperation)
        (fresh_plan : is_planned o.status ≡ true) where
      -- The operation that an attempt hands on, under the id of the one that was planned.
      abbrev HandsOn : ExitAttempt F × World F → Type 0
      HandsOn (t, w) = (q : ExecutionOperation) × (q.id ≡ o.id) × IsOpen q t w

      failed-HandsOn :
          (message : String) (e : Option (ExitResult F)) (w : World F)
          → HandsOn (after_failure accepted r (some o) message e w)
      failed-HandsOn message none w = (o, refl, record { kept = refl; state = inl fresh_plan })
      failed-HandsOn message (some e) w = (o, refl, record { kept = refl; state = inl fresh_plan })

      call-HandsOn :
          (key : String) (reply : Reply (ExitResult F)) (w : World F)
          → HandsOn (after_exit_call accepted r a key (some o) reply w)
      call-HandsOn key (ok e) w = (
        record o { status = confirmed; tx_signature = some e.tx_signature; updated_at = r.now },
        refl,
        record { kept = refl; state = inr (put_operation-IsFinished _ w (inl refl)) },
      )
      call-HandsOn key (err message) w = failed-HandsOn message (probe_mined_exit accepted a key) w

      attempt-HandsOn :
          (key : String) (w : World F) → HandsOn (attempt_with_key accepted r a key (some o) w)
      attempt-HandsOn key w = elim (Bool-cases (is_below_gas_floor accepted r a.native_balance)) [
        | inl b ↦ rw b (o, refl, record { kept = refl; state = inl fresh_plan })
        | inr b ↦ rw b (call-HandsOn key a.exit_position w)
      ]

      run-HandsOn :
          (key : Option String) (w : World F)
          → HandsOn (run_live_exit_attempt accepted r a key (some o) w)
      unfolding run_live_exit_attempt
      run-HandsOn none w = (o, refl, record { kept = refl; state = inl fresh_plan })
      run-HandsOn (some key) w = elim (Bool-cases (str_eq key "")) [
        | inl b ↦ rw b (o, refl, record { kept = refl; state = inl fresh_plan })
        | inr b ↦ rw b (attempt-HandsOn key w)
      ]

      finish_with-IsFinished :
          (p : PositionRecord F) (t : ExitAttempt F) (exited : Bool) (w : World F)
          → IsFinished o.id w
          → IsFinished o.id (finish_with accepted fresh_id r (some p) t exited w).1
      unfolding settle_attempted_exit
      finish_with-IsFinished p t false w f = f
      finish_with-IsFinished p t true w f =
          IsFinished-same o.id w _
            (operations-settle_by r p w r.autonomous t.result r.token_x r.token_y) f

      finish-IsFinished :
          (p : PositionRecord F) (t : ExitAttempt F) (w : World F)
          → HandsOn (t, w)
          → IsFinished o.id (finish_exit accepted fresh_id r (some p) (t, w)).1
      unfolding sync_exit_operation_state
      finish-IsFinished p t w (q, same, s) =
          let f = sync_known-IsFinished t r.now q w s.state in
          finish_with-IsFinished p t t.exited _ (
            subst (λ i. IsFinished i (sync_known accepted t r.now t.operation w)) same
              (subst (λ x. IsFinished q.id (sync_known accepted t r.now x w)) (sym s.kept) f))

    module _ (r : ExitRequest F) (a : ExitAnswers F) (w : World F) where
      abbrev result_of :
          Option (PositionRecord F) → Option AutonomousContext → Option String → World F
      result_of p c mint =
          let plan = plan_by accepted r w c p mint in
          (exit_planned accepted fresh_id r a p plan.error plan).1

      result_of-IsFinished :
          (p : PositionRecord F) (c : AutonomousContext) (mint : String)
          → str_eq mint "" ≡ false
          → IsFinished r.operation_id (result_of (some p) (some c) (some mint))
      unfolding operation_record
      result_of-IsFinished p c mint named =
          let o =
            operation_record c r.operation_id r.candidate_id (some p.position_id) r.pool_address
              mint exit_operation r.now in
          let v = put_operation accepted o w in
          let t = run_live_exit_attempt accepted r a p.position_pub_key (some o) v in
          let plan : plan_by accepted r w (some c) (some p) (some mint)
              ≡ record { error = none; operation = some o; world = v } =
            rw (named, saved o) refl in
          subst (λ x. IsFinished o.id (exit_planned accepted fresh_id r a (some p) x.error x).1)
            (sym plan)
            (finish-IsFinished r a o refl p t.0 t.1 (run-HandsOn r a o refl p.position_pub_key v))

    -- When the rows of operations can be saved, an EXIT of an autonomous engine on a tracked position
    -- of a pool with a known token leaves the row of its operation confirmed or failed.
    pub execute_live_exit-IsFinished :
        (r : ExitRequest F) (a : ExitAnswers F) (position : Option String) (w : World F)
        (c : AutonomousContext) (p : PositionRecord F) (mint : String)
        → r.autonomous ≡ some c
        → resolve_target_position w.tracked position r.pool_address ≡ some p
        → r.token_x ≡ some mint
        → str_eq mint "" ≡ false
        → IsFinished r.operation_id (execute_live_exit accepted fresh_id r a position w).1
    unfolding execute_live_exit plan_live_exit_operation
    execute_live_exit-IsFinished r a position w c p mint hc hp hm named =
        let id = r.operation_id in
        subst (λ x. IsFinished id (result_of r a w x r.autonomous r.token_x)) (sym hp)
          (subst (λ x. IsFinished id (result_of r a w (some p) x r.token_x)) (sym hc)
            (subst (λ x. IsFinished id (result_of r a w (some p) (some c) x)) (sym hm)
              (result_of-IsFinished r a w p c mint named)))
