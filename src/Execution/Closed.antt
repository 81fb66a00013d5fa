-- ===== src/Execution/Closed.antt =====
-- What a successful EXIT of engine/program.ts does to the tracked positions, and the case in which
-- nothing shows that the position was left.
use mathlib.Core.Path.{subst}
use beam_clmm.Prelude.{
  none, some, Bool, ℕ, String, StringMap, Option, map_get, map_remove, str_eq, ◌≡◌, false, arith,
  ap, refl, true, Bool-cases, str_eq_iff, sym, ◌∙◌, is_empty, map_get-remove, inl, length, inr, any,
  if◌then◌else◌,
}
use beam_clmm.Number.{Number}
use beam_clmm.Execution.{Write, put_event, PositionEvent, World, AutonomousContext}
use beam_clmm.Execution.Exit.{
  ExitRequest, ExitResult, ExitAnswers, Plan, ExitAttempt, run_live_exit_attempt,
  is_below_gas_floor, plan_live_exit_operation, probe_mined_exit, mined_exit, probe_with,
  after_exit_call, after_failure, read_or_empty, sync_exit_operation_state, plan_by,
}
use beam_clmm.Execution.Settle.{
  settle_unresolved_exit, close_exited_position, credit_exit_sweep, credit_swept_rewards,
  credit_fee_of, attributable, record_jobs,
}
use beam_clmm.Tracking.{PositionRecord, resolve_target_position}
use beam_clmm.Execution.Live.{
  execute_live_exit, settle_with_jobs, settle_attempted_exit, exit_planned, finish_with, settle_by,
  finish_exit,
}
use beam_clmm.Settlement.{err}
use beam_clmm.Tracking.Reconcile.{has_pub_key}

module _ {F : Type 0} ⦃n : Number F⦄ (accepted : Write F → Bool) (fresh_id : ℕ → String) where
  tracked-put_event :
      (e : PositionEvent F) (w : World F) → (put_event accepted e w).tracked ≡ w.tracked
  unfolding put_event
  tracked-put_event e w = ground arith

  removed_none :
      (id : String) (m : StringMap (PositionRecord F)) → map_get id (map_remove id m) ≡ none
  removed_none id m = let same = (str_eq_iff id id).1 refl in rw same at (map_get-remove id id m)

  close_exited_position_untracked :
      (p : PositionRecord F) (pool : String) (e : ExitResult F) (pending now : ℕ) (w : World F)
      → map_get p.position_id
          (close_exited_position accepted fresh_id p pool e pending now w).tracked
        ≡ none
  unfolding close_exited_position
  close_exited_position_untracked p pool e pending now w =
      ap (map_get p.position_id) (tracked-put_event _ _) ∙ removed_none p.position_id _

  credit_fee_same_id :
      (p : PositionRecord F) (pool : String) (e : ExitResult F) (fee : Option F) (w : World F)
      → (credit_fee_of accepted fresh_id p pool e fee w).0.position_id ≡ p.position_id
  credit_fee_same_id p pool e none w = refl
  credit_fee_same_id p pool e (some fee) w = refl

  credit_exit_sweep_same_id :
      (p : PositionRecord F) (pool : String) (e : Option (ExitResult F)) (w : World F)
      → (credit_exit_sweep accepted fresh_id p pool e w).0.position_id ≡ p.position_id
  unfolding credit_exit_sweep credit_swept_rewards
  credit_exit_sweep_same_id p pool none w = refl
  credit_exit_sweep_same_id p pool (some e) w = elim (Bool-cases (is_empty e.swept_rewards)) [
    | inl b ↦ rw b (credit_fee_same_id p pool e e.pending_fee_usd w)
    | inr b ↦ rw b (credit_fee_same_id p pool e e.pending_fee_usd w)
  ]

  settle_unresolved_exit_untracked :
      (now : ℕ) (p : PositionRecord F) (pool : String) (e : Option (ExitResult F)) (w : World F)
      → map_get p.position_id (settle_unresolved_exit accepted fresh_id now p pool e w).tracked
        ≡ none
  unfolding settle_unresolved_exit
  settle_unresolved_exit_untracked now p pool e w =
      ap (λ id. map_get id (settle_unresolved_exit accepted fresh_id now p pool e w).tracked)
        (sym (credit_exit_sweep_same_id p pool e w))
      ∙ removed_none (credit_exit_sweep accepted fresh_id p pool e w).0.position_id _

  module _ (r : ExitRequest F) (a : ExitAnswers F) (p : PositionRecord F) where
    settle_by_untracked :
        (w : World F) (c : Option AutonomousContext) (e : Option (ExitResult F))
        (x y : Option String)
        → (settle_by accepted fresh_id r p w c e x y).0.executed ≡ true
        → map_get p.position_id (settle_by accepted fresh_id r p w c e x y).1.tracked ≡ none
    unfolding settle_with_jobs
    settle_by_untracked w (some c) (some e) (some x) (some y) h =
        let items = attributable x y e in
        let saved = record_jobs accepted fresh_id c p.position_id r.pool_address r.now items 0 w in
        elim (Bool-cases saved.0) [
          | inl b ↦ rw b (close_exited_position_untracked p r.pool_address e (length items) r.now _)
          | inr b ↦ let t : false ≡ true = rw b at h in cc
        ]
    settle_by_untracked w none e x y h = settle_unresolved_exit_untracked r.now p r.pool_address e w
    settle_by_untracked w (some c) none x y h =
        settle_unresolved_exit_untracked r.now p r.pool_address none w
    settle_by_untracked w (some c) (some e) none y h =
        settle_unresolved_exit_untracked r.now p r.pool_address (some e) w
    settle_by_untracked w (some c) (some e) (some x) none h =
        settle_unresolved_exit_untracked r.now p r.pool_address (some e) w

    finish_with_untracked :
        (t : ExitAttempt F) (exited : Bool) (w : World F)
        → (finish_with accepted fresh_id r (some p) t exited w).0.executed ≡ true
        → map_get p.position_id (finish_with accepted fresh_id r (some p) t exited w).1.tracked
          ≡ none
    unfolding settle_attempted_exit
    finish_with_untracked t true w h =
        settle_by_untracked w r.autonomous t.result r.token_x r.token_y h
    finish_with_untracked t false w h = cc

    exit_planned_untracked :
        (error : Option String) (plan : Plan F)
        → (exit_planned accepted fresh_id r a (some p) error plan).0.executed ≡ true
        → map_get p.position_id (exit_planned accepted fresh_id r a (some p) error plan).1.tracked
          ≡ none
    exit_planned_untracked (some message) plan h = cc
    exit_planned_untracked none plan h =
        let t = run_live_exit_attempt accepted r a p.position_pub_key plan.operation plan.world in
        finish_with_untracked t.0 t.0.exited _ h

    -- An EXIT that reports success has taken its position out of the tracked ones.
    pub execute_live_exit_untracked :
        (position : Option String) (w : World F)
        → resolve_target_position w.tracked position r.pool_address ≡ some p
        → (execute_live_exit accepted fresh_id r a position w).0.executed ≡ true
        → map_get p.position_id (execute_live_exit accepted fresh_id r a position w).1.tracked
          ≡ none
    unfolding execute_live_exit
    execute_live_exit_untracked position w found h =
        let plan = plan_live_exit_operation accepted r (some p) w in
        let h2 = rw found at h in rw found (exit_planned_untracked plan.error plan h2)

    module _ (key : String) (named : str_eq key "" ≡ false)
        (funded : is_below_gas_floor accepted r a.native_balance ≡ false) where
      unread_probe :
          (wallet : String)
          → a.wallet_address ≡ some wallet
          → a.wallet_positions ≡ none
          → probe_mined_exit accepted a key ≡ some (mined_exit accepted)
      unfolding probe_mined_exit any
      unread_probe wallet h u =
          ap (probe_with accepted a key) h
          ∙ ap
              (λ x.
                if any (has_pub_key key) (read_or_empty accepted x)
                then none
                else some (mined_exit accepted))
              u

      unread_exited :
          (message : String)
          → a.exit_position ≡ err message
          → probe_mined_exit accepted a key ≡ some (mined_exit accepted)
          → (w : World F) → (run_live_exit_attempt accepted r a (some key) none w).0.exited ≡ true
      unfolding run_live_exit_attempt
      unread_exited message call probe w =
          rw (named, funded)
            (ap (λ x. (after_exit_call accepted r a key none x w).0.exited) call
              ∙ ap (λ x. (after_failure accepted r none message x w).0.exited) probe)

    finish_with_executed :
        (t : ExitAttempt F) (w : World F)
        → r.autonomous ≡ none
        → (finish_with accepted fresh_id r (some p) t true w).0.executed ≡ true
    unfolding settle_attempted_exit
    finish_with_executed t w h =
        ap (λ c. (settle_by accepted fresh_id r p w c t.result r.token_x r.token_y).0.executed) h

    unread_executed :
        (position : Option String) (w : World F) (key : String)
        → resolve_target_position w.tracked position r.pool_address ≡ some p
        → p.position_pub_key ≡ some key
        → r.autonomous ≡ none
        → (run_live_exit_attempt accepted r a (some key) none w).0.exited ≡ true
        → (execute_live_exit accepted fresh_id r a position w).0.executed ≡ true
    unfolding execute_live_exit plan_live_exit_operation
    unread_executed position w key found k auto gone =
        let t = run_live_exit_attempt accepted r a (some key) none w in
        let v = sync_exit_operation_state accepted t.0 r.now t.1 in
        let finished =
          subst (λ b. (finish_with accepted fresh_id r (some p) t.0 b v).0.executed ≡ true)
            (sym gone) (finish_with_executed t.0 v auto) in
        let keyed =
          subst
            (λ x.
              (finish_exit accepted fresh_id r (some p)
                (run_live_exit_attempt accepted r a x none w)).0.executed
              ≡ true)
            (sym k) finished in
        let planned =
          subst
            (λ c.
              (exit_planned accepted fresh_id r a (some p)
                (plan_by accepted r w c (some p) r.token_x).error
                (plan_by accepted r w c (some p) r.token_x)).0.executed
              ≡ true)
            (sym auto) keyed in
        subst
          (λ x.
            (exit_planned accepted fresh_id r a x
              (plan_by accepted r w r.autonomous x r.token_x).error
              (plan_by accepted r w r.autonomous x r.token_x)).0.executed
            ≡ true)
          (sym found) planned

    -- An EXIT whose call fails, when the wallet's positions cannot be read either, reports success and
    -- drops the position, which nothing shows to be left: for a funded wallet, a position with a key,
    -- and an engine that is not autonomous.
    pub execute_live_exit_unread :
        (position : Option String) (w : World F) (key message wallet : String)
        → resolve_target_position w.tracked position r.pool_address ≡ some p
        → p.position_pub_key ≡ some key
        → str_eq key "" ≡ false
        → is_below_gas_floor accepted r a.native_balance ≡ false
        → r.autonomous ≡ none
        → a.exit_position ≡ err message
        → a.wallet_address ≡ some wallet
        → a.wallet_positions ≡ none
        → ((execute_live_exit accepted fresh_id r a position w).0.executed ≡ true)
          × (map_get p.position_id (execute_live_exit accepted fresh_id r a position w).1.tracked
              ≡ none)
    execute_live_exit_unread position w key message wallet found k named funded auto call h u =
        let probe = unread_probe key named funded wallet h u in
        let gone = unread_exited key named funded message call probe w in
        let done = unread_executed position w key found k auto gone in
        (done, execute_live_exit_untracked position w found done)
