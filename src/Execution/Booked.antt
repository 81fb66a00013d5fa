-- ===== src/Execution/Booked.antt =====
-- Which parts of the state the bookkeeping of an exit of engine/program.ts leaves alone.
use beam_clmm.Prelude.{
  none, some, Bool, ℕ, String, Option, arith, List, ◌∙◌, ◌≡◌, Bool-cases, refl, is_empty, ◌or◌, inl,
  inr, ◌||◌,
}
use beam_clmm.Number.{Number, int, ◌>?◌}
use beam_clmm.Execution.{
  Write, put_row, put_claim, put_closed, put_outcome, put_event, World, FeeClaim, PositionEvent,
  exit_event,
}
use beam_clmm.Execution.Settle.{
  close_exited_position, record_exit_sweep_events, credit_swept_rewards, settle_unresolved_exit,
  credit_exit_sweep, warn_unpriced_exit, fee_event, record_outcome, realized_at_exit, credit_fee,
  credit_fee_of, sweep_claim, realized_of, untrack, withdrawn_of, event_of,
}
use beam_clmm.Tracking.{PositionRecord}
use beam_clmm.Execution.Exit.{ExitResult, SweptReward}

module _ {F : Type 0} ⦃n : Number F⦄ (accepted : Write F → Bool) (fresh_id : ℕ → String) where
  -- Same operations and same settlement jobs.
  pub record IsAside (w v : World F) : Type 0 where
    pub same_operations : v.operations ≡ w.operations
    pub same_jobs : v.jobs ≡ w.jobs

  pub aside : (w : World F) → IsAside w w
  aside w = record { same_operations = refl; same_jobs = refl }

  pub then-IsAside : (u v w : World F) → IsAside u v → IsAside v w → IsAside u w
  then-IsAside u v w a b = record {
    same_operations = b.same_operations ∙ a.same_operations;
    same_jobs = b.same_jobs ∙ a.same_jobs;
  }

  put_event-IsAside : (e : PositionEvent F) (w : World F) → IsAside w (put_event accepted e w)
  unfolding put_event
  put_event-IsAside e w = record { same_operations = ground arith; same_jobs = ground arith }

  put_claim-IsAside : (c : FeeClaim F) (w : World F) → IsAside w (put_claim accepted c w)
  unfolding put_claim
  put_claim-IsAside c w = record { same_operations = ground arith; same_jobs = ground arith }

  put_row-IsAside : (p : PositionRecord F) (w : World F) → IsAside w (put_row accepted p w)
  unfolding put_row
  put_row-IsAside p w = record { same_operations = ground arith; same_jobs = ground arith }

  put_closed-IsAside :
      (id : String) (realized : Option F) (now : ℕ) (w : World F)
      → IsAside w (put_closed accepted id realized now w)
  unfolding put_closed
  put_closed-IsAside id realized now w = record {
    same_operations = ground arith;
    same_jobs = ground arith;
  }

  put_outcome-IsAside :
      (snapshot : ℕ) (realized : F) (w : World F)
      → IsAside w (put_outcome accepted snapshot realized w)
  unfolding put_outcome
  put_outcome-IsAside snapshot realized w = record {
    same_operations = ground arith;
    same_jobs = ground arith;
  }

  record_outcome-IsAside :
      (snapshot : Option ℕ) (realized : Option F) (w : World F)
      → IsAside w (record_outcome accepted fresh_id snapshot realized w)
  record_outcome-IsAside (some s) (some x) w = put_outcome-IsAside s x w
  record_outcome-IsAside (some s) none w = aside w
  record_outcome-IsAside none x w = aside w

  warn-IsAside :
      (pool : String) (withdrawn : Option F) (w : World F)
      → IsAside w (warn_unpriced_exit accepted fresh_id pool withdrawn w)
  warn-IsAside pool (some x) w = aside w
  warn-IsAside pool none w = record { same_operations = ground arith; same_jobs = ground arith }

  fee_event-IsAside :
      (p : PositionRecord F) (pool : String) (fee : Option F) (w : World F)
      → IsAside w (fee_event accepted fresh_id p pool fee w)
  fee_event-IsAside p pool none w = aside w
  fee_event-IsAside p pool (some fee) w = put_event-IsAside _ w

  pub record_exit_sweep_events-IsAside :
      (p : PositionRecord F) (pool : String) (e : ExitResult F) (w : World F)
      → IsAside w (record_exit_sweep_events accepted fresh_id p pool e w)
  unfolding record_exit_sweep_events
  record_exit_sweep_events-IsAside p pool e w =
      let fee = fee_event-IsAside p pool e.pending_fee_usd w in
      elim (Bool-cases (is_empty e.swept_rewards)) [
        | inl b ↦ rw b fee
        | inr b ↦ rw b (then-IsAside w _ _ fee (put_event-IsAside _ _))
      ]

  pub close_exited_position-IsAside :
      (p : PositionRecord F) (pool : String) (e : ExitResult F) (pending now : ℕ) (w : World F)
      → IsAside w (close_exited_position accepted fresh_id p pool e pending now w)
  unfolding close_exited_position
  close_exited_position-IsAside p pool e pending now w =
      let realized = realized_at_exit accepted fresh_id p e.withdrawn_usd pending in
      let saved = put_row accepted p w in
      let closed = put_closed accepted p.position_id realized now saved in
      let left = untrack accepted fresh_id p.position_id closed in
      then-IsAside w saved _ (put_row-IsAside p w) (
        then-IsAside saved closed _ (put_closed-IsAside p.position_id realized now saved) (
          then-IsAside closed left _ (record { same_operations = refl; same_jobs = refl })
            (put_event-IsAside _ left)))

  sweep_claim-IsAside :
      (p : PositionRecord F) (pool : String) (fee : F) (e : ExitResult F) (key : Option String)
      (w : World F)
      → IsAside w (sweep_claim accepted fresh_id p pool fee e key w)
  sweep_claim-IsAside p pool fee e none w = aside w
  sweep_claim-IsAside p pool fee e (some key) w =
      let x = e.pending_fee_x or int 0 in
      let y = e.pending_fee_y or int 0 in
      elim (Bool-cases (x >? int 0 || y >? int 0)) [
        | inl b ↦ rw b (then-IsAside w _ _ (put_claim-IsAside _ w) (put_event-IsAside _ _))
        | inr b ↦ rw b (aside w)
      ]

  credit_fee-IsAside :
      (p : PositionRecord F) (pool : String) (e : ExitResult F) (fee : Option F) (w : World F)
      → IsAside w (credit_fee_of accepted fresh_id p pool e fee w).1
  credit_fee-IsAside p pool e none w = aside w
  credit_fee-IsAside p pool e (some fee) w = sweep_claim-IsAside p pool fee e p.position_pub_key w

  credit_swept_rewards-IsAside :
      (p : PositionRecord F) (pool : String) (rewards : List (SweptReward F)) (w : World F)
      → IsAside w (credit_swept_rewards accepted fresh_id p pool rewards w).1
  unfolding credit_swept_rewards
  credit_swept_rewards-IsAside p pool rewards w = elim (Bool-cases (is_empty rewards)) [
    | inl b ↦ rw b (aside w)
    | inr b ↦ rw b (put_event-IsAside _ w)
  ]

  credit_exit_sweep-IsAside :
      (p : PositionRecord F) (pool : String) (e : Option (ExitResult F)) (w : World F)
      → IsAside w (credit_exit_sweep accepted fresh_id p pool e w).1
  unfolding credit_exit_sweep
  credit_exit_sweep-IsAside p pool none w = aside w
  credit_exit_sweep-IsAside p pool (some e) w =
      let credited = credit_fee accepted fresh_id p pool e w in
      then-IsAside w credited.1 _ (credit_fee-IsAside p pool e e.pending_fee_usd w)
        (credit_swept_rewards-IsAside credited.0 pool e.swept_rewards credited.1)

  pub settle_unresolved_exit-IsAside :
      (now : ℕ) (p : PositionRecord F) (pool : String) (e : Option (ExitResult F)) (w : World F)
      → IsAside w (settle_unresolved_exit accepted fresh_id now p pool e w)
  unfolding settle_unresolved_exit
  settle_unresolved_exit-IsAside now p pool e w =
      let realized = realized_of accepted fresh_id p e in
      let credited = credit_exit_sweep accepted fresh_id p pool e w in
      let q = credited.0 in
      let saved = put_row accepted q credited.1 in
      let closed = put_closed accepted q.position_id realized now saved in
      let recorded = record_outcome accepted fresh_id q.entry_signal_snapshot_id realized closed in
      let withdrawn = withdrawn_of accepted fresh_id e in
      let told =
        put_event accepted
          (event_of accepted fresh_id q pool exit_event withdrawn
            (some q.cumulative_fees_claimed_usd))
          recorded in
      let warned = warn_unpriced_exit accepted fresh_id pool withdrawn told in
      then-IsAside w credited.1 _ (credit_exit_sweep-IsAside p pool e w) (
        then-IsAside credited.1 saved _ (put_row-IsAside q credited.1) (
          then-IsAside saved closed _ (put_closed-IsAside q.position_id realized now saved) (
            then-IsAside closed recorded _
              (record_outcome-IsAside q.entry_signal_snapshot_id realized closed)
              (then-IsAside recorded told _ (put_event-IsAside _ recorded) (
                then-IsAside told warned _ (warn-IsAside pool withdrawn told)
                  (record { same_operations = refl; same_jobs = refl }))))))
