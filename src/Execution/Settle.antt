-- ===== src/Execution/Settle.antt =====
-- The bookkeeping of an exit, of engine/program.ts: recordExitSettlements, recordExitSweepEvents,
-- closeExitedPosition, creditSweptRewards, creditExitSweep, settleUnresolvedExit and
-- settleAttemptedExit, and the EXIT branch of executeLive.
use beam_clmm.Prelude.{
  [], ◌∷◌, none, some, ℕ, String, List, Option, if◌then◌else◌, ◌++◌, Bool, str_eq, ltb, ◌or◌, true,
  map_remove, ◌+◌, ◌||◌, is_empty, not, false, any,
}
use beam_clmm.Number.{Number, ◌≟◌, ◌⊕◌, int, ◌>?◌}
use beam_clmm.Execution.Exit.{SweptReward, ExitResult}
use beam_clmm.Execution.{
  AutonomousContext, Write, World, EventType, put_event, PositionEvent, claim_event, put_job,
  exit_event, put_closed, put_claim, save_job, put_row, put_pause, put_outcome,
}
use beam_clmm.Prelude.Int.{ℤ, ltb_ℤ, pos}
use beam_clmm.Settlement.Pause.{SafetyPause}
use beam_clmm.Settlement.{SettlementJob, JobStatus}
use beam_clmm.Tracking.{PositionRecord}
use beam_clmm.Settlement.Pass.{compute_realized_pnl_usd}

-- An amount of a token that an exit returned to the wallet.
pub record Returned : Type 0 where
  pub mint : String
  pub amount_atomic : ℤ

abbrev pub returned_amount : String → Option ℤ → List Returned
returned_amount mint none = []
returned_amount mint (some amount) =
    if ltb_ℤ (pos 0) amount then record { mint = mint; amount_atomic = amount } ∷ [] else []

abbrev pub persistence_pause : ℕ → SafetyPause
persistence_pause now = record {
  reason = "settlement_persistence_failed";
  triggered_at = now;
  resolved_at = none;
}

module _ {F : Type 0} where
  unfoldable pub returned_rewards : List (SweptReward F) → List Returned
  returned_rewards [] = []
  returned_rewards (r ∷ rs) =
      if str_eq r.mint "unknown"
      then returned_rewards rs
      else returned_amount r.mint r.amount_atomic ++ returned_rewards rs

  unfoldable pub attributable : String → String → ExitResult F → List Returned
  attributable token_x token_y e =
      returned_amount token_x e.withdrawn_x
      ++ returned_amount token_y e.withdrawn_y
      ++ returned_rewards e.swept_rewards

  -- The job of the `i`-th amount.
  unfoldable pub exit_job :
      (ℕ → String) → AutonomousContext → String → String → ℕ → Returned → ℕ → SettlementJob F
  exit_job fresh_id context position pool now item i = record {
    id = fresh_id i;
    wallet_address = context.wallet_address;
    agent_instance_id = context.agent_instance_id;
    position_id = position;
    pool_address = pool;
    token_mint = item.mint;
    amount_atomic = item.amount_atomic;
    status = JobStatus.pending;
    attempts = 0;
    next_retry_at = some now;
    tx_signature = none;
    confirmed_output_atomic = none;
    output_usd = none;
    execution_cost_usd = none;
    finalized_at = none;
    realized_pnl_usd = none;
    expires_at = now + context.settlement_max_pending_ms;
    error = none;
    created_at = now;
    updated_at = now;
  }

module _ {F : Type 0} ⦃n : Number F⦄ (accepted : Write F → Bool) (fresh_id : ℕ → String) where
  -- The jobs are saved one by one; the first that fails raises a pause and ends the loop. The result
  -- says whether all were saved.
  unfoldable pub record_jobs :
      AutonomousContext → String → String → ℕ → List Returned → ℕ → World F → Bool × World F
  record_jobs context position pool now [] i w = (true, w)
  record_jobs context position pool now (item ∷ items) i w =
      let job = exit_job fresh_id context position pool now item i in
      let rest = record_jobs context position pool now items (i + 1) (put_job accepted job w) in
      if accepted (save_job job)
      then rest
      else (false, put_pause accepted (persistence_pause now) w)

  abbrev pub event_of :
      PositionRecord F → String → EventType → Option F → Option F → PositionEvent F
  event_of p pool type value fees = record {
    position_id = p.position_id;
    pool_address = pool;
    event = type;
    value_usd = value;
    fees_usd = fees;
  }

  abbrev pub sum_usd : F → List (SweptReward F) → F
  sum_usd sum [] = sum
  sum_usd sum (r ∷ rs) = sum_usd (sum ⊕ (r.amount_usd or int 0)) rs

  -- `x || null`, where NaN is as false as 0.
  abbrev pub nonzero : F → Option F
  nonzero x = if x ≟ int 0 || not (x ≟ x) then none else some x

  abbrev pub fee_event : PositionRecord F → String → Option F → World F → World F
  fee_event p pool none w = w
  fee_event p pool (some fee) w = put_event accepted (event_of p pool claim_event none (some fee)) w

  unfoldable pub record_exit_sweep_events :
      PositionRecord F → String → ExitResult F → World F → World F
  record_exit_sweep_events p pool e w =
      let after_fee = fee_event p pool e.pending_fee_usd w in
      if is_empty e.swept_rewards
      then after_fee
      else put_event accepted
          (event_of p pool claim_event (nonzero (sum_usd (int 0) e.swept_rewards)) none) after_fee

  abbrev pub untrack : String → World F → World F
  untrack id w = record w { tracked = map_remove id w.tracked }

  -- With amounts still to be settled, or without a price, the profit is not known yet.
  unfoldable pub realized_at_exit : PositionRecord F → Option F → ℕ → Option F
  realized_at_exit p none pending = none
  realized_at_exit p (some withdrawn) pending =
      if ltb 0 pending
      then none
      else some (
          compute_realized_pnl_usd withdrawn p.cumulative_fees_claimed_usd p.deposited_usd
            p.cumulative_rewards_claimed_usd)

  unfoldable pub close_exited_position :
      PositionRecord F → String → ExitResult F → ℕ → ℕ → World F → World F
  close_exited_position p pool e pending now w =
      let realized = realized_at_exit p e.withdrawn_usd pending in
      put_event accepted
        (event_of p pool exit_event e.withdrawn_usd (some p.cumulative_fees_claimed_usd))
        (untrack p.position_id
          (put_closed accepted p.position_id realized now (put_row accepted p w)))

  -- The rewards whose value is known are added to the record, one by one.
  abbrev pub add_rewards : List (SweptReward F) → F → F
  add_rewards [] sum = sum
  add_rewards (r ∷ rs) sum =
      add_rewards rs (elim r.amount_usd [ none ↦ sum | some usd ↦ sum ⊕ usd ])

  unfoldable pub credit_swept_rewards :
      PositionRecord F → String → List (SweptReward F) → World F → PositionRecord F × World F
  credit_swept_rewards p pool rewards w =
      let priced = add_rewards rewards (int 0) in
      let credited = record p {
        cumulative_rewards_claimed_usd = add_rewards rewards p.cumulative_rewards_claimed_usd;
      } in
      if is_empty rewards then (credited, w) else (
        credited,
        put_event accepted
            (event_of p pool claim_event (if priced >? int 0 then some priced else none) none) w,
      )

  abbrev pub sweep_claim :
      PositionRecord F → String → F → ExitResult F → Option String → World F → World F
  sweep_claim p pool fee e none w = w
  sweep_claim p pool fee e (some key) w =
      let x = e.pending_fee_x or int 0 in
      let y = e.pending_fee_y or int 0 in
      if x >? int 0 || y >? int 0
      then put_event accepted (event_of p pool claim_event none (some fee)) (
          put_claim accepted
            (record { pool_address = pool; position_pub_key = key; fee_x = x; fee_y = y }) w)
      else w

  abbrev pub credit_fee_of :
      PositionRecord F → String → ExitResult F → Option F → World F → PositionRecord F × World F
  credit_fee_of p pool e none w = (p, w)
  credit_fee_of p pool e (some fee) w = (
    record p { cumulative_fees_claimed_usd = p.cumulative_fees_claimed_usd ⊕ fee },
    sweep_claim p pool fee e p.position_pub_key w,
  )

  abbrev pub credit_fee :
      PositionRecord F → String → ExitResult F → World F → PositionRecord F × World F
  credit_fee p pool e w = credit_fee_of p pool e e.pending_fee_usd w

  -- An exit without a result has nothing to credit.
  unfoldable pub credit_exit_sweep :
      PositionRecord F → String → Option (ExitResult F) → World F → PositionRecord F × World F
  credit_exit_sweep p pool none w = (p, w)
  credit_exit_sweep p pool (some e) w =
      let credited = credit_fee p pool e w in
      credit_swept_rewards credited.0 pool e.swept_rewards credited.1

  -- The prices of the rewards, summed before anything is credited.
  unfoldable pub realized_of : PositionRecord F → Option (ExitResult F) → Option F
  realized_of p none = none
  realized_of p (some e) = elim e.withdrawn_usd [
    | none ↦ none
    | some withdrawn ↦ some (
        compute_realized_pnl_usd withdrawn p.cumulative_fees_claimed_usd p.deposited_usd
          (p.cumulative_rewards_claimed_usd ⊕ add_rewards e.swept_rewards (int 0)))
  ]

  abbrev pub record_outcome : Option ℕ → Option F → World F → World F
  record_outcome (some snapshot) (some realized) w = put_outcome accepted snapshot realized w
  record_outcome snapshot realized w = w

  abbrev pub withdrawn_of : Option (ExitResult F) → Option F
  withdrawn_of none = none
  withdrawn_of (some e) = e.withdrawn_usd

  -- A pool is named once, when one of its positions is left without a price.
  abbrev pub warn_unpriced_exit : String → Option F → World F → World F
  warn_unpriced_exit pool (some withdrawn) w = w
  warn_unpriced_exit pool none w =
      if any (str_eq pool) w.unpriced_warned
      then w
      else record w { unpriced_warned = pool ∷ w.unpriced_warned }

  -- The profit is computed from the record as it was; what the exit swept is credited after that, and
  -- the row is closed after the credited record is saved.
  unfoldable pub settle_unresolved_exit :
      ℕ → PositionRecord F → String → Option (ExitResult F) → World F → World F
  settle_unresolved_exit now p pool e w =
      let realized = realized_of p e in
      let credited = credit_exit_sweep p pool e w in
      let q = credited.0 in
      let closed = put_closed accepted q.position_id realized now (put_row accepted q credited.1) in
      untrack q.position_id (
        warn_unpriced_exit pool (withdrawn_of e) (
          put_event accepted
            (event_of q pool exit_event (withdrawn_of e) (some q.cumulative_fees_claimed_usd))
            (record_outcome q.entry_signal_snapshot_id realized closed)))
