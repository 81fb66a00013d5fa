-- ===== src/Settlement/Pause.antt =====
-- The wallet's safety pause in engine/autonomous-runtime.ts: what it blocks, when it is armed, when it
-- is lifted by itself, and how long a settlement waits. Counts and times are naturals.
use Prim.Native.Nat.{max as max_nat}
use beam_clmm.Prelude.{
  Bool, true, false, Option, some, none, String, ℕ, ◌≡◌, ◌≢◌, ◌↔◌, ◌⊎◌, arith, List, [], ◌∷◌,
  filter, if◌then◌else◌, ◌&&◌, ◌||◌, not, leb, ltb, is_none, ◌==◌, Bool-cases, ◌-◌, inl, inr,
}
use beam_clmm.Number.{Number, int, ◌>?◌, ◌≥?◌, ◌≤?◌, ◌<?◌}
use beam_clmm.Number.Order.{IsOrdered, not_le_of_lt, not_lt_of_le}
use beam_clmm.Risk.{ActionType, hold, rebalance, exit, enter}
use beam_clmm.Settlement.{SettlementJob}
use beam_clmm.Settlement.Laws.{is_terminal}
use beam_clmm.Settlement.Pass.{AutonomousMode, shadow, is_confirmed}

pub record SafetyPause : Type 0 where
  pub reason : String
  pub triggered_at : ℕ
  pub resolved_at : Option ℕ

pub data SafetyPauseReason : Type 0 where
  daily_drawdown core_data_unavailable execution_failures settlement_overdue : SafetyPauseReason

pub record SafetyPauseThresholdInput (F : Type 0) : Type 0 where
  pub daily_drawdown_pct : F
  pub max_daily_drawdown_pct : F
  pub consecutive_core_data_failures : ℕ
  pub consecutive_execution_failures : ℕ
  pub max_consecutive_execution_failures : ℕ
  pub oldest_settlement_age_ms : ℕ
  pub settlement_max_pending_ms : ℕ

abbrev pub is_action_allowed_during_safety_pause : ActionType → Bool
is_action_allowed_during_safety_pause exit = true
is_action_allowed_during_safety_pause hold = true
is_action_allowed_during_safety_pause rebalance = false
is_action_allowed_during_safety_pause enter = false

abbrev is_shadow : Option AutonomousMode → Bool
is_shadow (some shadow) = true
is_shadow _ = false

abbrev pub is_active_pause : Option SafetyPause → Bool
is_active_pause none = false
is_active_pause (some pause) = is_none pause.resolved_at

-- The message carries the reason of the pause.
unfoldable pub safety_pause_block_reason :
    Option AutonomousMode → Option SafetyPause → ActionType → Option String
safety_pause_block_reason mode pause action =
    if is_shadow mode
    then none
    else if not (is_active_pause pause)
    then none
    else if is_action_allowed_during_safety_pause action
    then none
    else elim pause [ none ↦ none | some p ↦ some p.reason ]

-- A decision is blocked exactly where the mode is not shadow, the pause is not resolved, and the
-- decision would put capital at work: EXIT and HOLD always pass.
safety_pause_block_reason_iff :
    (mode : Option AutonomousMode) (pause : Option SafetyPause) (action : ActionType)
    → (is_none (safety_pause_block_reason mode pause action) ≡ false) ↔ (
        (mode ≢ some shadow)
        × (is_active_pause pause ≡ true)
        × ((action ≡ rebalance) ⊎ (action ≡ enter)))
unfolding safety_pause_block_reason
safety_pause_block_reason_iff mode pause action = (λ h. ground arith, λ v. ground arith)

unfoldable pub decay_execution_failure_counter : ℕ → ℕ → ℕ
decay_execution_failure_counter consecutive this_cycle = if this_cycle == 0 then 0 else consecutive

abbrev pub is_open_job : {F : Type 0} → SettlementJob F → Bool
is_open_job job = not (is_confirmed job.status) && not (is_terminal job.status)

-- `reduce((oldest, job) => max(oldest, now - job.createdAt), oldest)` over the open jobs; an age that
-- would be negative does not count.
abbrev oldest_from : {F : Type 0} → ℕ → ℕ → List (SettlementJob F) → ℕ
oldest_from oldest now [] = oldest
oldest_from oldest now (job ∷ jobs) = oldest_from (max_nat oldest (now - job.created_at)) now jobs

unfoldable pub oldest_active_settlement_age_ms : {F : Type 0} → List (SettlementJob F) → ℕ → ℕ
oldest_active_settlement_age_ms jobs now = oldest_from 0 now (filter is_open_job jobs)

module _ {F : Type 0} ⦃n : Number F⦄ where
  unfoldable pub should_trigger_safety_pause :
      SafetyPauseThresholdInput F → Option SafetyPauseReason
  should_trigger_safety_pause i =
      if (i.max_daily_drawdown_pct >? int 0) && (i.daily_drawdown_pct ≥? i.max_daily_drawdown_pct)
      then some daily_drawdown
      else if leb 2 i.consecutive_core_data_failures
      then some core_data_unavailable
      else if ltb 0 i.max_consecutive_execution_failures
          && leb i.max_consecutive_execution_failures i.consecutive_execution_failures
      then some execution_failures
      else if ltb i.settlement_max_pending_ms i.oldest_settlement_age_ms
      then some settlement_overdue
      else none

  -- The caller gives both functions the figures that it arms the pause by.
  unfoldable pub should_auto_resolve_execution_failures_pause :
      AutonomousMode → SafetyPauseThresholdInput F → Bool
  should_auto_resolve_execution_failures_pause mode i =
      if i.max_consecutive_execution_failures == 0 then true else elim mode [
        | AutonomousMode.shadow ↦ true
        | _ ↦ ltb i.consecutive_execution_failures i.max_consecutive_execution_failures
      ]

  unfoldable pub should_auto_resolve_daily_drawdown_pause :
      AutonomousMode → SafetyPauseThresholdInput F → Bool → Bool
  should_auto_resolve_daily_drawdown_pause mode i day_rolled_over =
      if i.max_daily_drawdown_pct ≤? int 0 then true else elim mode [
        | AutonomousMode.shadow ↦ true
        | AutonomousMode.canary ↦
            day_rolled_over || (i.daily_drawdown_pct <? i.max_daily_drawdown_pct)
        | AutonomousMode.live ↦ i.daily_drawdown_pct <? i.max_daily_drawdown_pct
        | AutonomousMode.off ↦ i.daily_drawdown_pct <? i.max_daily_drawdown_pct
      ]

  -- Outside shadow mode, a pause for execution failures that lifts itself is not armed again for them
  -- by the same figures; and where it is not lifted, they still are a reason to pause.
  pub execution_failures_no_toggle :
      (mode : AutonomousMode) (i : SafetyPauseThresholdInput F)
      → mode ≢ shadow
      → (should_auto_resolve_execution_failures_pause mode i ≡ true
          × (should_trigger_safety_pause i ≢ some execution_failures))
        ⊎ (should_auto_resolve_execution_failures_pause mode i ≡ false
            × (should_trigger_safety_pause i ≢ none))
  unfolding should_auto_resolve_execution_failures_pause should_trigger_safety_pause
  execution_failures_no_toggle mode i h =
      elim (Bool-cases (should_auto_resolve_execution_failures_pause mode i)) [
        | inl e ↦ inl (e, λ t. ground arith)
        | inr e ↦ inr (e, λ t. ground arith)
      ]

  module _ (laws : IsOrdered F) where
    -- In live mode, a pause for the daily drawdown that lifts itself is not armed again for it by the
    -- same figures.
    pub daily_drawdown_no_toggle :
        (i : SafetyPauseThresholdInput F) (rolled : Bool)
        → should_auto_resolve_daily_drawdown_pause AutonomousMode.live i rolled ≡ true
        → should_trigger_safety_pause i ≢ some daily_drawdown
    unfolding should_auto_resolve_daily_drawdown_pause should_trigger_safety_pause
    daily_drawdown_no_toggle i rolled h e = ground (
      arith,
      not_le_of_lt laws i.daily_drawdown_pct i.max_daily_drawdown_pct,
      not_lt_of_le laws i.max_daily_drawdown_pct (int 0),
    )
