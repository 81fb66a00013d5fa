-- ===== src/Settlement.antt =====
-- Settlement jobs of engine/autonomous-runtime.ts and engine/types.ts: a token amount left by an exit
-- or a failed entry, to be swapped into ETH. Amounts that the source keeps as decimal strings are
-- integers; times are whole milliseconds. The two tests that match an error's text against a regular
-- expression are parameters.
pub mod Step
pub mod Swap
pub mod Laws
pub mod Sends
pub mod Pass
pub mod Pause
pub mod Sweep
pub mod Orphans
pub mod Baseline
pub mod Closing
use beam_clmm.Prelude.{
  ℕ, ◌+◌, ◌*◌, ◌-◌, ◌^◌, Bool, true, false, Option, some, none, String, if◌then◌else◌, not, ◌&&◌,
  leb, ◌||◌,
}
use Prim.Native.Nat.{min as min_nat}
use beam_clmm.Prelude.Int.{ℤ}

pub data JobStatus : Type 0 where
  pending prepared submitted confirmed retryable terminal : JobStatus

-- `destinationAsset` is always "ETH".
pub record SettlementJob (F : Type 0) : Type 0 where
  pub id : String
  pub wallet_address : String
  pub agent_instance_id : String
  pub position_id : String
  pub pool_address : String
  pub token_mint : String
  pub amount_atomic : ℤ
  pub status : JobStatus
  pub attempts : ℕ
  pub next_retry_at : Option ℕ
  pub tx_signature : Option String
  pub confirmed_output_atomic : Option ℤ
  pub output_usd : Option F
  pub execution_cost_usd : Option F
  pub finalized_at : Option ℕ
  pub realized_pnl_usd : Option F
  pub expires_at : ℕ
  pub error : Option String
  pub created_at : ℕ
  pub updated_at : ℕ

-- The state of a transaction that was sent.
pub data SwapState : Type 0 where
  not_found processed confirmed finalized failed : SwapState

pub record SwapEvidence : Type 0 where
  pub output_atomic : ℤ
  pub fee_atomic : ℤ

-- What an effect of the adapter or of the database ends with.
pub data Reply (A : Type 0) : Type 0 where
  ok : A → Reply A
  err : String → Reply A

-- How `submitSwap` ends: before the broadcast, after it (the callback has the signature by then), or
-- with a mined transaction.
pub data Submission : Type 0 where
  unsent : String → Submission
  broken_off : String → String → Submission
  mined : String → Submission

-- What the adapter and the database answer while one job is processed, call by call. An optional
-- operation that the adapter lacks is `none`; the four swap operations are there together or not.
pub record Answers (F : Type 0) : Type 0 where
  pub swap_status : Option (String → Reply SwapState)
  pub confirmed_output : Option (String → Reply (Option SwapEvidence))
  pub token_prices : Reply (String → Option F)
  pub token_decimals : String → Reply ℕ
  pub has_swap_operations : Bool
  pub quote_swap : Reply (Unit {0})
  pub prepare_swap : Reply (Unit {0})
  pub simulate_swap : Reply (Unit {0})
  pub native_before : Reply ℤ
  pub save_prepared : Reply (Unit {0})
  pub submit_swap : Submission
  pub native_after : Reply ℤ
  pub save_result : Bool

abbrev pub retry_delay_ms : ℕ → ℕ
retry_delay_ms attempts = min_nat (2 ^ min_nat (attempts - 1) 30 * 1_000) 300_000

-- `Math.max(0, attempts - 1)` is the truncated difference.
unfoldable pub next_settlement_retry_at : ℕ → ℕ → ℕ
next_settlement_retry_at now attempts = now + retry_delay_ms attempts

module _ {F : Type 0} (is_transient is_unrecoverable : String → Bool) where
  -- `retryableJob`: a transient error is retried without end; any other is terminal at once if it is
  -- known to be hopeless, and otherwise when the job has expired.
  unfoldable pub retryable_job : SettlementJob F → ℕ → String → SettlementJob F
  retryable_job job now message =
      let transient = is_transient message in
      let unrecoverable = not transient && is_unrecoverable message in
      let expired = not transient && (not unrecoverable && leb job.expires_at now) in
      let attempts = job.attempts + 1 in
      let final = expired || unrecoverable in
      record job {
        status = if final then terminal else retryable;
        attempts = attempts;
        next_retry_at = if final then none else some (next_settlement_retry_at now attempts);
        error = some message;
        updated_at = now;
      }

module _ {F : Type 0} where
  unfoldable pub reconciliation_job : SettlementJob F → ℕ → String → SettlementJob F
  reconciliation_job job now message = record job {
    status = prepared;
    attempts = job.attempts + 1;
    next_retry_at = none;
    error = some message;
    updated_at = now;
  }
