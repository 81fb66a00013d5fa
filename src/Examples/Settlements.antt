-- ===== src/Examples/Settlements.antt =====
-- Settlement jobs at concrete inputs.
use beam_clmm.Prelude.{
  some, none, true, false, [], ◌∷◌, refl, String, Member, Bool, ◌≡◌, Option, first, arith, any,
  filter, all, if◌then◌else◌, str_eq, ◌≢◌,
}
use beam_clmm.Prelude.Int.{pos, ◌*ℤ◌, quot, ◌+ℤ◌, ◌-ℤ◌}
use beam_clmm.Examples.Data.{num}
use beam_clmm.Number.Fixed.{Fixed, fixed_number}
use beam_clmm.Settlement.{SettlementJob, Answers, JobStatus, Submission, SwapState, ok}
use beam_clmm.Settlement.Step.{SettlementInput, is_stranded, check_sent, atomic_usd}
use beam_clmm.Settlement.Sweep.{
  SweepInput, Holding, queue, sweep_orphan_settlements, queue_orphans, position_mints,
}
use beam_clmm.Settlement.Closing.{
  IsClosed, process_settlement_jobs-IsClosed, process_settlement_jobs-unsaved,
}
use beam_clmm.Settlement.Pass.{
  process_settlement_jobs, AutonomousMode, StoredPosition, close_groups, positions_of, process_jobs,
  compute_net_realized_pnl_usd, compute_realized_pnl_usd,
}
use beam_clmm.Settlement.Laws.{Follows, process_job-Follows}
use beam_clmm.Settlement.Swap.{process_job, attempt, settle_fresh, settle_valued}
use beam_clmm.Settlement.Sends.{attempt-sends, stranded-rearmed, IsClear}
use beam_clmm.Settlement.Orphans.{IsOrphan, sweep_orphan_settlements-IsOrphan}
use beam_clmm.Settlement.Baseline.{
  DailyEquityBaselineScope, load_daily_equity_baseline, DailyEquityBaseline,
  persist_daily_equity_baseline, load_daily_equity_baseline-persist_daily_equity_baseline,
}

-- A job whose first transaction is known by its signature.
abbrev sent_job : SettlementJob Fixed
sent_job = record {
  id = "job-1";
  wallet_address = "0xw";
  agent_instance_id = "agent";
  position_id = "pos-1";
  pool_address = "0xp";
  token_mint = "0xt";
  amount_atomic = pos 5000000;
  status = JobStatus.retryable;
  attempts = 1;
  next_retry_at = some 500;
  tx_signature = some "0xsig";
  confirmed_output_atomic = none;
  output_usd = none;
  execution_cost_usd = none;
  finalized_at = none;
  realized_pnl_usd = none;
  expires_at = 9000;
  error = some "timeout";
  created_at = 100;
  updated_at = 400;
}

abbrev stranded_job : SettlementJob Fixed
stranded_job = record sent_job {
  id = "job-2";
  status = JobStatus.prepared;
  tx_signature = none;
  next_retry_at = none;
}

abbrev settled_job : SettlementJob Fixed
settled_job = record sent_job {
  id = "job-3";
  status = JobStatus.confirmed;
  confirmed_output_atomic = some (pos 3);
  output_usd = some (num 9);
  execution_cost_usd = some (num 1);
}

-- The first transaction failed, and a new one is mined.
abbrev answers : Answers Fixed
answers = record {
  swap_status = some (λ signature. ok SwapState.failed);
  confirmed_output = none;
  token_prices = ok (λ mint. some (num 2));
  token_decimals = λ mint. ok 6;
  has_swap_operations = true;
  quote_swap = ok tt;
  prepare_swap = ok tt;
  simulate_swap = ok tt;
  native_before = ok (pos 100);
  save_prepared = ok tt;
  submit_swap = Submission.mined "0xnew";
  native_after = ok (pos 600);
  save_result = true;
}

abbrev unsaved : Answers Fixed
unsaved = record answers { save_result = false }

abbrev turn : SettlementInput Fixed
turn = record { now = 1000; settlement_dust_usd = some (num 1) }

abbrev never : String → Bool
never message = false

attempt-sends_example :
    IsClear turn answers sent_job
    × ((sent_job.status ≡ JobStatus.prepared) → sent_job.tx_signature ≢ none)
unfolding any attempt check_sent settle_fresh settle_valued atomic_usd ◌*ℤ◌ quot ◌+ℤ◌
attempt-sends_example = attempt-sends turn answers sent_job refl

stranded-rearmed_example :
    let after = process_job never never turn answers stranded_job in
    (after.status ≡ JobStatus.retryable) × (after.tx_signature ≡ none) × (is_stranded after ≡ false)
stranded-rearmed_example =
    stranded-rearmed turn answers stranded_job never never refl refl (omega arith)

process_job-Follows_example :
    Follows turn answers sent_job (process_job never never turn answers sent_job)
process_job-Follows_example = process_job-Follows turn answers sent_job never never

abbrev stored_position : String → Option (StoredPosition Fixed)
stored_position position = some (record {
  cumulative_fees_claimed_usd = num 1;
  cumulative_rewards_claimed_usd = num 0;
  deposited_usd = num 5;
})

process_settlement_jobs-IsClosed_example : IsClosed (settled_job ∷ []) (record {
  position_id = "pos-1";
  realized_pnl_usd = num 5;
  job_ids = "job-3" ∷ [];
  finalized_at = 1000;
})
unfolding process_settlement_jobs close_groups positions_of process_jobs any filter all
    compute_net_realized_pnl_usd compute_realized_pnl_usd ◌-ℤ◌ ◌+ℤ◌
process_settlement_jobs-IsClosed_example =
    process_settlement_jobs-IsClosed never never AutonomousMode.live turn stored_position
      ((settled_job, answers) ∷ []) _ (first refl)

process_settlement_jobs-unsaved_example :
    process_settlement_jobs never never AutonomousMode.live turn stored_position
      ((settled_job, answers) ∷ (sent_job, unsaved) ∷ [])
    ≡ process_settlement_jobs never never AutonomousMode.live turn stored_position
        ((settled_job, answers) ∷ [])
process_settlement_jobs-unsaved_example =
    process_settlement_jobs-unsaved never never AutonomousMode.live turn stored_position
      ((settled_job, answers) ∷ []) [] sent_job unsaved refl refl refl

abbrev sweep : SweepInput Fixed
sweep = record {
  has_wallet = true;
  holdings = record { mint = "0xabc"; amount_atomic = pos 7000000; decimals = 6 } ∷ [];
  existing_jobs = settled_job ∷ [];
  open_positions = [];
  pool_tokens = λ pool. none;
  token_prices = λ mints mint. some (num 3);
  wallet_address = "0xw";
  agent_instance_id = "agent";
  settlement_max_pending_ms = 5000;
  settlement_dust_usd = num 1;
  now = 1000;
}

abbrev fresh : String → String
fresh mint = "id"

abbrev lower : String → String
lower text = text

sweep_orphan_settlements-IsOrphan_example :
    (h : Holding) × Member h sweep.holdings
    × IsOrphan lower "0xusdg" fresh sweep
        (queue lower "0xusdg" fresh none sweep
          (record { mint = "0xabc"; amount_atomic = pos 7000000; decimals = 6 }))
        h
unfolding sweep_orphan_settlements filter queue_orphans any position_mints atomic_usd ◌*ℤ◌ quot ◌+ℤ◌
sweep_orphan_settlements-IsOrphan_example =
    sweep_orphan_settlements-IsOrphan lower "0xusdg" fresh sweep _ (first refl)

abbrev scope : DailyEquityBaselineScope
scope = record { wallet_address = "0xw"; agent_instance_id = "agent" }

abbrev today : DailyEquityBaseline Fixed
today = record { day = "2026-09-06"; equity_usd = num 250 }

abbrev read_number : String → Fixed
read_number text = if str_eq text "250" then num 250 else num 0

load_daily_equity_baseline-persist_daily_equity_baseline_example :
    load_daily_equity_baseline fresh
      (λ x. "250")
      read_number
      (persist_daily_equity_baseline fresh
        (λ x. "250")
        read_number
        true
        (("other", "1") ∷ [])
        scope
        today)
      scope
    ≡ today
load_daily_equity_baseline-persist_daily_equity_baseline_example =
    load_daily_equity_baseline-persist_daily_equity_baseline fresh (λ x. "250") read_number
      (("other", "1") ∷ []) scope today refl refl
