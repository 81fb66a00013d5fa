-- ===== src/Examples/Exits.antt =====
-- Exits at concrete inputs.
use beam_clmm.Prelude.{
  some, none, true, false, [], ◌∷◌, refl, ℕ, map_get, Option, String, Bool, List, ◌≡◌,
}
use beam_clmm.Execution.Returns.{IsSettled, settle_attempted_exit-IsSettled}
use beam_clmm.Execution.{
  operation_record, AutonomousContext, World, Write, ExecutionOperation, OperationType, save_job,
}
use beam_clmm.Tracking.{PositionRecord, OnChainPosition, resolve_target_position}
use beam_clmm.Execution.Finished.{IsFinished, execute_live_exit-IsFinished}
use beam_clmm.Execution.ExitLaws.{IsUntouched, execute_live_exit-IsUntouched}
use beam_clmm.Execution.Live.{execute_live_exit, settle_with_jobs, settle_attempted_exit}
use beam_clmm.Settlement.{Reply, err, ok}
use beam_clmm.Execution.Exit.{
  ExitResult, ExitRequest, ExitAnswers, plan_live_exit_operation, run_live_exit_attempt,
}
use beam_clmm.Execution.Left.{IsLeft, execute_live_exit-IsLeft}
use beam_clmm.Number.Fixed.{Fixed, fixed_number}
use beam_clmm.Execution.Recovery.{
  recover_stale_execution_operations, recovered_operation, is_of, is_stale,
}
use beam_clmm.Execution.Settle.{attributable, record_jobs, returned_rewards}
use beam_clmm.Examples.Positions.{position_at}
use beam_clmm.Prelude.Int.{pos}
use beam_clmm.Execution.Closed.{execute_live_exit_untracked, execute_live_exit_unread}
use beam_clmm.Examples.Data.{num}
use beam_clmm.Execution.Recovered.{map_get-recover_stale_execution_operations}

abbrev pub owner : AutonomousContext
owner = record {
  wallet_address = "0xw";
  agent_instance_id = "agent";
  settlement_max_pending_ms = 60000;
}

abbrev exit_result : ExitResult Fixed
exit_result = record {
  tx_signature = "0xsig";
  withdrawn_x = some (pos 4);
  withdrawn_y = some (pos 0);
  withdrawn_usd = some (num 90);
  pending_fee_x = some (num 1);
  pending_fee_y = none;
  pending_fee_usd = some (num 2);
  swept_rewards = record { mint = "0xr"; amount_atomic = some (pos 7); amount_usd = none } ∷ [];
}

abbrev answers_with : Reply (ExitResult Fixed) → Option (List OnChainPosition) → ExitAnswers Fixed
answers_with reply positions = record {
  native_balance = some (pos 3000000000000000);
  exit_position = reply;
  wallet_address = some "0xw";
  wallet_positions = positions;
}

abbrev request_by : Option AutonomousContext → ExitRequest Fixed
request_by autonomous = record {
  pool_address = "A";
  candidate_id = none;
  token_x = some "0xt";
  token_y = some "0xu";
  autonomous = autonomous;
  min_native_for_gas_wei = none;
  operation_id = "op-2";
  now = 5000;
}

abbrev exiting : PositionRecord Fixed
exiting = position_at "p1" (pos 0) (pos 30)

abbrev pub earlier : ExecutionOperation
unfolding operation_record
earlier = operation_record owner "op-1" none none "A" "0xt" OperationType.entry 900

abbrev pub world : World Fixed
world = record {
  tracked = ("p1", exiting) ∷ [];
  rows = ("p1", exiting) ∷ [];
  operations = ("op-1", earlier) ∷ [];
  jobs = [];
  pauses = [];
  events = [];
  claims = [];
  reconcile_requested = [];
  unpriced_warned = [];
  outcomes = [];
}

abbrev pub all_accepted : Write Fixed → Bool
all_accepted write = true

-- A database that takes every write but settlement jobs.
abbrev no_jobs : Write Fixed → Bool
no_jobs (save_job job) = false
no_jobs write = true

abbrev job_id : ℕ → String
job_id i = "job"

execute_live_exit-IsLeft_example :
    IsLeft all_accepted job_id (request_by (some owner)) (answers_with (ok exit_result) none) "p1"
unfolding resolve_target_position map_get execute_live_exit plan_live_exit_operation
    run_live_exit_attempt settle_attempted_exit settle_with_jobs record_jobs attributable
    returned_rewards
execute_live_exit-IsLeft_example =
    execute_live_exit-IsLeft all_accepted job_id (request_by (some owner))
      (answers_with (ok exit_result) none) "p1" (some "p1") world exiting refl refl refl refl

execute_live_exit-IsUntouched_example :
    IsUntouched no_jobs job_id world
      (execute_live_exit no_jobs job_id
        (request_by (some owner))
        (answers_with (ok exit_result) none)
        (some "p1")
        world).1
unfolding execute_live_exit plan_live_exit_operation resolve_target_position map_get
    run_live_exit_attempt settle_attempted_exit settle_with_jobs record_jobs attributable
execute_live_exit-IsUntouched_example =
    execute_live_exit-IsUntouched no_jobs job_id (request_by (some owner))
      (answers_with (ok exit_result) none) (some "p1") world refl

execute_live_exit-IsFinished_example :
    IsFinished all_accepted job_id "op-2"
      (execute_live_exit all_accepted job_id
        (request_by (some owner))
        (answers_with (err "timeout") (some []))
        (some "p1")
        world).1
unfolding resolve_target_position map_get
execute_live_exit-IsFinished_example =
    execute_live_exit-IsFinished all_accepted job_id (λ o. refl) (request_by (some owner))
      (answers_with (err "timeout") (some [])) (some "p1") world owner exiting "0xt" refl refl refl
      refl

execute_live_exit_untracked_example :
    map_get "p1"
      (execute_live_exit all_accepted job_id
        (request_by (some owner))
        (answers_with (ok exit_result) none)
        (some "p1")
        world).1.tracked
    ≡ none
unfolding resolve_target_position map_get execute_live_exit plan_live_exit_operation
    run_live_exit_attempt settle_attempted_exit settle_with_jobs record_jobs attributable
    returned_rewards
execute_live_exit_untracked_example =
    execute_live_exit_untracked all_accepted job_id (request_by (some owner))
      (answers_with (ok exit_result) none) exiting (some "p1") world refl refl

execute_live_exit_unread_example :
    ((execute_live_exit all_accepted job_id
        (request_by none)
        (answers_with (err "timeout") none)
        (some "p1")
        world).0.executed
      ≡ true)
    × (map_get "p1"
          (execute_live_exit all_accepted job_id
            (request_by none)
            (answers_with (err "timeout") none)
            (some "p1")
            world).1.tracked
        ≡ none)
unfolding resolve_target_position map_get
execute_live_exit_unread_example =
    execute_live_exit_unread all_accepted job_id (request_by none)
      (answers_with (err "timeout") none) exiting (some "p1") world "p1" "timeout" "0xw" refl refl
      refl refl refl refl refl refl

settle_attempted_exit-IsSettled_example :
    IsSettled all_accepted job_id
      (request_by (some owner))
      owner
      exiting
      "0xt"
      "0xu"
      exit_result
      world
      true
      (settle_attempted_exit all_accepted job_id
        (request_by (some owner))
        (some exiting)
        (some exit_result)
        world).1
unfolding settle_attempted_exit settle_with_jobs record_jobs attributable returned_rewards
settle_attempted_exit-IsSettled_example =
    settle_attempted_exit-IsSettled all_accepted job_id (request_by (some owner)) owner exiting
      "0xt" "0xu" exit_result world refl refl refl refl

map_get-recover_stale_execution_operations_example :
    map_get "op-1"
      (recover_stale_execution_operations all_accepted true owner 1000 world).0.operations
    ≡ some (recovered_operation 1000 earlier)
unfolding map_get earlier is_of is_stale
map_get-recover_stale_execution_operations_example =
    map_get-recover_stale_execution_operations all_accepted (λ o. refl) owner 1000 "op-1" world
      (refl, tt) (refl, tt)
