-- ===== src/Execution.antt =====
-- Live execution of engine/program.ts: what an ENTER or an EXIT does to the tracked
-- positions, to the tables of the database and to the row of its own operation. Within one execution
-- the clock stands still; random ids are parameters. A write to the database may fail: `accepted` says
-- which succeed. Texts for the log and the metadata of events are left out.
pub mod Recovery
pub mod Recovered
pub mod Exit
pub mod Settle
pub mod Live
pub mod ExitLaws
pub mod Left
pub mod Booked
pub mod Finished
pub mod Closed
pub mod Jobs
pub mod Returns
pub mod Enter
pub mod EnterLaws
pub mod EnterFails
use beam_clmm.Prelude.{
  [], ◌∷◌, none, some, Bool, Option, String, StringMap, ℕ, ◌++◌, true, if◌then◌else◌, List, false,
  map_set,
}
use beam_clmm.Settlement.{SettlementJob}
use beam_clmm.Settlement.Pause.{SafetyPause}
use beam_clmm.Prelude.Int.{ℤ}
use beam_clmm.Tracking.{PositionRecord}
use beam_clmm.Tracking.Table.{save_position, close_position}

pub data OperationType : Type 0 where
  entry exit_operation rollback settlement : OperationType

pub data OperationStatus : Type 0 where
  planned prepared submitted confirmed retryable failed : OperationStatus

pub record ExecutionOperation : Type 0 where
  pub id : String
  pub wallet_address : String
  pub agent_instance_id : String
  pub candidate_id : Option String
  pub position_id : Option String
  pub pool_address : String
  pub token_mint : String
  pub operation_type : OperationType
  pub status : OperationStatus
  pub amount_atomic : Option ℤ
  pub tx_signature : Option String
  pub error : Option String
  pub created_at : ℕ
  pub updated_at : ℕ

pub record AutonomousContext : Type 0 where
  pub wallet_address : String
  pub agent_instance_id : String
  pub settlement_max_pending_ms : ℕ

pub data EventType : Type 0 where
  enter_event exit_event rebalance_event claim_event compound_event : EventType

pub record PositionEvent (F : Type 0) : Type 0 where
  pub position_id : String
  pub pool_address : String
  pub event : EventType
  pub value_usd : Option F
  pub fees_usd : Option F

-- A fee that was collected, with nothing of it for the platform.
pub record FeeClaim (F : Type 0) : Type 0 where
  pub pool_address : String
  pub position_pub_key : String
  pub fee_x : F
  pub fee_y : F

-- A write to the database.
pub data Write (F : Type 0) : Type 0 where
  save_operation : ExecutionOperation → Write F
  save_job : SettlementJob F → Write F
  save_pause : SafetyPause → Write F
  save_row : PositionRecord F → Write F
  close_row : String → Write F
  save_event : PositionEvent F → Write F
  save_claim : FeeClaim F → Write F
  save_outcome : ℕ → F → Write F

pub record World (F : Type 0) : Type 0 where
  pub tracked : StringMap (PositionRecord F)
  pub rows : StringMap (PositionRecord F)
  pub operations : StringMap ExecutionOperation
  pub jobs : List (SettlementJob F)
  pub pauses : List SafetyPause
  pub events : List (PositionEvent F)
  pub claims : List (FeeClaim F)
  -- `reconcileRequestedPools`
  pub reconcile_requested : List String
  -- `unpricedExitWarnedPools`
  pub unpriced_warned : List String
  -- outcomes of entry signals
  pub outcomes : List (ℕ × F)

pub record Outcome : Type 0 where
  pub executed : Bool
  pub error : Option String

module _ {F : Type 0} (accepted : Write F → Bool) where
  -- Rows are kept under their id.
  unfoldable pub put_operation : ExecutionOperation → World F → World F
  put_operation o w =
      if accepted (save_operation o)
      then record w { operations = map_set o.id o w.operations }
      else w

  unfoldable pub put_job : SettlementJob F → World F → World F
  put_job j w = record w { jobs = w.jobs ++ j ∷ [] }

  unfoldable pub put_pause : SafetyPause → World F → World F
  put_pause p w = if accepted (save_pause p) then record w { pauses = w.pauses ++ p ∷ [] } else w

  unfoldable pub put_row : PositionRecord F → World F → World F
  put_row p w = if accepted (save_row p) then record w { rows = save_position p w.rows } else w

  unfoldable pub put_closed : String → Option F → ℕ → World F → World F
  put_closed id realized now w =
      if accepted (close_row id)
      then record w { rows = close_position id realized now w.rows }
      else w

  unfoldable pub put_event : PositionEvent F → World F → World F
  put_event e w = if accepted (save_event e) then record w { events = w.events ++ e ∷ [] } else w

  unfoldable pub put_claim : FeeClaim F → World F → World F
  put_claim c w = if accepted (save_claim c) then record w { claims = w.claims ++ c ∷ [] } else w

  unfoldable pub put_outcome : ℕ → F → World F → World F
  put_outcome snapshot realized w =
      if accepted (save_outcome snapshot realized)
      then record w { outcomes = w.outcomes ++ (snapshot, realized) ∷ [] }
      else w

unfoldable pub operation_record :
    AutonomousContext
    → String
    → Option String
    → Option String
    → String
    → String
    → OperationType
    → ℕ
    → ExecutionOperation
operation_record context id candidate position pool mint type now = record {
  id = id;
  wallet_address = context.wallet_address;
  agent_instance_id = context.agent_instance_id;
  candidate_id = candidate;
  position_id = position;
  pool_address = pool;
  token_mint = mint;
  operation_type = type;
  status = planned;
  amount_atomic = none;
  tx_signature = none;
  error = none;
  created_at = now;
  updated_at = now;
}

unfoldable pub updated_operation :
    ExecutionOperation → OperationStatus → Option String → Option String → ℕ → ExecutionOperation
updated_operation o status error signature now = record o {
  status = status;
  error = error;
  tx_signature = signature;
  updated_at = now;
}

abbrev pub is_planned : OperationStatus → Bool
is_planned planned = true
is_planned s = false
