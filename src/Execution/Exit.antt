-- ===== src/Execution/Exit.antt =====
-- The attempt to leave a position on chain, of engine/program.ts: planLiveExitOperation,
-- probeMinedExit, runLiveExitAttempt and syncExitOperationState.
use beam_clmm.Prelude.{
  [], ◌∷◌, none, some, Bool, String, Option, List, true, false, ℕ, if◌then◌else◌, str_eq, any, ◌or◌,
}
use beam_clmm.Prelude.Int.{ℤ, pos, ltb_ℤ}
use beam_clmm.Execution.{
  ExecutionOperation, AutonomousContext, Write, World, OperationStatus, updated_operation, failed,
  save_operation, is_planned, put_operation, operation_record, confirmed, exit_operation,
}
use beam_clmm.Settlement.{Reply, ok, err}
use beam_clmm.Tracking.{PositionRecord, OnChainPosition}
use beam_clmm.Tracking.Reconcile.{has_pub_key}

-- An amount is `none` when it is absent or no whole number: BigInt refuses it then, and it is left out.
pub record SweptReward (F : Type 0) : Type 0 where
  pub mint : String
  pub amount_atomic : Option ℤ
  pub amount_usd : Option F

-- What `exitPosition` returns; the pending amounts as `Number` reads them.
pub record ExitResult (F : Type 0) : Type 0 where
  pub tx_signature : String
  pub withdrawn_x : Option ℤ
  pub withdrawn_y : Option ℤ
  pub withdrawn_usd : Option F
  pub pending_fee_x : Option F
  pub pending_fee_y : Option F
  pub pending_fee_usd : Option F
  pub swept_rewards : List (SweptReward F)

-- What the adapter answers during one exit; `none` is a failed call, or no address of a wallet.
pub record ExitAnswers (F : Type 0) : Type 0 where
  pub native_balance : Option ℤ
  pub exit_position : Reply (ExitResult F)
  pub wallet_address : Option String
  pub wallet_positions : Option (List OnChainPosition)

-- What an exit is asked for. The pool's tokens may be unknown.
pub record ExitRequest (F : Type 0) : Type 0 where
  pub pool_address : String
  pub candidate_id : Option String
  pub token_x : Option String
  pub token_y : Option String
  pub autonomous : Option AutonomousContext
  pub min_native_for_gas_wei : Option ℤ
  pub operation_id : String
  pub now : ℕ

pub record ExitAttempt (F : Type 0) : Type 0 where
  pub exited : Bool
  pub error : Option String
  pub result : Option (ExitResult F)
  pub operation : Option ExecutionOperation

abbrev pub min_native_for_gas_wei : ℤ
min_native_for_gas_wei = pos 1000000000000000

abbrev pub no_key : Option String → Bool
no_key none = true
no_key (some key) = str_eq key ""

-- What a plan ends with: an error, or the operation that was saved, if one is kept at all.
pub record Plan (F : Type 0) : Type 0 where
  pub error : Option String
  pub operation : Option ExecutionOperation
  pub world : World F

module _ {F : Type 0} (accepted : Write F → Bool) where
  abbrev pub planned_with : ExecutionOperation → World F → Plan F
  planned_with o w =
      if accepted (save_operation o)
      then record { error = none; operation = some o; world = put_operation accepted o w }
      else record {
        error = some "Unable to persist exit operation before execution";
        operation = none;
        world = w;
      }

  abbrev pub plan_by :
      ExitRequest F
      → World F
      → Option AutonomousContext
      → Option (PositionRecord F)
      → Option String
      → Plan F
  plan_by r w (some context) (some position) (some mint) =
      if str_eq mint ""
      then record { error = none; operation = none; world = w }
      else planned_with
          (operation_record context r.operation_id r.candidate_id (some position.position_id)
            r.pool_address mint exit_operation r.now)
          w
  plan_by r w context position mint = record { error = none; operation = none; world = w }

  unfoldable pub plan_live_exit_operation :
      ExitRequest F → Option (PositionRecord F) → World F → Plan F
  plan_live_exit_operation r p w = plan_by r w r.autonomous p r.token_x

  -- The result that stands for an exit that was mined although the adapter gave up waiting.
  abbrev pub mined_exit : ExitResult F
  mined_exit = record {
    tx_signature = "";
    withdrawn_x = some (pos 0);
    withdrawn_y = some (pos 0);
    withdrawn_usd = none;
    pending_fee_x = none;
    pending_fee_y = none;
    pending_fee_usd = none;
    swept_rewards = [];
  }

  -- A list of positions that cannot be read counts as empty.
  abbrev pub read_or_empty : Option (List OnChainPosition) → List OnChainPosition
  read_or_empty none = []
  read_or_empty (some ps) = ps

  abbrev pub probe_with : ExitAnswers F → String → Option String → Option (ExitResult F)
  probe_with a key none = none
  probe_with a key (some wallet) =
      if any (has_pub_key key) (read_or_empty a.wallet_positions) then none else some mined_exit

  unfoldable pub probe_mined_exit : ExitAnswers F → String → Option (ExitResult F)
  probe_mined_exit a key = probe_with a key a.wallet_address

  abbrev pub is_below_gas_floor : ExitRequest F → Option ℤ → Bool
  is_below_gas_floor r none = false
  is_below_gas_floor r (some balance) =
      ltb_ℤ balance (r.min_native_for_gas_wei or min_native_for_gas_wei)

  abbrev gas_error : String
  gas_error = "Insufficient native for EXIT gas"

  abbrev pub save_known : Option ExecutionOperation → World F → World F
  save_known none w = w
  save_known (some o) w = put_operation accepted o w

  abbrev pub ended :
      OperationStatus
      → Option String
      → Option String
      → ℕ
      → Option ExecutionOperation
      → Option ExecutionOperation
  ended status error signature now none = none
  ended status error signature now (some o) = some (updated_operation o status error signature now)

  abbrev pub confirmed_by : String → ℕ → Option ExecutionOperation → Option ExecutionOperation
  confirmed_by signature now none = none
  confirmed_by signature now (some o) =
      some (record o { status = confirmed; tx_signature = some signature; updated_at = now })

  -- After a failed call: the chain is asked, and the pool is flagged if the position is still there.
  abbrev pub after_failure :
      ExitRequest F
      → Option ExecutionOperation
      → String
      → Option (ExitResult F)
      → World F
      → ExitAttempt F × World F
  after_failure r o message none w = (
    record { exited = false; error = some message; result = none; operation = o },
    record w { reconcile_requested = r.pool_address ∷ w.reconcile_requested },
  )
  after_failure r o message (some mined) w =
      (record { exited = true; error = some message; result = some mined; operation = o }, w)

  abbrev pub after_exit_call :
      ExitRequest F
      → ExitAnswers F
      → String
      → Option ExecutionOperation
      → Reply (ExitResult F)
      → World F
      → ExitAttempt F × World F
  after_exit_call r a key o (ok result) w =
      let o2 = confirmed_by result.tx_signature r.now o in
      (
        record { exited = true; error = none; result = some result; operation = o2 },
        save_known o2 w,
      )
  after_exit_call r a key o (err message) w = after_failure r o message (probe_mined_exit a key) w

  abbrev pub attempt_with_key :
      ExitRequest F
      → ExitAnswers F
      → String
      → Option ExecutionOperation
      → World F
      → ExitAttempt F × World F
  attempt_with_key r a key o w =
      if is_below_gas_floor r a.native_balance
      then (
        record { exited = false; error = some gas_error; result = none; operation = o },
        save_known (ended failed (some gas_error) none r.now o) w,
      )
      else after_exit_call r a key o a.exit_position w

  -- A position without a key, or none at all, is left at once.
  unfoldable pub run_live_exit_attempt :
      ExitRequest F
      → ExitAnswers F
      → Option String
      → Option ExecutionOperation
      → World F
      → ExitAttempt F × World F
  run_live_exit_attempt r a none o w =
      (record { exited = true; error = none; result = none; operation = o }, w)
  run_live_exit_attempt r a (some key) o w =
      if str_eq key ""
      then (record { exited = true; error = none; result = none; operation = o }, w)
      else attempt_with_key r a key o w

  abbrev pub signature_of : Option (ExitResult F) → String
  signature_of none = ""
  signature_of (some result) = result.tx_signature

  abbrev pub synced_operation : ExecutionOperation → ExitAttempt F → ℕ → ExecutionOperation
  synced_operation o t now =
      if t.exited
      then updated_operation o confirmed none (some (signature_of t.result)) now
      else updated_operation o failed (some (t.error or "EXIT execution failed")) none now

  abbrev pub sync_known : ExitAttempt F → ℕ → Option ExecutionOperation → World F → World F
  sync_known t now none w = w
  sync_known t now (some o) w =
      if is_planned o.status then put_operation accepted (synced_operation o t now) w else w

  unfoldable pub sync_exit_operation_state : ExitAttempt F → ℕ → World F → World F
  sync_exit_operation_state t now w = sync_known t now t.operation w
