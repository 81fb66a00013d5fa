-- ===== src/Execution/Recovery.antt =====
-- `recoverStaleExecutionOperations` of engine/program.ts: operations that an earlier process planned and
-- never finished. The rows are taken in the order of the table, which does not matter to the result.
use beam_clmm.Prelude.{
  [], ◌∷◌, some, ℕ, String, Bool, List, str_eq, ◌&&◌, if◌then◌else◌, ltb, map, filter, ◌+◌, false,
  true, StringMap,
}
use beam_clmm.Execution.{
  Write, ExecutionOperation, AutonomousContext, is_planned, OperationStatus, World, put_operation,
}

abbrev pub abandoned : String
abandoned = "abandoned planned operation from a previous process"

abbrev pub recovered_operation : ℕ → ExecutionOperation → ExecutionOperation
recovered_operation started o = record o {
  status = OperationStatus.failed;
  error = some abandoned;
  updated_at = started;
}

unfoldable pub is_stale : ℕ → ExecutionOperation → Bool
is_stale started o = is_planned o.status && ltb o.created_at started

unfoldable pub is_of : AutonomousContext → ExecutionOperation → Bool
is_of context o =
    str_eq o.wallet_address context.wallet_address
    && str_eq o.agent_instance_id context.agent_instance_id

-- `listExecutionOperations`.
abbrev pub listed : AutonomousContext → StringMap ExecutionOperation → List ExecutionOperation
listed context rows = map (λ entry. entry.1) (filter (λ entry. is_of context entry.1) rows)

module _ {F : Type 0} (accepted : Write F → Bool) where
  -- The rows are read first; each stale one is saved, and counted even when the save fails.
  unfoldable pub recover_each : ℕ → List ExecutionOperation → World F → World F × ℕ
  recover_each started [] w = (w, 0)
  recover_each started (o ∷ os) w =
      let now_world =
        if is_stale started o
        then put_operation accepted (recovered_operation started o) w
        else w in
      let rest = recover_each started os now_world in
      (rest.0, if is_stale started o then rest.1 + 1 else rest.1)

  -- `readable` is whether the rows of the wallet and the agent can be read.
  unfoldable pub recover_stale_execution_operations :
      Bool → AutonomousContext → ℕ → World F → World F × ℕ
  recover_stale_execution_operations false context started w = (w, 0)
  recover_stale_execution_operations true context started w =
      recover_each started (listed context w.operations) w
