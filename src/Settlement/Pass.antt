-- ===== src/Settlement/Pass.antt =====
-- `processSettlementJobs` of engine/autonomous-runtime.ts over all jobs, and the positions that it
-- closes. Each job comes with what the outside answers while its turn lasts.
use beam_clmm.Prelude.{
  Bool, true, false, Option, some, none, String, ℕ, List, [], ◌∷◌, ◌++◌, map, filter, any, all, not,
  ◌&&◌, ◌||◌, if◌then◌else◌, str_eq, ltb, ◌or◌, is_none,
}
use beam_clmm.Number.{Number, int, ◌⊕◌, ◌⊖◌}
use beam_clmm.Settlement.{SettlementJob, JobStatus, Answers}
use beam_clmm.Settlement.Step.{SettlementInput, is_complete}
use beam_clmm.Settlement.Laws.{is_terminal}
use beam_clmm.Settlement.Swap.{process_job}

pub data AutonomousMode : Type 0 where
  off shadow canary live : AutonomousMode

-- The fields of a stored position that its closing reads.
pub record StoredPosition (F : Type 0) : Type 0 where
  pub cumulative_fees_claimed_usd : F
  pub cumulative_rewards_claimed_usd : F
  pub deposited_usd : F

-- What `finalizeSettlementGroup` is asked to store; its failure changes nothing here.
pub record Finalization (F : Type 0) : Type 0 where
  pub position_id : String
  pub realized_pnl_usd : F
  pub job_ids : List String
  pub finalized_at : ℕ

pub record SettlementPass (F : Type 0) : Type 0 where
  pub processed : List (SettlementJob F)
  pub finalizations : List (Finalization F)

abbrev is_later : Option ℕ → ℕ → Bool
is_later none now = false
is_later (some at) now = ltb now at

abbrev pub is_confirmed : JobStatus → Bool
is_confirmed JobStatus.confirmed = true
is_confirmed _ = false

-- Not due, or done.
abbrev pub is_skipped : {F : Type 0} → ℕ → SettlementJob F → Bool
is_skipped now job =
    is_terminal job.status
    || (is_later job.next_retry_at now || (is_confirmed job.status && is_complete job))

abbrev pub is_active : AutonomousMode → Bool
is_active off = false
is_active shadow = false
is_active canary = true
is_active live = true

module _ {F : Type 0} ⦃n : Number F⦄ where
  -- engine/pnl.ts
  unfoldable pub compute_realized_pnl_usd : F → F → F → F → F
  compute_realized_pnl_usd final_value fees cost_basis rewards =
      final_value ⊕ fees ⊕ rewards ⊖ cost_basis

  unfoldable pub compute_net_realized_pnl_usd : F → F → F → F → F → F → F
  compute_net_realized_pnl_usd final_value fees rewards cost_basis settlement_cost execution_cost =
      compute_realized_pnl_usd final_value fees cost_basis rewards
      ⊖ settlement_cost
      ⊖ execution_cost

  -- `reduce((sum, job) => sum + job.outputUsd, 0)` on rows that have one.
  abbrev sum_known : (SettlementJob F → Option F) → F → List (SettlementJob F) → F
  sum_known field sum [] = sum
  sum_known field sum (job ∷ jobs) = sum_known field (sum ⊕ (field job or int 0)) jobs

  abbrev pub of_position : String → SettlementJob F → Bool
  of_position position job = str_eq job.position_id position

  abbrev pub is_settled : SettlementJob F → Bool
  is_settled job =
      is_confirmed job.status
      && (not (is_none job.output_usd) && not (is_none job.execution_cost_usd))

  -- A group is closed when one of its rows is not finalized and all are confirmed with their amounts.
  abbrev pub is_closing : List (SettlementJob F) → Bool
  is_closing group = any (λ job. is_none job.finalized_at) group && all is_settled group

  abbrev pub finalization :
      SettlementInput F → String → List (SettlementJob F) → StoredPosition F → Finalization F
  finalization input position group stored =
      let output = sum_known (λ job. job.output_usd) (int 0) group in
      let cost = sum_known (λ job. job.execution_cost_usd) (int 0) group in
      record {
        position_id = position;
        realized_pnl_usd =
            compute_net_realized_pnl_usd (output ⊕ cost) stored.cumulative_fees_claimed_usd
              stored.cumulative_rewards_claimed_usd stored.deposited_usd cost (int 0);
        job_ids = map (λ job. job.id) group;
        finalized_at = input.now;
      }

  abbrev pub close_group :
      Option (StoredPosition F)
      → SettlementInput F
      → String
      → List (SettlementJob F)
      → List (Finalization F)
  close_group none input position group = []
  close_group (some stored) input position group =
      if is_closing group then finalization input position group stored ∷ [] else []

  -- The keys of `Map.groupBy`, in the order in which they first appear.
  unfoldable pub positions_of : List String → List (SettlementJob F) → List String
  positions_of seen [] = []
  positions_of seen (job ∷ jobs) = elim (any (str_eq job.position_id) seen) [
    | true ↦ positions_of seen jobs
    | false ↦ job.position_id ∷ positions_of (job.position_id ∷ seen) jobs
  ]

  unfoldable pub close_groups :
      (String → Option (StoredPosition F))
      → SettlementInput F
      → List (SettlementJob F)
      → List String
      → List (Finalization F)
  close_groups stored input jobs [] = []
  close_groups stored input jobs (position ∷ positions) =
      close_group (stored position) input position (filter (of_position position) jobs)
      ++ close_groups stored input jobs positions

  module _ (is_transient is_unrecoverable : String → Bool) where
    -- A row whose save fails is left out.
    unfoldable pub process_jobs :
        SettlementInput F → List (SettlementJob F × Answers F) → List (SettlementJob F)
    process_jobs input [] = []
    process_jobs input ((job, a) ∷ rest) =
        let others = process_jobs input rest in
        if is_skipped input.now job
        then job ∷ others
        else if a.save_result
        then process_job is_transient is_unrecoverable input a job ∷ others
        else others

    -- `stored` is what `getPosition` finds; its failure counts as no position.
    unfoldable pub process_settlement_jobs :
        AutonomousMode
        → SettlementInput F
        → (String → Option (StoredPosition F))
        → List (SettlementJob F × Answers F)
        → SettlementPass F
    process_settlement_jobs mode input stored jobs =
        let processed = process_jobs input jobs in
        if is_active mode
        then record {
          processed = processed;
          finalizations = close_groups stored input processed (positions_of [] processed);
        }
        else record { processed = map (λ entry. entry.0) jobs; finalizations = [] }
