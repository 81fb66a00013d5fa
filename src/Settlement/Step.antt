-- ===== src/Settlement/Step.antt =====
-- One round of `processSettlementJobs` in engine/autonomous-runtime.ts for one job: what happens to
-- the transaction that was sent before, the checks that settle a job without a swap, and the swap.
use beam_clmm.Prelude.{
  Bool, true, false, Option, some, none, String, if◌then◌else◌, ℕ, ◌+◌, ◌^◌, str_eq, not, ◌&&◌,
  ◌||◌, leb, ◌/◌, ◌%◌, List, is_none, [], ◌or◌, suc,
}
use beam_clmm.Prelude.Int.{ℤ, pos, ltb_ℤ, negsuc, diff}
use beam_clmm.Number.{Number, of_big, int, ◌⊕◌, ◌⊗◌, ◌⊘◌, ◌>?◌}
use beam_clmm.Settlement.{
  SettlementJob, JobStatus, Answers, Reply, SwapState, SwapEvidence, reconciliation_job,
  next_settlement_retry_at, err, ok,
}

-- NATIVE_MINT and NATIVE_DECIMALS of engine/constants.ts
abbrev pub native_mint : String
native_mint = "0x0000000000000000000000000000000000000000"

abbrev pub native_decimals : ℕ
native_decimals = 18

-- How a round ends: with a job, or with an error; after the broadcast the error comes with the
-- signature and with the output as far as it is known.
pub data Ending (F : Type 0) : Type 0 where
  answer : SettlementJob F → Ending F
  fault : String → Ending F
  fault_after : String → ℤ → String → Ending F

-- What a round asks of the outside: the rows that it saves and the transaction that it sends.
pub data Call (F : Type 0) : Type 0 where
  save : SettlementJob F → Call F
  send : Call F

pub record Round (F : Type 0) : Type 0 where
  pub ending : Ending F
  pub calls : List (Call F)

abbrev pub quiet : {F : Type 0} → Ending F → Round F
quiet e = record { ending = e; calls = [] }

pub record SettlementInput (F : Type 0) : Type 0 where
  pub now : ℕ
  pub settlement_dust_usd : Option F

-- `startsWith("orphan:") || startsWith("rollback:")`
abbrev pub starts_with : String → String → Bool
starts_with String.[] s = true
starts_with (String.◌∷◌ c p) String.[] = false
starts_with (String.◌∷◌ c p) (String.◌∷◌ d s) =
    str_eq (String.◌∷◌ c String.[]) (String.◌∷◌ d String.[]) && starts_with p s

abbrev pub is_synthetic : String → Bool
is_synthetic position = starts_with "orphan:" position || starts_with "rollback:" position

abbrev pub is_prepared : JobStatus → Bool
is_prepared JobStatus.prepared = true
is_prepared _ = false

-- An optional operation on the signature, which must not be empty.
abbrev pub ask : {A : Type 0} → Option String → Option (String → Reply A) → Option (Reply A)
ask (some signature) (some operation) =
    if str_eq signature "" then none else some (operation signature)
ask _ _ = none

-- `confirmedOutputAtomic`, `outputUsd` and `executionCostUsd` are all known.
abbrev pub is_complete : {F : Type 0} → SettlementJob F → Bool
is_complete job =
    not (is_none job.confirmed_output_atomic)
    && (not (is_none job.output_usd) && not (is_none job.execution_cost_usd))

-- A round that died between the save of `prepared` and the broadcast.
abbrev pub is_stranded : {F : Type 0} → SettlementJob F → Bool
is_stranded job = is_prepared job.status && is_none job.tx_signature

module _ {F : Type 0} ⦃n : Number F⦄ where
  unfoldable pub atomic_usd : ℤ → ℕ → F → F
  atomic_usd (pos amount) decimals price =
      let scale = 10 ^ decimals in
      (of_big (pos (amount / scale)) ⊕ of_big (pos (amount % scale)) ⊘ of_big (pos scale)) ⊗ price
  atomic_usd (negsuc debt) decimals price =
      let scale = 10 ^ decimals in
      (of_big (diff 0 (suc debt / scale)) ⊕ of_big (diff 0 (suc debt % scale)) ⊘ of_big (pos scale))
      ⊗ price

  -- `prices[mint] ?? 0`
  abbrev pub price_of : (String → Option F) → String → F
  price_of prices mint = prices mint or int 0

  abbrev pub unavailable : SettlementInput F → SettlementJob F → Ending F
  unavailable input job =
      answer (reconciliation_job job input.now "Confirmed swap output evidence unavailable")

  abbrev pub priced_evidence :
      Reply (String → Option F) → SwapEvidence → SettlementInput F → SettlementJob F → Ending F
  priced_evidence (err message) evidence input job = fault message
  priced_evidence (ok prices) evidence input job =
      let sol = price_of prices native_mint in
      if sol >? int 0
      then answer (record job {
        status = JobStatus.confirmed;
        confirmed_output_atomic = some evidence.output_atomic;
        output_usd = some (atomic_usd evidence.output_atomic native_decimals sol);
        execution_cost_usd = some (atomic_usd evidence.fee_atomic native_decimals sol);
        next_retry_at = none;
        error = none;
        updated_at = input.now;
      })
      else answer (
          reconciliation_job job input.now
            "Confirmed swap output found but SOL price unavailable for USD conversion")

  abbrev pub on_evidence :
      Option (Reply (Option SwapEvidence))
      → SettlementInput F
      → Answers F
      → SettlementJob F
      → Ending F
  on_evidence none input a job = unavailable input job
  on_evidence (some (err message)) input a job = fault message
  on_evidence (some (ok none)) input a job = unavailable input job
  on_evidence (some (ok (some evidence))) input a job =
      if ltb_ℤ (pos 0) evidence.output_atomic
      then priced_evidence a.token_prices evidence input job
      else unavailable input job

  -- The transaction landed.
  abbrev pub on_landed : SettlementInput F → Answers F → SettlementJob F → Ending F
  on_landed input a job =
      if is_complete job
      then answer (record job {
        status = JobStatus.confirmed;
        next_retry_at = none;
        error = none;
        updated_at = input.now;
      })
      else on_evidence (ask job.tx_signature a.confirmed_output) input a job

  abbrev pub on_not_found : SettlementInput F → SettlementJob F → Ending F
  on_not_found input job =
      let attempts = job.attempts + 1 in
      let expired = leb job.expires_at input.now in
      answer (record job {
        status = if expired then JobStatus.terminal else JobStatus.submitted;
        attempts = attempts;
        next_retry_at =
            if expired then none else some (next_settlement_retry_at input.now attempts);
        error =
            if expired
            then some "Swap signature not found until expiry — requires operator reconciliation"
            else job.error;
        updated_at = input.now;
      })

  -- What became of a transaction sent before; `none` goes on to a fresh swap.
  abbrev pub on_status :
      Option (Reply SwapState) → SettlementInput F → Answers F → SettlementJob F → Option (Ending F)
  on_status none input a job = none
  on_status (some (err message)) input a job = some (fault message)
  on_status (some (ok SwapState.confirmed)) input a job = some (on_landed input a job)
  on_status (some (ok SwapState.finalized)) input a job = some (on_landed input a job)
  on_status (some (ok SwapState.processed)) input a job = some (
      answer (record job {
        status = JobStatus.submitted;
        next_retry_at = some (next_settlement_retry_at input.now (job.attempts + 1));
        updated_at = input.now;
      }))
  on_status (some (ok SwapState.not_found)) input a job = some (on_not_found input job)
  on_status (some (ok SwapState.failed)) input a job = none

  unfoldable pub check_sent : SettlementInput F → Answers F → SettlementJob F → Option (Ending F)
  check_sent input a job = on_status (ask job.tx_signature a.swap_status) input a job
