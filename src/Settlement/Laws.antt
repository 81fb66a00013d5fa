-- ===== src/Settlement/Laws.antt =====
-- What a round does to a settlement job: engine/autonomous-runtime.ts.
use beam_clmm.Prelude.{
  Bool, true, false, Option, some, none, String, ℕ, ◌≡◌, ◌⊎◌, ◌≤◌, arith, is_none, refl, inl,
  Bool-cases, inr, ◌&&◌, not, leb,
}
use beam_clmm.Number.{Number}
use beam_clmm.Settlement.{
  SettlementJob, JobStatus, Answers, Reply, ok, err, SwapState, SwapEvidence, reconciliation_job,
  Submission, retryable_job, next_settlement_retry_at, unsent, broken_off, mined,
}
use beam_clmm.Settlement.Step.{
  SettlementInput, ask, is_complete, check_sent, Ending, on_landed, priced_evidence, unavailable,
  answer, on_evidence, fault, fault_after, on_status,
}
use beam_clmm.Settlement.Swap.{
  attempt, process_job, settle_fresh, settle_valued, with_decimals, after_sent, Valuation,
  with_prices, confirm_swap, on_submission, start_swap, send_swap, job_after, measure_gain, gained,
  shown_output, look,
}
use beam_clmm.Prelude.Int.{ℤ}

abbrev pub is_terminal : JobStatus → Bool
is_terminal JobStatus.terminal = true
is_terminal _ = false

-- What the status of a row says of its other fields.
abbrev pub StatusFacts : {F : Type 0} → JobStatus → SettlementJob F → Type 0
StatusFacts JobStatus.pending j = ⊥
StatusFacts JobStatus.prepared j = (j.next_retry_at ≡ none) × (is_none j.error ≡ false)
StatusFacts JobStatus.submitted j =
    (is_none j.next_retry_at ≡ false) × (is_none j.tx_signature ≡ false)
StatusFacts JobStatus.confirmed j = (j.next_retry_at ≡ none) × (is_complete j ≡ true)
StatusFacts JobStatus.retryable j = (is_none j.next_retry_at ≡ false) × (is_none j.error ≡ false)
StatusFacts JobStatus.terminal j = (j.next_retry_at ≡ none) × (is_none j.error ≡ false)

module _ {F : Type 0} ⦃n : Number F⦄ (input : SettlementInput F) (a : Answers F)
    (job : SettlementJob F) where
  -- What a job keeps through a round, and what its new status says.
  pub record Follows (after : SettlementJob F) : Type 0 where
    pub same_id : after.id ≡ job.id
    pub same_wallet : after.wallet_address ≡ job.wallet_address
    pub same_agent : after.agent_instance_id ≡ job.agent_instance_id
    pub same_position : after.position_id ≡ job.position_id
    pub same_token : after.token_mint ≡ job.token_mint
    pub same_amount : after.amount_atomic ≡ job.amount_atomic
    pub same_expiry : after.expires_at ≡ job.expires_at
    pub same_creation : after.created_at ≡ job.created_at
    pub same_finalized : after.finalized_at ≡ job.finalized_at
    pub more_attempts : job.attempts ≤ after.attempts
    pub touched : after.updated_at ≡ input.now
    pub facts : StatusFacts after.status after

  abbrev Keeps : Ending F → Type 0
  Keeps (answer j) =
      Follows j × ((is_terminal j.status && not (leb job.expires_at input.now)) ≡ false)
  Keeps (fault message) = Unit
  Keeps (fault_after signature output message) = Unit

  unavailable-Keeps : Keeps (unavailable input job)
  unfolding reconciliation_job
  unavailable-Keeps = ground arith

  priced_evidence-Keeps :
      (r : Reply (String → Option F)) (e : SwapEvidence) → Keeps (priced_evidence r e input job)
  unfolding reconciliation_job
  priced_evidence-Keeps (err message) e = tt
  priced_evidence-Keeps (ok prices) e = ground arith

  on_evidence-Keeps : (r : Option (Reply (Option SwapEvidence))) → Keeps (on_evidence r input a job)
  on_evidence-Keeps none = unavailable-Keeps
  on_evidence-Keeps (some (err message)) = tt
  on_evidence-Keeps (some (ok none)) = unavailable-Keeps
  on_evidence-Keeps (some (ok (some e))) =
      ground (arith, unavailable-Keeps, priced_evidence-Keeps a.token_prices e)

  on_landed-Keeps : Keeps (on_landed input a job)
  on_landed-Keeps = ground (arith, on_evidence-Keeps (ask job.tx_signature a.confirmed_output))

  -- An answer about a transaction comes only where there is a signature to ask about.
  ask-signature :
      {A : Type 0} (o : Option (String → Reply A)) (r : Reply A)
      → ask job.tx_signature o ≡ some r
      → is_none job.tx_signature ≡ false
  ask-signature o r h = ground arith

  abbrev KeepsIf : Option (Ending F) → Type 0
  KeepsIf none = Unit
  KeepsIf (some e) = Keeps e

  on_status-Keeps :
      (s : Option (Reply SwapState))
      → ask job.tx_signature a.swap_status ≡ s
      → KeepsIf (on_status s input a job)
  on_status-Keeps none h = tt
  on_status-Keeps (some (err message)) h = tt
  on_status-Keeps (some (ok SwapState.confirmed)) h = on_landed-Keeps
  on_status-Keeps (some (ok SwapState.finalized)) h = on_landed-Keeps
  on_status-Keeps (some (ok SwapState.processed)) h =
      ground (arith, ask-signature a.swap_status (ok SwapState.processed) h)
  on_status-Keeps (some (ok SwapState.not_found)) h =
      ground (arith, ask-signature a.swap_status (ok SwapState.not_found) h)
  on_status-Keeps (some (ok SwapState.failed)) h = tt

  confirm_swap-Keeps :
      (v : Valuation F) (signature : String) (output : ℤ)
      → Keeps (confirm_swap input job v signature output)
  confirm_swap-Keeps v signature output = ground arith

  on_submission-Keeps :
      (s : Submission) (before : ℤ) (v : Valuation F) → Keeps (on_submission s before input a job v)
  on_submission-Keeps (unsent message) before v = tt
  on_submission-Keeps (broken_off signature message) before v = tt
  on_submission-Keeps (mined signature) before v = ground (
    arith,
    confirm_swap-Keeps v signature (shown_output (look signature a.confirmed_output)),
    measured a.native_after,
  )
    where
      measured : (r : Reply ℤ) → Keeps (measure_gain r before input job v signature)
      measured (err message) = tt
      measured (ok after) = confirm_swap-Keeps v signature (gained before after)

  start_swap-Keeps :
      (q p s : Reply (Unit {0})) (b : Reply ℤ) (v : Valuation F)
      → Keeps (start_swap q p s b input a job v).ending
  start_swap-Keeps (err m) p s b v = tt
  start_swap-Keeps (ok q) (err m) s b v = tt
  start_swap-Keeps (ok q) (ok p) (err m) b v = tt
  start_swap-Keeps (ok q) (ok p) (ok s) (err m) v = tt
  start_swap-Keeps (ok q) (ok p) (ok s) (ok before) v = sent a.save_prepared
    where
      sent : (r : Reply (Unit {0})) → Keeps (send_swap r before input a job v).ending
      sent (err m) = tt
      sent (ok saved) = on_submission-Keeps a.submit_swap before v

  settle_valued-Keeps : (v : Valuation F) → Keeps (settle_valued input a job v).ending
  unfolding settle_valued
  settle_valued-Keeps v =
      ground (arith, start_swap-Keeps a.quote_swap a.prepare_swap a.simulate_swap a.native_before v)

  with_decimals-Keeps :
      (r : Reply ℕ) (prices : String → Option F) → Keeps (with_decimals r prices input a job).ending
  with_decimals-Keeps (err m) prices = tt
  with_decimals-Keeps (ok decimals) prices = settle_valued-Keeps _

  with_prices-Keeps : (r : Reply (String → Option F)) → Keeps (with_prices r input a job).ending
  with_prices-Keeps (err m) = tt
  with_prices-Keeps (ok prices) =
      ground (arith, with_decimals-Keeps (a.token_decimals job.token_mint) prices)

  settle_fresh-Keeps : Keeps (settle_fresh input a job).ending
  unfolding settle_fresh
  settle_fresh-Keeps = ground (arith, with_prices-Keeps a.token_prices)

  attempt-Keeps : Keeps (attempt input a job).ending
  unfolding attempt check_sent
  attempt-Keeps =
      after (on_status (ask job.tx_signature a.swap_status) input a job)
        (on_status-Keeps (ask job.tx_signature a.swap_status) refl)
    where
      after : (s : Option (Ending F)) → KeepsIf s → Keeps (after_sent s input a job).ending
      after none h = settle_fresh-Keeps
      after (some e) h = h

  module _ (is_transient is_unrecoverable : String → Bool) where
    job_after-Follows :
        (e : Ending F) → Keeps e → Follows (job_after is_transient is_unrecoverable input job e)
    unfolding retryable_job reconciliation_job next_settlement_retry_at
    job_after-Follows (answer j) h = h.0
    job_after-Follows (fault message) h = ground arith
    job_after-Follows (fault_after signature output message) h = ground arith

    -- Whatever the outside answers, a round keeps a job's identity, amount, expiry and creation, does
    -- not lower its attempts, and leaves a row whose status agrees with its other fields: a confirmed
    -- row has its output and its cost, a submitted one has a signature and a time to ask again, a
    -- retryable one has a time and an error, a terminal or a prepared one has an error and no time.
    pub process_job-Follows : Follows (process_job is_transient is_unrecoverable input a job)
    unfolding process_job
    process_job-Follows = job_after-Follows (attempt input a job).ending attempt-Keeps

    -- A round makes a job terminal only once it has expired, or for an error, which the row keeps, that
    -- is known to be hopeless and is not transient.
    pub process_job-terminal :
        (process_job is_transient is_unrecoverable input a job).status ≡ JobStatus.terminal
        → (job.expires_at ≤ input.now)
          ⊎ ((message : String) × ((process_job is_transient is_unrecoverable input a job).error
                ≡ some message)
              × (is_unrecoverable message ≡ true)
              × (is_transient message ≡ false))
    unfolding process_job retryable_job reconciliation_job
    process_job-terminal h = final (attempt input a job).ending attempt-Keeps h
      where
        final :
            (e : Ending F)
            → Keeps e
            → (job_after is_transient is_unrecoverable input job e).status ≡ JobStatus.terminal
            → (job.expires_at ≤ input.now)
              ⊎ ((message : String) × ((job_after is_transient is_unrecoverable input job e).error
                    ≡ some message)
                  × (is_unrecoverable message ≡ true)
                  × (is_transient message ≡ false))
        final (answer j) k h = inl (ground (arith, k))
        final (fault message) k h =
            elim (Bool-cases (is_unrecoverable message && not (is_transient message))) [
              | inl e ↦ inr (message, refl, ground arith, ground arith)
              | inr e ↦ inl (ground arith)
            ]
        final (fault_after signature output message) k h = absurd (cc h)
