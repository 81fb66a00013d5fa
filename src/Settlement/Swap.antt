-- ===== src/Settlement/Swap.antt =====
-- The swap of a settlement job and the whole round for one job: the body of the loop of
-- `processSettlementJobs` in engine/autonomous-runtime.ts. The adapter hands the same signature to the
-- callback of the broadcast and to its caller.
use beam_clmm.Prelude.{
  Bool, Option, some, none, String, if◌then◌else◌, ℕ, ◌+◌, str_eq, not, ◌&&◌, List, ◌or◌, [], ◌∷◌,
}
use beam_clmm.Prelude.Int.{ℤ, pos, leb_ℤ, ltb_ℤ, ◌-ℤ◌}
use beam_clmm.Number.{Number, int, ◌⊖◌, ◌>?◌, ◌<?◌, ◌≤?◌, max}
use beam_clmm.Settlement.{
  SettlementJob, JobStatus, Answers, Reply, ok, err, Submission, SwapEvidence, retryable_job,
  reconciliation_job, next_settlement_retry_at, unsent, broken_off, mined,
}
use beam_clmm.Settlement.Step.{
  Ending, Call, Round, SettlementInput, native_mint, native_decimals, atomic_usd, price_of,
  is_synthetic, is_stranded, check_sent, quiet, fault_after, answer, fault, save, send,
}

-- What the prices and the decimals of the token say about a job that is to be swapped.
pub record Valuation (F : Type 0) : Type 0 where
  pub sol_price_usd : F
  pub input_price_usd : F
  pub input_usd : F

abbrev pub look : {A : Type 0} → String → Option (String → Reply A) → Option (Reply A)
look signature none = none
look signature (some operation) = some (operation signature)

-- The output that the receipt shows, or else what the balance has gained; an error of the receipt's
-- reading counts as no evidence.
abbrev pub shown_output : Option (Reply (Option SwapEvidence)) → ℤ
shown_output (some (ok (some evidence))) = evidence.output_atomic
shown_output _ = pos 0

abbrev pub gained : ℤ → ℤ → ℤ
gained before after = if ltb_ℤ before after then after -ℤ before else pos 0

module _ {F : Type 0} ⦃n : Number F⦄ where
  -- A job that is settled where it stands.
  abbrev pub settled : SettlementInput F → SettlementJob F → F → Option String → Ending F
  settled input job output_usd error = answer (record job {
    status = JobStatus.confirmed;
    attempts = job.attempts + 1;
    next_retry_at = none;
    confirmed_output_atomic = some job.amount_atomic;
    output_usd = some output_usd;
    execution_cost_usd = some (int 0);
    error = error;
    updated_at = input.now;
  })

  abbrev pub confirm_swap :
      SettlementInput F → SettlementJob F → Valuation F → String → ℤ → Ending F
  confirm_swap input job v signature output =
      if leb_ℤ output (pos 0)
      then fault_after signature output "Settlement output balance delta unavailable"
      else let output_usd = atomic_usd output native_decimals v.sol_price_usd in
        let realized = if v.input_price_usd >? int 0 then v.input_usd else output_usd in
        answer (record job {
          status = JobStatus.confirmed;
          attempts = job.attempts + 1;
          next_retry_at = none;
          tx_signature = some signature;
          confirmed_output_atomic = some output;
          output_usd = some output_usd;
          execution_cost_usd = some (max (int 0) (realized ⊖ output_usd));
          error = none;
          updated_at = input.now;
        })

  abbrev pub measure_gain :
      Reply ℤ → ℤ → SettlementInput F → SettlementJob F → Valuation F → String → Ending F
  measure_gain (err message) before input job v signature = fault_after signature (pos 0) message
  measure_gain (ok after) before input job v signature =
      confirm_swap input job v signature (gained before after)

  abbrev pub on_submission :
      Submission → ℤ → SettlementInput F → Answers F → SettlementJob F → Valuation F → Ending F
  on_submission (unsent message) before input a job v = fault message
  on_submission (broken_off signature message) before input a job v =
      fault_after signature (pos 0) message
  on_submission (mined signature) before input a job v =
      let shown = shown_output (look signature a.confirmed_output) in
      if ltb_ℤ (pos 0) shown
      then confirm_swap input job v signature shown
      else measure_gain a.native_after before input job v signature

  -- The row saved before the transaction is sent, and the row saved by the callback of the broadcast.
  abbrev pub prepared_row : SettlementInput F → SettlementJob F → SettlementJob F
  prepared_row input job = record job {
    status = JobStatus.prepared;
    attempts = job.attempts + 1;
    confirmed_output_atomic = none;
    output_usd = none;
    execution_cost_usd = none;
    updated_at = input.now;
  }

  abbrev pub submitted_row : SettlementInput F → SettlementJob F → String → SettlementJob F
  submitted_row input job signature = record job {
    status = JobStatus.submitted;
    attempts = job.attempts + 1;
    next_retry_at = some (next_settlement_retry_at input.now (job.attempts + 1));
    tx_signature = some signature;
    updated_at = input.now;
  }

  abbrev broadcast_rows : Submission → SettlementInput F → SettlementJob F → List (Call F)
  broadcast_rows (unsent message) input job = []
  broadcast_rows (broken_off signature message) input job =
      save (submitted_row input job signature) ∷ []
  broadcast_rows (mined signature) input job = save (submitted_row input job signature) ∷ []

  abbrev pub send_swap :
      Reply (Unit {0}) → ℤ → SettlementInput F → Answers F → SettlementJob F → Valuation F → Round F
  send_swap (err message) before input a job v = record {
    ending = fault message;
    calls = save (prepared_row input job) ∷ [];
  }
  send_swap (ok saved) before input a job v = record {
    ending = on_submission a.submit_swap before input a job v;
    calls = save (prepared_row input job) ∷ send ∷ broadcast_rows a.submit_swap input job;
  }

  -- Quote, preparation, simulation and balance, in this order; the first error ends the round.
  abbrev pub start_swap :
      Reply (Unit {0})
      → Reply (Unit {0})
      → Reply (Unit {0})
      → Reply ℤ
      → SettlementInput F
      → Answers F
      → SettlementJob F
      → Valuation F
      → Round F
  start_swap (err message) prepare simulate before input a job v = quiet (fault message)
  start_swap (ok q) (err message) simulate before input a job v = quiet (fault message)
  start_swap (ok q) (ok p) (err message) before input a job v = quiet (fault message)
  start_swap (ok q) (ok p) (ok s) (err message) input a job v = quiet (fault message)
  start_swap (ok q) (ok p) (ok s) (ok before) input a job v =
      send_swap a.save_prepared before input a job v

  -- Dust stays where it is; so does a token without a price, unless a position waits for it.
  unfoldable pub settle_valued :
      SettlementInput F → Answers F → SettlementJob F → Valuation F → Round F
  settle_valued input a job v =
      let dust = input.settlement_dust_usd or int 0 in
      if (dust >? int 0) && ((v.input_price_usd >? int 0) && (v.input_usd <? dust))
      then quiet (settled input job v.input_usd (some "settlement dust skipped"))
      else if is_synthetic job.position_id && ((dust >? int 0) && (v.input_price_usd ≤? int 0))
      then quiet (settled input job v.input_usd (some "settlement dust skipped (no USD price)"))
      else if not a.has_swap_operations
      then quiet (fault "Generic settlement swap operations unavailable")
      else start_swap a.quote_swap a.prepare_swap a.simulate_swap a.native_before input a job v

  abbrev pub with_decimals :
      Reply ℕ → (String → Option F) → SettlementInput F → Answers F → SettlementJob F → Round F
  with_decimals (err message) prices input a job = quiet (fault message)
  with_decimals (ok decimals) prices input a job = settle_valued input a job (record {
    sol_price_usd = price_of prices native_mint;
    input_price_usd = price_of prices job.token_mint;
    input_usd = atomic_usd job.amount_atomic decimals (price_of prices job.token_mint);
  })

  abbrev pub with_prices :
      Reply (String → Option F) → SettlementInput F → Answers F → SettlementJob F → Round F
  with_prices (err message) input a job = quiet (fault message)
  with_prices (ok prices) input a job =
      let sol = price_of prices native_mint in
      if not (sol >? int 0)
      then quiet (fault "SOL price unavailable")
      else if str_eq job.token_mint native_mint
      then quiet (settled input job (atomic_usd job.amount_atomic native_decimals sol) none)
      else with_decimals (a.token_decimals job.token_mint) prices input a job

  unfoldable pub settle_fresh : SettlementInput F → Answers F → SettlementJob F → Round F
  settle_fresh input a job =
      if is_stranded job
      then quiet (fault "Prepared settlement requires operator reconciliation")
      else with_prices a.token_prices input a job

  -- The round of one job.
  abbrev pub after_sent :
      Option (Ending F) → SettlementInput F → Answers F → SettlementJob F → Round F
  after_sent (some ending) input a job = quiet ending
  after_sent none input a job = settle_fresh input a job

  unfoldable pub attempt : SettlementInput F → Answers F → SettlementJob F → Round F
  attempt input a job = after_sent (check_sent input a job) input a job

  module _ (is_transient is_unrecoverable : String → Bool) where
    -- The handler of the round's errors.
    abbrev pub job_after : SettlementInput F → SettlementJob F → Ending F → SettlementJob F
    job_after input job (answer done) = done
    job_after input job (fault message) =
        retryable_job is_transient is_unrecoverable job input.now message
    job_after input job (fault_after signature output message) =
        reconciliation_job
          (record job { tx_signature = some signature; confirmed_output_atomic = some output })
          input.now message

    unfoldable pub process_job : SettlementInput F → Answers F → SettlementJob F → SettlementJob F
    process_job input a job = job_after input job (attempt input a job).ending
