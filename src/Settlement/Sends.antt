-- ===== src/Settlement/Sends.antt =====
-- When a round of engine/autonomous-runtime.ts sends a transaction, and what becomes of a job whose
-- round died before the broadcast.
use beam_clmm.Prelude.{
  Bool, true, false, Option, some, none, ◌≡◌, ◌⊎◌, inl, inr, refl, arith, any, Bool-cases, String,
  ◌<◌, [], ◌≢◌, str_eq, ◌∙◌, ap, str_eq_iff,
}
use beam_clmm.Number.{Number}
use beam_clmm.Settlement.Step.{
  SettlementInput, Call, save, send, is_stranded, check_sent, ask, on_status, fault,
}
use beam_clmm.Settlement.{
  Answers, SettlementJob, retryable_job, ok, SwapState, Reply, JobStatus, err,
}
use beam_clmm.Settlement.Swap.{settle_fresh, process_job, attempt, after_sent}

abbrev pub is_send : {F : Type 0} → Call F → Bool
is_send send = true
is_send (save job) = false

module _ {F : Type 0} ⦃n : Number F⦄ (input : SettlementInput F) (a : Answers F)
    (job : SettlementJob F) where
  fresh-sends : any is_send (settle_fresh input a job).calls ≡ true → is_stranded job ≡ false
  unfolding settle_fresh any
  fresh-sends h = elim (Bool-cases (is_stranded job)) [
    | inl e ↦ absurd (cc (rw (e, settle_fresh, any) at h))
    | inr e ↦ e
  ]

  -- Why the last transaction of the job is out of the way: no signature of it is recorded, the adapter
  -- has no call to ask with, or the call says that it failed.
  abbrev pub IsClear : Type 0
  IsClear =
      ((job.tx_signature ≡ none) ⊎ (job.tx_signature ≡ some ""))
      ⊎ (a.swap_status ≡ none)
      ⊎ ((signature : String) × (status : String → Reply SwapState) × (job.tx_signature
            ≡ some signature)
          × (a.swap_status ≡ some status)
          × (status signature ≡ ok SwapState.failed))

  unasked-IsClear :
      (sig : Option String) (status : Option (String → Reply SwapState))
      → job.tx_signature ≡ sig
      → a.swap_status ≡ status
      → ask sig status ≡ none
      → IsClear
  unasked-IsClear none status e f h = inl (inl e)
  unasked-IsClear (some signature) none e f h = inr (inl f)
  unasked-IsClear (some signature) (some status) e f h = elim (Bool-cases (str_eq signature "")) [
    | inl b ↦ inl (inr (e ∙ ap some ((str_eq_iff signature "").0 b)))
    | inr b ↦
        let k : ◌≡◌ {A = Option (Reply SwapState)} (some (status signature)) none = rw b at h in cc
  ]

  failed-IsClear :
      (sig : Option String) (status : Option (String → Reply SwapState))
      → job.tx_signature ≡ sig
      → a.swap_status ≡ status
      → ask sig status ≡ some (ok SwapState.failed)
      → IsClear
  failed-IsClear none status e f h = cc
  failed-IsClear (some signature) none e f h = cc
  failed-IsClear (some signature) (some status) e f h = elim (Bool-cases (str_eq signature "")) [
    | inl b ↦
        let k : ◌≡◌ {A = Option (Reply SwapState)} none (some (ok SwapState.failed)) = rw b at h in
        cc
    | inr b ↦
        let k : ◌≡◌ {A = Option (Reply SwapState)} (some (status signature))
            (some (ok SwapState.failed)) =
          rw b at h in
        inr (inr (signature, status, e, f, cc))
  ]

  unstranded : is_stranded job ≡ false → (job.status ≡ JobStatus.prepared) → job.tx_signature ≢ none
  unstranded h e f = let k : true ≡ false = rw (e, f) at h in cc

  -- A round that sends a transaction had no recorded signature to ask about, or no adapter call to ask
  -- with, or was told that the recorded transaction failed; and its row was not prepared without a
  -- signature.
  pub attempt-sends :
      any is_send (attempt input a job).calls ≡ true
      → IsClear × ((job.status ≡ JobStatus.prepared) → job.tx_signature ≢ none)
  unfolding attempt check_sent any
  attempt-sends h = sends (ask job.tx_signature a.swap_status) refl h
    where
      sends :
          (s : Option (Reply SwapState))
          → ask job.tx_signature a.swap_status ≡ s
          → any is_send (after_sent (on_status s input a job) input a job).calls ≡ true
          → IsClear × ((job.status ≡ JobStatus.prepared) → job.tx_signature ≢ none)
      sends none e h =
          (unasked-IsClear job.tx_signature a.swap_status refl refl e, unstranded (fresh-sends h))
      sends (some (ok SwapState.failed)) e h =
          (failed-IsClear job.tx_signature a.swap_status refl refl e, unstranded (fresh-sends h))
      sends (some (ok SwapState.confirmed)) e h = cc
      sends (some (ok SwapState.finalized)) e h = cc
      sends (some (ok SwapState.processed)) e h = cc
      sends (some (ok SwapState.not_found)) e h = cc
      sends (some (err m)) e h = cc

  -- A stranded job, whose transaction may have been sent, is said to require an operator, but the
  -- error that says so is retried: unless the job has expired or the text counts as hopeless, its row
  -- becomes retryable, still without a signature, and no later round takes it for stranded.
  pub stranded-rearmed :
      (is_transient is_unrecoverable : String → Bool)
      → is_stranded job ≡ true
      → is_unrecoverable "Prepared settlement requires operator reconciliation" ≡ false
      → input.now < job.expires_at
      → let after = process_job is_transient is_unrecoverable input a job in
        (after.status ≡ JobStatus.retryable)
        × (after.tx_signature ≡ none)
        × (is_stranded after ≡ false)
  unfolding process_job attempt check_sent settle_fresh retryable_job
  stranded-rearmed is_transient is_unrecoverable s hopeful early =
      let unsigned : job.tx_signature ≡ none = ground arith in
      let unasked : ask job.tx_signature a.swap_status ≡ none = rw unsigned refl in
      let message : String = "Prepared settlement requires operator reconciliation" in
      let ended : attempt input a job ≡ record { ending = fault message; calls = [] } =
        rw (attempt, check_sent, unasked, settle_fresh, s) refl in
      rw (process_job, ended) (ground arith)
