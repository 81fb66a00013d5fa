-- ===== src/Retry/Loop.antt =====
-- That the retries of engine/adapter-retry.ts end, and what they did by then.
use beam_clmm.Prelude.{
  Bool, ℕ, Option, List, ◌<◌, suc, ◌≤◌, ◌+◌, ◌⊎◌, arith, ◌≡◌, zero, false, some, ◌∷◌, refl,
  Bool-cases, true, inl, [], inr, leb, ◌||◌, not, ◌≢◌,
}
use beam_clmm.Number.{Number}
use beam_clmm.Retry.{
  Texts, RetryOptions, Attempts, retry_effect_with_backoff, Outcome, attempt_effect, RetryRun,
  Retry, is_retriable_error, on_outcome, gives_up, retry_delay,
}

over : (a k : ℕ) (b : Bool) → (leb a k || not b) ≡ true → (a ≤ k) ⊎ (b ≡ false)
over a k b h = ground arith

under : (a k : ℕ) (b : Bool) → (leb a k || not b) ≡ false → (k < a) × (b ≡ true)
under a k b h = ground arith

module _ {F T : Type 0} ⦃n : Number F⦄ (t : Texts F) (options : RetryOptions F)
    (world : Attempts F T) where
  -- Why an attempt is the last one.
  abbrev pub IsFinal : ℕ → Outcome F T → Type 0
  IsFinal attempt (Outcome.succeeded v) = Unit
  IsFinal attempt (Outcome.failed err) =
      (options.max_retries ≤ attempt) ⊎ (is_retriable_error t err ≡ false)

  -- The attempts from the given one on: each retry repeats a failed attempt that is retriable and that
  -- is not the last one allowed, after its own delay, and the last attempt gives the result.
  abbrev pub IsTrace : ℕ → List (Retry F) → Outcome F T → Type 0
  IsTrace attempt [] result = (world.outcome attempt ≡ result) × IsFinal attempt result
  IsTrace attempt (r ∷ rs) result =
      (world.outcome attempt ≡ Outcome.failed r.error)
      × (is_retriable_error t r.error ≡ true)
      × (attempt < options.max_retries)
      × (r.delay ≡ retry_delay t options world attempt r.error)
      × IsTrace (suc attempt) rs result

  abbrev pub RunsFrom : ℕ → Option (RetryRun F T) → Type 0
  RunsFrom attempt o =
      (run : RetryRun F T) × (o ≡ some run) × IsTrace attempt run.retries run.result

  on_outcome-IsTrace :
      (o : Outcome F T) (attempt : ℕ) (rest : Option (RetryRun F T))
      → world.outcome attempt ≡ o
      → (attempt < options.max_retries → RunsFrom (suc attempt) rest)
      → RunsFrom attempt (on_outcome t options world o attempt rest)
  on_outcome-IsTrace (Outcome.succeeded v) attempt rest e f = (_, refl, (e, tt))
  on_outcome-IsTrace (Outcome.failed err) attempt rest e f =
      elim (Bool-cases (gives_up t options world attempt err)) [
        | inl stop ↦ rw stop (_, refl, (e, over options.max_retries attempt _ stop))
        | inr go ↦
            let (more, again) = under options.max_retries attempt _ go in
            let (run, ran, trace) = f more in rw (go, ran) (_, refl, (e, again, more, refl, trace))
      ]

  attempt_effect-RunsFrom :
      (fuel attempt : ℕ)
      → options.max_retries < fuel + attempt
      → attempt ≤ options.max_retries
      → RunsFrom attempt (attempt_effect t options world fuel attempt)
  unfolding attempt_effect
  attempt_effect-RunsFrom zero attempt h k =
      let absurd : attempt ≢ attempt = omega arith in elim (absurd refl) [ ]
  attempt_effect-RunsFrom (suc fuel) attempt h k =
      on_outcome-IsTrace (world.outcome attempt) attempt _ refl
        (λ more. attempt_effect-RunsFrom fuel (suc attempt) (omega arith) (omega arith))

  -- The retries end, whatever the options and the outcomes are: they return the outcome of their last
  -- attempt, which is a success, an error that is not retriable, or the attempt after the allowed
  -- number of retries, and every attempt before it failed with a retriable error.
  pub retry_effect_with_backoff-RunsFrom : RunsFrom 0 (retry_effect_with_backoff t options world)
  unfolding retry_effect_with_backoff
  retry_effect_with_backoff-RunsFrom =
      attempt_effect-RunsFrom (suc options.max_retries) 0 (omega arith) (omega arith)
