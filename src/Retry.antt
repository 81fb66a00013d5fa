-- ===== src/Retry.antt =====
-- `retryEffectWithBackoff` of engine/adapter-retry.ts without its log. Text operations, the parsing of
-- numbers and dates, the clock, the random draws and the outcomes of the effect are parameters. The
-- number of retries is natural, as every caller has it, and the options come with their defaults merged.
pub mod Loop
use beam_clmm.Prelude.{
  Bool, ◌||◌, Option, String, ℕ, List, leb, ◌or_else◌, some, none, if◌then◌else◌, false, suc, zero,
  [], not, ◌∷◌, str_eq, ◌&&◌, ◌^◌, ◌or◌,
}
use beam_clmm.Number.{Number, int, max, floor, is_finite, ◌≟◌, ◌⊗◌, ◌⊕◌, neg, lit, min, ◌≥?◌, ◌⊖◌}

pub data HeaderValue (F : Type 0) : Type 0 where
  text : String → HeaderValue F
  number : F → HeaderValue F
  other : HeaderValue F

-- The answer of `get("retry-after")` where the bag has a `get`, and the properties of the bag.
pub record HeaderBag (F : Type 0) : Type 0 where
  pub got : Option (HeaderValue F)
  pub retry_after : Option (HeaderValue F)
  pub capital_retry_after : Option (HeaderValue F)

-- What the code reads of an error; a value that is no object has none of it.
pub record RpcError (F : Type 0) : Type 0 where
  pub code : Option F
  pub message : Option String
  pub headers : Option (HeaderBag F)
  pub response_headers : Option (HeaderBag F)

pub record Texts (F : Type 0) : Type 0 where
  pub to_lower_case : String → String
  pub includes : String → String → Bool
  -- `String(n)`, `Number(s)` and `Date.parse(s)`
  pub number_text : F → String
  pub parse_number : String → F
  pub parse_date : String → F

module _ {F : Type 0} ⦃n : Number F⦄ (t : Texts F) where
  abbrev direct_header : Option (HeaderValue F) → Option String
  direct_header (some (HeaderValue.text s)) = some s
  direct_header (some (HeaderValue.number x)) = some (t.number_text x)
  direct_header _ = none

  abbrev got_text : Option (HeaderValue F) → Option String
  got_text (some (HeaderValue.text s)) = some s
  got_text _ = none

  abbrev get_header : Option (HeaderBag F) → Option String
  get_header none = none
  get_header (some bag) =
      got_text bag.got or_else direct_header (bag.retry_after or_else bag.capital_retry_after)

  abbrev retry_after_max_ms : F
  retry_after_max_ms = int 300000

  abbrev delay_of_header : F → String → Option F
  delay_of_header now header =
      if is_finite (t.parse_number header) && (t.parse_number header ≥? int 0)
      then some (min (t.parse_number header ⊗ int 1000) retry_after_max_ms)
      else if is_finite (t.parse_date header)
      then some (min (max (int 0) (t.parse_date header ⊖ now)) retry_after_max_ms)
      else none

  -- A missing or empty header is no delay.
  abbrev delay_of_text : F → Option String → Option F
  delay_of_text now none = none
  delay_of_text now (some header) = if str_eq header "" then none else delay_of_header now header

  unfoldable pub retry_after_ms : F → RpcError F → Option F
  retry_after_ms now err =
      delay_of_text now (get_header err.headers or_else get_header err.response_headers)

  abbrev is_rate_limit_code : Option F → Bool
  is_rate_limit_code none = false
  is_rate_limit_code (some code) = (code ≟ int 429) || (code ≟ neg (int 32005))

  abbrev is_rate_limit_text : String → Bool
  is_rate_limit_text message =
      t.includes message "429"
      || (t.includes message "rate limit" || t.includes message "too many requests")

  abbrev is_rate_limit_message : Option String → Bool
  is_rate_limit_message none = false
  is_rate_limit_message (some message) = is_rate_limit_text (t.to_lower_case message)

  abbrev is_timeout_message : Option String → Bool
  is_timeout_message none = false
  is_timeout_message (some message) = t.includes (t.to_lower_case message) "rpc request timeout"

  abbrev pub is_rate_limit_error : RpcError F → Bool
  is_rate_limit_error err = is_rate_limit_code err.code || is_rate_limit_message err.message

  abbrev pub is_retriable_error : RpcError F → Bool
  is_retriable_error err =
      is_rate_limit_code err.code
      || (is_rate_limit_message err.message || is_timeout_message err.message)

pub record RetryOptions (F : Type 0) : Type 0 where
  pub max_retries : ℕ
  pub base_delay_ms : F
  pub max_delay_ms : F
  pub rate_limit_base_delay_ms : F

abbrev pub default_retry_options : {F : Type 0} → ⦃n : Number F⦄ → RetryOptions F
default_retry_options = record {
  max_retries = 5;
  base_delay_ms = int 1000;
  max_delay_ms = int 30000;
  rate_limit_base_delay_ms = int 60000;
}

pub data Outcome (F T : Type 0) : Type 0 where
  succeeded : T → Outcome F T
  failed : RpcError F → Outcome F T

-- A failed attempt that is repeated, and the sleep before the next one.
pub record Retry (F : Type 0) : Type 0 where
  pub error : RpcError F
  pub delay : F

pub record RetryRun (F T : Type 0) : Type 0 where
  pub retries : List (Retry F)
  pub result : Outcome F T

-- What the attempts meet: the effect's outcome, the random draw and the clock of each.
pub record Attempts (F T : Type 0) : Type 0 where
  pub outcome : ℕ → Outcome F T
  pub random : ℕ → F
  pub now : ℕ → F

module _ {F T : Type 0} ⦃n : Number F⦄ (t : Texts F) (options : RetryOptions F)
    (world : Attempts F T) where
  abbrev exponential_delay : ℕ → RpcError F → F
  exponential_delay attempt err =
      if is_rate_limit_error t err
      then options.rate_limit_base_delay_ms ⊗ int (2 ^ attempt)
      else min options.max_delay_ms (options.base_delay_ms ⊗ int (2 ^ attempt))

  unfoldable pub retry_delay : ℕ → RpcError F → F
  unfolding retry_after_ms
  retry_delay attempt err =
      max
        (floor (
          exponential_delay attempt err
          ⊕ world.random attempt ⊗ exponential_delay attempt err ⊗ lit 5 1))
        (retry_after_ms t (world.now attempt) err or int 0)

  abbrev pub gives_up : ℕ → RpcError F → Bool
  gives_up attempt err = leb options.max_retries attempt || not (is_retriable_error t err)

  abbrev pub after_sleep : Retry F → Option (RetryRun F T) → Option (RetryRun F T)
  after_sleep r none = none
  after_sleep r (some run) = some (record { retries = r ∷ run.retries; result = run.result })

  abbrev pub on_outcome : Outcome F T → ℕ → Option (RetryRun F T) → Option (RetryRun F T)
  on_outcome (Outcome.succeeded v) attempt rest =
      some (record { retries = []; result = Outcome.succeeded v })
  on_outcome (Outcome.failed err) attempt rest =
      if gives_up attempt err
      then some (record { retries = []; result = Outcome.failed err })
      else after_sleep (record { error = err; delay = retry_delay attempt err }) rest

  -- `attempt` on fuel: `none` when the fuel runs out.
  unfoldable pub attempt_effect : ℕ → ℕ → Option (RetryRun F T)
  unfolding retry_delay
  attempt_effect zero attempt = none
  attempt_effect (suc fuel) attempt =
      on_outcome (world.outcome attempt) attempt (attempt_effect fuel (suc attempt))

  unfoldable pub retry_effect_with_backoff : Option (RetryRun F T)
  unfolding attempt_effect
  retry_effect_with_backoff = attempt_effect (suc options.max_retries) 0
