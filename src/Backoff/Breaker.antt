-- ===== src/Backoff/Breaker.antt =====
-- `ProposalCircuitBreaker` of engine/proposal-backoff.ts: the object's private fields, and each method
-- as a function that returns the new object with its result.
use beam_clmm.Prelude.{
  none, Option, List, ℕ, Bool, ◌+◌, false, if◌then◌else◌, not, some, leb, true, ◌&&◌, is_none, ◌∷◌,
  [],
}

pub record ProposalCircuitBreaker : Type 0 where
  pub failures : ℕ
  pub opened_at : Option ℕ
  pub failure_threshold : ℕ
  pub cooldown_ms : ℕ

unfoldable pub new_breaker : ℕ → ℕ → ProposalCircuitBreaker
new_breaker threshold cooldown = record {
  failures = 0;
  opened_at = none;
  failure_threshold = threshold;
  cooldown_ms = cooldown;
}

unfoldable pub record_failure : ProposalCircuitBreaker → ℕ → ProposalCircuitBreaker
record_failure b now =
    let counted = record b { failures = b.failures + 1 } in
    if leb b.failure_threshold (b.failures + 1) && is_none b.opened_at
    then record counted { opened_at = some now }
    else counted

unfoldable pub record_success : ProposalCircuitBreaker → ProposalCircuitBreaker
record_success b = record b { failures = 0; opened_at = none }

abbrev open_since : Option ℕ → ProposalCircuitBreaker → ℕ → ProposalCircuitBreaker × Bool
open_since none b now = (b, false)
open_since (some at) b now =
    if leb (at + b.cooldown_ms) now
    then (record b { opened_at = none; failures = 0 }, false)
    else (b, true)

-- `isOpen` closes the breaker when its cooldown is over.
unfoldable pub is_open : ProposalCircuitBreaker → ℕ → ProposalCircuitBreaker × Bool
is_open b now = open_since b.opened_at b now

unfoldable pub can_try : ProposalCircuitBreaker → ℕ → ProposalCircuitBreaker × Bool
unfolding is_open
can_try b now = let (b', open_now) = is_open b now in (b', not open_now)

pub record BackoffSnapshot : Type 0 where
  pub failures : ℕ
  pub is_open_now : Bool

-- `now` is `Date.now()`; the failures are read after `isOpen`.
unfoldable pub get_state : ProposalCircuitBreaker → ℕ → ProposalCircuitBreaker × BackoffSnapshot
unfolding is_open
get_state b now =
    let (b', open_now) = is_open b now in
    (b', record { failures = b'.failures; is_open_now = open_now })

pub data BreakerCall : Type 0 where
  failed_at asked_at state_at : ℕ → BreakerCall
  succeeded : BreakerCall

unfoldable pub call_breaker : ProposalCircuitBreaker → BreakerCall → ProposalCircuitBreaker
unfolding record_failure record_success can_try get_state
call_breaker b (failed_at t) = record_failure b t
call_breaker b (asked_at t) = (can_try b t).0
call_breaker b (state_at t) = (get_state b t).0
call_breaker b succeeded = record_success b

unfoldable pub run_breaker : ProposalCircuitBreaker → List BreakerCall → ProposalCircuitBreaker
run_breaker b [] = b
run_breaker b (c ∷ cs) = run_breaker (call_breaker b c) cs
