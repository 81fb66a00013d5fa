-- ===== src/Backoff/BreakerLaws.antt =====
-- When the circuit breaker of engine/proposal-backoff.ts is open.
use beam_clmm.Backoff.Breaker.{
  call_breaker, run_breaker, can_try, ProposalCircuitBreaker, new_breaker, BreakerCall,
  record_success, failed_at, asked_at, state_at, succeeded,
}
use beam_clmm.Prelude.{
  List, is_none, ◌≡◌, ℕ, ◌<◌, none, suc, ltb, map, some, get_elem?, arith, ◌+◌, false, refl, true,
  ◌∷◌, [], ◌∙◌, zero, if◌then◌else◌, leb,
}

-- Open exactly when the failures have reached the threshold.
abbrev pub IsConsistent : ProposalCircuitBreaker → Type 0
IsConsistent b = is_none b.opened_at ≡ ltb b.failures b.failure_threshold

-- The settings do not change.
abbrev SameSettings : ProposalCircuitBreaker → ProposalCircuitBreaker → Type 0
SameSettings b c = (c.failure_threshold ≡ b.failure_threshold) × (c.cooldown_ms ≡ b.cooldown_ms)

call_breaker-IsConsistent :
    (b : ProposalCircuitBreaker) (c : BreakerCall)
    → 0 < b.failure_threshold
    → IsConsistent b
    → IsConsistent (call_breaker b c) × SameSettings b (call_breaker b c)
unfolding call_breaker
call_breaker-IsConsistent b (failed_at t) pos h = ground arith
call_breaker-IsConsistent b (asked_at t) pos h = ground arith
call_breaker-IsConsistent b (state_at t) pos h = ground arith
call_breaker-IsConsistent b succeeded pos h = ground arith

run_breaker-IsConsistent :
    (b : ProposalCircuitBreaker) (cs : List BreakerCall)
    → 0 < b.failure_threshold
    → IsConsistent b
    → IsConsistent (run_breaker b cs) × SameSettings b (run_breaker b cs)
unfolding run_breaker
run_breaker-IsConsistent b [] pos h = (h, (refl, refl))
run_breaker-IsConsistent b (c ∷ cs) pos h =
    let (h', (t, d)) = call_breaker-IsConsistent b c pos h in
    let (h'', (t', d')) = run_breaker-IsConsistent (call_breaker b c) cs (omega arith) h' in
    (h'', (t' ∙ t, d' ∙ d))

-- After any calls on a new breaker with a positive threshold, it is open exactly when the failures
-- counted since the last reset have reached the threshold, and its settings are unchanged.
pub run_breaker-new-IsConsistent :
    (threshold cooldown : ℕ) (cs : List BreakerCall)
    → 0 < threshold
    → let b = run_breaker (new_breaker threshold cooldown) cs in
      IsConsistent b × (b.failure_threshold ≡ threshold) × (b.cooldown_ms ≡ cooldown)
unfolding new_breaker
run_breaker-new-IsConsistent threshold cooldown cs pos =
    let (h, (t, d)) =
      run_breaker-IsConsistent (new_breaker threshold cooldown) cs pos (ground arith) in
    (h, t, d)

-- Failures at the given times, oldest first.
abbrev pub failures_at : List ℕ → List BreakerCall
failures_at = map failed_at

stays_open :
    (b : ProposalCircuitBreaker) (ts : List ℕ) (at : ℕ)
    → b.opened_at ≡ some at
    → (run_breaker b (failures_at ts)).opened_at ≡ some at
unfolding run_breaker call_breaker
stays_open b [] at h = h
stays_open b (t ∷ ts) at h = stays_open (call_breaker b (failed_at t)) ts at (ground arith)

opens_at :
    (b : ProposalCircuitBreaker) (ts : List ℕ) (left : ℕ)
    → b.opened_at ≡ none
    → b.failures + suc left ≡ b.failure_threshold
    → (run_breaker b (failures_at ts)).opened_at ≡ get_elem? ts left
unfolding run_breaker call_breaker
opens_at b [] left h e = h
opens_at b (t ∷ ts) zero h e = stays_open (call_breaker b (failed_at t)) ts t (ground arith)
opens_at b (t ∷ ts) (suc left) h e =
    opens_at (call_breaker b (failed_at t)) ts left (ground arith) (ground arith)

-- A new breaker that sees only failures opens at the time of the failure that reaches its threshold,
-- and not before: `opened_at` is that time, or nothing while there are fewer.
failures-open_at :
    (left cooldown : ℕ) (ts : List ℕ)
    → (run_breaker (new_breaker (suc left) cooldown) (failures_at ts)).opened_at ≡ get_elem? ts left
unfolding new_breaker
failures-open_at left cooldown ts =
    opens_at (new_breaker (suc left) cooldown) ts left refl (omega arith)

-- Asked at any time, a breaker that opened at `at` refuses until the cooldown is over; asked from then
-- on it lets the call through, and has forgotten its failures.
can_try_opened :
    (b : ProposalCircuitBreaker) (at now : ℕ)
    → b.opened_at ≡ some at
    → can_try b now
      ≡ (if leb (at + b.cooldown_ms) now then (record_success b, true) else (b, false))
unfolding can_try record_success
can_try_opened b at now h = ground arith
