-- ===== src/Examples/Waits.antt =====
-- Waits and breakers at concrete inputs.
use beam_clmm.Examples.Data.{num}
use beam_clmm.Prelude.{◌≡◌, some, true, List, [], ◌∷◌, arith}
use beam_clmm.Number.{lit}
use beam_clmm.Number.Fixed.{Fixed, fixed_number}
use beam_clmm.Backoff.Breaker.{
  ProposalCircuitBreaker, BreakerCall, run_breaker, new_breaker, failed_at, asked_at, succeeded,
}
use beam_clmm.Backoff.Cooldown.{ExitCooldownConfig}
use beam_clmm.Backoff.BreakerLaws.{IsConsistent, run_breaker-new-IsConsistent}

abbrev calls : List BreakerCall
calls = failed_at 10 ∷ failed_at 20 ∷ asked_at 30 ∷ succeeded ∷ failed_at 40 ∷ []

run_breaker-new-IsConsistent_example :
    let b = run_breaker (new_breaker 2 60) calls in
    IsConsistent b × (b.failure_threshold ≡ 2) × (b.cooldown_ms ≡ 60)
run_breaker-new-IsConsistent_example = run_breaker-new-IsConsistent 2 60 calls (omega arith)

abbrev opened : ProposalCircuitBreaker
opened = record { failures = 2; opened_at = some 20; failure_threshold = 2; cooldown_ms = 60 }

abbrev cooling : ExitCooldownConfig Fixed
cooling = record {
  oor_cooldown_ms = num 3600;
  repeat_oor_cooldown_ms = num 9000;
  max_oor_cooldown_exits = num 3;
  rotation_cooldown_ms = num 100;
  fee_density_cooldowns = true;
  fee_density_cooldown_min_ms = num 600;
  fee_density_high_pct = lit 5 1;
  fee_density_low_pct = lit 1 1;
}
