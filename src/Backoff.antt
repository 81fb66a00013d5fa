-- ===== src/Backoff.antt =====
-- The waits after failures: engine/entry-backoff.ts and the circuit breaker of
-- engine/proposal-backoff.ts. Times are whole milliseconds and counts are whole, so they are naturals;
-- `now - since >= span` is written `since + span <= now`.
pub mod Proposal
pub mod Entry
pub mod Breaker
pub mod Cooldown
pub mod BreakerLaws
