-- ===== src/Fees.antt =====
-- Fee handling: the harvest gate (engine/harvest-gate.ts) and the routing and accounting of claimed
-- fees (engine/fee-destination.ts).
pub mod Persistence
pub mod Spikes
pub mod Harvest
pub mod Destination
