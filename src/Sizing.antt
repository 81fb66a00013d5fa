-- ===== src/Sizing.antt =====
-- How much an entry may use: engine/entry-sizing.ts, engine/gas-reserve.ts the range floors of
-- engine/range-floor.ts and the native budget of engine/entry-sol-budget.ts.
pub mod Entry
pub mod Gas
pub mod Width
pub mod Ticks
pub mod Budget
