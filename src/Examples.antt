-- ===== src/Examples.antt =====
-- The theorems at concrete inputs, over the numbers of Number.Fixed.
pub mod Data
pub mod Candidates
pub mod Entries
pub mod Moves
pub mod Costs
pub mod Proposals
pub mod Rotations
pub mod Waits
pub mod Sizes
pub mod Settlements
pub mod Ladders
pub mod Markets
pub mod Positions
pub mod Exits
pub mod Enters
