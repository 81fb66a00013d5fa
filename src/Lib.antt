-- ===== src/Lib.antt =====
-- The decision rules of the liquidity engine under engine/: which tokens become candidates, what
-- passes the risk gates, which proposals of agents are carried out, when a position is given up for a
-- better pool, how large an entry is, how long a failure or an exit waits, what happens to fees, how
-- what an exit leaves is settled, which pools are scanned, when a position takes its profit, how the
-- tracked positions are reconciled with the chain, and what an entry or an
-- exit changes.
--
-- Parts and files
--   Prelude    shared tests, lists with membership, string maps and integers over native naturals
--   Number     the source's `number`: its operations, the laws of IEEE 754 that are relied on, of
--              comparison (Order) and of monotone rounding (Rounding), and a decimal type that meets
--              them (Fixed, FixedRounding), on which the examples run
--   Candidate  engine/candidate-policy.ts: evaluateCandidateHealth (Health) and transitionCandidate on
--              the record of engine/types.ts; its invariant, its state diagram and its histories
--   Risk       engine/risk-service.ts: evaluateRisk (Gates; Enter, Size and Rebalance state what an
--              approval means), evaluatePerPoolAllocation (Allocation,
--              Admitted), the gas, compounding, capital
--              and paper gates (Costs, CostLaws), evaluateAgentProposal (ProposalGates, Proposal;
--              ProposalSafety and ProposalSize), tokenAmountToUsd (Amounts)
--   Rotation   engine/rotation-controller.ts: evaluateRotation (Choice), observeRotationPair (Streak),
--              assessImpaired (Impairment)
--   Backoff    engine/entry-backoff.ts (Entry), engine/proposal-backoff.ts (Breaker and BreakerLaws for
--              its class, Proposal for its functions), engine/cooldown.ts (Cooldown)
--   Fees       engine/harvest-gate.ts (Harvest), engine/fee-destination.ts (Destination),
--              engine/fee-persistence.ts (Persistence, Spikes)
--   Sizing     engine/entry-sizing.ts (Entry), engine/gas-reserve.ts (Gas), engine/range-floor.ts (Width,
--              Ticks), engine/entry-sol-budget.ts (Budget)
--   Settlement engine/autonomous-runtime.ts: processSettlementJobs, one round for a job (Step up to the
--              fresh swap, Swap for the rest; Laws and Sends on both) and the pass over all jobs (Pass,
--              Closing), sweepOrphanSettlements (Sweep, Orphans), the safety pause
--              (Pause) and the stored equity baseline (Baseline)
--   Ladder     engine/tp-ladder.ts: buildTpLadder and evaluateTpLadder (Reached, Order), the stored form
--              (Json, Stored); evaluateExitFallenAngel of engine/program.ts (Json, Exit)
--   Market     engine/market-gate.ts: the gates (Laws), scores (Score), gateAndRankMarketPools (Rank,
--              Order, Counts)
--   Retry      retryEffectWithBackoff of engine/adapter-retry.ts (Loop)
--   Pnl        engine/pnl.ts (Value, Portfolio) and summarizeRewardClaim of engine/rewards.ts
--   Pools      engine/challenge-strategy.ts (Challenge, Hysteresis) and
--              engine/depeg-liquidity-detector.ts (Depeg)
--   Tracking   engine/program.ts: reconcilePositions (Reconcile); what it does to one key (View,
--              Complete; Keys, Again), to each live position (Managed, Untracked, Stable) and to
--              the positions table of engine/db-service.ts (Table, Synced)
--   Execution  engine/program.ts: the EXIT branch of executeLive, its attempt on chain (Exit), its
--              settlement and bookkeeping (Settle), the whole (Live); what its success and failure
--              mean (Left, ExitLaws, Closed), its operation (Finished, over Booked) and its jobs
--              (Jobs, Returns); the ENTER branch (Enter) and what its success and failure mean
--              (EnterLaws, EnterFails); recoverStaleExecutionOperations (Recovery, Recovered)
--   Examples   the theorems at concrete inputs
-- A function keeps its name, in snake case. The parts meet in Risk: a proposal is capped by the
-- allocation gate, and the capital gates call the gas gate and shouldHoldForRecovery of
-- engine/strategy-service.ts. An entry is gated by the budget of engine/gas-reserve.ts and widened by
-- engine/range-floor.ts. A settlement pass closes positions with the figures of engine/pnl.ts, the
-- orphan sweep feeds rows to later passes, and a fallen-angel exit reads a stored ladder back. An exit
-- works on the tracked positions that a reconciliation maintains, and saves the jobs that the settlement
-- passes process. The engine calls every part with plain values and stores what comes back.
--
-- Choices
--   A gate that returns null or a result is an optional result, and the chain of gates is a chain of
--   such values. A message is a constructor; the numbers in its text are left out. An optional field
--   is an option, an exception the left side of a sum, a bigint an integer of any size. Times are
--   whole milliseconds and counts are whole, both naturals, so `now - since >= span` is written
--   `since + span <= now`. A mutable breaker is passed from call to call. What an
--   adapter, a database or an effect answers is data that a function is given, call by call. Loops are
--   structural recursion on lists; the retry loop runs on fuel, one more than the retries allowed,
--   which is proved to be enough. A sort is insertion by the source's comparison, which is stable.
--   Floating-point arithmetic is not axiomatized beyond comparison, Math.min and Math.max, the
--   monotonicity of rounded sums and products, and the sign of a difference; theorems say where a value
--   must be finite or not NaN. Case conversion, logarithms, powers, JSON and the tests of error texts
--   by regular expressions are parameters.
--   The state that the engine mutates is a record that each step maps to the next one; which writes to
--   the database succeed is a parameter, and within one pass, entry or exit the clock stands still.
--
-- Not modelled: the engine loop, the REBALANCE branch of executeLive and paper execution, the other
-- tables of the database, adapters of chains, transports of agents, price and screening services and
-- the command line, which are I/O; texts of logs and memories, metadata of events, the log of retries,
-- and the signals of strategy-service.ts (all but the range of an entry), lvr-estimator.ts and
-- market-stress.ts.
pub mod Prelude
pub mod Number
pub mod Candidate
pub mod Risk
pub mod Rotation
pub mod Backoff
pub mod Fees
pub mod Sizing
pub mod Settlement
pub mod Ladder
pub mod Market
pub mod Retry
pub mod Pnl
pub mod Pools
pub mod Tracking
pub mod Execution
pub mod Examples
