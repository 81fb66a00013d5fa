-- ===== src/Settlement/Sweep.antt =====
-- `sweepOrphanSettlements` of engine/autonomous-runtime.ts: tokens in the wallet that nothing accounts
-- for are queued for settlement. `toLowerCase`, the stablecoin of the chain and fresh ids are
-- parameters; a read that fails is the empty answer that the source puts in its place.
use beam_clmm.Prelude.{
  Bool, Option, some, none, String, ℕ, ◌+◌, List, [], ◌∷◌, ◌++◌, map, filter, any, not, ◌&&◌, ◌||◌,
  if◌then◌else◌, str_eq, is_none, ◌or◌, ◌or_else◌, is_empty,
}
use beam_clmm.Prelude.Int.{ℤ, pos, leb_ℤ, ltb_ℤ}
use Prim.Native.String.{◌++◌ as str_append}
use beam_clmm.Number.{Number, int, ◌>?◌, ◌≤?◌, ◌<?◌}
use beam_clmm.Settlement.{SettlementJob, JobStatus}
use beam_clmm.Settlement.Laws.{is_terminal}
use beam_clmm.Settlement.Pause.{is_open_job}
use beam_clmm.Settlement.Step.{native_mint, atomic_usd, starts_with}

pub record Holding : Type 0 where
  pub mint : String
  pub amount_atomic : ℤ
  pub decimals : ℕ

pub record OpenPosition : Type 0 where
  pub position_id : String
  pub pool_address : String

-- What the adapter and the database answer, and the configuration.
pub record SweepInput (F : Type 0) : Type 0 where
  pub has_wallet : Bool
  pub holdings : List Holding
  pub existing_jobs : List (SettlementJob F)
  pub open_positions : List OpenPosition
  pub pool_tokens : String → Option (String × String)
  -- the prices of the mints that are asked for
  pub token_prices : List String → String → Option F
  pub wallet_address : String
  pub agent_instance_id : String
  pub settlement_max_pending_ms : ℕ
  pub settlement_dust_usd : F
  pub now : ℕ

module _ (to_lower_case : String → String) (stablecoin_mint : String) where
  abbrev pub is_candidate : Holding → Bool
  is_candidate h =
      not (str_eq (to_lower_case h.mint) (to_lower_case native_mint))
      && (not (str_eq (to_lower_case h.mint) (to_lower_case stablecoin_mint))
          && ltb_ℤ (pos 0) h.amount_atomic)

abbrev pub pool_mints : Option (String × String) → List String
pool_mints none = []
pool_mints (some (x, y)) = x ∷ y ∷ []

-- The legs of the pools of live positions.
unfoldable pub position_mints :
    (String → Option (String × String)) → List OpenPosition → List String
position_mints tokens [] = []
position_mints tokens (p ∷ ps) =
    (if starts_with "paper-" p.position_id then [] else pool_mints (tokens p.pool_address))
    ++ position_mints tokens ps

module _ {F : Type 0} where
  abbrev pub backed_mints : SweepInput F → List String
  backed_mints i =
      map (λ job. job.token_mint) (filter is_open_job i.existing_jobs)
      ++ position_mints i.pool_tokens i.open_positions

  abbrev pub is_backed : SweepInput F → String → Bool
  is_backed i mint = any (str_eq mint) (backed_mints i)

  abbrev pub is_revivable : String → SettlementJob F → Bool
  is_revivable mint job =
      is_terminal job.status
      && (is_none job.confirmed_output_atomic
          && (is_none job.tx_signature && str_eq job.token_mint mint))

  -- `terminalByMint.get(mint)`: the last such row.
  unfoldable pub terminal_of : String → List (SettlementJob F) → Option (SettlementJob F)
  terminal_of mint [] = none
  terminal_of mint (job ∷ jobs) =
      terminal_of mint jobs or_else (if is_revivable mint job then some job else none)

module _ {F : Type 0} ⦃n : Number F⦄ (to_lower_case : String → String) (stablecoin_mint : String)
    (fresh_id : String → String) where
  abbrev prices : SweepInput F → String → Option F
  prices i =
      i.token_prices
        (map (λ h. h.mint) (filter (is_candidate to_lower_case stablecoin_mint) i.holdings))

  abbrev pub price_usd : SweepInput F → String → F
  price_usd i mint = prices i mint or int 0

  abbrev pub is_dust : SweepInput F → Holding → Bool
  is_dust i h =
      (i.settlement_dust_usd >? int 0)
      && ((price_usd i h.mint ≤? int 0)
          || (atomic_usd h.amount_atomic h.decimals (price_usd i h.mint) <? i.settlement_dust_usd))

  -- A row that is revived keeps its id and its attempts; a fresh one starts at none.
  abbrev pub queue : Option (SettlementJob F) → SweepInput F → Holding → SettlementJob F
  queue (some terminal) i h = record terminal {
    status = JobStatus.pending;
    attempts = terminal.attempts + 1;
    amount_atomic = h.amount_atomic;
    next_retry_at = some i.now;
    expires_at = i.now + i.settlement_max_pending_ms;
    error = none;
    updated_at = i.now;
  }
  queue none i h = record {
    id = fresh_id h.mint;
    wallet_address = i.wallet_address;
    agent_instance_id = i.agent_instance_id;
    position_id = str_append "orphan:" (fresh_id h.mint);
    pool_address = "";
    token_mint = h.mint;
    amount_atomic = h.amount_atomic;
    status = JobStatus.pending;
    attempts = 0;
    next_retry_at = some i.now;
    tx_signature = none;
    confirmed_output_atomic = none;
    output_usd = none;
    execution_cost_usd = none;
    finalized_at = none;
    realized_pnl_usd = none;
    expires_at = i.now + i.settlement_max_pending_ms;
    error = none;
    created_at = i.now;
    updated_at = i.now;
  }

  abbrev pub is_orphan : SweepInput F → Holding → Bool
  is_orphan i h =
      not (
        str_eq h.mint native_mint
        || (str_eq h.mint stablecoin_mint || leb_ℤ h.amount_atomic (pos 0)))
      && (not (is_backed i h.mint) && not (is_dust i h))

  unfoldable pub queue_orphans : SweepInput F → List Holding → List (SettlementJob F)
  unfolding terminal_of
  queue_orphans i [] = []
  queue_orphans i (h ∷ hs) =
      let rest = queue_orphans i hs in
      if is_orphan i h then queue (terminal_of h.mint i.existing_jobs) i h ∷ rest else rest

  unfoldable pub sweep_orphan_settlements : SweepInput F → List (SettlementJob F)
  sweep_orphan_settlements i =
      if not i.has_wallet
      then []
      else if is_empty (filter (is_candidate to_lower_case stablecoin_mint) i.holdings)
      then []
      else queue_orphans i i.holdings
