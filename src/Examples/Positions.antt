-- ===== src/Examples/Positions.antt =====
-- Reconciliations at concrete inputs.
use beam_clmm.Prelude.{
  some, none, true, [], ◌∷◌, refl, first, later, String, List, map_get, Option, StringMap, filter,
  ℕ, ◌≡◌, arith, find, any,
}
use beam_clmm.Tracking.Stable.{IsManaged, reconcile_positions-IsManaged}
use beam_clmm.Tracking.{PoolView, PositionRecord, OnChainPosition}
use beam_clmm.Tracking.Reconcile.{
  Writes, reconcile_positions, is_live, Chain, has_pub_key, is_tracked_position_gone,
}
use beam_clmm.Tracking.Synced.{IsSynced, reconcile_positions-IsSynced}
use beam_clmm.Tracking.Table.{open_row}
use beam_clmm.Prelude.Int.{ℤ, pos}
use beam_clmm.Number.Fixed.{Fixed, fixed_number}
use beam_clmm.Tracking.Again.{reconcile_positions_again}
use beam_clmm.Tracking.Complete.{map_get-reconcile_positions}
use beam_clmm.Examples.Data.{num}

abbrev pub position_at : String → ℤ → ℤ → PositionRecord Fixed
position_at id lower upper = record {
  position_id = id;
  pool_address = "A";
  position_pub_key = some id;
  deposited_usd = num 100;
  current_value_usd = num 95;
  token_x_symbol = "WETH";
  token_y_symbol = "USDC";
  active_bin_id = pos 20;
  lower_bin_id = lower;
  upper_bin_id = upper;
  timestamp = 1000;
  out_of_range_since = none;
  oor_cycle_count = 0;
  last_fee_claim_at = 1000;
  trailing_stop_threshold = none;
  highest_value_usd = none;
  last_rebalance_at = 1000;
  paper_exited_at = none;
  entry_signal_timestamp = none;
  entry_signal_snapshot_id = some 7;
  entry_price_usd = some (num 2);
  entry_amount_x_usd = some (num 50);
  entry_amount_y_usd = some (num 50);
  cumulative_fees_claimed_usd = num 3;
  cumulative_rewards_claimed_usd = num 0;
  closed_at = none;
  realized_pnl_usd = none;
  position_mode = none;
  tp_ladder_json = none;
  invalidation_stop_price = none;
}

abbrev pub on_chain : String → String → ℕ → OnChainPosition
on_chain pool key shares = record {
  pool_address = pool;
  position_pub_key = key;
  lower_bin_id = pos 10;
  upper_bin_id = pos 40;
  liquidity_shares = pos shares;
  tokens_owed_x = pos 2;
  tokens_owed_y = pos 0;
}

-- A live position that is tracked with another range, a live one that is not tracked, and a shell.
abbrev wallet : List OnChainPosition
wallet = on_chain "A" "p1" 5 ∷ on_chain "B" "p2" 9 ∷ on_chain "A" "p3" 0 ∷ []

abbrev chain_of : Option PoolView → List OnChainPosition → Chain
chain_of pool ps = record {
  has_wallet = true;
  wallet_address = some "0xw";
  wallet_positions = some ps;
  pool_state = λ p. pool;
  now = 5000;
}

abbrev view : PoolView
view = record { token_x_symbol = "LINK"; token_y_symbol = "USDC"; active_bin_id = pos 15 }

abbrev book : StringMap (PositionRecord Fixed)
book = ("p1", position_at "p1" (pos 0) (pos 30)) ∷ ("p3", position_at "p3" (pos 10) (pos 40)) ∷ []

abbrev all_written : Writes
all_written = record { saves = λ id. true; deletes = λ id. true }

-- The open rows of a table of open rows.
book_agrees : (k : String) → open_row (map_get k book) ≡ map_get k book
unfolding map_get
book_agrees k = ground arith

map_get-reconcile_positions_example :
    map_get "p1"
      (reconcile_positions all_written
        (chain_of (some view) wallet)
        ("A" ∷ [])
        book
        book).book.tracked
    ≡ some (position_at "p1" (pos 10) (pos 40))
unfolding map_get filter is_live find has_pub_key is_tracked_position_gone any
map_get-reconcile_positions_example =
    map_get-reconcile_positions all_written (chain_of (some view) wallet) ("A" ∷ []) book book "p1"
      (refl, (refl, tt)) (refl, (refl, tt))

reconcile_positions-IsManaged_example :
    IsManaged
      ("A" ∷ [])
      none
      (reconcile_positions all_written (chain_of none wallet) ("A" ∷ []) book book).book
      (on_chain "B" "p2" 9)
unfolding map_get filter is_live find has_pub_key
reconcile_positions-IsManaged_example =
    reconcile_positions-IsManaged all_written (chain_of none wallet) ("A" ∷ []) book book wallet
      (on_chain "B" "p2" 9) refl (refl, (refl, tt)) (refl, (refl, tt)) (later (first refl))

reconcile_positions-IsSynced_example :
    IsSynced
      (filter is_live wallet)
      (reconcile_positions all_written
        (chain_of (some view) wallet)
        ("A" ∷ [])
        book
        book).book.tracked
      (reconcile_positions all_written (chain_of (some view) wallet) ("A" ∷ []) book book).book.rows
unfolding filter is_live map_get
reconcile_positions-IsSynced_example =
    reconcile_positions-IsSynced all_written (chain_of (some view) wallet) ("A" ∷ []) book book
      wallet (λ id. refl) (λ id. refl) refl
      (record { agree = book_agrees; own_ids = (refl, (refl, tt)); unclosed = (refl, (refl, tt)) })

reconcile_positions_again_example :
    map_get "p2"
      (reconcile_positions all_written
        (chain_of (some view) wallet)
        ("A" ∷ [])
        (reconcile_positions all_written
          (chain_of (some view) wallet)
          ("A" ∷ [])
          book
          book).book.tracked
        []).book.tracked
    ≡ map_get "p2"
        (reconcile_positions all_written
          (chain_of (some view) wallet)
          ("A" ∷ [])
          book
          book).book.tracked
unfolding map_get filter is_live find has_pub_key
reconcile_positions_again_example =
    reconcile_positions_again all_written (chain_of (some view) wallet) ("A" ∷ []) book book []
      wallet "p2" refl (refl, (refl, tt)) (refl, (refl, tt))
