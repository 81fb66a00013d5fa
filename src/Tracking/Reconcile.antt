-- ===== src/Tracking/Reconcile.antt =====
-- `reconcilePositions` of engine/program.ts: the tracked positions are brought in line with what the
-- wallet holds on chain. What the adapter and the table of positions answer is a parameter; the clock
-- stands still within a pass, and the texts that are logged or remembered are constructors.
use beam_clmm.Prelude.{
  StringMap, String, Option, List, Bool, str_eq, filter, none, if◌then◌else◌, [], not, ◌∷◌, false,
  ℕ, true, map_set, ◌or_else◌, map_get, any, map_remove, some, ◌&&◌, ◌||◌, ◌++◌,
}
use beam_clmm.Prelude.Int.{ℤ, ltb_ℤ, eq_ℤ, pos}
use beam_clmm.Tracking.{OnChainPosition, PoolView, PositionRecord}
use beam_clmm.Number.{Number, int}
use beam_clmm.Tracking.Table.{save_position, delete_position}

pub data Note : Type 0 where
  unclaimed : String → ℤ → ℤ → Note
  removed range_synced tracked_anew : String → Note

pub record Chain : Type 0 where
  pub has_wallet : Bool
  pub wallet_address : Option String
  -- `none` when the call fails
  pub wallet_positions : Option (List OnChainPosition)
  pub pool_state : OnChainPosition → Option PoolView
  pub now : ℕ

-- Which writes of a pass succeed, by the position's id.
pub record Writes : Type 0 where
  pub saves : String → Bool
  pub deletes : String → Bool

pub record Book (F : Type 0) : Type 0 where
  pub tracked : StringMap (PositionRecord F)
  pub rows : StringMap (PositionRecord F)
  pub unresolved : List String
  pub adopted_pools : List String
  pub notes : List Note

pub record Reconciled (F : Type 0) : Type 0 where
  pub succeeded : Bool
  pub book : Book F

unfoldable pub is_live : OnChainPosition → Bool
is_live p = ltb_ℤ (pos 0) p.liquidity_shares

unfoldable pub has_pub_key : String → OnChainPosition → Bool
has_pub_key key p = str_eq p.position_pub_key key

-- An empty string is as false as null.
unfoldable pub is_tracked_position_gone : Option String → List OnChainPosition → Bool
is_tracked_position_gone none live = false
is_tracked_position_gone (some key) live = not (str_eq key "") && not (any (has_pub_key key) live)

unfoldable pub is_range_drifted : ℤ → ℤ → ℤ → ℤ → Bool
is_range_drifted tracked_lower tracked_upper lower upper =
    not (eq_ℤ tracked_lower lower) || not (eq_ℤ tracked_upper upper)

unfoldable pub is_orphan_pool : String → List String → List String → Bool
is_orphan_pool pool watched adopted =
    not (any (str_eq pool) watched) && not (any (str_eq pool) adopted)

-- The Map by key of all positions has the last of each key.
abbrev last_by_key : String → List OnChainPosition → Option OnChainPosition
last_by_key key [] = none
last_by_key key (p ∷ ps) = last_by_key key ps or_else (if has_pub_key key p then some p else none)

abbrev owed_note : String → Option OnChainPosition → List Note
owed_note id none = []
owed_note id (some p) =
    if ltb_ℤ (pos 0) p.tokens_owed_x || ltb_ℤ (pos 0) p.tokens_owed_y
    then unclaimed id p.tokens_owed_x p.tokens_owed_y ∷ []
    else []

abbrev owed_notes : String → Option String → List OnChainPosition → List Note
owed_notes id none all = []
owed_notes id (some key) all = owed_note id (last_by_key key all)

abbrev pub new_book :
    {F : Type 0} → StringMap (PositionRecord F) → StringMap (PositionRecord F) → Book F
new_book tracked rows = record {
  tracked = tracked;
  rows = rows;
  unresolved = [];
  adopted_pools = [];
  notes = [];
}

module _ {F : Type 0} (writes : Writes) where
  unfoldable pub drop : List OnChainPosition → String → PositionRecord F → Book F → Book F
  drop all id p book = record book {
    tracked = map_remove id book.tracked;
    rows = if writes.deletes id then delete_position id book.rows else book.rows;
    notes = book.notes ++ owed_notes id p.position_pub_key all ++ removed id ∷ [];
  }

  -- The loop over the Map; deleting the current entry does not disturb it.
  unfoldable pub drop_gone :
      List OnChainPosition → List OnChainPosition → StringMap (PositionRecord F) → Book F → Book F
  drop_gone all live [] book = book
  drop_gone all live ((id, p) ∷ entries) book =
      drop_gone all live entries
        (if is_tracked_position_gone p.position_pub_key live then drop all id p book else book)

  -- `trackedPositions.set` and `savePosition`.
  unfoldable pub store : String → PositionRecord F → Note → Book F → Book F
  store key p note book = record book {
    tracked = map_set key p book.tracked;
    rows = if writes.saves p.position_id then save_position p book.rows else book.rows;
    notes = book.notes ++ note ∷ [];
  }

  unfoldable pub sync_range : OnChainPosition → PositionRecord F → Book F → Book F
  sync_range p t book =
      if is_range_drifted t.lower_bin_id t.upper_bin_id p.lower_bin_id p.upper_bin_id
      then store p.position_pub_key
          (record t { lower_bin_id = p.lower_bin_id; upper_bin_id = p.upper_bin_id })
          (range_synced p.position_pub_key) book
      else book

  module _ ⦃n : Number F⦄ where
    unfoldable pub adopted_record : ℕ → OnChainPosition → PoolView → PositionRecord F
    adopted_record now p pool = record {
      position_id = p.position_pub_key;
      pool_address = p.pool_address;
      position_pub_key = some p.position_pub_key;
      deposited_usd = int 0;
      current_value_usd = int 0;
      token_x_symbol = pool.token_x_symbol;
      token_y_symbol = pool.token_y_symbol;
      active_bin_id = pool.active_bin_id;
      lower_bin_id = p.lower_bin_id;
      upper_bin_id = p.upper_bin_id;
      timestamp = now;
      out_of_range_since = none;
      oor_cycle_count = 0;
      last_fee_claim_at = now;
      trailing_stop_threshold = none;
      highest_value_usd = none;
      last_rebalance_at = now;
      paper_exited_at = none;
      entry_signal_timestamp = none;
      entry_signal_snapshot_id = none;
      entry_price_usd = none;
      entry_amount_x_usd = none;
      entry_amount_y_usd = none;
      cumulative_fees_claimed_usd = int 0;
      cumulative_rewards_claimed_usd = int 0;
      closed_at = none;
      realized_pnl_usd = none;
      position_mode = none;
      tp_ladder_json = none;
      invalidation_stop_price = none;
    }

    unfoldable pub note_orphan : List String → OnChainPosition → Book F → Book F
    note_orphan watched p book =
        if is_orphan_pool p.pool_address watched book.adopted_pools
        then record book { adopted_pools = p.pool_address ∷ book.adopted_pools }
        else book

    unfoldable pub adopt : Chain → OnChainPosition → Option PoolView → Book F → Book F
    adopt chain p none book = record book { unresolved = p.pool_address ∷ book.unresolved }
    adopt chain p (some pool) book =
        store p.position_pub_key (adopted_record chain.now p pool) (tracked_anew p.position_pub_key)
          book

    unfoldable pub match_live :
        Chain → List String → OnChainPosition → Option (PositionRecord F) → Book F → Book F
    match_live chain watched p (some t) book = sync_range p t book
    match_live chain watched p none book =
        adopt chain p (chain.pool_state p) (note_orphan watched p book)

    unfoldable pub match_all : Chain → List String → List OnChainPosition → Book F → Book F
    match_all chain watched [] book = book
    match_all chain watched (p ∷ ps) book =
        match_all chain watched ps
          (match_live chain watched p (map_get p.position_pub_key book.tracked) book)

    unfoldable pub reconcile_with : Chain → List String → List OnChainPosition → Book F → Book F
    reconcile_with chain watched all book =
        match_all chain watched (filter is_live all)
          (drop_gone all (filter is_live all) book.tracked book)

    abbrev pub with_positions :
        Chain → List String → Option (List OnChainPosition) → Book F → Reconciled F
    with_positions chain watched none book = record {
      succeeded = false;
      book = record book { unresolved = watched };
    }
    with_positions chain watched (some all) book = record {
      succeeded = true;
      book = reconcile_with chain watched all book;
    }

    abbrev pub with_wallet : Chain → List String → Option String → Book F → Reconciled F
    with_wallet chain watched none book = record { succeeded = true; book = book }
    with_wallet chain watched (some wallet) book =
        if str_eq wallet ""
        then record { succeeded = true; book = book }
        else with_positions chain watched chain.wallet_positions book

    -- A pass over the tracked positions and the rows of the table.
    unfoldable pub reconcile_positions :
        Chain
        → List String
        → StringMap (PositionRecord F)
        → StringMap (PositionRecord F)
        → Reconciled F
    reconcile_positions chain watched tracked rows =
        if chain.has_wallet
        then with_wallet chain watched chain.wallet_address (new_book tracked rows)
        else record { succeeded = true; book = new_book tracked rows }
