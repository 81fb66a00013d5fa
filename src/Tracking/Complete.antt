-- ===== src/Tracking/Complete.antt =====
-- `reconcilePositions` of engine/program.ts as a whole, on every branch.
use beam_clmm.Prelude.{
  Option, List, String, StringMap, [], some, IsMap, ◌≡◌, if◌then◌else◌, none, filter, str_eq,
  map_get, Bool-cases, find, inl, inr, refl, Bool, true, false,
}
use beam_clmm.Tracking.Reconcile.{
  Writes, Chain, reconcile_positions, Book, reconcile_with, with_wallet, new_book, is_live,
  has_pub_key, with_positions,
}
use beam_clmm.Number.{Number}
use beam_clmm.Tracking.{OnChainPosition, PositionRecord}
use beam_clmm.Tracking.View.{matched_by, HaveDistinctKeys, kept, map_get-reconcile_with}

-- The wallet's positions, when there is a wallet and they could be read.
abbrev known : Option String → Option (List OnChainPosition) → Option (List OnChainPosition)
known none all = none
known (some wallet) all = if str_eq wallet "" then none else all

abbrev pub seen : Chain → Option (List OnChainPosition)
seen chain = if chain.has_wallet then known chain.wallet_address chain.wallet_positions else none

abbrev pub live_of : Option (List OnChainPosition) → List OnChainPosition
live_of none = []
live_of (some all) = filter is_live all

module _ {F : Type 0} (writes : Writes) ⦃n : Number F⦄ where
  -- What a pass makes of the position of one key, given what it saw of the wallet.
  abbrev pub reconciled :
      Chain
      → Option (List OnChainPosition)
      → String
      → Option (PositionRecord F)
      → Option (PositionRecord F)
  reconciled chain none k o = o
  reconciled chain (some all) k o =
      matched_by writes chain (find (has_pub_key k) (filter is_live all))
        (kept (filter is_live all) o)

  module _ (chain : Chain) (watched : List String)
      (tracked rows : StringMap (PositionRecord F)) where
    map_get-with_positions :
        (k : String) (read : Option (List OnChainPosition))
        → IsMap tracked
        → HaveDistinctKeys (live_of read)
        → map_get k (with_positions writes chain watched read (new_book tracked rows)).book.tracked
          ≡ reconciled chain read k (map_get k tracked)
    map_get-with_positions k none u d = refl
    map_get-with_positions k (some all) u d =
        map_get-reconcile_with writes chain watched all (new_book tracked rows) k u d

    map_get-with_wallet :
        (k : String) (wallet : Option String)
        → IsMap tracked
        → HaveDistinctKeys (live_of (known wallet chain.wallet_positions))
        → map_get k (with_wallet writes chain watched wallet (new_book tracked rows)).book.tracked
          ≡ reconciled chain (known wallet chain.wallet_positions) k (map_get k tracked)
    map_get-with_wallet k none u d = refl
    map_get-with_wallet k (some wallet) u d = elim (Bool-cases (str_eq wallet "")) [
      | inl b ↦ rw b refl
      | inr b ↦ rw b (map_get-with_positions k chain.wallet_positions u (rw b at d))
    ]

    map_get_has_wallet :
        (k : String) (b : Bool)
        → IsMap tracked
        → HaveDistinctKeys
            (live_of (if b then known chain.wallet_address chain.wallet_positions else none))
        → map_get k
            (if b
              then with_wallet writes chain watched chain.wallet_address (new_book tracked rows)
              else record { succeeded = true; book = new_book tracked rows }).book.tracked
          ≡ reconciled chain
              (if b then known chain.wallet_address chain.wallet_positions else none)
              k
              (map_get k tracked)
    map_get_has_wallet k true u d = map_get-with_wallet k chain.wallet_address u d
    map_get_has_wallet k false u d = refl

  -- For every key, a pass leaves what the wallet and the position before it call for: a position
  -- that is gone is dropped, a live one gets its range on chain and keeps the rest of its record, and
  -- an untracked live one is adopted if the state of its pool can be read; nothing else changes, and
  -- nothing at all without a wallet or when its positions cannot be read. The tracked positions have
  -- each key once, and so do those on chain.
  pub map_get-reconcile_positions :
      (chain : Chain) (watched : List String) (tracked rows : StringMap (PositionRecord F))
      (k : String)
      → IsMap tracked
      → HaveDistinctKeys (live_of (seen chain))
      → map_get k (reconcile_positions writes chain watched tracked rows).book.tracked
        ≡ reconciled chain (seen chain) k (map_get k tracked)
  unfolding reconcile_positions
  map_get-reconcile_positions chain watched tracked rows k u d =
      map_get_has_wallet chain watched tracked rows k chain.has_wallet u d

  module _ (chain : Chain) (watched : List String) (all : List OnChainPosition)
      (book : Book F) where
    with_positions_reads :
        (read : Option (List OnChainPosition))
        → read ≡ some all
        → (with_positions writes chain watched read book).book
          ≡ reconcile_with writes chain watched all book
    with_positions_reads none h = cc
    with_positions_reads (some xs) h = let e : xs ≡ all = cc h in rw e refl

    with_wallet_reads :
        (wallet : Option String)
        → known wallet chain.wallet_positions ≡ some all
        → (with_wallet writes chain watched wallet book).book
          ≡ reconcile_with writes chain watched all book
    with_wallet_reads none h = cc
    with_wallet_reads (some wallet) h = elim (Bool-cases (str_eq wallet "")) [
      | inl b ↦ let t : ◌≡◌ {A = Option (List OnChainPosition)} none (some all) = rw b at h in cc
      | inr b ↦ rw b (with_positions_reads chain.wallet_positions (rw b at h))
    ]

    has_wallet_reads :
        (b : Bool)
        → (if b then known chain.wallet_address chain.wallet_positions else none) ≡ some all
        → (if b
            then with_wallet writes chain watched chain.wallet_address book
            else record { succeeded = true; book = book }).book
          ≡ reconcile_with writes chain watched all book
    has_wallet_reads true h = with_wallet_reads chain.wallet_address h
    has_wallet_reads false h = cc

  -- A pass that sees the wallet's positions.
  pub reconcile_positions_reads :
      (chain : Chain) (watched : List String) (tracked rows : StringMap (PositionRecord F))
      (all : List OnChainPosition)
      → seen chain ≡ some all
      → (reconcile_positions writes chain watched tracked rows).book
        ≡ reconcile_with writes chain watched all (new_book tracked rows)
  unfolding reconcile_positions
  reconcile_positions_reads chain watched tracked rows all h =
      has_wallet_reads chain watched all (new_book tracked rows) chain.has_wallet h
