-- ===== src/Tracking/Stable.antt =====
-- What `reconcilePositions` of engine/program.ts guarantees of each live position, and that doing it
-- again changes nothing.
use beam_clmm.Prelude.{none, some, inr, refl}
use beam_clmm.Tracking.Reconcile.{
  Writes, Chain, Book, is_live, reconcile_with, new_book, adopted_record, drop_gone,
  reconcile_positions,
}
use beam_clmm.Prelude.{
  List, String, Option, StringMap, map_get, IsMap, ◌≡◌, filter, some, ◌⊎◌, Member, true, inl,
}
use beam_clmm.Number.{Number}
use beam_clmm.Tracking.{PositionRecord, OnChainPosition, PoolView}
use beam_clmm.Tracking.View.{
  HaveDistinctKeys, kept, with_range, map_get_dropped, matched, map_get-reconcile_with,
}
use beam_clmm.Tracking.Untracked.{
  is_scanned, match_all_unresolved, is_scanned-match_all, find_distinct,
}
use beam_clmm.Tracking.Complete.{seen, reconcile_positions_reads}

-- How a live position is looked after: it is tracked with its range, or its pool is named as
-- unresolved; and unless it was tracked before, its pool is scanned from now on.
pub record IsManaged {F : Type 0} (watched : List String) (before : Option (PositionRecord F))
    (b : Book F) (p : OnChainPosition) : Type 0 where
  pub tracked :
      ((t : PositionRecord F) × (map_get p.position_pub_key b.tracked ≡ some t)
        × (t.lower_bin_id ≡ p.lower_bin_id)
        × (t.upper_bin_id ≡ p.upper_bin_id))
      ⊎ Member p.pool_address b.unresolved
  pub scanned :
      ((t : PositionRecord F) × (before ≡ some t)) ⊎ (is_scanned watched p.pool_address b ≡ true)

module _ {F : Type 0} (writes : Writes) ⦃n : Number F⦄ (chain : Chain) (watched : List String)
    (tracked rows : StringMap (PositionRecord F)) (all : List OnChainPosition)
    (once : IsMap tracked) (distinct : HaveDistinctKeys (filter is_live all)) where
  book_after : Book F
  book_after = reconcile_with writes chain watched all (new_book tracked rows)

  dropped : Book F
  dropped = drop_gone writes all (filter is_live all) tracked (new_book tracked rows)

  before : OnChainPosition → Option (PositionRecord F)
  before p = kept (filter is_live all) (map_get p.position_pub_key tracked)

  found :
      (p : OnChainPosition)
      → Member p (filter is_live all)
      → map_get p.position_pub_key book_after.tracked ≡ matched writes chain p (before p)
  unfolding book_after before
  found p m =
      let g =
        map_get-reconcile_with writes chain watched all (new_book tracked rows) p.position_pub_key
          once distinct in
      rw (find_distinct (filter is_live all) p m distinct) at g

  untracked :
      (p : OnChainPosition) → before p ≡ none → map_get p.position_pub_key dropped.tracked ≡ none
  unfolding before dropped
  untracked p e =
      rw e at (map_get_dropped writes all (new_book tracked rows) p.position_pub_key once)

  managed :
      (p : OnChainPosition)
      → Member p (filter is_live all)
      → (o : Option (PositionRecord F)) → before p ≡ o
      → (v : Option PoolView) → chain.pool_state p ≡ v
      → IsManaged watched (before p) book_after p
  unfolding book_after adopted_record reconcile_with dropped
  managed p m (some t) e v q = record {
    tracked = inl (with_range p t, rw e at (found p m), refl, refl);
    scanned = inl (t, e);
  }
  managed p m none e none q = record {
    tracked = inr (
        match_all_unresolved writes chain watched p (filter is_live all) dropped m distinct
          (untracked p e) q);
    scanned = inr (
        is_scanned-match_all writes chain watched p (filter is_live all) dropped m distinct
          (untracked p e));
  }
  managed p m none e (some w) q = record {
    tracked = inl (adopted_record writes chain.now p w, rw (e, q) at (found p m), refl, refl);
    scanned = inr (
        is_scanned-match_all writes chain watched p (filter is_live all) dropped m distinct
          (untracked p e));
  }

-- After a pass that saw the wallet's positions, each that has liquidity is looked after: it is tracked
-- with its range on chain, or its pool is named as unresolved; and unless it was tracked before and
-- not gone, its pool is scanned from now on. The tracked positions have each key once, and so do the
-- live ones on chain.
pub reconcile_positions-IsManaged :
    {F : Type 0} (writes : Writes) ⦃n : Number F⦄ (chain : Chain) (watched : List String)
    (tracked rows : StringMap (PositionRecord F)) (all : List OnChainPosition) (p : OnChainPosition)
    → seen chain ≡ some all
    → IsMap tracked
    → HaveDistinctKeys (filter is_live all)
    → Member p (filter is_live all)
    → IsManaged watched
        (kept (filter is_live all) (map_get p.position_pub_key tracked))
        (reconcile_positions writes chain watched tracked rows).book
        p
unfolding before book_after
reconcile_positions-IsManaged writes chain watched tracked rows all p s once distinct m =
    rw (reconcile_positions_reads writes chain watched tracked rows all s)
      (managed writes chain watched tracked rows all once distinct p m _ refl _ refl)
