-- ===== src/Tracking/Keys.antt =====
-- A reconciliation keeps the tracked positions a Map.
use beam_clmm.Tracking.Reconcile.{
  Writes, drop_gone, drop, Chain, match_live, match_all, sync_range, adopt, reconcile_with, Book,
  store, is_live, is_range_drifted, is_tracked_position_gone, note_orphan, adopted_record,
}
use beam_clmm.Number.{Number}
use beam_clmm.Prelude.{
  List, String, StringMap, Option, IsMap, some, Bool-cases, ◌∷◌, filter, map_set-IsMap, map_get,
  inl, [], map_remove-IsMap, none, inr, Bool, if◌then◌else◌, true, false,
}
use beam_clmm.Tracking.{OnChainPosition, PositionRecord, PoolView}
use beam_clmm.Tracking.View.{with_range, tracked-note_orphan}

module _ {F : Type 0} (writes : Writes) where
  drop_if-IsMap :
      (all : List OnChainPosition) (id : String) (p : PositionRecord F) (book : Book F)
      (gone : Bool)
      → IsMap book.tracked
      → IsMap (if gone then drop writes all id p book else book).tracked
  unfolding drop
  drop_if-IsMap all id p book true u = map_remove-IsMap id book.tracked u
  drop_if-IsMap all id p book false u = u

  drop_gone-IsMap :
      (all live : List OnChainPosition) (entries : StringMap (PositionRecord F)) (book : Book F)
      → IsMap book.tracked
      → IsMap (drop_gone writes all live entries book).tracked
  unfolding drop_gone
  drop_gone-IsMap all live [] book u = u
  drop_gone-IsMap all live ((id, p) ∷ entries) book u =
      drop_gone-IsMap all live entries _
        (drop_if-IsMap all id p book (is_tracked_position_gone p.position_pub_key live) u)

  module _ ⦃n : Number F⦄ (chain : Chain) (watched : List String) where
    sync_range-IsMap :
        (p : OnChainPosition) (t : PositionRecord F) (book : Book F)
        → IsMap book.tracked
        → IsMap (sync_range writes p t book).tracked
    unfolding sync_range store
    sync_range-IsMap p t book u =
        elim (Bool-cases
          (is_range_drifted t.lower_bin_id t.upper_bin_id p.lower_bin_id p.upper_bin_id)) [
            | inl e ↦ rw e (map_set-IsMap p.position_pub_key (with_range p t) book.tracked u)
            | inr e ↦ rw e u
          ]

    adopt-IsMap :
        (p : OnChainPosition) (v : Option PoolView) (book : Book F)
        → IsMap book.tracked
        → IsMap (adopt writes chain p v book).tracked
    unfolding adopt store
    adopt-IsMap p none book u = u
    adopt-IsMap p (some v) book u =
        map_set-IsMap p.position_pub_key (adopted_record writes chain.now p v) book.tracked u

    match_live-IsMap :
        (p : OnChainPosition) (o : Option (PositionRecord F)) (book : Book F)
        → IsMap book.tracked
        → IsMap (match_live writes chain watched p o book).tracked
    unfolding match_live
    match_live-IsMap p (some t) book u = sync_range-IsMap p t book u
    match_live-IsMap p none book u =
        adopt-IsMap p (chain.pool_state p) (note_orphan writes watched p book)
          (rw (tracked-note_orphan writes watched p book) u)

    match_all-IsMap :
        (ps : List OnChainPosition) (book : Book F)
        → IsMap book.tracked
        → IsMap (match_all writes chain watched ps book).tracked
    unfolding match_all
    match_all-IsMap [] book u = u
    match_all-IsMap (p ∷ ps) book u =
        match_all-IsMap ps _ (match_live-IsMap p (map_get p.position_pub_key book.tracked) book u)

    pub reconcile_with-IsMap :
        (all : List OnChainPosition) (book : Book F)
        → IsMap book.tracked
        → IsMap (reconcile_with writes chain watched all book).tracked
    unfolding reconcile_with
    reconcile_with-IsMap all book u =
        match_all-IsMap (filter is_live all) _
          (drop_gone-IsMap all (filter is_live all) book.tracked book u)
