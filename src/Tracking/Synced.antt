-- ===== src/Tracking/Synced.antt =====
-- The rows of the positions table after a reconciliation.
use beam_clmm.Prelude.{
  none, some, [], ◌∷◌, first, later, List, String, Bool, StringMap, All, Option, ◌≡◌, Member, true,
  All-imp, map_get, not, if◌then◌else◌, false, All-Member, arith, filter, refl, ap, Bool-cases,
  map_get-All, ◌∙◌, str_eq, map_get-remove, sym, inl, inr, map_remove-All, map_get-set, map_set-All,
}
use beam_clmm.Tracking.{PositionRecord, OnChainPosition, PoolView}
use beam_clmm.Tracking.Reconcile.{
  reconcile_with, Writes, Chain, drop, match_all, Book, drop_gone, match_live, store, note_orphan,
  adopt, sync_range, is_tracked_position_gone, adopted_record, Note, is_live, is_orphan_pool,
  reconcile_positions, new_book, is_range_drifted,
}
use beam_clmm.Number.{Number}
use beam_clmm.Tracking.Table.{
  upserted, is_closed_row, is_open_row, open_row, save_position, open_row-some, open_row-none,
  upserted_same, stored, opened_if, opened_by, closed_if,
}
use beam_clmm.Tracking.Complete.{seen, reconcile_positions_reads}
use beam_clmm.Tracking.View.{with_range}

-- The open rows are the tracked positions, each under its own id, and no row of the given positions
-- is closed.
pub record IsSynced {F : Type 0} (live : List OnChainPosition)
    (tracked rows : StringMap (PositionRecord F)) : Type 0 where
  pub agree : (k : String) → open_row (map_get k rows) ≡ map_get k tracked
  pub own_ids : All (λ entry. entry.1.position_id ≡ entry.0) tracked
  pub unclosed : All (λ p. is_closed_row (map_get p.position_pub_key rows) ≡ false) live

not-false : (b : Bool) → b ≡ true → not b ≡ false
not-false b h = rw h refl

members : {A : Type 0} (xs : List A) → All (λ x. Member x xs) xs
members [] = tt
members (x ∷ xs) = (first refl, All-imp xs (λ y m. later m) (members xs))

module _ {F : Type 0} (writes : Writes) (saved : (id : String) → writes.saves id ≡ true)
    (deleted : (id : String) → writes.deletes id ≡ true) (keys : List OnChainPosition) where
  drop-IsSynced :
      (all : List OnChainPosition) (id : String) (p : PositionRecord F) (gone : Bool) (b : Book F)
      → IsSynced keys b.tracked b.rows
      → IsSynced keys
          (if gone then drop writes all id p b else b).tracked
          (if gone then drop writes all id p b else b).rows
  unfolding drop
  drop-IsSynced all id p false b s = s
  drop-IsSynced all id p true b s = record {
    agree = λ k. rw (deleted id) (
        ap open_row (map_get-remove id k b.rows)
        ∙ opened_if (str_eq id k) (map_get k b.rows)
        ∙ ap (λ o. if str_eq id k then none else o) (s.agree k)
        ∙ sym (map_get-remove id k b.tracked));
    own_ids = map_remove-All (λ entry. entry.1.position_id ≡ entry.0) id b.tracked s.own_ids;
    unclosed = rw (deleted id) (
        All-imp keys
          (λ q c. rw (map_get-remove id q.position_pub_key b.rows) (
            closed_if (str_eq id q.position_pub_key) (map_get q.position_pub_key b.rows) none refl
              c))
          s.unclosed);
  }

  drop_gone-IsSynced :
      (all live : List OnChainPosition) (entries : StringMap (PositionRecord F)) (b : Book F)
      → IsSynced keys b.tracked b.rows
      → IsSynced keys
          (drop_gone writes all live entries b).tracked
          (drop_gone writes all live entries b).rows
  unfolding drop_gone
  drop_gone-IsSynced all live [] b s = s
  drop_gone-IsSynced all live ((id, p) ∷ entries) b s =
      drop_gone-IsSynced all live entries _
        (drop-IsSynced all id p (is_tracked_position_gone p.position_pub_key live) b s)

  saved_rows :
      (p : PositionRecord F) (b : Book F)
      → (if writes.saves p.position_id then save_position p b.rows else b.rows)
        ≡ save_position p b.rows
  saved_rows p b = rw (saved p.position_id) refl

  -- An open record that the table takes as it is.
  store-IsSynced :
      (key : String) (p : PositionRecord F) (note : Note) (b : Book F)
      → p.position_id ≡ key
      → is_open_row p ≡ true
      → upserted (map_get p.position_id b.rows) p ≡ p
      → IsSynced keys b.tracked b.rows
      → IsSynced keys (store writes key p note b).tracked (store writes key p note b).rows
  unfolding store
  store-IsSynced key p note b e o u s = record {
    agree = λ k.
        ap (λ rows. open_row (map_get k rows)) (saved_rows p b)
        ∙ ap open_row (stored p b.rows k u)
        ∙ opened_by (str_eq p.position_id k) (map_get k b.rows) p o
        ∙ ap (λ i. if str_eq i k then some p else open_row (map_get k b.rows)) e
        ∙ ap (λ r. if str_eq key k then some p else r) (s.agree k)
        ∙ sym (map_get-set key k p b.tracked);
    own_ids = map_set-All (λ entry. entry.1.position_id ≡ entry.0) key p b.tracked e s.own_ids;
    unclosed =
        All-imp keys
          (λ q c.
            ap (λ rows. is_closed_row (map_get q.position_pub_key rows)) (saved_rows p b)
            ∙ ap is_closed_row (stored p b.rows q.position_pub_key u)
            ∙ closed_if (str_eq p.position_id q.position_pub_key)
                (map_get q.position_pub_key b.rows) (some p) (not-false (is_open_row p) o) c)
          s.unclosed;
  }

  module _ ⦃n : Number F⦄ (chain : Chain) (watched : List String) where
    sync_range-IsSynced :
        (q : OnChainPosition) (t : PositionRecord F) (b : Book F)
        → map_get q.position_pub_key b.tracked ≡ some t
        → IsSynced keys b.tracked b.rows
        → IsSynced keys (sync_range writes q t b).tracked (sync_range writes q t b).rows
    unfolding sync_range
    sync_range-IsSynced q t b h s =
        let own =
          map_get-All (λ entry. entry.1.position_id ≡ entry.0) q.position_pub_key t b.tracked
            s.own_ids h in
        let (row, still) =
          open_row-some (map_get q.position_pub_key b.rows) t (s.agree q.position_pub_key ∙ h) in
        let same =
          ap (λ r. upserted r (with_range q t)) (ap (λ i. map_get i b.rows) own ∙ row)
          ∙ upserted_same t q.lower_bin_id q.upper_bin_id in
        elim (Bool-cases
          (is_range_drifted t.lower_bin_id t.upper_bin_id q.lower_bin_id q.upper_bin_id)) [
            | inl d ↦ rw d (store-IsSynced q.position_pub_key (with_range q t) _ b own still same s)
            | inr d ↦ rw d s
          ]

    note_orphan-IsSynced :
        (q : OnChainPosition) (b : Book F)
        → IsSynced keys b.tracked b.rows
        → IsSynced keys
            (note_orphan writes watched q b).tracked
            (note_orphan writes watched q b).rows
    unfolding note_orphan
    note_orphan-IsSynced q b s =
        elim (Bool-cases (is_orphan_pool q.pool_address watched b.adopted_pools)) [
          | inl d ↦ rw d s
          | inr d ↦ rw d s
        ]

    rows-note_orphan :
        (q : OnChainPosition) (b : Book F) → (note_orphan writes watched q b).rows ≡ b.rows
    unfolding note_orphan
    rows-note_orphan q b = ground arith

    adopt-IsSynced :
        (q : OnChainPosition) (v : Option PoolView) (b : Book F)
        → map_get q.position_pub_key b.rows ≡ none
        → IsSynced keys b.tracked b.rows
        → IsSynced keys (adopt writes chain q v b).tracked (adopt writes chain q v b).rows
    unfolding adopt adopted_record upserted
    adopt-IsSynced q none b h s = s
    adopt-IsSynced q (some v) b h s =
        let p = adopted_record writes chain.now q v in
        store-IsSynced q.position_pub_key p _ b refl refl (ap (λ r. upserted r p) h) s

    match_live-IsSynced :
        (q : OnChainPosition) (o : Option (PositionRecord F)) (b : Book F)
        → Member q keys
        → map_get q.position_pub_key b.tracked ≡ o
        → IsSynced keys b.tracked b.rows
        → IsSynced keys
            (match_live writes chain watched q o b).tracked
            (match_live writes chain watched q o b).rows
    unfolding match_live
    match_live-IsSynced q none b m e s =
        let closed =
          All-Member (λ p. is_closed_row (map_get p.position_pub_key b.rows) ≡ false) keys q
            s.unclosed m in
        let free =
          open_row-none (map_get q.position_pub_key b.rows) (s.agree q.position_pub_key ∙ e)
            closed in
        adopt-IsSynced q (chain.pool_state q) _
          (ap (map_get q.position_pub_key) (rows-note_orphan q b) ∙ free)
          (note_orphan-IsSynced q b s)
    match_live-IsSynced q (some t) b m e s = sync_range-IsSynced q t b e s

    match_all-IsSynced :
        (ps : List OnChainPosition) (b : Book F)
        → All (λ q. Member q keys) ps
        → IsSynced keys b.tracked b.rows
        → IsSynced keys
            (match_all writes chain watched ps b).tracked
            (match_all writes chain watched ps b).rows
    unfolding match_all
    match_all-IsSynced [] b ms s = s
    match_all-IsSynced (q ∷ ps) b (m, ms) s =
        match_all-IsSynced ps _ ms
          (match_live-IsSynced q (map_get q.position_pub_key b.tracked) b m refl s)

-- When every write succeeds, and the open rows were the tracked positions before a pass that sees the
-- wallet's positions, they are so after it, provided that the table has no closed row of a position
-- that is live on chain.
pub reconcile_positions-IsSynced :
    {F : Type 0} (writes : Writes) ⦃n : Number F⦄ (chain : Chain) (watched : List String)
    (tracked rows : StringMap (PositionRecord F)) (all : List OnChainPosition)
    → ((id : String) → writes.saves id ≡ true)
    → ((id : String) → writes.deletes id ≡ true)
    → seen chain ≡ some all
    → IsSynced (filter is_live all) tracked rows
    → IsSynced
        (filter is_live all)
        (reconcile_positions writes chain watched tracked rows).book.tracked
        (reconcile_positions writes chain watched tracked rows).book.rows
unfolding reconcile_with
reconcile_positions-IsSynced writes chain watched tracked rows all saved deleted e s =
    let live = filter is_live all in
    rw (reconcile_positions_reads writes chain watched tracked rows all e) (
      match_all-IsSynced writes saved deleted live chain watched live _ (members live)
        (drop_gone-IsSynced writes saved deleted live all live tracked (new_book tracked rows) s))
