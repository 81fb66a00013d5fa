-- ===== src/Tracking/Again.antt =====
-- `reconcilePositions` of engine/program.ts done twice.
use beam_clmm.Prelude.{none, some, ◌∙◌, StringMap, ap, sym}
use beam_clmm.Tracking.Reconcile.{
  Writes, Chain, adopted_record, Book, reconcile_with, is_live, has_pub_key, reconcile_positions,
  new_book,
}
use beam_clmm.Number.{Number}
use beam_clmm.Prelude.{List, Option, String, ◌≡◌, false, IsMap, refl, filter, map_get, find}
use beam_clmm.Tracking.{OnChainPosition, PositionRecord, PoolView}
use beam_clmm.Tracking.View.{
  matched_by, is_gone, kept, HaveDistinctKeys, map_get-reconcile_with, matched, adopted_with,
}
use beam_clmm.Tracking.Keys.{reconcile_with-IsMap}
use beam_clmm.Tracking.Managed.{reconcile_with_stays}
use beam_clmm.Tracking.Complete.{seen, reconcile_positions_reads}

module _ {F : Type 0} (writes : Writes) ⦃n : Number F⦄ (chain : Chain) where
  kept_same :
      (live : List OnChainPosition) (o : Option (PositionRecord F))
      → is_gone live o ≡ false
      → kept live o ≡ o
  kept_same live o h = rw h refl

  matched_by_again :
      (f : Option OnChainPosition) (o : Option (PositionRecord F))
      → matched_by writes chain f (matched_by writes chain f o) ≡ matched_by writes chain f o
  unfolding adopted_record
  matched_by_again none o = refl
  matched_by_again (some p) (some t) = refl
  matched_by_again (some p) none = again (chain.pool_state p) refl
    where
      again :
          (v : Option PoolView)
          → chain.pool_state p ≡ v
          → matched {F = F} writes chain p (adopted_with writes chain.now p v)
            ≡ adopted_with {F = F} writes chain.now p v
      again none e = rw e refl
      again (some w) e = refl

  with_same :
      (watched : List String) (all : List OnChainPosition) (book later_book : Book F) (k : String)
      → later_book.tracked ≡ (reconcile_with writes chain watched all book).tracked
      → IsMap book.tracked
      → HaveDistinctKeys (filter is_live all)
      → map_get k (reconcile_with writes chain watched all later_book).tracked
        ≡ map_get k later_book.tracked
  with_same watched all book later_book k e u d =
      let live = filter is_live all in
      let f = find (has_pub_key k) live in
      let first_get = map_get-reconcile_with writes chain watched all book k u d in
      let once_more =
        map_get-reconcile_with writes chain watched all later_book k
          (rw e (reconcile_with-IsMap writes chain watched all book u)) d in
      let stays = reconcile_with_stays writes chain watched all book k u d in
      let here : map_get k later_book.tracked
          ≡ matched_by writes chain f (kept live (map_get k book.tracked)) =
        rw e first_get in
      let there : is_gone live (map_get k later_book.tracked) ≡ false = rw e stays in
      let same = rw (kept_same live (map_get k later_book.tracked) there) at once_more in
      same
      ∙ ap (matched_by writes chain f) here
      ∙ matched_by_again f (kept live (map_get k book.tracked))
      ∙ sym here

-- Reconciling again with the same wallet changes no tracked position.
pub reconcile_positions_again :
    {F : Type 0} (writes : Writes) ⦃n : Number F⦄ (chain : Chain) (watched : List String)
    (tracked rows later_rows : StringMap (PositionRecord F)) (all : List OnChainPosition)
    (k : String)
    → seen chain ≡ some all
    → IsMap tracked
    → HaveDistinctKeys (filter is_live all)
    → map_get k
        (reconcile_positions writes chain watched
          (reconcile_positions writes chain watched tracked rows).book.tracked
          later_rows).book.tracked
      ≡ map_get k (reconcile_positions writes chain watched tracked rows).book.tracked
reconcile_positions_again writes chain watched tracked rows later_rows all k s u d =
    let first_book = reconcile_positions_reads writes chain watched tracked rows all s in
    let t = (reconcile_positions writes chain watched tracked rows).book.tracked in
    let second_book = reconcile_positions_reads writes chain watched t later_rows all s in
    rw second_book (
      with_same writes chain watched all (new_book tracked rows) (new_book t later_rows) k
        (ap (λ b. b.tracked) first_book) u d)
