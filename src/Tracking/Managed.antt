-- ===== src/Tracking/Managed.antt =====
-- What a reconciliation guarantees: nothing that is gone stays tracked, and no capital on chain is left
-- without a record.
use beam_clmm.Tracking.Reconcile.{
  Writes, Chain, adopted_record, has_pub_key, is_tracked_position_gone, Book, is_live,
  reconcile_with,
}
use beam_clmm.Number.{Number}
use beam_clmm.Prelude.{
  List, String, any, Option, ◌≡◌, IsMap, true, find, some, str_eq_iff, refl, filter, false, arith,
  Bool, Option-cases, map_get, if◌then◌else◌, none, inl, inr, find-Member, Member-any,
}
use beam_clmm.Tracking.{OnChainPosition, PositionRecord}
use beam_clmm.Tracking.View.{is_gone, HaveDistinctKeys, kept, matched_by, map_get-reconcile_with}

pub has_own_key : (p : OnChainPosition) → has_pub_key p.position_pub_key p ≡ true
unfolding has_pub_key
has_own_key p = (str_eq_iff _ _).1 refl

found_stays :
    (key : String) (live : List OnChainPosition)
    → any (has_pub_key key) live ≡ true
    → is_tracked_position_gone (some key) live ≡ false
unfolding is_tracked_position_gone
found_stays key live h = ground arith

module _ {F : Type 0} (writes : Writes) ⦃n : Number F⦄ where
  kept_stays :
      (live : List OnChainPosition) (o : Option (PositionRecord F))
      → is_gone live (kept live o) ≡ false
  kept_stays live none = refl
  kept_stays live (some t) = kept_by live t (is_tracked_position_gone t.position_pub_key live) refl
    where
      kept_by :
          (live : List OnChainPosition) (t : PositionRecord F) (b : Bool)
          → is_tracked_position_gone t.position_pub_key live ≡ b
          → is_gone live (if b then none else some t) ≡ false
      kept_by live t true e = refl
      kept_by live t false e = e

  pub matched_by_stays :
      (chain : Chain) (live : List OnChainPosition) (f : Option OnChainPosition) (k : String)
      → find (has_pub_key k) live ≡ f
      → (o : Option (PositionRecord F)) → is_gone live o ≡ false
      → is_gone live (matched_by writes chain f o) ≡ false
  unfolding adopted_record
  matched_by_stays chain live none k h o e = e
  matched_by_stays chain live (some p) k h (some t) e = e
  matched_by_stays chain live (some p) k h none e = elim (Option-cases (chain.pool_state p)) [
    | inl q ↦ rw q refl
    | inr (v, q) ↦
        let (m, own) = find-Member (has_pub_key k) live p h in
        rw q (
          found_stays p.position_pub_key live
            (Member-any (has_pub_key p.position_pub_key) live p m (has_own_key p)))
  ]

  -- After a pass, no tracked position with a key is without liquidity on chain.
  pub reconcile_with_stays :
      (chain : Chain) (watched : List String) (all : List OnChainPosition) (book : Book F)
      (k : String)
      → IsMap book.tracked
      → HaveDistinctKeys (filter is_live all)
      → is_gone
          (filter is_live all)
          (map_get k (reconcile_with writes chain watched all book).tracked)
        ≡ false
  reconcile_with_stays chain watched all book k u d =
      let live = filter is_live all in
      let o = map_get k book.tracked in
      let s =
        matched_by_stays chain live (find (has_pub_key k) live) k refl (kept live o)
          (kept_stays live o) in
      rw (map_get-reconcile_with writes chain watched all book k u d) s
