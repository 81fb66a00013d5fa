-- ===== src/Tracking/Untracked.antt =====
-- What a reconciliation does with a live position that has no record: its pool is scanned from then on,
-- and it is adopted or its pool is left as unresolved.
use beam_clmm.Prelude.{
  find, List, Member, String, ◌≡◌, ◌∷◌, map_get, none, some, [], first, later, str_eq_iff, refl,
  any, false, str_eq, find-none, arith, true, Option, Bool, ◌||◌,
}
use beam_clmm.Tracking.Reconcile.{
  Writes, Chain, Book, match_all, match_live, has_pub_key, sync_range, store, adopt, note_orphan,
  is_orphan_pool,
}
use beam_clmm.Number.{Number}
use beam_clmm.Tracking.{OnChainPosition, PositionRecord, PoolView}
use beam_clmm.Tracking.View.{HaveDistinctKeys, map_get-match_live}
use beam_clmm.Tracking.Managed.{has_own_key}

-- A key that no position of a list has is not that of a member.
differs :
    (ps : List OnChainPosition) (p q : OnChainPosition)
    → Member p ps
    → find (has_pub_key q.position_pub_key) ps ≡ none
    → str_eq q.position_pub_key p.position_pub_key ≡ false
unfolding has_pub_key
differs ps p q m d =
    let r = find-none (has_pub_key q.position_pub_key) ps p d m in
    ground (
      arith,
      str_eq_iff q.position_pub_key p.position_pub_key,
      str_eq_iff p.position_pub_key q.position_pub_key,
    )

pub find_distinct :
    (ps : List OnChainPosition) (p : OnChainPosition)
    → Member p ps
    → HaveDistinctKeys ps
    → find (has_pub_key p.position_pub_key) ps ≡ some p
unfolding find has_pub_key
find_distinct [] p m d = elim m [ ]
find_distinct (q ∷ ps) p (first e) (d, ds) = rw e (rw (has_own_key p) refl)
find_distinct (q ∷ ps) p (later m) (d, ds) =
    let there = find_distinct ps p m ds in
    let e = differs ps p q m d in
    let other : has_pub_key p.position_pub_key q ≡ false = ground (
      arith,
      str_eq_iff q.position_pub_key p.position_pub_key,
      str_eq_iff p.position_pub_key q.position_pub_key,
    ) in
    rw other there

-- Whether a pool is scanned in the next cycle: it was already, or the pass adds it.
abbrev pub is_scanned : {F : Type 0} → List String → String → Book F → Bool
is_scanned watched pool book = any (str_eq pool) watched || any (str_eq pool) book.adopted_pools

module _ {F : Type 0} (writes : Writes) ⦃n : Number F⦄ (chain : Chain) (watched : List String) where
  matched_one : OnChainPosition → Book F → Book F
  matched_one q book =
      match_live writes chain watched q (map_get q.position_pub_key book.tracked) book

  module _ (Q : Book F → Type 0)
      (keeps : (q : OnChainPosition) (book : Book F) → Q book → Q (matched_one q book)) where
    match_all_keeps :
        (ps : List OnChainPosition) (book : Book F)
        → Q book
        → Q (match_all writes chain watched ps book)
    unfolding match_all matched_one
    match_all_keeps [] book h = h
    match_all_keeps (q ∷ ps) book h = match_all_keeps ps (matched_one q book) (keeps q book h)

    -- What holds once `p` is met without a record holds at the end of the loop.
    match_all_reaches :
        (p : OnChainPosition)
        (here : (book : Book F)
          → map_get p.position_pub_key book.tracked ≡ none
          → Q (matched_one p book))
        (ps : List OnChainPosition) (book : Book F)
        → Member p ps
        → HaveDistinctKeys ps
        → map_get p.position_pub_key book.tracked ≡ none
        → Q (match_all writes chain watched ps book)
    unfolding match_all matched_one
    match_all_reaches p here [] book m d h = elim m [ ]
    match_all_reaches p here (q ∷ ps) book (first e) (d, ds) h =
        match_all_keeps ps (matched_one q book) (rw e (here book h))
    match_all_reaches p here (q ∷ ps) book (later m) (d, ds) h =
        let e = differs ps p q m d in
        let o = map_get q.position_pub_key book.tracked in
        let g = map_get-match_live writes chain watched q o book p.position_pub_key refl in
        let g2 : map_get p.position_pub_key (matched_one q book).tracked ≡ none = rw (e, h) at g in
        match_all_reaches p here ps (matched_one q book) m ds g2

  sync_range_lists :
      (q : OnChainPosition) (t : PositionRecord F) (book : Book F)
      → ((sync_range writes q t book).unresolved ≡ book.unresolved)
        × ((sync_range writes q t book).adopted_pools ≡ book.adopted_pools)
  unfolding sync_range store
  sync_range_lists q t book = ground arith

  unresolved-note_orphan :
      (q : OnChainPosition) (book : Book F)
      → (note_orphan writes watched q book).unresolved ≡ book.unresolved
  unfolding note_orphan
  unresolved-note_orphan q book = ground arith

  adopt_unresolved :
      (pool : String) (q : OnChainPosition) (v : Option PoolView) (book : Book F)
      → Member pool book.unresolved
      → Member pool (adopt writes chain q v book).unresolved
  unfolding adopt store
  adopt_unresolved pool q none book m = later m
  adopt_unresolved pool q (some v) book m = m

  match_live_unresolved :
      (pool : String) (q : OnChainPosition) (o : Option (PositionRecord F)) (book : Book F)
      → Member pool book.unresolved
      → Member pool (match_live writes chain watched q o book).unresolved
  unfolding match_live
  match_live_unresolved pool q (some t) book m = rw (sync_range_lists q t book).0 m
  match_live_unresolved pool q none book m =
      adopt_unresolved pool q (chain.pool_state q) (note_orphan writes watched q book)
        (rw (unresolved-note_orphan q book) m)

  adopted_pools-adopt :
      (q : OnChainPosition) (v : Option PoolView) (book : Book F)
      → (adopt writes chain q v book).adopted_pools ≡ book.adopted_pools
  unfolding adopt store
  adopted_pools-adopt q none book = refl
  adopted_pools-adopt q (some v) book = refl

  note_orphan_keeps_scanned :
      (pool : String) (q : OnChainPosition) (book : Book F)
      → is_scanned watched pool book ≡ true
      → is_scanned watched pool (note_orphan writes watched q book) ≡ true
  unfolding note_orphan any
  note_orphan_keeps_scanned pool q book m = ground arith

  is_scanned-note_orphan :
      (q : OnChainPosition) (book : Book F)
      → is_scanned watched q.pool_address (note_orphan writes watched q book) ≡ true
  unfolding note_orphan is_orphan_pool any
  is_scanned-note_orphan q book =
      let same = (str_eq_iff q.pool_address q.pool_address).1 refl in ground arith

  is_scanned-match_live :
      (pool : String) (q : OnChainPosition) (o : Option (PositionRecord F)) (book : Book F)
      → is_scanned watched pool book ≡ true
      → is_scanned watched pool (match_live writes chain watched q o book) ≡ true
  unfolding match_live
  is_scanned-match_live pool q (some t) book m = rw (sync_range_lists q t book).1 m
  is_scanned-match_live pool q none book m =
      rw (adopted_pools-adopt q (chain.pool_state q) (note_orphan writes watched q book))
        (note_orphan_keeps_scanned pool q book m)

  -- A live position without a record: its pool is scanned from now on.
  pub is_scanned-match_all :
      (p : OnChainPosition) (ps : List OnChainPosition) (book : Book F)
      → Member p ps
      → HaveDistinctKeys ps
      → map_get p.position_pub_key book.tracked ≡ none
      → is_scanned watched p.pool_address (match_all writes chain watched ps book) ≡ true
  unfolding matched_one match_live
  is_scanned-match_all p ps book m d h =
      match_all_reaches (λ b. is_scanned watched p.pool_address b ≡ true)
        (λ q b s. is_scanned-match_live p.pool_address q _ b s) p
        (λ b e. rw e (
          rw (adopted_pools-adopt p (chain.pool_state p) (note_orphan writes watched p b))
            (is_scanned-note_orphan p b)))
        ps book m d h

  pub match_all_unresolved :
      (p : OnChainPosition) (ps : List OnChainPosition) (book : Book F)
      → Member p ps
      → HaveDistinctKeys ps
      → map_get p.position_pub_key book.tracked ≡ none
      → chain.pool_state p ≡ none
      → Member p.pool_address (match_all writes chain watched ps book).unresolved
  unfolding matched_one match_live adopt
  match_all_unresolved p ps book m d h u =
      match_all_reaches (λ b. Member p.pool_address b.unresolved)
        (λ q b s. match_live_unresolved p.pool_address q _ b s) p (λ b e. rw e (rw u (first refl)))
        ps book m d h
