-- ===== src/Tracking/View.antt =====
-- What a reconciliation does to the position of one key.
use beam_clmm.Tracking.{OnChainPosition, PositionRecord, PoolView}
use beam_clmm.Tracking.Reconcile.{
  Writes, drop_gone, drop, sync_range, Chain, has_pub_key, Book, is_range_drifted,
  is_tracked_position_gone, store, match_live, adopt, note_orphan, match_all, adopted_record,
  reconcile_with, is_live,
}
use beam_clmm.Prelude.{
  List, any, Option, String, ◌∷◌, map_get, StringMap, Bool, find, if◌then◌else◌, str_eq, some,
  IsMap, false, none, ◌≡◌, ◌&&◌, [], Bool-cases, inl, map_get-remove, str_eq_iff, arith, inr, refl,
  map_get-set, true, ℕ, filter, ◌∙◌, ap,
}
use beam_clmm.Number.{Number}
use beam_clmm.Prelude.Int.{ℤ, eq_ℤ, eq_ℤ_sound}

-- What becomes of a tracked position that the wallet holds, or of one that is not tracked.
abbrev pub with_range : {F : Type 0} → OnChainPosition → PositionRecord F → PositionRecord F
with_range p t = record t { lower_bin_id = p.lower_bin_id; upper_bin_id = p.upper_bin_id }

abbrev pub HaveDistinctKeys : List OnChainPosition → Type 0
HaveDistinctKeys [] = Unit
HaveDistinctKeys (p ∷ ps) = (find (has_pub_key p.position_pub_key) ps ≡ none) × HaveDistinctKeys ps

abbrev pub is_gone : {F : Type 0} → List OnChainPosition → Option (PositionRecord F) → Bool
is_gone live none = false
is_gone live (some p) = is_tracked_position_gone p.position_pub_key live

abbrev pub kept :
    {F : Type 0} → List OnChainPosition → Option (PositionRecord F) → Option (PositionRecord F)
kept live o = if is_gone live o then none else o

same_range : (a b c d : ℤ) → is_range_drifted a b c d ≡ false → (a ≡ c) × (b ≡ d)
unfolding is_range_drifted
same_range a b c d h =
    let x : eq_ℤ a c ≡ true = ground arith in
    let y : eq_ℤ b d ≡ true = ground arith in (eq_ℤ_sound a c x, eq_ℤ_sound b d y)

pub with_range_same :
    {F : Type 0} (p : OnChainPosition) (t : PositionRecord F)
    → is_range_drifted t.lower_bin_id t.upper_bin_id p.lower_bin_id p.upper_bin_id ≡ false
    → with_range p t ≡ t
with_range_same p t h = let (a, b) = same_range _ _ _ _ h in rw (← a) (rw (← b) refl)

gone_at : {F : Type 0} → List OnChainPosition → String → String × PositionRecord F → Bool
gone_at live k (id, p) = str_eq id k && is_tracked_position_gone p.position_pub_key live

any-gone_at :
    {F : Type 0} (live : List OnChainPosition) (k : String) (m : StringMap (PositionRecord F))
    → IsMap m
    → any (gone_at live k) m ≡ is_gone live (map_get k m)
unfolding any gone_at map_get
any-gone_at live k [] u = refl
any-gone_at live k ((id, p) ∷ m) (u, us) = elim (Bool-cases (str_eq id k)) [
  | inl e ↦
      let s : id ≡ k = (str_eq_iff id k).0 e in
      let h = any-gone_at live k m us in
      let h2 : any (gone_at live k) m ≡ false = rw (h, ← s, u) refl in ground arith
  | inr e ↦ let h = any-gone_at live k m us in ground arith
]

already {ℓ} :
    {V : Type ℓ} (key k : String) (m : StringMap V) {o : Option V}
    → map_get key m ≡ o
    → map_get k m ≡ (if str_eq key k then o else map_get k m)
already key k m h = elim (Bool-cases (str_eq key k)) [
  | inl e ↦ let s : key ≡ k = (str_eq_iff key k).0 e in rw e (rw (← s) h)
  | inr e ↦ rw e refl
]

module _ {F : Type 0} (writes : Writes) where
  map_get-drop_gone :
      (all live : List OnChainPosition) (entries : StringMap (PositionRecord F)) (book : Book F)
      (k : String)
      → map_get k (drop_gone writes all live entries book).tracked
        ≡ (if any (gone_at live k) entries then none else map_get k book.tracked)
  unfolding drop_gone gone_at any drop
  map_get-drop_gone all live [] book k = refl
  map_get-drop_gone all live ((id, p) ∷ entries) book k =
      elim (Bool-cases (is_tracked_position_gone p.position_pub_key live)) [
        | inl e ↦
            let h = map_get-drop_gone all live entries (drop writes all id p book) k in
            let r = map_get-remove id k book.tracked in ground arith
        | inr e ↦ let h = map_get-drop_gone all live entries book k in ground arith
      ]

  module _ ⦃n : Number F⦄ where
    abbrev pub adopted_with : ℕ → OnChainPosition → Option PoolView → Option (PositionRecord F)
    adopted_with now p none = none
    adopted_with now p (some pool) = some (adopted_record writes now p pool)

    abbrev pub matched :
        Chain → OnChainPosition → Option (PositionRecord F) → Option (PositionRecord F)
    matched chain p (some t) = some (with_range p t)
    matched chain p none = adopted_with chain.now p (chain.pool_state p)

    abbrev pub matched_by :
        Chain → Option OnChainPosition → Option (PositionRecord F) → Option (PositionRecord F)
    matched_by chain none o = o
    matched_by chain (some p) o = matched chain p o

    map_get-sync_range :
        (p : OnChainPosition) (t : PositionRecord F) (book : Book F) (k : String)
        → map_get p.position_pub_key book.tracked ≡ some t
        → map_get k (sync_range writes p t book).tracked
          ≡ (if str_eq p.position_pub_key k then some (with_range p t) else map_get k book.tracked)
    unfolding sync_range store
    map_get-sync_range p t book k h =
        elim (Bool-cases
          (is_range_drifted t.lower_bin_id t.upper_bin_id p.lower_bin_id p.upper_bin_id)) [
            | inl e ↦ rw e (map_get-set p.position_pub_key k (with_range p t) book.tracked)
            | inr e ↦ rw (e, with_range_same p t e) (already p.position_pub_key k book.tracked h)
          ]

    pub tracked-note_orphan :
        (watched : List String) (p : OnChainPosition) (book : Book F)
        → (note_orphan writes watched p book).tracked ≡ book.tracked
    unfolding note_orphan
    tracked-note_orphan watched p book = ground arith

    map_get-adopt :
        (chain : Chain) (p : OnChainPosition) (v : Option PoolView) (book : Book F) (k : String)
        → map_get p.position_pub_key book.tracked ≡ none
        → map_get k (adopt writes chain p v book).tracked ≡ (
            if str_eq p.position_pub_key k
            then adopted_with chain.now p v
            else map_get k book.tracked)
    unfolding adopt store
    map_get-adopt chain p none book k h = already p.position_pub_key k book.tracked h
    map_get-adopt chain p (some v) book k h =
        map_get-set p.position_pub_key k (adopted_record writes chain.now p v) book.tracked

    pub map_get-match_live :
        (chain : Chain) (watched : List String) (p : OnChainPosition)
        (o : Option (PositionRecord F)) (book : Book F) (k : String)
        → map_get p.position_pub_key book.tracked ≡ o
        → map_get k (match_live writes chain watched p o book).tracked
          ≡ (if str_eq p.position_pub_key k then matched chain p o else map_get k book.tracked)
    unfolding match_live note_orphan
    map_get-match_live chain watched p (some t) book k h = map_get-sync_range p t book k h
    map_get-match_live chain watched p none book k h =
        let e = tracked-note_orphan watched p book in
        let a =
          map_get-adopt chain p (chain.pool_state p) (note_orphan writes watched p book) k
            (rw e h) in
        rw e at a

    map_get-match_all :
        (chain : Chain) (watched : List String) (ps : List OnChainPosition) (book : Book F)
        (k : String)
        → HaveDistinctKeys ps
        → map_get k (match_all writes chain watched ps book).tracked
          ≡ matched_by chain (find (has_pub_key k) ps) (map_get k book.tracked)
    unfolding match_all find has_pub_key
    map_get-match_all chain watched [] book k d = refl
    map_get-match_all chain watched (p ∷ ps) book k (d, ds) =
        let o = map_get p.position_pub_key book.tracked in
        let after = match_live writes chain watched p o book in
        let rest = map_get-match_all chain watched ps after k ds in
        let step = map_get-match_live chain watched p o book k refl in
        elim (Bool-cases (str_eq p.position_pub_key k)) [
          | inl e ↦
              let s : p.position_pub_key ≡ k = (str_eq_iff p.position_pub_key k).0 e in
              let nowhere : find (has_pub_key k) ps ≡ none = rw (← s) d in
              let now : map_get k after.tracked ≡ matched chain p o = rw e at step in
              let same : o ≡ map_get k book.tracked = rw s refl in
              let here : has_pub_key k p ≡ true = e in
              let stays = rw (nowhere, now) at rest in rw here (stays ∙ ap (matched chain p) same)
          | inr e ↦
              let now : map_get k after.tracked ≡ map_get k book.tracked = rw e at step in
              let here : has_pub_key k p ≡ false = e in rw here (rw now at rest)
        ]

    pub map_get_dropped :
        (all : List OnChainPosition) (book : Book F) (k : String)
        → IsMap book.tracked
        → map_get k (drop_gone writes all (filter is_live all) book.tracked book).tracked
          ≡ kept (filter is_live all) (map_get k book.tracked)
    map_get_dropped all book k u =
        let left = map_get-drop_gone all (filter is_live all) book.tracked book k in
        rw (any-gone_at (filter is_live all) k book.tracked u) at left

    -- For every key, the pass leaves what the wallet and the position before it call for: a position
    -- that is gone is dropped, a live one gets its range on chain and keeps the rest of its record, and
    -- an untracked live one is adopted if the state of its pool can be read; nothing else changes.
    pub map_get-reconcile_with :
        (chain : Chain) (watched : List String) (all : List OnChainPosition) (book : Book F)
        (k : String)
        → IsMap book.tracked
        → HaveDistinctKeys (filter is_live all)
        → map_get k (reconcile_with writes chain watched all book).tracked
          ≡ matched_by chain
              (find (has_pub_key k) (filter is_live all))
              (kept (filter is_live all) (map_get k book.tracked))
    unfolding reconcile_with
    map_get-reconcile_with chain watched all book k u d =
        let live = filter is_live all in
        let found =
          map_get-match_all chain watched live (drop_gone writes all live book.tracked book) k d in
        rw (map_get_dropped all book k u) at found
