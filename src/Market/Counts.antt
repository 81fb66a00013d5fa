-- ===== src/Market/Counts.antt =====
-- How many times `gateAndRankMarketPools` of engine/market-gate.ts lists each pool: its two lists against
-- the admissible and the other pools of the snapshot.
use mathlib.Core.List.Perm
use mathlib.Core.List.{Perm}
use beam_clmm.Prelude.{
  Bool, String, List, [], ◌∷◌, map, filter, not, sort_by, insert_by, ◌≡◌, refl, sym, ap, true,
  false, Option, some, none, is_none, if◌then◌else◌,
}
use beam_clmm.Number.{Number}
use beam_clmm.Market.{DiscoveredPool, MarketGateConfig, MarketRejection}
use beam_clmm.Market.Laws.{is_admissible, market_rejection-eq}
use beam_clmm.Market.Score.{MarketPoolRank}
use beam_clmm.Market.Order.{IsGated, gate_and_rank_market_pools-IsGated}
use beam_clmm.Market.Rank.{
  gate_and_rank_market_pools, gate_pools, MarketGateResult, scores_less, market_rejection, rank_of,
  add_pool,
}

module _ {A : Type 0} (after : A → A → Bool) where
  placed-perm :
      (b : Bool) (x y : A) (rest ys : List A)
      → Perm rest (x ∷ ys)
      → Perm (if b then y ∷ rest else x ∷ y ∷ ys) (x ∷ y ∷ ys)
  placed-perm true x y rest ys p = Perm.trans (Perm.cons y p) (Perm.swap x y ys)
  placed-perm false x y rest ys p = Perm.rfl

  insert_by-perm : (x : A) (ys : List A) → Perm (insert_by after x ys) (x ∷ ys)
  unfolding insert_by
  insert_by-perm x [] = Perm.rfl
  insert_by-perm x (y ∷ ys) = placed-perm (after x y) x y _ ys (insert_by-perm x ys)

  sort_by-perm : (xs : List A) → Perm (sort_by after xs) xs
  unfolding sort_by
  sort_by-perm [] = Perm.rfl
  sort_by-perm (x ∷ xs) =
      Perm.trans (insert_by-perm x (sort_by after xs)) (Perm.cons x (sort_by-perm xs))

module _ {F : Type 0} ⦃n : Number F⦄ (log10 : F → F) (to_upper_case : String → String)
    (config : MarketGateConfig F) where
  abbrev pub ranks_of : List (DiscoveredPool F) → List (MarketPoolRank F)
  ranks_of pools =
      map (λ pool. rank_of log10 to_upper_case pool config)
        (filter (λ pool. is_admissible pool config) pools)

  abbrev pub addresses_refused : List (DiscoveredPool F) → List String
  addresses_refused pools =
      map (λ pool. pool.address) (filter (λ pool. not (is_admissible pool config)) pools)

  -- The two lists of a result, as the lists of a snapshot.
  record IsSplit (pools : List (DiscoveredPool F)) (l : MarketGateResult F) : Type 0 where
    ranked : l.ranked ≡ ranks_of pools
    refused : map (λ r. r.address) l.rejected ≡ addresses_refused pools

  add_pool-IsSplit :
      (o : Option MarketRejection) (pool : DiscoveredPool F) (pools : List (DiscoveredPool F))
      (l : MarketGateResult F)
      → is_none o ≡ is_admissible pool config
      → IsSplit pools l
      → IsSplit (pool ∷ pools) (add_pool log10 to_upper_case o pool config l)
  unfolding filter
  add_pool-IsSplit none pool pools l e s =
      let yes : is_admissible pool config ≡ true = sym e in
      record {
        ranked = rw yes (ap (◌∷◌ (rank_of log10 to_upper_case pool config)) s.ranked);
        refused = rw yes s.refused;
      }
  add_pool-IsSplit (some reason) pool pools l e s =
      let no : is_admissible pool config ≡ false = sym e in
      record { ranked = rw no s.ranked; refused = rw no (ap (◌∷◌ pool.address) s.refused) }

  gate_pools-IsSplit :
      (pools : List (DiscoveredPool F))
      → IsSplit pools (gate_pools log10 to_upper_case pools config)
  unfolding gate_pools filter
  gate_pools-IsSplit [] = record { ranked = refl; refused = refl }
  gate_pools-IsSplit (pool ∷ pools) =
      add_pool-IsSplit (market_rejection pool config) pool pools _ (market_rejection-eq pool config)
        (gate_pools-IsSplit pools)

  -- What the gate promises of a snapshot.
  pub record IsCounted (pools : List (DiscoveredPool F)) (result : MarketGateResult F)
      : Type 0 where
    pub ranked_once : Perm result.ranked (ranks_of pools)
    pub refused_once : map (λ r. r.address) result.rejected ≡ addresses_refused pools
    pub reasons : IsGated log10 to_upper_case config pools result

  -- The ranked pools are the admissible pools of the snapshot, each as often as it stands there and with
  -- its own score, in some order; the addresses of the rejections are those of all other pools, in their
  -- order; and every rejection is of a pool of the snapshot with the reason of the first gate that it
  -- fails.
  pub gate_and_rank_market_pools-IsCounted :
      (pools : List (DiscoveredPool F))
      → IsCounted pools (gate_and_rank_market_pools log10 to_upper_case pools config)
  unfolding gate_and_rank_market_pools
  gate_and_rank_market_pools-IsCounted pools =
      let s = gate_pools-IsSplit pools in
      record {
        ranked_once =
            rw (← s.ranked)
              (sort_by-perm scores_less (gate_pools log10 to_upper_case pools config).ranked);
        refused_once = s.refused;
        reasons = gate_and_rank_market_pools-IsGated log10 to_upper_case config pools;
      }
