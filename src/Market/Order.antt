-- ===== src/Market/Order.antt =====
-- The result of `gateAndRankMarketPools` of engine/market-gate.ts: what is ranked, what is rejected,
-- and the order.
use beam_clmm.Prelude.{
  String, List, Option, Orders, Member, All, length, length-sort_by, ◌≡◌, ◌+◌, ◌∷◌, ℕ, some, [],
  true, suc, IsSorted, none, later, refl, sort_by-IsSorted, arith, sym, ◌∙◌, first, ap, is_none,
  sort_by-All, All-imp,
}
use beam_clmm.Number.{Number, is_finite}
use beam_clmm.Number.Order.{◌≼◌, IsOrdered}
use beam_clmm.Number.Rounding.{IsRounded, lt_of_sub, le_of_sub}
use beam_clmm.Market.{DiscoveredPool, MarketGateConfig, MarketRejection}
use beam_clmm.Market.Laws.{is_admissible, market_rejection-eq}
use beam_clmm.Market.Score.{MarketPoolRank}
use beam_clmm.Market.Rank.{
  gate_and_rank_market_pools, gate_pools, MarketGateResult, RejectedPool, scores_less,
  market_rejection, rank_of, add_pool,
}

module _ {F : Type 0} ⦃n : Number F⦄ (log10 : F → F) (to_upper_case : String → String)
    (config : MarketGateConfig F) where
  -- A rank comes from an admissible pool of the list.
  abbrev pub IsRankOf : List (DiscoveredPool F) → MarketPoolRank F → Type 0
  IsRankOf pools rank =
      (pool : DiscoveredPool F) × Member pool pools
      × (is_admissible pool config ≡ true)
      × (rank ≡ rank_of log10 to_upper_case pool config)

  -- A rejection names a pool of the list with the reason of its first failed gate.
  abbrev pub IsRejectionOf : List (DiscoveredPool F) → RejectedPool → Type 0
  IsRejectionOf pools r =
      (pool : DiscoveredPool F) × Member pool pools
      × (pool.address ≡ r.address)
      × (market_rejection pool config ≡ some r.reason)

  later_rank :
      (pool : DiscoveredPool F) (pools : List (DiscoveredPool F)) (rank : MarketPoolRank F)
      → IsRankOf pools rank
      → IsRankOf (pool ∷ pools) rank
  later_rank pool pools rank (p, inside, ok, same) = (p, later inside, ok, same)

  later_rejection :
      (pool : DiscoveredPool F) (pools : List (DiscoveredPool F)) (r : RejectedPool)
      → IsRejectionOf pools r
      → IsRejectionOf (pool ∷ pools) r
  later_rejection pool pools r (p, inside, there, why) = (p, later inside, there, why)

  gate_pools-All :
      (pools : List (DiscoveredPool F))
      → All (IsRankOf pools) (gate_pools log10 to_upper_case pools config).ranked
        × All (IsRejectionOf pools) (gate_pools log10 to_upper_case pools config).rejected
  unfolding gate_pools
  gate_pools-All [] = (tt, tt)
  gate_pools-All (pool ∷ pools) =
      let (ranks, rejections) = gate_pools-All pools in
      add_pool-All (market_rejection pool config) refl _ (All-imp _ (later_rank pool pools) ranks)
        (All-imp _ (later_rejection pool pools) rejections)
    where
      add_pool-All :
          (o : Option MarketRejection)
          → market_rejection pool config ≡ o
          → (l : MarketGateResult F) → All (IsRankOf (pool ∷ pools)) l.ranked
          → All (IsRejectionOf (pool ∷ pools)) l.rejected
          → All (IsRankOf (pool ∷ pools)) (add_pool log10 to_upper_case o pool config l).ranked
            × All
                (IsRejectionOf (pool ∷ pools))
                (add_pool log10 to_upper_case o pool config l).rejected
      add_pool-All none e l ranks rejections = (
        ((pool, first refl, sym (market_rejection-eq pool config) ∙ ap is_none e, refl), ranks),
        rejections,
      )
      add_pool-All (some reason) e l ranks rejections =
          (ranks, ((pool, first refl, refl, e), rejections))

  length-add_pool :
      (o : Option MarketRejection) (pool : DiscoveredPool F) (later : MarketGateResult F) (k : ℕ)
      → length later.ranked + length later.rejected ≡ k
      → length (add_pool log10 to_upper_case o pool config later).ranked
          + length (add_pool log10 to_upper_case o pool config later).rejected
        ≡ suc k
  length-add_pool none pool l k h = omega arith
  length-add_pool (some reason) pool l k h = omega arith

  length-gate_pools :
      (pools : List (DiscoveredPool F))
      → length (gate_pools log10 to_upper_case pools config).ranked
          + length (gate_pools log10 to_upper_case pools config).rejected
        ≡ length pools
  unfolding gate_pools
  length-gate_pools [] = refl
  length-gate_pools (pool ∷ pools) =
      length-add_pool (market_rejection pool config) pool _ (length pools) (length-gate_pools pools)

  -- What the gate promises of a snapshot.
  pub record IsGated (pools : List (DiscoveredPool F)) (result : MarketGateResult F) : Type 0 where
    pub each_rank : All (IsRankOf pools) result.ranked
    pub each_rejection : All (IsRejectionOf pools) result.rejected
    pub all_counted : length result.ranked + length result.rejected ≡ length pools

  -- Every ranked pool is an admissible pool of the snapshot with its own score, every rejection is of
  -- a pool of the snapshot with the reason of the first gate that it fails, and there are as many of
  -- both together as pools.
  pub gate_and_rank_market_pools-IsGated :
      (pools : List (DiscoveredPool F))
      → IsGated pools (gate_and_rank_market_pools log10 to_upper_case pools config)
  unfolding gate_and_rank_market_pools
  gate_and_rank_market_pools-IsGated pools = record {
    each_rank = sort_by-All scores_less (IsRankOf pools) _ (gate_pools-All pools).0;
    each_rejection = (gate_pools-All pools).1;
    all_counted = rw (length-sort_by) (length-gate_pools pools);
  }

  abbrev pub IsBetter : MarketPoolRank F → MarketPoolRank F → Type 0
  IsBetter a b = b.score ≼ a.score

  module _ (laws : IsOrdered F) (rounded : IsRounded F) where
    scores_less-Orders : Orders scores_less (λ r. is_finite r.score ≡ true) IsBetter
    scores_less-Orders = record {
      swap = λ x y p q. lt_of_sub laws rounded x.score y.score q p;
      keep = λ x y p q. le_of_sub laws rounded x.score y.score q p;
      chain = λ x y z h k. laws.le_trans z.score y.score x.score k h;
    }

    add_pool-finite :
        (o : Option MarketRejection) (pool : DiscoveredPool F) (later : MarketGateResult F)
        → is_finite (rank_of log10 to_upper_case pool config).score ≡ true
        → All (λ r. is_finite r.score ≡ true) later.ranked
        → All
            (λ r. is_finite r.score ≡ true)
            (add_pool log10 to_upper_case o pool config later).ranked
    add_pool-finite none pool l p q = (p, q)
    add_pool-finite (some reason) pool l p q = q

    finite_scores :
        (pools : List (DiscoveredPool F))
        → All (λ pool. is_finite (rank_of log10 to_upper_case pool config).score ≡ true) pools
        → All (λ r. is_finite r.score ≡ true) (gate_pools log10 to_upper_case pools config).ranked
    unfolding gate_pools
    finite_scores [] q = tt
    finite_scores (pool ∷ pools) (p, q) =
        add_pool-finite (market_rejection pool config) pool _ p (finite_scores pools q)

    -- The ranked pools stand in descending order of their scores, provided that the scores are finite.
    pub gate_and_rank_market_pools-IsSorted :
        (pools : List (DiscoveredPool F))
        → All (λ pool. is_finite (rank_of log10 to_upper_case pool config).score ≡ true) pools
        → IsSorted IsBetter (gate_and_rank_market_pools log10 to_upper_case pools config).ranked
    unfolding gate_and_rank_market_pools
    gate_and_rank_market_pools-IsSorted pools q =
        sort_by-IsSorted scores_less scores_less-Orders _ (finite_scores pools q)
