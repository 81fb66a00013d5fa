-- ===== src/Risk/Admitted.antt =====
-- When `evaluatePerPoolAllocation` of engine/risk-service.ts admits a deposit, figure by figure.
use beam_clmm.Prelude.{
  Option, some, none, ◌≡◌, true, false, ◌↔◌, ◌or◌, length, arith, if◌then◌else◌,
}
use beam_clmm.Number.{Number, ◌≥?◌, ◌>?◌, min, max, int, is_finite, infinity, ◌⊖◌, ◌⊗◌, ◌⊘◌}
use beam_clmm.Number.Order.{IsOrdered, IsNum, ◌≺◌, lt_of_lt_of_le, not_lt_of_le}
use beam_clmm.Risk.{pool_exposure, pool_positions}
use beam_clmm.Risk.Allocation.{
  PerPoolAllocationInput, evaluate_per_pool_allocation, evaluate_per_pool_allocation-HasRoom,
  headroom,
}

module _ {F : Type 0} ⦃n : Number F⦄ where
  -- What the pool may hold of its own value: no limit unless a share is set and the value is known.
  abbrev value_limit : Option F → Option F → F
  value_limit none tvl = infinity
  value_limit (some share) tvl =
      if (tvl or int 0) >? int 0 then max ((tvl or int 0) ⊗ (share ⊘ int 100)) (int 0) else infinity

  -- What is left of the smaller of the two limits on a pool.
  abbrev pub remaining : PerPoolAllocationInput F → F
  remaining i =
      min (max (i.portfolio_value_usd ⊗ i.max_per_pool_allocation_pct) (int 0))
        (value_limit i.challenge_pool_share_cap_pct i.pool_tvl_usd)
      ⊖ pool_exposure i.pool_address i.open_positions

  pub record IsAdmitted (i : PerPoolAllocationInput F) : Type 0 where
    pub pool_has_room :
        ((i.counted_pool_positions or int (length (pool_positions i.pool_address i.open_positions)))
          ≥? i.max_positions_per_pool)
        ≡ false
    pub book_has_room :
        ((i.counted_open_positions or int (length i.open_positions)) ≥? i.max_open_positions)
        ≡ false
    pub finite_deposit : is_finite i.proposed_deposit_usd ≡ true
    pub finite_portfolio : is_finite i.portfolio_value_usd ≡ true
    pub finite_share : is_finite i.max_per_pool_allocation_pct ≡ true
    pub finite_exposure : is_finite (pool_exposure i.pool_address i.open_positions) ≡ true
    pub positive : int 0 ≺ i.proposed_deposit_usd
    pub some_left : int 0 ≺ remaining i

  module _ (laws : IsOrdered F) where
    positive_left : (x : F) → int 0 ≺ max x (int 0) → int 0 ≺ x
    positive_left x h =
        ground
          (arith, laws.max_cases x (int 0), not_lt_of_le laws (int 0) (int 0) (laws.lit_num 0 0))

    positive_right : (x : F) → int 0 ≺ x → int 0 ≺ max x (int 0)
    positive_right x h =
        lt_of_lt_of_le laws (int 0) x (max x (int 0)) h
          (laws.le-max x (int 0) (laws.num_of_lt _ _ h).1 (laws.lit_num 0 0)).0

    -- A deposit is admitted exactly when the pool and the book have room for one more position, the
    -- deposit, the value of the portfolio, the share of it that a pool may take and the pool's present
    -- exposure are finite, the deposit is positive, and the exposure leaves something of the smaller of
    -- the two limits on the pool; what it leaves is not NaN.
    pub evaluate_per_pool_allocation_iff :
        (i : PerPoolAllocationInput F)
        → IsNum (remaining i)
        → ((evaluate_per_pool_allocation i).approved ≡ true) ↔ IsAdmitted i
    evaluate_per_pool_allocation_iff i num =
        let room : IsNum (headroom i) =
          ground (arith, num, laws.max_cases (remaining i) (int 0), laws.lit_num 0 0) in
        let (there, back) = evaluate_per_pool_allocation-HasRoom laws i room in
        (
          λ h.
              let v = there h in
              record {
                pool_has_room = v.pool_has_room;
                book_has_room = v.book_has_room;
                finite_deposit = ground (arith, v.finite);
                finite_portfolio = ground (arith, v.finite);
                finite_share = ground (arith, v.finite);
                finite_exposure = ground (arith, v.finite);
                positive = v.positive;
                some_left = positive_left (remaining i) v.some_headroom;
              },
          λ v. back (record {
            pool_has_room = v.pool_has_room;
            book_has_room = v.book_has_room;
            finite =
                ground
                  (arith, v.finite_deposit, v.finite_portfolio, v.finite_share, v.finite_exposure);
            positive = v.positive;
            some_headroom = positive_right (remaining i) v.some_left;
          }),
        )
