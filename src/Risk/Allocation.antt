-- ===== src/Risk/Allocation.antt =====
-- `evaluatePerPoolAllocation` of engine/risk-service.ts: counts, then the pool's remaining headroom.
use beam_clmm.Prelude.{
  Bool, List, false, Option, ◌≡◌, ◌or◌, true, if◌then◌else◌, arith, length, String, ◌&&◌, not, ◌⊎◌,
  some, ◌↔◌, none, Bool-cases, inr, inl,
}
use beam_clmm.Number.{
  Number, ◌≥?◌, min, int, is_finite, max, ◌⊖◌, ◌⊗◌, ◌≤?◌, ◌<?◌, ◌>?◌, ◌⊘◌, infinity,
}
use beam_clmm.Risk.{Position, pool_exposure, pool_positions}
use beam_clmm.Number.Order.{
  IsOrdered, IsNum, ◌≺◌, ◌≼◌, min_lt, lt_of_not_le, le_of_lt, not_le_of_lt, lt-min,
}

pub record PerPoolAllocationInput (F : Type 0) : Type 0 where
  pub proposed_deposit_usd : F
  pub portfolio_value_usd : F
  pub open_positions : List (Position F)
  pub max_per_pool_allocation_pct : F
  pub max_open_positions : F
  pub pool_address : String
  pub max_positions_per_pool : F
  pub pool_tvl_usd : Option F
  pub challenge_pool_share_cap_pct : Option F
  pub counted_open_positions : Option F
  pub counted_pool_positions : Option F

pub data AllocationReason : Type 0 where
  pool_count_reached open_count_reached inputs_not_finite headroom_filled : AllocationReason
  deposit_capped within_cap : AllocationReason

pub record PerPoolAllocationResult (F : Type 0) : Type 0 where
  pub approved : Bool
  pub reason : AllocationReason
  pub adjusted_deposit_usd : F

module _ {F : Type 0} ⦃n : Number F⦄ where
  abbrev pub counted_on_pool : PerPoolAllocationInput F → F
  counted_on_pool i =
      i.counted_pool_positions or int (length (pool_positions i.pool_address i.open_positions))

  abbrev pub counted_open : PerPoolAllocationInput F → F
  counted_open i = i.counted_open_positions or int (length i.open_positions)

  abbrev pub existing_exposure : PerPoolAllocationInput F → F
  existing_exposure i = pool_exposure i.pool_address i.open_positions

  -- The share of the pool's own value; no cap unless both optional figures allow one.
  abbrev tvl_share_cap : Option F → Option F → F
  tvl_share_cap (some share) tvl =
      if (tvl or int 0) >? int 0 then max ((tvl or int 0) ⊗ (share ⊘ int 100)) (int 0) else infinity
  tvl_share_cap none tvl = infinity

  abbrev pub per_pool_cap : PerPoolAllocationInput F → F
  per_pool_cap i =
      min (max (i.portfolio_value_usd ⊗ i.max_per_pool_allocation_pct) (int 0))
        (tvl_share_cap i.challenge_pool_share_cap_pct i.pool_tvl_usd)

  abbrev pub headroom : PerPoolAllocationInput F → F
  headroom i = max (per_pool_cap i ⊖ existing_exposure i) (int 0)

  abbrev pub finite_inputs : PerPoolAllocationInput F → Bool
  finite_inputs i =
      is_finite i.proposed_deposit_usd
      && (is_finite i.portfolio_value_usd
          && (is_finite i.max_per_pool_allocation_pct && is_finite (existing_exposure i)))

  abbrev refuse_deposit : AllocationReason → PerPoolAllocationResult F
  refuse_deposit why = record { approved = false; reason = why; adjusted_deposit_usd = int 0 }

  unfoldable pub evaluate_per_pool_allocation : PerPoolAllocationInput F → PerPoolAllocationResult F
  evaluate_per_pool_allocation i =
      let adjusted = min i.proposed_deposit_usd (headroom i) in
      if counted_on_pool i ≥? i.max_positions_per_pool
      then refuse_deposit pool_count_reached
      else if counted_open i ≥? i.max_open_positions
      then refuse_deposit open_count_reached
      else if not (finite_inputs i)
      then refuse_deposit inputs_not_finite
      else if adjusted ≤? int 0
      then refuse_deposit headroom_filled
      else record {
        approved = true;
        reason = if adjusted <? i.proposed_deposit_usd then deposit_capped else within_cap;
        adjusted_deposit_usd = adjusted;
      }

  pub record HasRoom (i : PerPoolAllocationInput F) : Type 0 where
    pub pool_has_room : (counted_on_pool i ≥? i.max_positions_per_pool) ≡ false
    pub book_has_room : (counted_open i ≥? i.max_open_positions) ≡ false
    pub finite : finite_inputs i ≡ true
    pub positive : int 0 ≺ i.proposed_deposit_usd
    pub some_headroom : int 0 ≺ headroom i

  pub record IsBounded (i : PerPoolAllocationInput F) (deposit : F) : Type 0 where
    pub positive : int 0 ≺ deposit
    pub under_proposal : deposit ≼ i.proposed_deposit_usd
    pub under_headroom : deposit ≼ headroom i
    pub finite : is_finite deposit ≡ true
    pub tight : (deposit ≡ i.proposed_deposit_usd) ⊎ (deposit ≡ headroom i)

  refused_is_zero :
      (i : PerPoolAllocationInput F)
      → (evaluate_per_pool_allocation i).approved ≡ false
      → (evaluate_per_pool_allocation i).adjusted_deposit_usd ≡ int 0
  unfolding evaluate_per_pool_allocation
  refused_is_zero i h = ground arith

  module _ (laws : IsOrdered F) where
    open laws use {
      num_of_finite, num_of_lt, lit_num, min_cases, min-le, min_num, finite_between, zero_finite,
    }

    HasRoom-of_approved :
        (i : PerPoolAllocationInput F)
        → IsNum (headroom i)
        → (evaluate_per_pool_allocation i).approved ≡ true
        → HasRoom i
    unfolding evaluate_per_pool_allocation
    HasRoom-of_approved i num h =
        let adjusted = min i.proposed_deposit_usd (headroom i) in
        let f : is_finite i.proposed_deposit_usd ≡ true = ground arith in
        let some_of_both : IsNum adjusted =
          ground (arith, num_of_finite _ f, min_cases i.proposed_deposit_usd (headroom i)) in
        let positive : int 0 ≺ adjusted =
          lt_of_not_le laws adjusted (int 0) some_of_both (lit_num 0 0) (ground arith) in
        let (p, q) = lt-min laws _ _ _ positive in
        record {
          pool_has_room = ground arith;
          book_has_room = ground arith;
          finite = ground arith;
          positive = p;
          some_headroom = q;
        }

    approved_of_room :
        (i : PerPoolAllocationInput F)
        → HasRoom i
        → (evaluate_per_pool_allocation i).approved ≡ true
    unfolding evaluate_per_pool_allocation
    approved_of_room i v =
        let positive = min_lt laws _ _ _ v.positive v.some_headroom in
        ground (arith, v.pool_has_room, v.book_has_room, v.finite, not_le_of_lt laws _ _ positive)

    -- A deposit is admitted exactly when all tests pass, where the headroom is a number.
    pub evaluate_per_pool_allocation-HasRoom :
        (i : PerPoolAllocationInput F)
        → IsNum (headroom i)
        → ((evaluate_per_pool_allocation i).approved ≡ true) ↔ HasRoom i
    evaluate_per_pool_allocation-HasRoom i num = (HasRoom-of_approved i num, approved_of_room i)

    adjusted-eq-min :
        (i : PerPoolAllocationInput F)
        → (evaluate_per_pool_allocation i).approved ≡ true
        → (evaluate_per_pool_allocation i).adjusted_deposit_usd
          ≡ min i.proposed_deposit_usd (headroom i)
    unfolding evaluate_per_pool_allocation
    adjusted-eq-min i h = ground arith

    pub approved-IsBounded :
        (i : PerPoolAllocationInput F)
        → IsNum (headroom i)
        → (evaluate_per_pool_allocation i).approved ≡ true
        → IsBounded i (evaluate_per_pool_allocation i).adjusted_deposit_usd
    approved-IsBounded i num h =
        let v = HasRoom-of_approved i num h in
        let f : is_finite i.proposed_deposit_usd ≡ true = ground (arith, v.finite) in
        let positive = min_lt laws _ _ _ v.positive v.some_headroom in
        let (a, b) = min-le i.proposed_deposit_usd (headroom i) (num_of_finite _ f) num in
        rw (adjusted-eq-min i h) (record {
          positive = positive;
          under_proposal = a;
          under_headroom = b;
          finite = finite_between _ _ _ zero_finite (le_of_lt laws _ _ positive) a f;
          tight = min_cases i.proposed_deposit_usd (headroom i);
        })

    -- An admitted deposit is positive and finite, and is the larger of the amounts that exceed neither
    -- the proposal nor the pool's remaining headroom: it is one of the two. A refused one is zero.
    evaluate_per_pool_allocation-IsBounded :
        (i : PerPoolAllocationInput F)
        → IsNum (headroom i)
        → let r = evaluate_per_pool_allocation i in
          ((r.approved ≡ true) × IsBounded i r.adjusted_deposit_usd)
          ⊎ ((r.approved ≡ false) × (r.adjusted_deposit_usd ≡ int 0))
    evaluate_per_pool_allocation-IsBounded i num =
        elim (Bool-cases (evaluate_per_pool_allocation i).approved) [
          | inl h ↦ inl (h, approved-IsBounded i num h)
          | inr h ↦ inr (h, refused_is_zero i h)
        ]
