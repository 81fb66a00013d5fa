-- ===== src/Pools/Depeg.antt =====
-- `detectDepegAndLiquidityDrain` of engine/depeg-liquidity-detector.ts.
use beam_clmm.Prelude.{
  Bool, filter, List, String, Option, ◌&&◌, ◌or◌, some, ◌∷◌, none, false, if◌then◌else◌, str_eq,
  not, any, ◌||◌, [], length, get_elem?, ◌==◌, true, ◌-◌, ◌≡◌, arith, Bool-cases, inl, inr, refl,
}
use beam_clmm.Prelude.Int.{plus_part}
use beam_clmm.Number.{Number, is_finite, ◌>?◌, ◌≥?◌, abs, max, lit, ◌⊖◌, int, ◌≤?◌, floor, ◌⊘◌, neg}
use beam_clmm.Pools.{PoolState, PoolSnapshot, is_measured_stats_source}

pub record DepegLiquidityConfig (F : Type 0) : Type 0 where
  pub stablecoin_mints : Option (List String)
  pub depeg_absolute_usd : Option F
  pub depeg_relative_pct : Option F
  pub liquidity_drain_pct : Option F
  pub lookback_snapshots : Option F

pub record DepegSignal (F : Type 0) : Type 0 where
  pub token_mint : String
  pub deviation_usd : F

pub record DrainSignal (F : Type 0) : Type 0 where
  pub tvl_pct : F
  pub volume_pct : F

pub record DepegLiquiditySignals (F : Type 0) : Type 0 where
  pub depeg : Option (DepegSignal F)
  pub liquidity_drain : Option (DrainSignal F)

abbrev is_listed : Option (List String) → String → Bool
is_listed none mint = false
is_listed (some mints) mint = any (str_eq mint) mints

collapse_tests :
    (a b m c v w : Bool)
    → (if not a || not b then false else if m && not c then true else m && (v && w)) ≡ false
    → (a && b) ≡ true
    → w ≡ true
    → (m ≡ true → c ≡ true) × (m ≡ true → v ≡ false)
collapse_tests a b m c v w h k l = (λ e. ground arith, λ e. ground arith)

both_true : (a b : Bool) → (a && b) ≡ true → (a ≡ true) × (b ≡ true)
both_true a b h = (ground arith, ground arith)

module _ {F : Type 0} ⦃n : Number F⦄ where
  abbrev pub finite_positive : F → Bool
  finite_positive x = is_finite x && (x >? int 0)

  unfoldable pub is_likely_stats_source_collapse : PoolState F → Option (PoolSnapshot F) → Bool
  is_likely_stats_source_collapse pool none = false
  is_likely_stats_source_collapse pool (some r) =
      if not (finite_positive r.tvl_usd) || not (finite_positive r.volume_24h_usd)
      then false
      else if is_measured_stats_source r.stats_source
          && not (is_measured_stats_source pool.stats_source)
      then true
      else is_measured_stats_source r.stats_source
        && ((pool.volume_24h_usd ≤? int 0) && (r.volume_24h_usd >? int 0))

  abbrev pub stablecoin_mints_for_pool : PoolState F → DepegLiquidityConfig F → List String
  stablecoin_mints_for_pool pool config =
      filter (is_listed config.stablecoin_mints) (pool.token_x ∷ pool.token_y ∷ [])

  abbrev pub stablecoin_price_for : PoolState F → String → F
  stablecoin_price_for pool mint =
      if str_eq mint pool.token_x then pool.current_price else int 1 ⊘ pool.current_price

  abbrev deviation_of : PoolState F → String → F
  deviation_of pool mint = abs (stablecoin_price_for pool mint ⊖ int 1)

  abbrev pub is_depeg_signal : F → PoolState F → F → F → Bool
  is_depeg_signal deviation pool absolute relative =
      finite_positive pool.current_price && ((deviation ≥? absolute) || (deviation ≥? relative))

  -- The first of the mints that is off its peg.
  unfoldable pub first_depeg : PoolState F → F → F → List String → Option (DepegSignal F)
  first_depeg pool absolute relative [] = none
  first_depeg pool absolute relative (mint ∷ mints) =
      let rest = first_depeg pool absolute relative mints in
      if is_depeg_signal (deviation_of pool mint) pool absolute relative
      then some (record { token_mint = mint; deviation_usd = deviation_of pool mint })
      else rest

  unfoldable pub depeg_for_mints : PoolState F → List String → F → F → Option (DepegSignal F)
  unfolding first_depeg
  depeg_for_mints pool mints absolute relative =
      if not (length mints == 2) then none else first_depeg pool absolute relative mints

  -- `history[history.length - lookback]` where it is there.
  abbrev pub liquidity_reference : List (PoolSnapshot F) → F → Option (PoolSnapshot F)
  liquidity_reference history lookback =
      if int (length history) ≥? lookback
      then get_elem? history (length history - plus_part (n.to_big lookback))
      else none

  -- The change since the reference, of the figure that `f` reads.
  abbrev pub change_pct : (PoolSnapshot F → F) → F → Option (PoolSnapshot F) → Option F
  change_pct f x none = none
  change_pct f x (some r) = if not (finite_positive (f r)) then none else some ((x ⊖ f r) ⊘ f r)

  abbrev pub drain_signal : Option F → Option F → F → Option (DrainSignal F)
  drain_signal (some tvl) (some volume) threshold =
      if (tvl ≤? neg threshold) && (volume ≤? neg threshold)
      then some (record { tvl_pct = tvl; volume_pct = volume })
      else none
  drain_signal _ _ threshold = none

  unfoldable pub drain_since : PoolState F → Option (PoolSnapshot F) → F → Option (DrainSignal F)
  unfolding is_likely_stats_source_collapse
  drain_since pool reference threshold =
      if is_likely_stats_source_collapse pool reference
      then none
      else drain_signal (change_pct (λ r. r.tvl_usd) pool.tvl_usd reference)
          (change_pct (λ r. r.volume_24h_usd) pool.volume_24h_usd reference) threshold

  abbrev pub lookback_of : DepegLiquidityConfig F → F
  lookback_of config = max (int 1) (floor (config.lookback_snapshots or int 2))

  unfoldable pub detect_depeg_and_liquidity_drain :
      PoolState F → List (PoolSnapshot F) → DepegLiquidityConfig F → DepegLiquiditySignals F
  unfolding depeg_for_mints drain_since filter
  detect_depeg_and_liquidity_drain pool history config = record {
    depeg =
        depeg_for_mints pool (stablecoin_mints_for_pool pool config)
          (config.depeg_absolute_usd or lit 2 2) (config.depeg_relative_pct or lit 2 2);
    liquidity_drain =
        drain_since pool (liquidity_reference history (lookback_of config))
          (config.liquidity_drain_pct or lit 5 1);
  }

  -- Why a drain is reported.
  pub record IsDrain (pool : PoolState F) (r : PoolSnapshot F) (threshold : F) (d : DrainSignal F)
      : Type 0 where
    pub tvl_change : d.tvl_pct ≡ ((pool.tvl_usd ⊖ r.tvl_usd) ⊘ r.tvl_usd)
    pub volume_change : d.volume_pct ≡ ((pool.volume_24h_usd ⊖ r.volume_24h_usd) ⊘ r.volume_24h_usd)
    pub both_fell : ((d.tvl_pct ≤? neg threshold) && (d.volume_pct ≤? neg threshold)) ≡ true
    pub sound_tvl : (is_finite r.tvl_usd && (r.tvl_usd >? int 0)) ≡ true
    pub sound_volume : (is_finite r.volume_24h_usd && (r.volume_24h_usd >? int 0)) ≡ true
    pub same_quality :
        is_measured_stats_source r.stats_source ≡ true
        → is_measured_stats_source pool.stats_source ≡ true
    pub volume_left :
        is_measured_stats_source r.stats_source ≡ true → (pool.volume_24h_usd ≤? int 0) ≡ false

  drain_guards :
      (a b : Bool) (x y : F) (threshold : F) (d : DrainSignal F)
      → drain_signal (if not a then none else some x) (if not b then none else some y) threshold
        ≡ some d
      → ((a && b) ≡ true)
        × (((x ≤? neg threshold) && (y ≤? neg threshold)) ≡ true)
        × (record { tvl_pct = x; volume_pct = y } ≡ d)
  drain_guards false b x y threshold d h = cc
  drain_guards true false x y threshold d h = cc
  drain_guards true true x y threshold d h =
      elim (Bool-cases ((x ≤? neg threshold) && (y ≤? neg threshold))) [
        | inl e ↦ let k = rw e at h in (refl, e, cc)
        | inr e ↦ let k = rw e at h in cc
      ]

  -- A drain is only reported against a reference snapshot whose figures are positive and finite, when
  -- both figures fell by the threshold since; and when the reference was measured, only if the current
  -- figures are measured as well and their volume is not wiped out.
  pub drain_since-IsDrain :
      (pool : PoolState F) (reference : Option (PoolSnapshot F)) (threshold : F) (d : DrainSignal F)
      → drain_since pool reference threshold ≡ some d
      → (r : PoolSnapshot F) × (reference ≡ some r) × IsDrain pool r threshold d
  unfolding drain_since is_likely_stats_source_collapse
  drain_since-IsDrain pool none threshold d h = cc
  drain_since-IsDrain pool (some r) threshold d h =
      elim (Bool-cases (is_likely_stats_source_collapse pool (some r))) [
        | inl e ↦ let k : none ≡ some d = rw (drain_since, e) at h in cc
        | inr e ↦
            let (sound, fell, same) = drain_guards _ _ _ _ threshold d (rw (drain_since, e) at h) in
            let (t, u) = both_true _ _ sound in
            let guards =
              collapse_tests _ _ _ _ (pool.volume_24h_usd ≤? int 0) (r.volume_24h_usd >? int 0) e
                sound (both_true _ _ u).1 in
            (
              r,
              refl,
              rw (← same) (record {
                tvl_change = refl;
                volume_change = refl;
                both_fell = fell;
                sound_tvl = t;
                sound_volume = u;
                same_quality = guards.0;
                volume_left = guards.1;
              }),
            )
      ]
