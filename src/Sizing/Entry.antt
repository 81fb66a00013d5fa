-- ===== src/Sizing/Entry.antt =====
-- engine/entry-sizing.ts: the size of an entry and of an idle-capital redeployment.
use beam_clmm.Prelude.{Option, some, ◌or◌, if◌then◌else◌, ◌≡◌, none, ◌⊎◌, ◌&&◌, inl, refl, inr}
use beam_clmm.Number.{Number, lit, max, int, ◌⊗◌, min, ◌>?◌}
use beam_clmm.Number.Order.{IsOrdered, ◌≼◌, IsNum}

pub record EntrySizeInput (F : Type 0) : Type 0 where
  pub equity_fraction_usd : Option F
  pub portfolio_value_usd : Option F
  pub wallet_balance_usd : F
  pub tvl_usd : F
  pub max_size_usd : Option F
  pub tvl_fraction_usd : Option F
  pub floor_usd : Option F

pub record IdleRedeploySizeInput (F : Type 0) : Type 0 where
  pub idle_capital_usd : F
  pub portfolio_value_usd : F
  pub max_per_pool_allocation_pct : F
  pub max_size_usd : F

module _ {F : Type 0} ⦃n : Number F⦄ where
  -- ENTRY_SIZE_WALLET_FRACTION, ENTRY_SIZE_TVL_FRACTION, ENTRY_SIZE_CAP_USD, ENTRY_SIZE_FLOOR_USD
  abbrev wallet_fraction : F
  wallet_fraction = lit 5 1

  abbrev tvl_fraction : F
  tvl_fraction = lit 5 3

  abbrev size_cap_usd : F
  size_cap_usd = int 500

  abbrev size_floor_usd : F
  size_floor_usd = int 10

  abbrev pub tvl_term : EntrySizeInput F → F
  tvl_term i = i.tvl_usd ⊗ (i.tvl_fraction_usd or tvl_fraction)

  abbrev pub cap_term : EntrySizeInput F → F
  cap_term i = i.max_size_usd or size_cap_usd

  abbrev pub wallet_term : EntrySizeInput F → F
  wallet_term i = i.wallet_balance_usd ⊗ wallet_fraction

  abbrev pub floor_term : EntrySizeInput F → F
  floor_term i = i.floor_usd or size_floor_usd

  -- The base in equity-share mode, where both figures are given and positive.
  abbrev pub equity_term : Option F → Option F → Option F
  equity_term (some portfolio) (some fraction) =
      if (portfolio >? int 0) && (fraction >? int 0) then some (portfolio ⊗ fraction) else none
  equity_term _ _ = none

  abbrev size_from : Option F → EntrySizeInput F → F
  size_from (some equity) i =
      max (min (min (min equity (tvl_term i)) (cap_term i)) (wallet_term i)) (floor_term i)
  size_from none i = max (min (min (wallet_term i) (tvl_term i)) (cap_term i)) (floor_term i)

  unfoldable pub compute_entry_size_usd : EntrySizeInput F → F
  compute_entry_size_usd i = size_from (equity_term i.portfolio_value_usd i.equity_fraction_usd) i

  unfoldable pub compute_idle_redeploy_size_usd : IdleRedeploySizeInput F → F
  compute_idle_redeploy_size_usd i =
      max
        (min
          (min (i.idle_capital_usd ⊗ wallet_fraction)
            (i.portfolio_value_usd ⊗ i.max_per_pool_allocation_pct))
          i.max_size_usd)
        (int 0)

  abbrev UnderEquity : Option F → F → Type 0
  UnderEquity none size = Unit {0}
  UnderEquity (some equity) size = size ≼ equity

  -- A size that no cap exceeds.
  pub record IsAffordable (i : EntrySizeInput F) (size : F) : Type 0 where
    pub under_wallet : size ≼ wallet_term i
    pub under_tvl : size ≼ tvl_term i
    pub under_cap : size ≼ cap_term i
    pub under_equity : UnderEquity (equity_term i.portfolio_value_usd i.equity_fraction_usd) size

  module _ (laws : IsOrdered F) where
    open laws use {le_trans, min-le, min_num, max_num, max_cases, le-max}

    -- A minimum of three is below each of them.
    min3-le :
        (a b c : F)
        → IsNum (min (min a b) c)
        → (min (min a b) c ≼ a) × (min (min a b) c ≼ b) × (min (min a b) c ≼ c)
    min3-le a b c h =
        let (ab, cn) = min_num _ _ h in
        let (an, bn) = min_num _ _ ab in
        let (x, y) = min-le _ _ ab cn in
        let (u, v) = min-le _ _ an bn in (le_trans _ _ _ x u, le_trans _ _ _ x v, y)

    size_from-cases :
        (e : Option F) (i : EntrySizeInput F)
        → equity_term i.portfolio_value_usd i.equity_fraction_usd ≡ e
        → IsNum (size_from e i)
        → (floor_term i ≼ size_from e i)
          × ((size_from e i ≡ floor_term i) ⊎ IsAffordable i (size_from e i))
    size_from-cases none i k h =
        let base = min (min (wallet_term i) (tvl_term i)) (cap_term i) in
        let (base_num, floor_num) = max_num base (floor_term i) h in
        let (_, above) = le-max base (floor_term i) base_num floor_num in
        let (w, t, c) = min3-le _ _ _ base_num in
        (
          above,
          elim (max_cases base (floor_term i)) [
            | inl same ↦ inr (
                rw same (record {
                  under_wallet = w;
                  under_tvl = t;
                  under_cap = c;
                  under_equity = rw k tt;
                }))
            | inr same ↦ inl same
          ],
        )
    size_from-cases (some equity) i k h =
        let inner = min (min equity (tvl_term i)) (cap_term i) in
        let base = min inner (wallet_term i) in
        let (base_num, floor_num) = max_num base (floor_term i) h in
        let (_, above) = le-max base (floor_term i) base_num floor_num in
        let (inner_num, wallet_num) = min_num _ _ base_num in
        let (x, w) = min-le _ _ inner_num wallet_num in
        let (e', t, c) = min3-le _ _ _ inner_num in
        (
          above,
          elim (max_cases base (floor_term i)) [
            | inl same ↦ inr (
                rw same (record {
                  under_wallet = w;
                  under_tvl = le_trans _ _ _ x t;
                  under_cap = le_trans _ _ _ x c;
                  under_equity = rw k (le_trans _ _ _ x e');
                }))
            | inr same ↦ inl same
          ],
        )

    -- An entry is never smaller than the floor; it is the floor itself, or a size that neither half
    -- the wallet, nor the share of the pool, nor the ceiling, nor the share of equity where that is
    -- set, exceeds. (The result is taken to be a number.)
    pub compute_entry_size_usd-cases :
        (i : EntrySizeInput F)
        → IsNum (compute_entry_size_usd i)
        → (floor_term i ≼ compute_entry_size_usd i)
          × ((compute_entry_size_usd i ≡ floor_term i) ⊎ IsAffordable i (compute_entry_size_usd i))
    unfolding compute_entry_size_usd
    compute_entry_size_usd-cases i h =
        size_from-cases (equity_term i.portfolio_value_usd i.equity_fraction_usd) i refl h
