-- ===== src/Fees/Harvest.antt =====
-- The harvest decision of engine/harvest-gate.ts. Messages are constructors without their numbers.
use beam_clmm.Prelude.{Bool, Option, if◌then◌else◌, ◌||◌, not, true, false, ◌or◌, ◌≡◌, ◌↔◌, arith}
use beam_clmm.Number.{Number, is_finite, int, lit, ◌<?◌, ◌>?◌, ◌⊗◌}
use beam_clmm.Number.Order.{IsOrdered, IsNum, ◌≼◌, le_of_not_lt, not_lt_of_le}

pub record HarvestGateOptions (F : Type 0) : Type 0 where
  pub min_net_usd : Option F
  pub max_gas_pct : Option F

pub data HarvestReason : Type 0 where
  invalid_fees invalid_gas invalid_min_net invalid_max_gas : HarvestReason
  fees_below_min gas_exceeds_ceiling worth_harvesting : HarvestReason

pub record HarvestDecision : Type 0 where
  pub harvest : Bool
  pub reason : HarvestReason

abbrev decision : Bool → HarvestReason → HarvestDecision
decision h why = record { harvest = h; reason = why }

module _ {F : Type 0} ⦃n : Number F⦄ where
  abbrev pub resolved_min : HarvestGateOptions F → F
  resolved_min o = o.min_net_usd or int 1

  abbrev pub resolved_pct : HarvestGateOptions F → F
  resolved_pct o = o.max_gas_pct or lit 15 2

  -- `!Number.isFinite(x) || x < 0`
  abbrev is_invalid : F → Bool
  is_invalid x = not (is_finite x) || (x <? int 0)

  unfoldable pub should_harvest : F → F → HarvestGateOptions F → HarvestDecision
  should_harvest fees gas options =
      if is_invalid fees
      then decision false invalid_fees
      else if is_invalid gas
      then decision false invalid_gas
      else if is_invalid (resolved_min options)
      then decision false invalid_min_net
      else if is_invalid (resolved_pct options)
      then decision false invalid_max_gas
      else if fees <? resolved_min options
      then decision false fees_below_min
      else if gas >? (fees ⊗ resolved_pct options)
      then decision false gas_exceeds_ceiling
      else decision true worth_harvesting

  -- A finite amount that is not negative.
  pub record IsAmount (x : F) : Type 0 where
    pub finite : is_finite x ≡ true
    pub nonneg : int 0 ≼ x

  -- What makes fees worth the gas of claiming them.
  pub record IsWorthHarvest (fees gas : F) (options : HarvestGateOptions F) : Type 0 where
    pub fees_amount : IsAmount fees
    pub gas_amount : IsAmount gas
    pub min_amount : IsAmount (resolved_min options)
    pub pct_amount : IsAmount (resolved_pct options)
    pub enough : resolved_min options ≼ fees
    pub affordable : gas ≼ fees ⊗ resolved_pct options

  module _ (laws : IsOrdered F) where
    IsAmount-of_valid : (x : F) → is_invalid x ≡ false → IsAmount x
    IsAmount-of_valid x h =
        let f : is_finite x ≡ true = ground arith in
        record {
          finite = f;
          nonneg = le_of_not_lt laws _ _ (laws.num_of_finite x f) (laws.lit_num 0 0) (ground arith);
        }

    valid_of_amount : (x : F) → IsAmount x → is_invalid x ≡ false
    valid_of_amount x a = ground (arith, a.finite, not_lt_of_le laws _ _ a.nonneg)

    -- Fees are harvested exactly when the fees, the gas cost, the minimum and the fraction are finite
    -- and not negative, the fees reach the minimum and the gas is at most its fraction of the fees,
    -- where that fraction of the fees is a number; absent options stand for 1 and 0.15.
    should_harvest_iff :
        (fees gas : F) (options : HarvestGateOptions F)
        → IsNum (fees ⊗ resolved_pct options)
        → ((should_harvest fees gas options).harvest ≡ true) ↔ IsWorthHarvest fees gas options
    unfolding should_harvest
    should_harvest_iff fees gas options num = (
      λ h.
          let a = IsAmount-of_valid fees (ground arith) in
          let b = IsAmount-of_valid gas (ground arith) in
          let c = IsAmount-of_valid (resolved_min options) (ground arith) in
          let d = IsAmount-of_valid (resolved_pct options) (ground arith) in
          let num' = laws.num_of_finite in
          record {
            fees_amount = a;
            gas_amount = b;
            min_amount = c;
            pct_amount = d;
            enough = le_of_not_lt laws _ _ (num' _ a.finite) (num' _ c.finite) (ground arith);
            affordable = le_of_not_lt laws _ _ num (num' _ b.finite) (ground arith);
          },
      λ v. ground (
        arith,
        valid_of_amount _ v.fees_amount,
        valid_of_amount _ v.gas_amount,
        valid_of_amount _ v.min_amount,
        valid_of_amount _ v.pct_amount,
        not_lt_of_le laws _ _ v.enough,
        not_lt_of_le laws _ _ v.affordable,
      ),
    )
