-- ===== src/Rotation/Impairment.antt =====
-- `assessImpaired` of engine/rotation-controller.ts (rule 8): hold, rerange or exit an impaired seat.
use mathlib.Core.Path.{subst}
use beam_clmm.Prelude.{
  Bool, if◌then◌else◌, not, ◌&&◌, ◌≡◌, false, true, ◌↔◌, arith, Bool-cases, inl, inr, refl, sym,
  ◌∙◌,
}
use beam_clmm.Number.{Number, max, is_finite, int, ◌≤?◌, ◌⊖◌, min, ◌>?◌, ◌⊗◌, ◌⊘◌, infinity}
use beam_clmm.Rotation.{resolve_config, Seat, RotationConfig}
use beam_clmm.Number.Order.{IsOrdered, ◌≼◌, IsNum, ◌≺◌}

pub data ImpairmentAction : Type 0 where
  hold rerange exit : ImpairmentAction

pub data ImpairmentReason : Type 0 where
  reentry_near within_tolerance switch_pays rerange_pays uneconomical : ImpairmentReason

pub record ImpairmentAssessment : Type 0 where
  pub impaired : Bool
  pub action : ImpairmentAction
  pub reason : ImpairmentReason

abbrev assessment : Bool → ImpairmentAction → ImpairmentReason → ImpairmentAssessment
assessment i a why = record { impaired = i; action = a; reason = why }

-- The arguments of `assessImpaired` but for the seat and the configuration.
pub record Excursion (F : Type 0) : Type 0 where
  pub price_distance_pct : F
  pub rerange_cost_usd : F
  pub price_velocity_pct_per_day : F
  pub accumulated_fees_usd : F
  pub superior_challenger_available : Bool

module _ {F : Type 0} ⦃n : Number F⦄ where
  -- SHORT_EXCURSION_PCT, REENTRY_HORIZON_DAYS and OPPORTUNITY_HORIZON_DAYS
  abbrev short_excursion_pct : F
  short_excursion_pct = int 25

  abbrev reentry_horizon_days : F
  reentry_horizon_days = int 2

  abbrev opportunity_horizon_days : F
  opportunity_horizon_days = int 7

  abbrev pub days_to_reentry : Excursion F → F
  days_to_reentry x =
      if x.price_velocity_pct_per_day >? int 0
      then x.price_distance_pct ⊘ x.price_velocity_pct_per_day
      else infinity

  abbrev pub reentry_plausible : Excursion F → Bool
  reentry_plausible x = is_finite (days_to_reentry x) && (days_to_reentry x ≤? reentry_horizon_days)

  abbrev pub is_impaired : Excursion F → Bool
  is_impaired x = not (x.price_distance_pct ≤? short_excursion_pct) && not (reentry_plausible x)

  unfoldable pub days_out : Excursion F → F
  days_out x =
      if is_finite (days_to_reentry x)
      then min (max (days_to_reentry x) (int 1)) opportunity_horizon_days
      else opportunity_horizon_days

  abbrev pub opportunity_cost : Seat F → Excursion F → F
  opportunity_cost s x = s.fees24h_usd ⊗ days_out x

  abbrev pub effective_rerange_cost : Excursion F → F
  effective_rerange_cost x = max (int 0) (x.rerange_cost_usd ⊖ x.accumulated_fees_usd)

  unfoldable pub assess_impaired : Seat F → Excursion F → RotationConfig F → ImpairmentAssessment
  assess_impaired s x cfg =
      let c = resolve_config cfg in
      if not (is_impaired x)
      then assessment false hold (if reentry_plausible x then reentry_near else within_tolerance)
      else if x.superior_challenger_available && (opportunity_cost s x >? c.switching_cost_usd)
      then assessment true exit switch_pays
      else if opportunity_cost s x >? effective_rerange_cost x
      then assessment true rerange rerange_pays
      else assessment true hold uneconomical

  -- The price moves back and is there within two days at its speed.
  abbrev pub ReturnsSoon : Excursion F → Type 0
  ReturnsSoon x =
      (int 0 ≺ x.price_velocity_pct_per_day)
      × (is_finite (x.price_distance_pct ⊘ x.price_velocity_pct_per_day) ≡ true)
      × ((x.price_distance_pct ⊘ x.price_velocity_pct_per_day) ≼ int 2)

  -- The price is not within 25 percent, and does not return soon.
  abbrev pub IsAway : Excursion F → Type 0
  IsAway x = ¬ (x.price_distance_pct ≼ int 25) × ¬ (ReturnsSoon x)

  -- A day's fees for each day until the price returns, for one day at least and for seven at most, and
  -- for seven if it does not return.
  abbrev pub forgone : Seat F → Excursion F → F
  forgone s x =
      s.fees24h_usd
      ⊗ (if (x.price_velocity_pct_per_day >? int 0)
            && is_finite (x.price_distance_pct ⊘ x.price_velocity_pct_per_day)
          then min (max (x.price_distance_pct ⊘ x.price_velocity_pct_per_day) (int 1)) (int 7)
          else int 7)

  -- Why a seat is exited, and why it is given a new range.
  abbrev pub ShouldExit : Seat F → Excursion F → RotationConfig F → Type 0
  ShouldExit s x cfg =
      IsAway x × (x.superior_challenger_available ≡ true) × (cfg.switching_cost_usd ≺ forgone s x)

  abbrev pub ShouldRerange : Seat F → Excursion F → RotationConfig F → Type 0
  ShouldRerange s x cfg =
      IsAway x
      × ¬ (ShouldExit s x cfg)
      × (max (int 0) (x.rerange_cost_usd ⊖ x.accumulated_fees_usd) ≺ forgone s x)

  ExitsBy : Seat F → Excursion F → RotationConfig F → Type 0
  ExitsBy s x cfg =
      (is_impaired x ≡ true)
      × (x.superior_challenger_available ≡ true)
      × (cfg.switching_cost_usd ≺ opportunity_cost s x)

  by_tests :
      (s : Seat F) (x : Excursion F) (cfg : RotationConfig F)
      → (((assess_impaired s x cfg).action ≡ exit) ↔ ExitsBy s x cfg)
        × (((assess_impaired s x cfg).action ≡ rerange) ↔ (
            (is_impaired x ≡ true)
            × ¬ (ExitsBy s x cfg)
            × (effective_rerange_cost x ≺ opportunity_cost s x)))
        × ((assess_impaired s x cfg).impaired ≡ is_impaired x)
  unfolding assess_impaired resolve_config ExitsBy
  by_tests s x cfg =
      ((λ h. ground arith, λ h. ground arith), (λ h. ground arith, λ h. ground arith), ground arith)

  is_impaired_iff :
      n.is_finite n.infinity ≡ false → (x : Excursion F) → (is_impaired x ≡ true) ↔ IsAway x
  is_impaired_iff endless x = elim (Bool-cases (x.price_velocity_pct_per_day >? int 0)) [
    | inl v ↦ (λ h. (λ near. ground arith, λ soon. ground arith), λ away. ground arith)
    | inr v ↦ (λ h. (λ near. ground arith, λ soon. ground arith), λ away. ground arith)
  ]

  opportunity_cost-eq :
      n.is_finite n.infinity ≡ false
      → (s : Seat F) (x : Excursion F) → opportunity_cost s x ≡ forgone s x
  unfolding days_out
  opportunity_cost-eq endless s x = elim (Bool-cases (x.price_velocity_pct_per_day >? int 0)) [
    | inl v ↦ rw v refl
    | inr v ↦ rw (v, endless) refl
  ]

  -- A seat is impaired exactly when its price is not within 25 percent of its range and does not return
  -- within two days. It is exited exactly when it is impaired, a superior challenger is available and
  -- the forgone fees exceed the cost of switching; it is given a new range exactly when it is impaired,
  -- is not to be exited, and the forgone fees exceed what the new range costs after the fees already
  -- earned. Forgone are the fees of a day for each day until the price returns, one at least, and for
  -- seven days at most or if it does not return. (Infinity is not finite.)
  pub assess_impaired_iff :
      n.is_finite n.infinity ≡ false
      → (s : Seat F) (x : Excursion F) (cfg : RotationConfig F)
      → (((assess_impaired s x cfg).action ≡ exit) ↔ ShouldExit s x cfg)
        × (((assess_impaired s x cfg).action ≡ rerange) ↔ ShouldRerange s x cfg)
        × (((assess_impaired s x cfg).impaired ≡ true) ↔ IsAway x)
  unfolding ExitsBy
  assess_impaired_iff endless s x cfg =
      let (away, back) = is_impaired_iff endless x in
      let same = opportunity_cost-eq endless s x in
      let (exits, reranges, impaired) = by_tests s x cfg in
      let keeps : ExitsBy s x cfg → ShouldExit s x cfg =
        λ e. let (a, b, c) = e in (away a, b, subst (λ k. cfg.switching_cost_usd ≺ k) same c) in
      let gives : ShouldExit s x cfg → ExitsBy s x cfg = λ e.
        let (a, b, c) = e in (back a, b, subst (λ k. cfg.switching_cost_usd ≺ k) (sym same) c) in
      (
        (λ h. keeps (exits.0 h), λ e. exits.1 (gives e)),
        (
          λ h.
              let (a, stays, pays) = reranges.0 h in
              (away a, λ e. stays (gives e), subst (λ c. effective_rerange_cost x ≺ c) same pays),
          λ e.
              let (a, stays, pays) = e in
              reranges.1 (
                back a,
                λ q. stays (keeps q),
                subst (λ c. effective_rerange_cost x ≺ c) (sym same) pays,
              ),
        ),
        (λ h. away (sym impaired ∙ h), λ e. impaired ∙ back e),
      )

  -- The days counted for forgone fees are between one and seven, whatever the price does, even if it
  -- never comes back.
  pub days_out_bounds :
      IsOrdered F → (x : Excursion F) → (int 1 ≼ days_out x) × (days_out x ≼ int 7)
  unfolding days_out
  days_out_bounds laws x = elim (Bool-cases (is_finite (days_to_reentry x))) [
    | inl e ↦ rw e (clamped (days_to_reentry x) (laws.num_of_finite _ e))
    | inr e ↦ rw e (laws.int_mono 1 7 (omega arith), laws.lit_num 7 0)
  ]
    where
      clamped :
          (d : F)
          → IsNum d
          → (int 1 ≼ min (max d (int 1)) (int 7)) × (min (max d (int 1)) (int 7) ≼ int 7)
      clamped d num =
          let (_, above) = laws.le-max d (int 1) num (laws.lit_num 1 0) in
          let (_, top) = laws.num_of_le _ _ above in
          let (_, below) = laws.min-le (max d (int 1)) (int 7) top (laws.lit_num 7 0) in
          (ground (arith, laws.min_cases (max d (int 1)) (int 7), laws.int_mono 1 7), below)
