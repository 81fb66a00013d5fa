-- ===== src/Backoff/Cooldown.antt =====
-- How long a pool cools down after an exit: engine/cooldown.ts. Durations are numbers of the source.
use beam_clmm.Prelude.{Bool, Option, if◌then◌else◌, not, ◌≡◌, arith, some, ◌⊎◌, none, inl, refl}
use beam_clmm.Number.{Number, is_finite, int, ◌≥?◌, ◌≤?◌, ◌>?◌, ◌<?◌, ◌⊕◌, ◌⊖◌, ◌⊗◌, ◌⊘◌, min, max}
use beam_clmm.Number.Order.{IsOrdered, IsNum, ◌≼◌, ◌≺◌, le_of_lt}

pub data ExitCooldownTrigger : Type 0 where
  oor low_yield rotation : ExitCooldownTrigger

pub record ExitCooldownConfig (F : Type 0) : Type 0 where
  pub oor_cooldown_ms : F
  pub repeat_oor_cooldown_ms : F
  pub max_oor_cooldown_exits : F
  pub rotation_cooldown_ms : F
  pub fee_density_cooldowns : Bool
  pub fee_density_cooldown_min_ms : F
  pub fee_density_high_pct : F
  pub fee_density_low_pct : F

pub record ExitCooldownRequest (F : Type 0) : Type 0 where
  pub trigger : ExitCooldownTrigger
  pub consecutive_oor_exits : F
  pub config : ExitCooldownConfig F
  pub fee_density_per_day : Option F

module _ {F : Type 0} ⦃n : Number F⦄ where
  abbrev pub interpolated : ExitCooldownConfig F → F → F
  interpolated c density =
      let t =
        (density ⊖ c.fee_density_low_pct) ⊘ (c.fee_density_high_pct ⊖ c.fee_density_low_pct) in
      c.oor_cooldown_ms ⊖ (t ⊗ (c.oor_cooldown_ms ⊖ c.fee_density_cooldown_min_ms))

  -- The duration for a density that is known, once the feature is on.
  abbrev density_cooldown_ms : ExitCooldownConfig F → F → F
  density_cooldown_ms c density =
      if not (is_finite density)
      then c.oor_cooldown_ms
      else if not (c.fee_density_high_pct >? c.fee_density_low_pct)
      then c.oor_cooldown_ms
      else if not (c.fee_density_cooldown_min_ms <? c.oor_cooldown_ms)
      then c.oor_cooldown_ms
      else if density ≥? c.fee_density_high_pct
      then c.fee_density_cooldown_min_ms
      else if density ≤? c.fee_density_low_pct
      then c.oor_cooldown_ms
      else min c.oor_cooldown_ms (max c.fee_density_cooldown_min_ms (interpolated c density))

  unfoldable pub compute_low_yield_cooldown_ms : ExitCooldownConfig F → Option F → F
  compute_low_yield_cooldown_ms c none = c.oor_cooldown_ms
  compute_low_yield_cooldown_ms c (some density) =
      if not c.fee_density_cooldowns then c.oor_cooldown_ms else density_cooldown_ms c density

  abbrev oor_cooldown : F → ExitCooldownConfig F → F
  oor_cooldown exits c =
      if (exits ⊕ int 1) ≥? c.max_oor_cooldown_exits
      then c.repeat_oor_cooldown_ms
      else c.oor_cooldown_ms

  unfoldable pub compute_cooldown_for_exit : ExitCooldownRequest F → F
  compute_cooldown_for_exit r = elim r.trigger [
    | oor ↦ oor_cooldown r.consecutive_oor_exits r.config
    | low_yield ↦ compute_low_yield_cooldown_ms r.config r.fee_density_per_day
    | rotation ↦ r.config.rotation_cooldown_ms
  ]

  module _ (laws : IsOrdered F) where
    clamp_bounds :
        (lo hi x : F) → lo ≺ hi → IsNum x → (lo ≼ min hi (max lo x)) × (min hi (max lo x) ≼ hi)
    clamp_bounds lo hi x h num =
        let (p, q) = laws.num_of_lt lo hi h in
        let (m, _) = laws.le-max lo x p num in
        let (_, k) = laws.num_of_le _ _ m in
        let (b, _) = laws.min-le hi (max lo x) q k in
        (ground (arith, laws.min_cases hi (max lo x), le_of_lt laws lo hi h), b)

    -- A low-yield exit never cools a pool for longer than the static duration, and the duration is
    -- the static one or at least the floor, whose place is below it; where the static duration is a
    -- number and so is the interpolation at the density.
    low_yield_cooldown_bounds :
        (c : ExitCooldownConfig F) (density : Option F)
        → IsNum c.oor_cooldown_ms
        → ((d : F) → density ≡ some d → IsNum (interpolated c d))
        → let ms = compute_low_yield_cooldown_ms c density in
          (ms ≼ c.oor_cooldown_ms)
          × ((ms ≡ c.oor_cooldown_ms)
              ⊎ ((c.fee_density_cooldown_min_ms ≺ c.oor_cooldown_ms)
                  × (c.fee_density_cooldown_min_ms ≼ ms)))
    unfolding compute_low_yield_cooldown_ms
    low_yield_cooldown_bounds c none num _ = (num, inl refl)
    low_yield_cooldown_bounds c (some d) num k = ground (
      arith,
      clamp_bounds c.fee_density_cooldown_min_ms c.oor_cooldown_ms (interpolated c d),
      k d refl,
      num,
      le_of_lt laws c.fee_density_cooldown_min_ms c.oor_cooldown_ms,
      laws.num_of_lt c.fee_density_cooldown_min_ms c.oor_cooldown_ms,
    )
