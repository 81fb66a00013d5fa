-- ===== src/Pools/Hysteresis.antt =====
-- That the entry gate and the rotation signal of engine/challenge-strategy.ts agree.
use beam_clmm.Prelude.{
  Bool, ◌≡◌, Option, if◌then◌else◌, some, not, true, false, ◌⊎◌, none, ◌||◌, arith, refl, ◌∙◌,
  Bool-cases, inl, inr, ap,
}
use beam_clmm.Number.{Number, is_finite, ◌>?◌, ◌<?◌, int, neg, ◌≤?◌, ◌⊗◌}
use beam_clmm.Number.Order.{IsOrdered, ◌≺◌, lt_of_lt_of_le}
use beam_clmm.Number.Rounding.{IsRounded}
use beam_clmm.Pools.{PoolState}
use beam_clmm.Pools.Challenge.{
  challenge_yield_below_exit_threshold, ChallengeRotation, challenge_rotation_signal, drawdown_of,
  on_average, on_yield, yield_collapse_exit_fraction, yield_pct, yield_decay_exit_fraction,
}

abbrev pub is_exit : ChallengeRotation → Bool
is_exit ChallengeRotation.hold = false
is_exit _ = true

-- Two thresholds, of which the first implies the second.
exit_tests :
    (collapse decay : Bool)
    → (collapse ≡ false) ⊎ (decay ≡ true)
    → is_exit (
        if collapse
        then ChallengeRotation.collapse_exit
        else if decay
        then ChallengeRotation.decay_exit
        else ChallengeRotation.hold)
      ≡ decay
exit_tests collapse decay h = ground arith

average_tests :
    (positive low : Bool) (r : ChallengeRotation) (below : Bool)
    → positive ≡ not low
    → (low ≡ true) ⊎ (is_exit r ≡ below)
    → is_exit (if positive then r else ChallengeRotation.hold) ≡ (if low then false else below)
average_tests positive low r below h k = ground arith

exit_or_average :
    (d : Bool) (r : ChallengeRotation)
    → is_exit (if d then ChallengeRotation.drawdown_exit else r) ≡ (d || is_exit r)
exit_or_average true r = refl
exit_or_average false r = refl

module _ {F : Type 0} ⦃n : Number F⦄ where
  abbrev pub IsFiniteAverage : Option F → Type 0
  IsFiniteAverage none = Unit
  IsFiniteAverage (some average) = is_finite average ≡ true

  module _ (laws : IsOrdered F) (rounded : IsRounded F) where
    collapse_below_decay :
        (yield average : F)
        → is_finite average ≡ true
        → int 0 ≺ average
        → ((yield <? average ⊗ yield_collapse_exit_fraction) ≡ false)
          ⊎ ((yield <? average ⊗ yield_decay_exit_fraction) ≡ true)
    collapse_below_decay yield average fin pos =
        elim (Bool-cases (yield <? average ⊗ yield_collapse_exit_fraction)) [
          | inl e ↦ inr (
              lt_of_lt_of_le laws _ _ _ e
                (rounded.mul_mono _ _ average fin pos (rounded.lit_mono 5 7 1 (omega arith))))
          | inr e ↦ inl e
        ]

    on_average-eq :
        (pool : PoolState F) (average : Option F)
        → IsFiniteAverage average
        → is_exit (on_average pool average) ≡ challenge_yield_below_exit_threshold pool average
    unfolding challenge_yield_below_exit_threshold
    on_average-eq pool none fin = refl
    on_average-eq pool (some average) fin =
        let num = laws.num_of_finite average fin in
        let flip = laws.lt-eq-not-le (int 0) average (laws.lit_num 0 0) num in
        average_tests (average >? int 0) (average ≤? int 0) _ _ flip (decide flip)
      where
        decide :
            (average >? int 0) ≡ not (average ≤? int 0)
            → ((average ≤? int 0) ≡ true)
              ⊎ (is_exit (on_yield (yield_pct pool.fees_24h_usd pool.tvl_usd) average) ≡ (
                  yield_pct pool.fees_24h_usd pool.tvl_usd <? average ⊗ yield_decay_exit_fraction))
        decide flip = elim (Bool-cases (average ≤? int 0)) [
          | inl e ↦ inl e
          | inr e ↦ inr (exit_tests _ _ (collapse_below_decay _ average fin (flip ∙ ap not e)))
        ]

    -- The rotation signal leaves a pool exactly when its drawdown is below the limit or the entry gate
    -- calls its yield too low, so that a pool that the entry gate lets in is not left for its yield in
    -- the same state. The average yield is unknown or finite.
    pub challenge_rotation_signal-eq :
        (pool : PoolState F) (average : Option F) (exit_pct : F)
        → IsFiniteAverage average
        → is_exit (challenge_rotation_signal pool average exit_pct) ≡ (
            (drawdown_of pool <? neg exit_pct) || challenge_yield_below_exit_threshold pool average)
    unfolding challenge_rotation_signal
    challenge_rotation_signal-eq pool average exit_pct fin =
        exit_or_average _ (on_average pool average) ∙ rw (on_average-eq pool average fin) refl
