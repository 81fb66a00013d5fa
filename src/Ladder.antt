-- ===== src/Ladder.antt =====
-- The take-profit ladder of a fallen-angel position: `buildTpLadder` and `evaluateTpLadder` of
-- engine/tp-ladder.ts, and `evaluateExitFallenAngel` of engine/program.ts without its messages.
pub mod Json
pub mod Stored
pub mod Reached
pub mod Order
pub mod Exit
use beam_clmm.Prelude.{
  List, if◌then◌else◌, map, Option, Bool, ◌∷◌, sort_by, some, not, [], ℕ, none, get_elem?, ◌||◌,
  suc, ◌==◌, is_empty, length, find_index,
}
use beam_clmm.Number.{Number, ◌⊗◌, int, ◌⊕◌, ◌>?◌, ◌⊖◌, ◌⊘◌, is_finite, ◌≤?◌, ◌≥?◌}

pub record TpRung (F : Type 0) : Type 0 where
  pub target_price : F
  pub fraction : F

pub record TpLadder (F : Type 0) : Type 0 where
  pub rungs : List (TpRung F)
  pub total_fraction : F

pub record TpLadderConfig (F : Type 0) : Type 0 where
  pub rung_pcts : List F
  pub fractions : List F
  pub invalidation_stop_pct : F

-- A rung's distance from the entry with the fraction that it scales out.
pub record RungPair (F : Type 0) : Type 0 where
  pub pct : F
  pub share : F

module _ {F : Type 0} where
  -- The pairs of `rungs.slice(0, rungCount)` with the fractions at the same places.
  abbrev pub pair_rungs : List F → List F → List (RungPair F)
  pair_rungs [] fs = []
  pair_rungs (p ∷ ps) [] = []
  pair_rungs (p ∷ ps) (f ∷ fs) = record { pct = p; share = f } ∷ pair_rungs ps fs

module _ {F : Type 0} ⦃n : Number F⦄ where
  -- `a.pct - b.pct` is positive
  abbrev pub is_farther : RungPair F → RungPair F → Bool
  is_farther a b = (a.pct ⊖ b.pct) >? int 0

  abbrev pub raw_rung : F → RungPair F → TpRung F
  raw_rung entry pair = record { target_price = entry ⊗ (int 1 ⊕ pair.pct); fraction = pair.share }

  abbrev pub scaled_rung : F → TpRung F → TpRung F
  scaled_rung scale r = record { target_price = r.target_price; fraction = r.fraction ⊗ scale }

  -- `reduce((sum, rung) => sum + rung.fraction, 0)` from a partial sum.
  unfoldable pub sum_fractions : F → List (TpRung F) → F
  sum_fractions sum [] = sum
  sum_fractions sum (r ∷ rs) = sum_fractions (sum ⊕ r.fraction) rs

  abbrev pub rung_scale : F → F
  rung_scale total = if total >? int 1 then int 1 ⊘ total else int 1

  abbrev pub raw_rungs : F → TpLadderConfig F → List (TpRung F)
  raw_rungs entry config =
      map (raw_rung entry) (sort_by is_farther (pair_rungs config.rung_pcts config.fractions))

  abbrev pub ladder_of : List (TpRung F) → TpLadder F
  ladder_of rungs = record { rungs = rungs; total_fraction = sum_fractions (int 0) rungs }

  -- The ladder with its invalidation price.
  unfoldable pub build_tp_ladder : F → TpLadderConfig F → Option (TpLadder F × F)
  unfolding sum_fractions
  build_tp_ladder entry config =
      if not (is_finite entry) || (entry ≤? int 0)
      then none
      else if is_empty (pair_rungs config.rung_pcts config.fractions)
      then none
      else some (
        ladder_of (
            map (scaled_rung (rung_scale (sum_fractions (int 0) (raw_rungs entry config))))
              (raw_rungs entry config)),
        entry ⊗ (int 1 ⊖ config.invalidation_stop_pct),
      )

-- What the current price means to a ladder: nothing, a rung with the fraction to scale out and
-- whether it is the last one, or the invalidation price.
pub data TpLadderEvaluation (F : Type 0) : Type 0 where
  waits : TpLadderEvaluation F
  takes_profit : TpRung F → F → Bool → TpLadderEvaluation F
  invalidates : F → TpLadderEvaluation F

module _ {F : Type 0} ⦃n : Number F⦄ where
  abbrev pub on_rung : Option (TpRung F) → Bool → TpLadderEvaluation F
  on_rung none last = TpLadderEvaluation.waits
  on_rung (some r) last = TpLadderEvaluation.takes_profit r r.fraction last

  abbrev pub at_rung : Option ℕ → List (TpRung F) → TpLadderEvaluation F
  at_rung none rungs = TpLadderEvaluation.waits
  at_rung (some i) rungs = on_rung (get_elem? rungs i) (suc i == length rungs)

  unfoldable pub evaluate_tp_ladder : F → TpLadder F → F → TpLadderEvaluation F
  evaluate_tp_ladder price ladder stop =
      if not (is_finite price) || (price ≤? int 0)
      then TpLadderEvaluation.waits
      else if price ≤? stop
      then TpLadderEvaluation.invalidates stop
      else at_rung (find_index (λ r. price ≥? r.target_price) ladder.rungs) ladder.rungs
