-- ===== src/Ladder/Reached.antt =====
-- What `evaluateTpLadder` of engine/tp-ladder.ts reports.
use beam_clmm.Prelude.{
  Bool, Option, not, ℕ, ◌≡◌, true, false, ◌||◌, ◌⊎◌, find_index, All, get_elem?, inr, some, take,
  find_index-All, suc, find_index-IsFirstAt, none, ◌==◌, length, refl, guards, inl, ap,
}
use beam_clmm.Number.{Number, ◌≥?◌, is_finite, ◌≤?◌, int}
use beam_clmm.Ladder.{TpRung, TpLadder, evaluate_tp_ladder, TpLadderEvaluation, at_rung}

module _ {F : Type 0} ⦃n : Number F⦄ where
  abbrev pub is_price : F → Bool
  is_price price = not (not (is_finite price) || (price ≤? int 0))

  abbrev pub is_reached : F → TpRung F → Bool
  is_reached price r = price ≥? r.target_price

  -- What each report means: the price is none or leaves the ladder alone; it is above the stop and
  -- reaches a rung, after rungs that it does not reach; or it is at the stop or below it.
  abbrev pub IsOutcome : F → TpLadder F → F → TpLadderEvaluation F → Type 0
  IsOutcome price ladder stop TpLadderEvaluation.waits =
      (is_price price ≡ false)
      ⊎ ((price ≤? stop) ≡ false) × All (λ r. is_reached price r ≡ false) ladder.rungs
  IsOutcome price ladder stop (TpLadderEvaluation.takes_profit r scale_out last) =
      (is_price price ≡ true)
      × ((price ≤? stop) ≡ false)
      × (scale_out ≡ r.fraction)
      × ((i : ℕ) × (get_elem? ladder.rungs i ≡ some r)
          × (is_reached price r ≡ true)
          × All (λ s. is_reached price s ≡ false) (take i ladder.rungs)
          × (last ≡ (suc i == length ladder.rungs)))
  IsOutcome price ladder stop (TpLadderEvaluation.invalidates at) =
      (is_price price ≡ true) × ((price ≤? stop) ≡ true) × (at ≡ stop)

  at_rung-IsOutcome :
      (price : F) (ladder : TpLadder F) (stop : F) (o : Option ℕ)
      → is_price price ≡ true
      → (price ≤? stop) ≡ false
      → find_index (is_reached price) ladder.rungs ≡ o
      → IsOutcome price ladder stop (at_rung o ladder.rungs)
  at_rung-IsOutcome price ladder stop none v above e =
      inr (above, find_index-All (is_reached price) ladder.rungs e)
  at_rung-IsOutcome price ladder stop (some i) v above e =
      let at = find_index-IsFirstAt (is_reached price) ladder.rungs i e in
      rw (at.there) (v, above, refl, (i, at.there, at.satisfies, at.earlier_fail, refl))

  -- Every report is what it means: the stop is looked at before the rungs, and of the rungs in their
  -- order the first that the price reaches is reported, with its fraction, and as the last one exactly
  -- if it stands last.
  pub evaluate_tp_ladder-IsOutcome :
      (price : F) (ladder : TpLadder F) (stop : F)
      → IsOutcome price ladder stop (evaluate_tp_ladder price ladder stop)
  unfolding evaluate_tp_ladder
  evaluate_tp_ladder-IsOutcome price ladder stop =
      guards (IsOutcome price ladder stop) (not (is_finite price) || (price ≤? int 0))
        (price ≤? stop) (λ bad. inl (ap not bad)) (λ good below. (ap not good, below, refl))
        (λ good above. at_rung-IsOutcome price ladder stop _ (ap not good) above refl)
