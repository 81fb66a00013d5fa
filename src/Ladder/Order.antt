-- ===== src/Ladder/Order.antt =====
-- The order of the rungs that `buildTpLadder` makes, and what it means for `evaluateTpLadder`:
-- engine/tp-ladder.ts.
use beam_clmm.Prelude.{
  Bool, List, Orders, ℕ, All, IsSorted, map, get_elem?, ◌≡◌, ◌∷◌, true, some, [], false, take, ◌==◌,
  suc, length, zero, refl, not, guards, ◌||◌, is_empty, sort_by, sort_by-IsSorted, Option,
  get_elem?-All, guard_passed,
}
use beam_clmm.Number.{Number, is_finite, ◌≤?◌, int}
use beam_clmm.Number.Order.{◌≼◌, IsOrdered, lt_of_not_le}
use beam_clmm.Number.Rounding.{IsRounded, lt_of_sub, le_of_sub}
use beam_clmm.Ladder.{
  TpRung, TpLadder, RungPair, TpLadderConfig, build_tp_ladder, is_farther, scaled_rung, pair_rungs,
  evaluate_tp_ladder, TpLadderEvaluation, raw_rung,
}
use beam_clmm.Ladder.Reached.{is_reached, evaluate_tp_ladder-IsOutcome, IsOutcome}

module _ {F : Type 0} ⦃n : Number F⦄ where
  abbrev pub IsBelow : TpRung F → TpRung F → Type 0
  IsBelow r s = r.target_price ≼ s.target_price

  abbrev IsNearer : RungPair F → RungPair F → Type 0
  IsNearer a b = a.pct ≼ b.pct

  All-pairs :
      (ps fs : List F)
      → All (λ p. is_finite p ≡ true) ps
      → All (λ pair. is_finite pair.pct ≡ true) (pair_rungs ps fs)
  All-pairs [] fs q = tt
  All-pairs (p ∷ ps) [] q = tt
  All-pairs (p ∷ ps) (f ∷ fs) (q, qs) = (q, All-pairs ps fs qs)

  map-IsBelow :
      (f : RungPair F → TpRung F)
      → ((a b : RungPair F) → IsNearer a b → IsBelow (f a) (f b))
      → (xs : List (RungPair F)) → IsSorted IsNearer xs
      → IsSorted IsBelow (map f xs)
  map-IsBelow f mono [] s = tt
  map-IsBelow f mono (x ∷ xs) (low, s) = (all_above xs low, map-IsBelow f mono xs s)
    where
      all_above : (ys : List (RungPair F)) → All (IsNearer x) ys → All (IsBelow (f x)) (map f ys)
      all_above [] q = tt
      all_above (y ∷ ys) (q, qs) = (mono x y q, all_above ys qs)

  scaled-IsBelow :
      (scale : F) (rs : List (TpRung F))
      → IsSorted IsBelow rs
      → IsSorted IsBelow (map (scaled_rung scale) rs)
  scaled-IsBelow scale [] s = tt
  scaled-IsBelow scale (r ∷ rs) (low, s) = (all_above rs low, scaled-IsBelow scale rs s)
    where
      all_above :
          (ss : List (TpRung F))
          → All (IsBelow r) ss
          → All (IsBelow (scaled_rung scale r)) (map (scaled_rung scale) ss)
      all_above [] q = tt
      all_above (x ∷ xs) (q, qs) = (q, all_above xs qs)

  -- In an ascending ladder a price that reaches any rung reaches the lowest one.
  lowest_reached :
      (laws : IsOrdered F) (price : F) (rs : List (TpRung F)) (i : ℕ) (r : TpRung F)
      → IsSorted IsBelow rs
      → get_elem? rs i ≡ some r
      → is_reached price r ≡ true
      → All (λ s. is_reached price s ≡ false) (take i rs)
      → i ≡ 0
  lowest_reached laws price rs zero r s at ok fail = refl
  lowest_reached laws price [] (suc i) r s at ok fail = cc
  lowest_reached laws price (x ∷ xs) (suc i) r (low, s) at ok (missed, fail) =
      let near = laws.le_trans _ _ _ (get_elem?-All (IsBelow x) xs i r low at) ok in cc

  module _ (laws : IsOrdered F) (rounded : IsRounded F) where
    is_farther-Orders : Orders is_farther (λ pair. is_finite pair.pct ≡ true) IsNearer
    is_farther-Orders = record {
      swap = λ x y. lt_of_sub laws rounded y.pct x.pct;
      keep = λ x y. le_of_sub laws rounded y.pct x.pct;
      chain = λ x y z. laws.le_trans x.pct y.pct z.pct;
    }

    rungs-IsSorted :
        (entry scale : F) (pairs : List (RungPair F))
        → is_finite entry ≡ true
        → (entry ≤? int 0) ≡ false
        → All (λ pair. is_finite pair.pct ≡ true) pairs
        → IsSorted IsBelow
            (map (scaled_rung scale) (map (raw_rung entry) (sort_by is_farther pairs)))
    rungs-IsSorted entry scale pairs fin pos q = scaled-IsBelow scale _ (
        map-IsBelow (raw_rung entry) farther _
          (sort_by-IsSorted is_farther is_farther-Orders pairs q))
      where
        farther : (a b : RungPair F) → IsNearer a b → IsBelow (raw_rung entry a) (raw_rung entry b)
        farther a b h =
            rounded.mul_mono _ _ entry fin
              (lt_of_not_le laws entry (int 0) (laws.num_of_finite entry fin) (laws.lit_num 0 0)
                pos)
              (rounded.add_mono a.pct b.pct (int 1) rounded.one_finite h)

    -- The rungs of a ladder stand in ascending order of their prices, whatever the order in which they
    -- are configured, provided that the configured distances are finite.
    pub build_tp_ladder-IsSorted :
        (entry : F) (config : TpLadderConfig F) (ladder : TpLadder F) (stop : F)
        → All (λ p. is_finite p ≡ true) config.rung_pcts
        → build_tp_ladder entry config ≡ some (ladder, stop)
        → IsSorted IsBelow ladder.rungs
    unfolding build_tp_ladder
    build_tp_ladder-IsSorted entry config ladder stop q h =
        guards (λ o. o ≡ some (ladder, stop) → IsSorted IsBelow ladder.rungs)
          (not (is_finite entry) || (entry ≤? int 0))
          (is_empty (pair_rungs config.rung_pcts config.fractions)) (λ bad k. cc)
          (λ good none_left k. cc)
          (λ good some_left k.
            let e = built_rungs k in
            let (fin, pos) = guard_passed good in
            rw (← e)
              (rungs-IsSorted entry _ _ fin pos (All-pairs config.rung_pcts config.fractions q)))
          h
      where
        built_rungs :
            {l : TpLadder F} {s : F}
            → ◌≡◌ {A = Option (TpLadder F × F)} (some (l, s)) (some (ladder, stop))
            → l.rungs ≡ ladder.rungs
        built_rungs k = cc

    -- A ladder that `buildTpLadder` made takes profit at its lowest rung only, so that it is complete
    -- only if it has a single rung.
    pub built_ladder_takes_lowest :
        (entry : F) (config : TpLadderConfig F) (ladder : TpLadder F) (stop price at : F)
        (r : TpRung F) (scale_out : F) (last : Bool)
        → All (λ p. is_finite p ≡ true) config.rung_pcts
        → build_tp_ladder entry config ≡ some (ladder, stop)
        → evaluate_tp_ladder price ladder at ≡ TpLadderEvaluation.takes_profit r scale_out last
        → (get_elem? ladder.rungs 0 ≡ some r) × (last ≡ (1 == length ladder.rungs))
    built_ladder_takes_lowest entry config ladder stop price at r scale_out last q h e =
        let (v, above, share, (i, there, ok, fail, l)) =
          outcome e (evaluate_tp_ladder-IsOutcome price ladder at) in
        let zero_index =
          lowest_reached laws price ladder.rungs i r
            (build_tp_ladder-IsSorted entry config ladder stop q h) there ok fail in
        (rw zero_index at there, rw zero_index at l)
      where
        outcome :
            {o : TpLadderEvaluation F}
            → o ≡ TpLadderEvaluation.takes_profit r scale_out last
            → IsOutcome price ladder at o
            → IsOutcome price ladder at (TpLadderEvaluation.takes_profit r scale_out last)
        outcome k m = rw (k) at m
