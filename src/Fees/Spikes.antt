-- ===== src/Fees/Spikes.antt =====
-- When `feePersistence` of engine/fee-persistence.ts calls fees persistent, and what it compares.
use beam_clmm.Prelude.{
  Bool, Orders, List, if◌then◌else◌, true, Option, All, not, false, ◌||◌, ◌≡◌, sort_by, some, ◌∷◌,
  ◌&&◌, Member, IsSorted, arith, Bool-cases, get_elem?, inl, length, [], &&_true, inr, none,
  All-Member, sort_by-All, sort_by-IsSorted, sort_by_keeps,
}
use beam_clmm.Number.{Number, is_finite, ◌<?◌, int, ◌>?◌, ◌≤?◌}
use beam_clmm.Number.Order.{◌≼◌, IsOrdered}
use beam_clmm.Number.Rounding.{IsRounded, lt_of_sub, le_of_sub}
use beam_clmm.Fees.Persistence.{
  fee_persistence, positive_days, FeePersistenceDecision, is_larger, FeePersistenceOptions, peak_of,
  window_of, required_days, spike_limit, positives_of, spike_ratio,
}

abbrev pub is_persistent : FeePersistenceDecision → Bool
is_persistent FeePersistenceDecision.persistent = true
is_persistent _ = false

persistence_tests :
    (f w g d h s c r : Bool)
    → is_persistent (
        if not f || w
        then FeePersistenceDecision.invalid_window_days
        else if not g || d
        then FeePersistenceDecision.invalid_min_positive_days
        else if not h || s
        then FeePersistenceDecision.invalid_max_spike_ratio
        else if c
        then FeePersistenceDecision.few_positive_days
        else if r
        then FeePersistenceDecision.spiked
        else FeePersistenceDecision.persistent)
      ≡ ((f && not w) && ((g && not d) && ((h && not s) && (not c && not r))))
persistence_tests f w g d h s c r = ground arith

module _ {F : Type 0} ⦃n : Number F⦄ where
  -- Fees are persistent exactly when the three limits are proper, the window has enough positive days,
  -- and the largest of them is not too many times their median.
  pub fee_persistence-eq :
      (fees : List (Option F)) (o : FeePersistenceOptions F)
      → is_persistent (fee_persistence fees o) ≡ (
          (is_finite (window_of o) && not (window_of o <? int 1))
          && ((is_finite (required_days o) && not (required_days o <? int 1))
              && ((is_finite (spike_limit o) && not (spike_limit o ≤? int 0))
                  && (not (int (length (positives_of fees o)) <? required_days o)
                      && not (
                          spike_ratio (sort_by is_larger (positives_of fees o))
                          >? spike_limit o)))))
  unfolding fee_persistence
  fee_persistence-eq fees o =
      persistence_tests (is_finite (window_of o)) (window_of o <? int 1)
        (is_finite (required_days o)) (required_days o <? int 1) (is_finite (spike_limit o))
        (spike_limit o ≤? int 0) (int (length (positives_of fees o)) <? required_days o)
        (spike_ratio (sort_by is_larger (positives_of fees o)) >? spike_limit o)

  positive_days-All : (fees : List (Option F)) → All (λ x. is_finite x ≡ true) (positive_days fees)
  unfolding positive_days
  positive_days-All [] = tt
  positive_days-All (none ∷ ds) = positive_days-All ds
  positive_days-All (some x ∷ ds) = elim (Bool-cases (is_finite x && (x >? int 0))) [
    | inl e ↦ rw e ((&&_true _ _ e).0, positive_days-All ds)
    | inr e ↦ rw e (positive_days-All ds)
  ]

  module _ (laws : IsOrdered F) (rounded : IsRounded F) where
    is_larger-Orders : Orders {A = F} is_larger (λ x. is_finite x ≡ true) (λ x y. x ≼ y)
    is_larger-Orders = record {
      swap = λ x y. lt_of_sub laws rounded y x;
      keep = λ x y. le_of_sub laws rounded y x;
      chain = laws.le_trans;
    }

    last_is_largest :
        (x : F) (xs : List F) (m : F)
        → All (λ y. is_finite y ≡ true) (x ∷ xs)
        → IsSorted (λ a b. a ≼ b) (x ∷ xs)
        → get_elem? (x ∷ xs) (length xs) ≡ some m
        → All (λ y. y ≼ m) (x ∷ xs)
    last_is_largest x [] m (p, q) s h =
        let e : x ≡ m = cc h in rw (← e) (laws.num_of_finite x p, tt)
    last_is_largest x (y ∷ ys) m (p, q) ((low, lows), s) h =
        let (top, tops) = last_is_largest y ys m q s h in (laws.le_trans x y m low top, (top, tops))

    -- What is compared with the median is the largest positive day of the window.
    pub peak_of_largest :
        (fees : List (Option F)) (m x : F)
        → peak_of (sort_by is_larger (positive_days fees)) ≡ some m
        → Member x (positive_days fees)
        → x ≼ m
    peak_of_largest fees m x h k =
        All-Member (λ y. y ≼ m) _ x
          (largest (sort_by is_larger (positive_days fees))
            (sort_by-All is_larger _ _ (positive_days-All fees))
            (sort_by-IsSorted is_larger is_larger-Orders _ (positive_days-All fees)) h)
          (sort_by_keeps is_larger _ x k)
      where
        largest :
            (xs : List F)
            → All (λ y. is_finite y ≡ true) xs
            → IsSorted (λ a b. a ≼ b) xs
            → peak_of xs ≡ some m
            → All (λ y. y ≼ m) xs
        largest [] p s e = tt
        largest (y ∷ ys) p s e = last_is_largest y ys m p s e
