-- ===== src/Rotation/Choice.antt =====
-- Which rotation `evaluateRotation` in engine/rotation-controller.ts picks.
use beam_clmm.Prelude.{
  List, Member, ◌++◌, ◌∷◌, [], ◌≢◌, ◌≡◌, first, inl, ◌⊎◌, later, Member-cons, arith, inr, All, sym,
  Bool-cases, ◌∙◌, str_eq, str_eq_iff, refl, StringMap, true, ℕ, String, filter, filter-Member, ◌≤◌,
  map_get, ◌or◌, Member-filter,
}
use beam_clmm.Number.{Number, ◌⊗◌, int, ◌⊕◌, ◌⊘◌}
use beam_clmm.Rotation.{
  pairs_of, candidate_pairs, better_candidate, best_of, Seat, Candidate, Challenger, candidate,
  ResolvedRotationConfig, RotationConfig, qualifies, resolve_config, decide_best, evaluate_rotation,
  rotate, HoldReason, decide, hold, insufficient_confirmations,
}
use beam_clmm.Number.Order.{IsOrdered, IsNum, ◌≼◌, le_of_lt, le_of_not_lt, ◌≺◌}

Member-append {ℓ} :
    {A : Type ℓ} (x : A) (xs ys : List A) → Member x (xs ++ ys) → Member x xs ⊎ Member x ys
Member-append x [] ys m = inr m
Member-append x (y ∷ xs) ys m = elim (Member-cons m) [
  | inl e ↦ inl (first e)
  | inr k ↦ elim (Member-append x xs ys k) [ inl a ↦ inl (later a) | inr b ↦ inr b ]
]

module _ {F : Type 0} ⦃n : Number F⦄ where
  -- A pair that the two loops meet: a seat and a challenger of the lists, of different pools.
  pub record IsPair (seats : List (Seat F)) (challengers : List (Challenger F)) (k : Candidate F)
      : Type 0 where
    pub seated : Member k.seat seats
    pub challenging : Member k.challenger challengers
    pub different : k.challenger.pool ≢ k.seat.pool
    pub measured : k ≡ candidate k.seat k.challenger

  pairs_of-IsPair :
      (s : Seat F) (cs : List (Challenger F)) (k : Candidate F)
      → Member k (pairs_of s cs)
      → IsPair (s ∷ []) cs k
  unfolding pairs_of
  pairs_of-IsPair s [] k m = elim m [ ]
  pairs_of-IsPair s (c ∷ cs) k m = elim (Bool-cases (str_eq c.pool s.pool)) [
    | inl e ↦ wider (pairs_of-IsPair s cs k (rw (e, pairs_of) at m))
    | inr e ↦ elim (Member-cons (rw (e, pairs_of) at m)) [
      | inl q ↦ rw (← q) (record {
        seated = first refl;
        challenging = first refl;
        different = λ same. ground (arith, str_eq_iff c.pool s.pool);
        measured = refl;
      })
      | inr r ↦ wider (pairs_of-IsPair s cs k r)
    ]
  ]
    where
      wider : IsPair (s ∷ []) cs k → IsPair (s ∷ []) (c ∷ cs) k
      wider v = record {
        seated = v.seated;
        challenging = later v.challenging;
        different = v.different;
        measured = v.measured;
      }

  one_seat : (s : Seat F) (ss : List (Seat F)) {x : Seat F} → Member x (s ∷ []) → Member x (s ∷ ss)
  one_seat s ss (first e) = first e
  one_seat s ss (later m) = elim m [ ]

  candidate_pairs-IsPair :
      (ss : List (Seat F)) (cs : List (Challenger F)) (k : Candidate F)
      → Member k (candidate_pairs ss cs)
      → IsPair ss cs k
  unfolding candidate_pairs
  candidate_pairs-IsPair [] cs k m = elim m [ ]
  candidate_pairs-IsPair (s ∷ ss) cs k m =
      elim (Member-append k (pairs_of s cs) (candidate_pairs ss cs) m) [
        | inl a ↦
            let v = pairs_of-IsPair s cs k a in
            record {
              seated = one_seat s ss v.seated;
              challenging = v.challenging;
              different = v.different;
              measured = v.measured;
            }
        | inr b ↦
            let v = candidate_pairs-IsPair ss cs k b in
            record {
              seated = later v.seated;
              challenging = v.challenging;
              different = v.different;
              measured = v.measured;
            }
      ]

  better-cases : (a b : Candidate F) → (better_candidate a b ≡ a) ⊎ (better_candidate a b ≡ b)
  unfolding better_candidate
  better-cases a b = ground arith

  best_of-Member : (a : Candidate F) (bs : List (Candidate F)) → Member (best_of a bs) (a ∷ bs)
  unfolding best_of
  best_of-Member a [] = first refl
  best_of-Member a (b ∷ bs) = elim (better-cases a b) [
    | inl e ↦ elim (Member-cons (best_of-Member (better_candidate a b) bs)) [
      | inl q ↦ first (sym e ∙ q)
      | inr m ↦ later (later m)
    ]
    | inr e ↦ elim (Member-cons (best_of-Member (better_candidate a b) bs)) [
      | inl q ↦ later (first (sym e ∙ q))
      | inr m ↦ later (later m)
    ]
  ]

  module _ (laws : IsOrdered F) where
    open laws use {le_trans, eq-eq-le}

    -- The better of two candidates has at least the margin of both.
    better-margin :
        (a b : Candidate F)
        → IsNum a.margin
        → IsNum b.margin
        → (a.margin ≼ (better_candidate a b).margin) × (b.margin ≼ (better_candidate a b).margin)
    unfolding better_candidate
    better-margin a b p q = ground (
      arith,
      eq-eq-le b.margin a.margin,
      le_of_lt laws a.margin b.margin,
      le_of_not_lt laws a.margin b.margin p q,
    )

    better_num :
        (a b : Candidate F) → IsNum a.margin → IsNum b.margin → IsNum (better_candidate a b).margin
    better_num a b p q = (laws.num_of_le _ _ (better-margin a b p q).0).1

    best_of-margin :
        (a : Candidate F) (bs : List (Candidate F))
        → IsNum a.margin
        → All (λ k. IsNum k.margin) bs
        → (a.margin ≼ (best_of a bs).margin) × All (λ k. k.margin ≼ (best_of a bs).margin) bs
    unfolding best_of
    best_of-margin a [] p ps = (p, tt)
    best_of-margin a (b ∷ bs) p (q, qs) =
        let (up, rest) = best_of-margin (better_candidate a b) bs (better_num a b p q) qs in
        let (x, y) = better-margin a b p q in (le_trans _ _ _ x up, (le_trans _ _ _ y up, rest))

  -- What a qualified pair has cleared: gates 1 to 5, none of which it fails.
  pub record IsSuperior (c : ResolvedRotationConfig F) (k : Candidate F) : Type 0 where
    pub admissible : k.challenger.admissible ≡ true
    pub above_floor : ¬ (k.challenger_net ≺ c.min_challenger_net_fees_usd_per_day)
    pub above_incumbent :
        ¬ (k.challenger_net ≺ k.incumbent_net ⊗ (int 1 ⊕ c.min_superiority_pct ⊘ int 100))
    pub apr_lead : ¬ (k.challenger.apr ≺ k.seat.apr ⊕ c.min_apr_lead_pct)
    pub density_lead : ¬ (
        k.challenger.fee_density
        ≺ k.seat.fee_density ⊗ (int 1 ⊕ c.min_fee_density_lead_pct ⊘ int 100))

  qualifies-IsSuperior :
      (c : ResolvedRotationConfig F) (k : Candidate F) → qualifies c k ≡ true → IsSuperior c k
  unfolding qualifies
  qualifies-IsSuperior c k h = ground arith

  module _ (seats : List (Seat F)) (challengers : List (Challenger F)) (cfg : RotationConfig F)
      (confirmations : StringMap ℕ) where
    abbrev config : ResolvedRotationConfig F
    config = resolve_config cfg

    abbrev pub qualified : List (Candidate F)
    qualified = filter (qualifies config) (candidate_pairs seats challengers)

    -- A rotation that is worth making.
    pub record IsJustified (exit_pool enter_pool : String) (k : Candidate F) : Type 0 where
      pub pair : IsPair seats challengers k
      pub superior : IsSuperior config k
      pub exits : k.seat.pool ≡ exit_pool
      pub enters : k.challenger.pool ≡ enter_pool
      pub confirmed : config.required_confirmations ≤ (map_get k.key confirmations or 0)

    Member-IsSuperior :
        (k : Candidate F) → Member k qualified → IsPair seats challengers k × IsSuperior config k
    Member-IsSuperior k m =
        let (inside, q) =
          filter-Member (qualifies config) (candidate_pairs seats challengers) k m in
        (candidate_pairs-IsPair seats challengers k inside, qualifies-IsSuperior config k q)

    -- A rotation comes from the best of the qualified candidates.
    rotate-best :
        (candidates qs : List (Candidate F)) (x y : String)
        → decide config confirmations candidates qs ≡ rotate x y
        → (q : Candidate F) × (rest : List (Candidate F)) × (qs ≡ q ∷ rest)
          × (decide_best config confirmations (best_of q rest) ≡ rotate x y)
    rotate-best [] qs x y h = absurd (ground (arith, h))
    rotate-best (k ∷ ks) [] x y h = absurd (ground (arith, h))
    rotate-best (k ∷ ks) (q ∷ rest) x y h = (q, rest, refl, h)

    rotate-cases :
        (k : Candidate F) (x y : String)
        → decide_best config confirmations k ≡ rotate x y
        → (k.seat.pool ≡ x)
          × (k.challenger.pool ≡ y)
          × (config.required_confirmations ≤ (map_get k.key confirmations or 0))
    unfolding decide_best
    rotate-cases k x y h = ground arith

    rotation-choice :
        (x y : String)
        → evaluate_rotation seats challengers cfg confirmations ≡ rotate x y
        → (k : Candidate F) × IsJustified x y k
          × (IsOrdered F
              → All (λ j. IsNum j.margin) qualified
              → All (λ j. j.margin ≼ k.margin) qualified)
    unfolding evaluate_rotation
    rotation-choice x y h =
        let (q, rest, e, d) = rotate-best (candidate_pairs seats challengers) qualified x y h in
        let best = best_of q rest in
        let (p, s) = Member-IsSuperior best (rw e (best_of-Member q rest)) in
        let (exits, enters, confirmed) = rotate-cases best x y d in
        (
          best,
          record { pair = p; superior = s; exits = exits; enters = enters; confirmed = confirmed },
          rw e (λ laws nums. best_of-margin laws q rest nums.0 nums.1),
        )

    -- A rotation is decided only for a seat that is held and a challenger on offer, of different
    -- pools, where the challenger is admissible and clears the floor, the incumbent's net fees, the
    -- APR lead and the density lead, and only after enough confirmations of that pair.
    evaluate_rotation-IsJustified :
        (x y : String)
        → evaluate_rotation seats challengers cfg confirmations ≡ rotate x y
        → (k : Candidate F) × IsJustified x y k
    evaluate_rotation-IsJustified x y h = let (k, j, _) = rotation-choice x y h in (k, j)

    -- Where no margin of the pairs that clear all gates is NaN, the pair that rotates is one with the
    -- largest margin of them.
    pub evaluate_rotation-IsBest :
        IsOrdered F
        → (x y : String) → All (λ j. IsNum j.margin) qualified
        → evaluate_rotation seats challengers cfg confirmations ≡ rotate x y
        → (k : Candidate F) × IsJustified x y k × All (λ j. j.margin ≼ k.margin) qualified
    evaluate_rotation-IsBest laws x y nums h =
        let (k, j, best) = rotation-choice x y h in (k, j, best laws nums)

    -- Where some pair clears the gates, no other reason than missing confirmations holds the rotation
    -- back.
    evaluate_rotation-qualified :
        (k : Candidate F)
        → Member k (candidate_pairs seats challengers)
        → qualifies config k ≡ true
        → (why : HoldReason) → evaluate_rotation seats challengers cfg confirmations ≡ hold why
        → why ≡ insufficient_confirmations
    unfolding evaluate_rotation decide_best
    evaluate_rotation-qualified k m q why h =
        waiting (candidate_pairs seats challengers) qualified
          (Member-filter (qualifies config) (candidate_pairs seats challengers) k m q) m h
      where
        waiting :
            (candidates qs : List (Candidate F))
            → Member k qs
            → Member k candidates
            → decide config confirmations candidates qs ≡ hold why
            → why ≡ insufficient_confirmations
        waiting candidates [] a b e = elim a [ ]
        waiting [] (c ∷ cs) a b e = elim b [ ]
        waiting (j ∷ js) (c ∷ cs) a b e = ground arith
