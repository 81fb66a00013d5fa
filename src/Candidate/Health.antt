-- ===== src/Candidate/Health.antt =====
-- `hasFreshPriceEvidence` and `evaluateCandidateHealth` of engine/candidate-policy.ts, over any type
-- of numbers for the prices.
use beam_clmm.Prelude.{
  ℕ, ◌+◌, ◌≤◌, ◌≡◌, ◌≢◌, ◌↔◌, refl, Bool, true, false, not, ◌&&◌, List, [], ◌∷◌, String, str_eq,
  str_eq_iff, leb, if◌then◌else◌, any, all, arith, All, Member, any-Member, Member-any, ap, all-All,
  All-all,
}
use beam_clmm.Number.{Number, is_finite, int, ◌>?◌}
use beam_clmm.Candidate.{
  CandidateHealth, healthy, transient_failure, hard_safety_failure, market_data_unavailable,
  price_evidence_unavailable, price_evidence_stale, route_unavailable, screener_rejected,
}

pub data CandidateSafety : Type 0 where
  safe : CandidateSafety
  unsafe : String → CandidateSafety

pub record TokenPriceEvidence (F : Type 0) : Type 0 where
  pub mint : String
  pub price_usd : F
  pub observed_at : ℕ
  pub fallback_used : Bool

pub record CandidateHealthInput (F : Type 0) : Type 0 where
  pub safety : CandidateSafety
  pub price_evidence : List (TokenPriceEvidence F)
  pub required_mints : List String
  pub now : ℕ
  pub max_market_data_age_ms : ℕ
  pub route_available : Bool
  pub screener_accepted : Bool
  pub market_data_available : Bool

abbrev is_empty {ℓ} : {A : Type ℓ} → List A → Bool
is_empty [] = true
is_empty (x ∷ xs) = false

nonempty {ℓ} : {A : Type ℓ} (xs : List A) → xs ≢ [] → is_empty xs ≡ false
nonempty [] h = absurd (h refl)
nonempty (x ∷ xs) h = refl

module _ {F : Type 0} ⦃n : Number F⦄ where
  is_fresh_price_evidence : TokenPriceEvidence F → ℕ → ℕ → Bool
  is_fresh_price_evidence e now max_age =
      not e.fallback_used
      && (is_finite e.price_usd
          && ((e.price_usd >? int 0)
              && (leb e.observed_at now && leb now (e.observed_at + max_age))))

  abbrev fresh_for : CandidateHealthInput F → String → TokenPriceEvidence F → Bool
  fresh_for i mint e =
      str_eq e.mint mint && is_fresh_price_evidence e i.now i.max_market_data_age_ms

  unfoldable pub has_fresh_price_evidence : CandidateHealthInput F → Bool
  unfolding any all is_fresh_price_evidence
  has_fresh_price_evidence i =
      not (is_empty i.required_mints)
      && all (λ mint. any (fresh_for i mint) i.price_evidence) i.required_mints

  abbrev has_evidence : CandidateHealthInput F → Bool
  has_evidence i =
      not (is_empty i.required_mints)
      && all (λ mint. any (λ e. str_eq e.mint mint) i.price_evidence) i.required_mints

  abbrev check_services : CandidateHealthInput F → CandidateHealth
  check_services i =
      if not i.market_data_available
      then transient_failure market_data_unavailable
      else if not (has_fresh_price_evidence i)
      then transient_failure
          (if has_evidence i then price_evidence_stale else price_evidence_unavailable)
      else if not i.route_available
      then transient_failure route_unavailable
      else if not i.screener_accepted
      then transient_failure screener_rejected
      else healthy

  abbrev after_safety : CandidateSafety → CandidateHealthInput F → CandidateHealth
  after_safety (unsafe reason) i = hard_safety_failure reason
  after_safety safe i = check_services i

  unfoldable pub evaluate_candidate_health : CandidateHealthInput F → CandidateHealth
  evaluate_candidate_health i = after_safety i.safety i

  -- What the code calls fresh, said without its tests.
  pub record IsFresh (i : CandidateHealthInput F) (mint : String) (e : TokenPriceEvidence F)
      : Type 0 where
    pub same_mint : e.mint ≡ mint
    pub measured : e.fallback_used ≡ false
    pub finite : is_finite e.price_usd ≡ true
    pub positive : (e.price_usd >? int 0) ≡ true
    pub not_future : e.observed_at ≤ i.now
    pub not_old : i.now ≤ e.observed_at + i.max_market_data_age_ms

  abbrev pub HasFresh : CandidateHealthInput F → String → Type 0
  HasFresh i mint = (e : TokenPriceEvidence F) × Member e i.price_evidence × IsFresh i mint e

  IsFresh-iff :
      (i : CandidateHealthInput F) (mint : String) (e : TokenPriceEvidence F)
      → (fresh_for i mint e ≡ true → IsFresh i mint e)
        × (IsFresh i mint e → fresh_for i mint e ≡ true)
  unfolding is_fresh_price_evidence
  IsFresh-iff i mint e =
      (λ h. ground (arith, str_eq_iff e.mint mint), λ h. ground (arith, str_eq_iff e.mint mint))

  HasFresh-sound :
      (i : CandidateHealthInput F) (mint : String)
      → any (fresh_for i mint) i.price_evidence ≡ true
      → HasFresh i mint
  HasFresh-sound i mint h =
      let (e, m, f) = any-Member (fresh_for i mint) i.price_evidence h in
      (e, m, (IsFresh-iff i mint e).0 f)

  All-HasFresh :
      (i : CandidateHealthInput F) (mints : List String)
      → All (λ mint. any (fresh_for i mint) i.price_evidence ≡ true) mints
      → All (HasFresh i) mints
  All-HasFresh i [] h = tt
  All-HasFresh i (m ∷ ms) (h, hs) = (HasFresh-sound i m h, All-HasFresh i ms hs)

  All-any :
      (i : CandidateHealthInput F) (mints : List String)
      → All (HasFresh i) mints
      → All (λ mint. any (fresh_for i mint) i.price_evidence ≡ true) mints
  All-any i [] h = tt
  All-any i (m ∷ ms) ((e, k, f), hs) =
      (Member-any (fresh_for i m) i.price_evidence e k ((IsFresh-iff i m e).1 f), All-any i ms hs)

  has_fresh_price_evidence_sound :
      (i : CandidateHealthInput F)
      → has_fresh_price_evidence i ≡ true
      → (i.required_mints ≢ []) × All (HasFresh i) i.required_mints
  unfolding has_fresh_price_evidence
  has_fresh_price_evidence_sound i h =
      let p : all (λ mint. any (fresh_for i mint) i.price_evidence) i.required_mints ≡ true =
        ground arith in
      (λ e. cc (ap is_empty e), All-HasFresh i i.required_mints (all-All _ i.required_mints p))

  has_fresh_price_evidence_complete :
      (i : CandidateHealthInput F)
      → i.required_mints ≢ []
      → All (HasFresh i) i.required_mints
      → has_fresh_price_evidence i ≡ true
  unfolding has_fresh_price_evidence
  has_fresh_price_evidence_complete i some_mint h =
      let p =
        All-all (λ mint. any (fresh_for i mint) i.price_evidence) i.required_mints
          (All-any i i.required_mints h) in
      rw p (grind (arith, nonempty i.required_mints some_mint))

  -- All that a candidate needs to count as healthy.
  pub record IsHealthy (i : CandidateHealthInput F) : Type 0 where
    pub is_safe : i.safety ≡ safe
    pub has_market_data : i.market_data_available ≡ true
    pub some_mint : i.required_mints ≢ []
    pub priced : All (HasFresh i) i.required_mints
    pub has_route : i.route_available ≡ true
    pub screened : i.screener_accepted ≡ true

  -- A candidate is healthy exactly when it is safe, has market data, a route and the screener's
  -- consent, requires at least one mint, and every required mint has evidence that is measured,
  -- positive, finite, not from the future and not too old.
  pub evaluate_candidate_health-eq-healthy_iff :
      (i : CandidateHealthInput F) → (evaluate_candidate_health i ≡ healthy) ↔ IsHealthy i
  unfolding evaluate_candidate_health
  evaluate_candidate_health-eq-healthy_iff i = (
    λ h.
        let fresh = has_fresh_price_evidence_sound i (ground arith) in
        record {
          is_safe = ground arith;
          has_market_data = ground arith;
          some_mint = fresh.0;
          priced = fresh.1;
          has_route = ground arith;
          screened = ground arith;
        },
    λ v. ground (arith, has_fresh_price_evidence_complete i v.some_mint v.priced),
  )

  -- A hard safety failure is reported whatever the market looks like, and never as anything else.
  pub evaluate_candidate_health-unsafe_iff :
      (i : CandidateHealthInput F) (reason : String)
      → (evaluate_candidate_health i ≡ hard_safety_failure reason) ↔ (i.safety ≡ unsafe reason)
  unfolding evaluate_candidate_health
  evaluate_candidate_health-unsafe_iff i reason = (λ h. ground arith, λ h. ground arith)
