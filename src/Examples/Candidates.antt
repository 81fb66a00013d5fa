-- ===== src/Examples/Candidates.antt =====
-- A candidate's life, from its first sighting to its entry, and its rejection.
use beam_clmm.Prelude.{List, [], ◌∷◌, ◌≡◌, refl, ◌⊎◌, ◌≤◌, arith, false, true, ◌+◌}
use beam_clmm.Candidate.{
  CandidatePolicy, CandidateIdentity, TokenCandidate, CandidateEvent, scan, healthy,
  transient_failure, route_unavailable, create_token_candidate, run_candidate, transition_candidate,
  eligible,
}
use beam_clmm.Candidate.Invariant.{IsWellFormed, run_candidate-create-IsWellFormed}
use beam_clmm.Candidate.Graph.{◌⟶◌, transition_candidate-⟶}
use beam_clmm.Candidate.History.{
  streak_from, healthy_scans, eligible_needs_streak, healthy_scans_reach_eligible,
}
use beam_clmm.Candidate.Health.{CandidateHealthInput, safe}
use beam_clmm.Number.Fixed.{Fixed, fin, fixed_number}
use beam_clmm.Prelude.Int.{pos}

abbrev policy : CandidatePolicy
policy = record { min_healthy_scans = 2; min_observation_ms = 1000 }

abbrev identity : CandidateIdentity
identity = record {
  id = "c1";
  wallet_address = "w";
  agent_instance_id = "a";
  pool_address = "p";
  token_mint = "m";
  first_seen_at = 100;
}

abbrev fresh : TokenCandidate
fresh = create_token_candidate identity

abbrev life : List CandidateEvent
life =
    scan 200 healthy
    ∷ scan 300 (transient_failure route_unavailable)
    ∷ scan 1200 healthy
    ∷ scan 1400 healthy
    ∷ []

abbrev market : CandidateHealthInput Fixed
market = record {
  safety = safe;
  price_evidence =
      record { mint = "m"; price_usd = fin (pos 5); observed_at = 90; fallback_used = false } ∷ [];
  required_mints = "m" ∷ [];
  now = 100;
  max_market_data_age_ms = 20;
  route_available = true;
  screener_accepted = true;
  market_data_available = true;
}

run_candidate-create-IsWellFormed_example :
    IsWellFormed policy (run_candidate policy (create_token_candidate identity) life)
run_candidate-create-IsWellFormed_example = run_candidate-create-IsWellFormed policy identity life

transition_candidate-⟶_example :
    ((transition_candidate fresh (scan 200 healthy) policy).state ≡ fresh.state)
    ⊎ (fresh.state ⟶ (transition_candidate fresh (scan 200 healthy) policy).state)
transition_candidate-⟶_example = transition_candidate-⟶ policy fresh (scan 200 healthy)

eligible_needs_streak_example :
    (policy.min_healthy_scans ≤ streak_from 0 life)
    × (identity.first_seen_at + policy.min_observation_ms
        ≤ (run_candidate policy (create_token_candidate identity) life).last_seen_at)
unfolding run_candidate transition_candidate create_token_candidate
eligible_needs_streak_example = eligible_needs_streak policy identity life refl

healthy_scans_reach_eligible_example :
    (transition_candidate
      (run_candidate policy fresh (healthy_scans (200 ∷ [])))
      (scan 1200 healthy)
      policy).state
    ≡ eligible
unfolding create_token_candidate
healthy_scans_reach_eligible_example =
    healthy_scans_reach_eligible policy fresh (200 ∷ []) 1200 refl (omega arith) (omega arith)
