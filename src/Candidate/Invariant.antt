-- ===== src/Candidate/Invariant.antt =====
-- The well-formedness of a candidate record, which every event keeps: engine/candidate-policy.ts.
use beam_clmm.Prelude.{ℕ, ◌+◌, ◌≤◌, ◌≡◌, false, Option, none, some, List, [], ◌∷◌, is_none, arith}
use beam_clmm.Candidate.{
  CandidatePolicy, CandidateIdentity, CandidateState, discovered, observing, eligible, entered,
  cooling_down, rejected, TokenCandidate, CandidateEvent, scan, entry_confirmed, cooldown_started,
  cooldown_elapsed, create_token_candidate, is_candidate_eligible, transition_candidate,
  run_candidate,
}

-- The candidate had been observed for long enough when it became eligible.
abbrev pub Observed : CandidatePolicy → TokenCandidate → Option ℕ → Type 0
Observed policy c none = ⊥
Observed policy c (some at) = c.first_seen_at + policy.min_observation_ms ≤ at

-- It is, or was before its entry, eligible by the policy.
abbrev pub IsQualified : CandidatePolicy → TokenCandidate → Type 0
IsQualified policy c =
    (policy.min_healthy_scans ≤ c.healthy_scan_count) × Observed policy c c.eligible_at

abbrev pub StateFacts : CandidatePolicy → TokenCandidate → CandidateState → Type 0
StateFacts policy c discovered =
    (c.eligible_at ≡ none) × (c.cooldown_until ≡ none) × (c.rejection_reason ≡ none)
StateFacts policy c observing =
    (c.eligible_at ≡ none) × (c.cooldown_until ≡ none) × (c.rejection_reason ≡ none)
StateFacts policy c eligible =
    IsQualified policy c
    × (c.eligible_at ≡ some c.last_seen_at)
    × (c.cooldown_until ≡ none)
    × (c.rejection_reason ≡ none)
StateFacts policy c entered =
    IsQualified policy c
    × (is_none c.entered_at ≡ false)
    × (c.cooldown_until ≡ none)
    × (c.rejection_reason ≡ none)
StateFacts policy c cooling_down =
    IsQualified policy c
    × (is_none c.entered_at ≡ false)
    × (is_none c.cooldown_until ≡ false)
    × (c.rejection_reason ≡ none)
StateFacts policy c rejected =
    (c.eligible_at ≡ none) × (c.cooldown_until ≡ none) × (is_none c.rejection_reason ≡ false)

pub record IsWellFormed (policy : CandidatePolicy) (c : TokenCandidate) : Type 0 where
  pub created : c.created_at ≡ c.first_seen_at
  pub seen : c.first_seen_at ≤ c.last_seen_at
  pub touched : c.updated_at ≡ c.last_seen_at
  pub facts : StateFacts policy c c.state

pub create_token_candidate-IsWellFormed :
    (policy : CandidatePolicy) (i : CandidateIdentity)
    → IsWellFormed policy (create_token_candidate i)
unfolding create_token_candidate
create_token_candidate-IsWellFormed policy i = ground arith

-- Whatever the event, and whatever its time, a well-formed candidate stays well-formed.
transition_candidate-IsWellFormed :
    (policy : CandidatePolicy) (c : TokenCandidate) (e : CandidateEvent)
    → IsWellFormed policy c
    → IsWellFormed policy (transition_candidate c e policy)
unfolding transition_candidate is_candidate_eligible
transition_candidate-IsWellFormed policy c (scan at _) v = ground arith
transition_candidate-IsWellFormed policy c (entry_confirmed at) v = ground arith
transition_candidate-IsWellFormed policy c (cooldown_started at until) v = ground arith
transition_candidate-IsWellFormed policy c (cooldown_elapsed at) v = ground arith

run_candidate-IsWellFormed :
    (policy : CandidatePolicy) (c : TokenCandidate) (es : List CandidateEvent)
    → IsWellFormed policy c
    → IsWellFormed policy (run_candidate policy c es)
unfolding run_candidate
run_candidate-IsWellFormed policy c [] v = v
run_candidate-IsWellFormed policy c (e ∷ es) v =
    run_candidate-IsWellFormed policy (transition_candidate c e policy) es
      (transition_candidate-IsWellFormed policy c e v)

-- After any events, a new candidate's record is well-formed: the times are consistent, an eligible,
-- entered or cooling candidate has met both gates of the policy, the time of eligibility is set in
-- exactly these three states, the end of the cooldown only while it cools down, the reason of a
-- rejection only when it is rejected, and the time of entry at least while it is entered or cools
-- down.
pub run_candidate-create-IsWellFormed :
    (policy : CandidatePolicy) (i : CandidateIdentity) (es : List CandidateEvent)
    → IsWellFormed policy (run_candidate policy (create_token_candidate i) es)
run_candidate-create-IsWellFormed policy i es =
    run_candidate-IsWellFormed policy (create_token_candidate i) es
      (create_token_candidate-IsWellFormed policy i)
