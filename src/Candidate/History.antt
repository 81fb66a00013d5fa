-- ===== src/Candidate/History.antt =====
-- What a candidate's state says of the events that led to it.
use beam_clmm.Prelude.{ℕ, ◌+◌, ◌≤◌, ◌≡◌, refl, true, List, [], ◌∷◌, map, length, arith}
use beam_clmm.Candidate.{
  CandidatePolicy, CandidateIdentity, eligible, TokenCandidate, CandidateEvent, scan, healthy,
  transient_failure, hard_safety_failure, is_tracked, is_candidate_eligible, create_token_candidate,
  transition_candidate, run_candidate,
}
use beam_clmm.Candidate.Graph.{run_candidate-Continues}
use beam_clmm.Candidate.Invariant.{IsWellFormed, run_candidate-create-IsWellFormed}

-- Healthy scans in a row, up to now: a scan that fails starts the count again. It looks at the
-- events alone.
abbrev pub streak_after : ℕ → CandidateEvent → ℕ
streak_after k (scan at healthy) = k + 1
streak_after k (scan at (transient_failure r)) = 0
streak_after k (scan at (hard_safety_failure r)) = 0
streak_after k _ = k

abbrev pub streak_from : ℕ → List CandidateEvent → ℕ
streak_from k [] = k
streak_from k (e ∷ es) = streak_from (streak_after k e) es

-- In the states where scans count, the count is at most the streak.
abbrev IsCounted : ℕ → TokenCandidate → Type 0
IsCounted k c = is_tracked c.state ≡ true → c.healthy_scan_count ≤ k

transition_candidate-IsCounted :
    (policy : CandidatePolicy) (c : TokenCandidate) (e : CandidateEvent) (k : ℕ)
    → IsCounted k c
    → IsCounted (streak_after k e) (transition_candidate c e policy)
unfolding transition_candidate
transition_candidate-IsCounted policy c e k h = ground arith

run_candidate-IsCounted :
    (policy : CandidatePolicy) (c : TokenCandidate) (es : List CandidateEvent) (k : ℕ)
    → IsCounted k c
    → IsCounted (streak_from k es) (run_candidate policy c es)
unfolding run_candidate
run_candidate-IsCounted policy c [] k h = h
run_candidate-IsCounted policy c (e ∷ es) k h =
    run_candidate-IsCounted policy (transition_candidate c e policy) es (streak_after k e)
      (transition_candidate-IsCounted policy c e k h)

eligible-IsQualified :
    (policy : CandidatePolicy) (c : TokenCandidate)
    → IsWellFormed policy c
    → c.state ≡ eligible
    → (policy.min_healthy_scans ≤ c.healthy_scan_count)
      × (c.first_seen_at + policy.min_observation_ms ≤ c.last_seen_at)
eligible-IsQualified policy c v h = ground arith

create-IsCounted : (i : CandidateIdentity) → IsCounted 0 (create_token_candidate i)
unfolding create_token_candidate
create-IsCounted i h = omega arith

first_seen_at-create :
    (i : CandidateIdentity) → (create_token_candidate i).first_seen_at ≡ i.first_seen_at
unfolding create_token_candidate
first_seen_at-create i = refl

-- A candidate that is eligible has had at least the policy's number of healthy scans in a row, with
-- no failed scan since, and has been observed from its first sighting for at least the policy's time.
pub eligible_needs_streak :
    (policy : CandidatePolicy) (i : CandidateIdentity) (es : List CandidateEvent)
    → (run_candidate policy (create_token_candidate i) es).state ≡ eligible
    → (policy.min_healthy_scans ≤ streak_from 0 es)
      × (i.first_seen_at + policy.min_observation_ms
          ≤ (run_candidate policy (create_token_candidate i) es).last_seen_at)
eligible_needs_streak policy i es h =
    let new = create_token_candidate i in
    let c = run_candidate policy new es in
    let counted = run_candidate-IsCounted policy new es 0 (create-IsCounted i) in
    let (scans, seen) =
      eligible-IsQualified policy c (run_candidate-create-IsWellFormed policy i es) h in
    let first = (run_candidate-Continues policy new es).same_first_seen in
    let same = first_seen_at-create i in (ground (arith, counted (rw h refl)), omega arith)

-- A row of healthy scans.
abbrev pub healthy_scans : List ℕ → List CandidateEvent
healthy_scans = map (λ at. scan at healthy)

healthy_step :
    (policy : CandidatePolicy) (c : TokenCandidate) (at : ℕ)
    → is_tracked c.state ≡ true
    → let d = transition_candidate c (scan at healthy) policy in
      (is_tracked d.state ≡ true)
      × (d.healthy_scan_count ≡ c.healthy_scan_count + 1)
      × (d.first_seen_at ≡ c.first_seen_at)
unfolding transition_candidate
healthy_step policy c at h = ground arith

healthy_run :
    (policy : CandidatePolicy) (c : TokenCandidate) (ats : List ℕ)
    → is_tracked c.state ≡ true
    → let d = run_candidate policy c (healthy_scans ats) in
      (is_tracked d.state ≡ true)
      × (d.healthy_scan_count ≡ c.healthy_scan_count + length ats)
      × (d.first_seen_at ≡ c.first_seen_at)
unfolding run_candidate
healthy_run policy c [] h = (h, omega arith, refl)
healthy_run policy c (at ∷ ats) h =
    let (t, count, first) = healthy_step policy c at h in
    let (t', count', first') =
      healthy_run policy (transition_candidate c (scan at healthy) policy) ats t in
    (t', omega arith, omega arith)

last_healthy :
    (policy : CandidatePolicy) (c : TokenCandidate) (at : ℕ)
    → is_tracked c.state ≡ true
    → policy.min_healthy_scans ≤ c.healthy_scan_count + 1
    → c.first_seen_at + policy.min_observation_ms ≤ at
    → (transition_candidate c (scan at healthy) policy).state ≡ eligible
unfolding transition_candidate is_candidate_eligible
last_healthy policy c at t h k = ground arith

-- From any state where scans count, healthy scans alone lead to eligibility: the scan that brings the
-- count to the policy's number, at a time when the candidate is old enough, makes it eligible.
pub healthy_scans_reach_eligible :
    (policy : CandidatePolicy) (c : TokenCandidate) (ats : List ℕ) (at : ℕ)
    → is_tracked c.state ≡ true
    → policy.min_healthy_scans ≤ c.healthy_scan_count + length ats + 1
    → c.first_seen_at + policy.min_observation_ms ≤ at
    → (transition_candidate
        (run_candidate policy c (healthy_scans ats))
        (scan at healthy)
        policy).state
      ≡ eligible
healthy_scans_reach_eligible policy c ats at t h k =
    let (t', count, first) = healthy_run policy c ats t in
    last_healthy policy (run_candidate policy c (healthy_scans ats)) at t' (omega arith)
      (omega arith)
