-- ===== src/Candidate/Graph.antt =====
-- The lifecycle diagram of a candidate, and what never changes along it.
use beam_clmm.Prelude.{ℕ, ◌≤◌, ◌≡◌, refl, true, ◌⊎◌, List, [], ◌∷◌, ◌++◌, String, arith}
use beam_clmm.Candidate.{
  CandidatePolicy, CandidateState, discovered, observing, eligible, entered, cooling_down, rejected,
  TokenCandidate, CandidateEvent, scan, hard_safety_failure, is_tracked, transition_candidate,
  run_candidate,
}

-- The edges, each with the event that takes it.
infix 40 ◌⟶◌
pub data ◌⟶◌ : CandidateState → CandidateState → Type 0 where
  scanned : {s : CandidateState} → is_tracked s ≡ true → s ⟶ observing
  qualified : {s : CandidateState} → is_tracked s ≡ true → s ⟶ eligible
  confirmed : eligible ⟶ entered
  cooled : entered ⟶ cooling_down
  elapsed : cooling_down ⟶ discovered
  failed : (s : CandidateState) → s ⟶ rejected

-- Every event leaves the state as it is or follows an edge of the diagram.
pub transition_candidate-⟶ :
    (policy : CandidatePolicy) (c : TokenCandidate) (e : CandidateEvent)
    → ((transition_candidate c e policy).state ≡ c.state)
      ⊎ (c.state ⟶ (transition_candidate c e policy).state)
unfolding transition_candidate
transition_candidate-⟶ policy c e =
    grind (arith, scanned, qualified, confirmed, cooled, elapsed, failed)

-- What an event may not touch, and what it may only move forward.
pub record Continues (c d : TokenCandidate) : Type 0 where
  pub same_id : d.id ≡ c.id
  pub same_wallet : d.wallet_address ≡ c.wallet_address
  pub same_agent : d.agent_instance_id ≡ c.agent_instance_id
  pub same_pool : d.pool_address ≡ c.pool_address
  pub same_mint : d.token_mint ≡ c.token_mint
  pub same_first_seen : d.first_seen_at ≡ c.first_seen_at
  pub same_created : d.created_at ≡ c.created_at
  pub seen_later : c.last_seen_at ≤ d.last_seen_at
  pub updated_later : c.updated_at ≤ d.updated_at

transition_candidate-Continues :
    (policy : CandidatePolicy) (c : TokenCandidate) (e : CandidateEvent)
    → Continues c (transition_candidate c e policy)
unfolding transition_candidate
transition_candidate-Continues policy c e = ground arith

Continues-trans : (c d e : TokenCandidate) → Continues c d → Continues d e → Continues c e
Continues-trans c d e h k = ground arith

-- Over any events, a candidate keeps its identity, its first sighting and its creation time, and its
-- last sighting and update never move back.
pub run_candidate-Continues :
    (policy : CandidatePolicy) (c : TokenCandidate) (es : List CandidateEvent)
    → Continues c (run_candidate policy c es)
unfolding run_candidate
run_candidate-Continues policy c [] = ground arith
run_candidate-Continues policy c (e ∷ es) =
    Continues-trans c (transition_candidate c e policy) (run_candidate policy c (e ∷ es))
      (transition_candidate-Continues policy c e)
      (run_candidate-Continues policy (transition_candidate c e policy) es)

rejected-stays :
    (policy : CandidatePolicy) (c : TokenCandidate) (e : CandidateEvent)
    → c.state ≡ rejected
    → (transition_candidate c e policy).state ≡ rejected
unfolding transition_candidate
rejected-stays policy c e h = ground arith

run-rejected :
    (policy : CandidatePolicy) (c : TokenCandidate) (es : List CandidateEvent)
    → c.state ≡ rejected
    → (run_candidate policy c es).state ≡ rejected
unfolding run_candidate
run-rejected policy c [] h = h
run-rejected policy c (e ∷ es) h =
    run-rejected policy (transition_candidate c e policy) es (rejected-stays policy c e h)

run-append :
    (policy : CandidatePolicy) (c : TokenCandidate) (es fs : List CandidateEvent)
    → run_candidate policy c (es ++ fs) ≡ run_candidate policy (run_candidate policy c es) fs
unfolding run_candidate
run-append policy c [] fs = refl
run-append policy c (e ∷ es) fs = run-append policy (transition_candidate c e policy) es fs

hard-rejects :
    (policy : CandidatePolicy) (c : TokenCandidate) (at : ℕ) (reason : String)
    → (transition_candidate c (scan at (hard_safety_failure reason)) policy).state ≡ rejected
unfolding transition_candidate
hard-rejects policy c at reason = refl

-- Once a scan finds a hard safety failure, in whatever state, the candidate is rejected for good,
-- whatever events come later.
pub run_candidate-rejected :
    (policy : CandidatePolicy) (c : TokenCandidate) (before after : List CandidateEvent) (at : ℕ)
    (reason : String)
    → (run_candidate policy c (before ++ (scan at (hard_safety_failure reason) ∷ after))).state
      ≡ rejected
unfolding run_candidate
run_candidate-rejected policy c before after at reason =
    let d = run_candidate policy c before in
    let e = scan at (hard_safety_failure reason) in
    rw (run-append policy c before (e ∷ after)) (
      run-rejected policy (transition_candidate d e policy) after (hard-rejects policy d at reason))
