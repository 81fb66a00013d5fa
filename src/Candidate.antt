-- ===== src/Candidate.antt =====
-- engine/candidate-policy.ts and the candidate record of engine/types.ts: the persisted lifecycle of a
-- discovered token. Times are whole milliseconds and counts are whole, so they are naturals;
-- `now - since >= span` is written `since + span <= now`.
pub mod Health
pub mod Invariant
pub mod History
pub mod Graph
use Prim.Native.Nat.{max}
use beam_clmm.Prelude.{
  ℕ, ◌+◌, Bool, true, false, ◌&&◌, Option, none, some, String, leb, if◌then◌else◌, is_none, List,
  [], ◌∷◌,
}

pub record CandidatePolicy : Type 0 where
  pub min_healthy_scans : ℕ
  pub min_observation_ms : ℕ

pub record CandidateIdentity : Type 0 where
  pub id : String
  pub wallet_address : String
  pub agent_instance_id : String
  pub pool_address : String
  pub token_mint : String
  pub first_seen_at : ℕ

pub data CandidateState : Type 0 where
  discovered observing eligible entered cooling_down rejected : CandidateState

pub record TokenCandidate : Type 0 where
  pub id : String
  pub wallet_address : String
  pub agent_instance_id : String
  pub pool_address : String
  pub token_mint : String
  pub state : CandidateState
  pub healthy_scan_count : ℕ
  pub first_seen_at : ℕ
  pub last_seen_at : ℕ
  pub eligible_at : Option ℕ
  pub entered_at : Option ℕ
  pub cooldown_until : Option ℕ
  pub rejection_reason : Option String
  pub created_at : ℕ
  pub updated_at : ℕ

pub data TransientReason : Type 0 where
  market_data_unavailable price_evidence_unavailable price_evidence_stale : TransientReason
  route_unavailable screener_rejected : TransientReason

pub data CandidateHealth : Type 0 where
  healthy : CandidateHealth
  transient_failure : TransientReason → CandidateHealth
  hard_safety_failure : String → CandidateHealth

pub data CandidateEvent : Type 0 where
  scan : ℕ → CandidateHealth → CandidateEvent
  entry_confirmed : ℕ → CandidateEvent
  cooldown_started : ℕ → ℕ → CandidateEvent
  cooldown_elapsed : ℕ → CandidateEvent

abbrev at_or_after : ℕ → ℕ → ℕ
at_or_after previous observed = max previous observed

-- `updateSeen` with no further updates; the callers apply theirs to its result, which is the same
-- record, since no update names the two times.
update_seen : TokenCandidate → ℕ → TokenCandidate
update_seen c occurred_at = record c {
  last_seen_at = at_or_after c.last_seen_at occurred_at;
  updated_at = at_or_after c.updated_at occurred_at;
}

unfoldable pub create_token_candidate : CandidateIdentity → TokenCandidate
create_token_candidate identity = record {
  id = identity.id;
  wallet_address = identity.wallet_address;
  agent_instance_id = identity.agent_instance_id;
  pool_address = identity.pool_address;
  token_mint = identity.token_mint;
  state = discovered;
  healthy_scan_count = 0;
  first_seen_at = identity.first_seen_at;
  last_seen_at = identity.first_seen_at;
  eligible_at = none;
  entered_at = none;
  cooldown_until = none;
  rejection_reason = none;
  created_at = identity.first_seen_at;
  updated_at = identity.first_seen_at;
}

unfoldable pub is_candidate_eligible : TokenCandidate → CandidatePolicy → Bool
is_candidate_eligible c policy =
    leb policy.min_healthy_scans c.healthy_scan_count
    && leb (c.first_seen_at + policy.min_observation_ms) c.last_seen_at

record_healthy_scan : TokenCandidate → ℕ → CandidatePolicy → TokenCandidate
unfolding update_seen is_candidate_eligible
record_healthy_scan c observed_at policy =
    let observed = record (update_seen c observed_at) {
      healthy_scan_count = c.healthy_scan_count + 1;
    } in
    if is_candidate_eligible observed policy
    then record observed {
      state = eligible;
      eligible_at = some observed.last_seen_at;
      rejection_reason = none;
    }
    else record observed { state = observing; eligible_at = none; rejection_reason = none }

-- The states in which scans count: discovered, observing and eligible.
abbrev pub is_tracked : CandidateState → Bool
is_tracked discovered = true
is_tracked observing = true
is_tracked eligible = true
is_tracked _ = false

record_transient_failure : TokenCandidate → ℕ → TokenCandidate
unfolding update_seen
record_transient_failure c observed_at =
    if is_tracked c.state
    then record (update_seen c observed_at) {
      state = observing;
      healthy_scan_count = 0;
      eligible_at = none;
      rejection_reason = none;
    }
    else update_seen c observed_at

record_scan : TokenCandidate → ℕ → CandidateHealth → CandidatePolicy → TokenCandidate
unfolding update_seen record_transient_failure record_healthy_scan
record_scan c observed_at (hard_safety_failure reason) policy = record (update_seen c observed_at) {
  state = rejected;
  healthy_scan_count = 0;
  eligible_at = none;
  cooldown_until = none;
  rejection_reason = some reason;
}
record_scan c observed_at (transient_failure reason) policy = record_transient_failure c observed_at
record_scan c observed_at healthy policy =
    if is_tracked c.state
    then record_healthy_scan c observed_at policy
    else update_seen c observed_at

abbrev is_eligible_state : CandidateState → Bool
is_eligible_state eligible = true
is_eligible_state _ = false

abbrev is_entered_state : CandidateState → Bool
is_entered_state entered = true
is_entered_state _ = false

abbrev is_cooling_state : CandidateState → Bool
is_cooling_state cooling_down = true
is_cooling_state _ = false

-- `cooldownUntil !== null && occurredAt >= cooldownUntil`
abbrev has_elapsed : Option ℕ → ℕ → Bool
has_elapsed none occurred_at = false
has_elapsed (some until) occurred_at = leb until occurred_at

unfoldable pub transition_candidate :
    TokenCandidate → CandidateEvent → CandidatePolicy → TokenCandidate
unfolding update_seen record_scan
transition_candidate c (scan observed_at health) policy = record_scan c observed_at health policy
transition_candidate c (entry_confirmed occurred_at) policy =
    if is_eligible_state c.state
    then record (update_seen c occurred_at) {
      state = entered;
      entered_at = some occurred_at;
      cooldown_until = none;
    }
    else c
transition_candidate c (cooldown_started occurred_at until) policy =
    if is_entered_state c.state
    then record (update_seen c occurred_at) { state = cooling_down; cooldown_until = some until }
    else c
transition_candidate c (cooldown_elapsed occurred_at) policy =
    if is_cooling_state c.state && has_elapsed c.cooldown_until occurred_at
    then record (update_seen c occurred_at) {
      state = discovered;
      healthy_scan_count = 0;
      eligible_at = none;
      cooldown_until = none;
      rejection_reason = none;
    }
    else c

-- The store applies one event after another to the persisted record.
unfoldable pub run_candidate :
    CandidatePolicy → TokenCandidate → List CandidateEvent → TokenCandidate
run_candidate policy c [] = c
run_candidate policy c (e ∷ es) = run_candidate policy (transition_candidate c e policy) es
