-- ===== src/Rotation.antt =====
-- engine/rotation-controller.ts: portfolio rotation. Net fee velocity, the observation streak, the
-- candidate pairs and the decision. A message is named by a constructor. Counters are naturals.
pub mod Choice
pub mod Streak
pub mod Impairment
use Prim.Native.Nat.{min as min_nat, max as max_nat}
use Prim.Native.String.{◌++◌ as str_append}
use beam_clmm.Prelude.{
  List, [], ◌∷◌, ◌++◌, Option, String, ℕ, ◌or◌, StringMap, Bool, if◌then◌else◌, map_set, not,
  filter, leb, map_get, false, ◌+◌, str_gt, str_eq,
}
use beam_clmm.Number.{Number, ◌⊗◌, ◌⊕◌, ◌⊖◌, ◌⊘◌, int, ◌<?◌, ◌≟◌, ◌>?◌}

-- `{ ...DEFAULT_THRESHOLDS, ...cfg }`: a field that the caller leaves out is `none`.
pub record RotationConfig (F : Type 0) : Type 0 where
  pub min_superiority_pct : Option F
  pub min_apr_lead_pct : Option F
  pub min_fee_density_lead_pct : Option F
  pub required_confirmations : Option ℕ
  pub min_challenger_net_fees_usd_per_day : F
  pub switching_cost_usd : F

pub record ResolvedRotationConfig (F : Type 0) : Type 0 where
  pub min_superiority_pct : F
  pub min_apr_lead_pct : F
  pub min_fee_density_lead_pct : F
  pub required_confirmations : ℕ
  pub min_challenger_net_fees_usd_per_day : F
  pub switching_cost_usd : F

pub record Seat (F : Type 0) : Type 0 where
  pub pool : String
  pub apr : F
  pub fee_density : F
  pub fees24h_usd : F
  pub position_share : F
  pub expected_in_range_pct : F
  pub costs_per_day_usd : F

pub record Challenger (F : Type 0) : Type 0 where
  pub seat : Seat F
  pub open seat use *
  pub admissible : Bool

pub data HoldReason : Type 0 where
  no_candidates not_admissible below_floor below_superiority : HoldReason
  below_apr_lead below_density_lead insufficient_confirmations : HoldReason

pub data RotationDecision : Type 0 where
  rotate : String → String → RotationDecision
  hold : HoldReason → RotationDecision

unfoldable pub rotation_pair_key : String → String → String
rotation_pair_key exit_pool enter_pool = str_append exit_pool (str_append "|" enter_pool)

-- `next.set(key, superior ? min((next.get(key) ?? 0) + 1, max(required, 1)) : 0)`
unfoldable pub observe_rotation_pair : String → String → Bool → StringMap ℕ → ℕ → StringMap ℕ
observe_rotation_pair exit_pool enter_pool superior confirmations required =
    let key = rotation_pair_key exit_pool enter_pool in
    if superior
    then map_set key (min_nat ((map_get key confirmations or 0) + 1) (max_nat required 1))
        confirmations
    else map_set key 0 confirmations

module _ {F : Type 0} ⦃n : Number F⦄ where
  unfoldable pub resolve_config : RotationConfig F → ResolvedRotationConfig F
  resolve_config cfg = record {
    min_superiority_pct = cfg.min_superiority_pct or int 25;
    min_apr_lead_pct = cfg.min_apr_lead_pct or int 20;
    min_fee_density_lead_pct = cfg.min_fee_density_lead_pct or int 15;
    required_confirmations = cfg.required_confirmations or 2;
    min_challenger_net_fees_usd_per_day = cfg.min_challenger_net_fees_usd_per_day;
    switching_cost_usd = cfg.switching_cost_usd;
  }

  unfoldable pub estimate_net_fee_velocity : F → F → F → F → F
  estimate_net_fee_velocity fees share in_range costs = fees ⊗ share ⊗ (in_range ⊘ int 100) ⊖ costs

  abbrev pub net_velocity : Seat F → F
  net_velocity s =
      estimate_net_fee_velocity s.fees24h_usd s.position_share s.expected_in_range_pct
        s.costs_per_day_usd

  unfoldable pub switching_cost : F → F → F → F → F → F
  switching_cost withdraw_gas swap_gas entry_gas swap_fees slippage =
      withdraw_gas ⊕ swap_gas ⊕ entry_gas ⊕ swap_fees ⊕ slippage

pub record Candidate (F : Type 0) : Type 0 where
  pub seat : Seat F
  pub challenger : Challenger F
  pub incumbent_net : F
  pub challenger_net : F
  pub margin : F
  pub key : String

module _ {F : Type 0} ⦃n : Number F⦄ where
  abbrev pub candidate : Seat F → Challenger F → Candidate F
  candidate s c = record {
    seat = s;
    challenger = c;
    incumbent_net = net_velocity s;
    challenger_net = net_velocity c.seat;
    margin = net_velocity c.seat ⊖ net_velocity s;
    key = rotation_pair_key s.pool c.pool;
  }

  -- The inner loop of `candidatePairs`: `continue` on the same pool.
  unfoldable pub pairs_of : Seat F → List (Challenger F) → List (Candidate F)
  pairs_of s [] = []
  pairs_of s (c ∷ cs) =
      let rest = pairs_of s cs in if str_eq c.pool s.pool then rest else candidate s c ∷ rest

  unfoldable pub candidate_pairs : List (Seat F) → List (Challenger F) → List (Candidate F)
  unfolding pairs_of
  candidate_pairs [] challengers = []
  candidate_pairs (s ∷ ss) challengers = pairs_of s challengers ++ candidate_pairs ss challengers

  unfoldable pub better_candidate : Candidate F → Candidate F → Candidate F
  better_candidate a b =
      if not (b.margin ≟ a.margin)
      then (if b.margin >? a.margin then b else a)
      else if not (b.challenger.apr ≟ a.challenger.apr)
      then (if b.challenger.apr >? a.challenger.apr then b else a)
      else if str_gt b.key a.key
      then b
      else a

  -- `reduce((a, b) => betterCandidate(a, b))` on a list with a first element.
  unfoldable pub best_of : Candidate F → List (Candidate F) → Candidate F
  best_of a [] = a
  best_of a (b ∷ bs) = best_of (better_candidate a b) bs

  -- Gates 1 to 5; each fails on its own comparison.
  unfoldable pub qualifies : ResolvedRotationConfig F → Candidate F → Bool
  qualifies c k =
      if not k.challenger.admissible
      then false
      else if k.challenger_net <? c.min_challenger_net_fees_usd_per_day
      then false
      else if k.challenger_net <? k.incumbent_net ⊗ (int 1 ⊕ c.min_superiority_pct ⊘ int 100)
      then false
      else if k.challenger.apr <? k.seat.apr ⊕ c.min_apr_lead_pct
      then false
      else not (
          k.challenger.fee_density
          <? k.seat.fee_density ⊗ (int 1 ⊕ c.min_fee_density_lead_pct ⊘ int 100))

  -- The first failed gate of the nearest miss.
  unfoldable pub first_failure : ResolvedRotationConfig F → Candidate F → HoldReason
  first_failure c k =
      if not k.challenger.admissible
      then not_admissible
      else if k.challenger_net <? c.min_challenger_net_fees_usd_per_day
      then below_floor
      else if k.challenger_net <? k.incumbent_net ⊗ (int 1 ⊕ c.min_superiority_pct ⊘ int 100)
      then below_superiority
      else if k.challenger.apr <? k.seat.apr ⊕ c.min_apr_lead_pct
      then below_apr_lead
      else below_density_lead

  unfoldable pub decide_best :
      ResolvedRotationConfig F → StringMap ℕ → Candidate F → RotationDecision
  decide_best c confirmations best =
      if leb c.required_confirmations (map_get best.key confirmations or 0)
      then rotate best.seat.pool best.challenger.pool
      else hold insufficient_confirmations

  abbrev pub decide :
      ResolvedRotationConfig F
      → StringMap ℕ
      → (candidates qualified : List (Candidate F)) → RotationDecision
  decide c confirmations [] qualified = hold no_candidates
  decide c confirmations (k ∷ ks) (q ∷ qs) = decide_best c confirmations (best_of q qs)
  decide c confirmations (k ∷ ks) [] = hold (first_failure c (best_of k ks))

  unfoldable pub evaluate_rotation :
      List (Seat F) → List (Challenger F) → RotationConfig F → StringMap ℕ → RotationDecision
  evaluate_rotation seats challengers cfg confirmations =
      let c = resolve_config cfg in
      let candidates = candidate_pairs seats challengers in
      decide c confirmations candidates (filter (qualifies c) candidates)
