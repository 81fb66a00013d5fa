-- ===== src/Execution/Returns.antt =====
-- What the settlement of an EXIT of engine/program.ts queues: its jobs against the amounts that the
-- exit returned.
use beam_clmm.Prelude.{
  [], ◌∷◌, ◌++◌, List, Member, map, filter, not, str_eq, String, Option, none, some, ◌or◌, ◌≡◌,
  refl, sym, ◌∙◌, ap, Bool, true, false, All, ℕ, ◌+◌, Bool-cases, inl, inr,
}
use mathlib.Core.Path.{subst}
use beam_clmm.Prelude.Int.{ℤ, pos, ltb_ℤ}
use beam_clmm.Number.{Number}
use beam_clmm.Settlement.{SettlementJob, JobStatus}
use beam_clmm.Tracking.{PositionRecord}
use beam_clmm.Execution.{Write, World, AutonomousContext, save_pause}
use beam_clmm.Execution.Exit.{ExitRequest, ExitResult, SweptReward}
use beam_clmm.Execution.Live.{settle_attempted_exit, settle_by}
use beam_clmm.Execution.Settle.{
  Returned, attributable, returned_rewards, returned_amount, persistence_pause, exit_job,
}
use beam_clmm.Execution.Jobs.{IsRecorded, jobs_from, settle_with_jobs-IsRecorded, append_assoc}

abbrev is_positive : Returned → Bool
is_positive item = ltb_ℤ (pos 0) item.amount_atomic

abbrev amount_of : String → Option ℤ → Returned
amount_of mint amount = record { mint = mint; amount_atomic = amount or pos 0 }

-- The positive ones of the two legs and of the rewards whose mint is known, in this order.
abbrev pub amounts_returned : {F : Type 0} → String → String → ExitResult F → List Returned
amounts_returned x y e = filter is_positive (
    amount_of x e.withdrawn_x
    ∷ amount_of y e.withdrawn_y
    ∷ map (λ s. amount_of s.mint s.amount_atomic)
        (filter (λ s. not (str_eq s.mint "unknown")) e.swept_rewards))

-- A leg in front of the rest.
returned_amount-filter :
    (mint : String) (amount : Option ℤ) (rest : List Returned)
    → (returned_amount mint amount ++ filter is_positive rest)
      ≡ filter is_positive (amount_of mint amount ∷ rest)
unfolding filter
returned_amount-filter mint none rest = refl
returned_amount-filter mint (some amount) rest = elim (Bool-cases (ltb_ℤ (pos 0) amount)) [
  | inl e ↦ rw e refl
  | inr e ↦ rw e refl
]

module _ {F : Type 0} where
  abbrev rewards_returned : List (SweptReward F) → List Returned
  rewards_returned rs =
      map (λ s. amount_of s.mint s.amount_atomic) (filter (λ s. not (str_eq s.mint "unknown")) rs)

  returned_rewards-eq :
      (rs : List (SweptReward F)) → returned_rewards rs ≡ filter is_positive (rewards_returned rs)
  unfolding returned_rewards filter
  returned_rewards-eq [] = refl
  returned_rewards-eq (r ∷ rs) = elim (Bool-cases (str_eq r.mint "unknown")) [
    | inl e ↦ rw e (returned_rewards-eq rs)
    | inr e ↦ rw e (
        ap (λ later. returned_amount r.mint r.amount_atomic ++ later) (returned_rewards-eq rs)
        ∙ returned_amount-filter r.mint r.amount_atomic (rewards_returned rs))
  ]

  attributable-eq : (x y : String) (e : ExitResult F) → attributable x y e ≡ amounts_returned x y e
  unfolding attributable
  attributable-eq x y e =
      let rest = rewards_returned e.swept_rewards in
      append_assoc (returned_amount x e.withdrawn_x) (returned_amount y e.withdrawn_y)
        (returned_rewards e.swept_rewards)
      ∙ ap (λ later. returned_amount x e.withdrawn_x ++ (returned_amount y e.withdrawn_y ++ later))
          (returned_rewards-eq e.swept_rewards)
      ∙ ap (λ later. returned_amount x e.withdrawn_x ++ later)
          (returned_amount-filter y e.withdrawn_y rest)
      ∙ returned_amount-filter x e.withdrawn_x (amount_of y e.withdrawn_y ∷ rest)

abbrev pub amount_in : {F : Type 0} → SettlementJob F → Returned
amount_in j = record { mint = j.token_mint; amount_atomic = j.amount_atomic }

module _ {F : Type 0} (c : AutonomousContext) (position pool : String) (now : ℕ) where
  -- A job that waits for its first round and belongs to the position.
  pub record IsFreshJob (j : SettlementJob F) : Type 0 where
    pub of_position : j.position_id ≡ position
    pub of_pool : j.pool_address ≡ pool
    pub of_wallet : j.wallet_address ≡ c.wallet_address
    pub of_agent : j.agent_instance_id ≡ c.agent_instance_id
    pub waiting : j.status ≡ JobStatus.pending
    pub due_now : j.next_retry_at ≡ some now
    pub unsent : j.tx_signature ≡ none
    pub untried : j.attempts ≡ 0
    pub expiry : j.expires_at ≡ now + c.settlement_max_pending_ms

  module _ (fresh_id : ℕ → String) where
    exit_job-IsFreshJob :
        (item : Returned) (i : ℕ) → IsFreshJob (exit_job fresh_id c position pool now item i)
    unfolding exit_job
    exit_job-IsFreshJob item i = record {
      of_position = refl;
      of_pool = refl;
      of_wallet = refl;
      of_agent = refl;
      waiting = refl;
      due_now = refl;
      unsent = refl;
      untried = refl;
      expiry = refl;
    }

    jobs_from-IsFreshJob :
        (n : Number F) (accepted : Write F → Bool) (items : List Returned) (i : ℕ)
        → All IsFreshJob (jobs_from ⦃n = n⦄ accepted fresh_id c position pool now i items)
    jobs_from-IsFreshJob n accepted [] i = tt
    jobs_from-IsFreshJob n accepted (item ∷ items) i =
        (exit_job-IsFreshJob item i, jobs_from-IsFreshJob n accepted items (i + 1))

    amounts-jobs_from :
        (n : Number F) (accepted : Write F → Bool) (items : List Returned) (i : ℕ)
        → map amount_in (jobs_from ⦃n = n⦄ accepted fresh_id c position pool now i items) ≡ items
    unfolding exit_job
    amounts-jobs_from n accepted [] i = refl
    amounts-jobs_from n accepted (item ∷ items) i =
        ap (◌∷◌ item) (amounts-jobs_from n accepted items (i + 1))

module _ {F : Type 0} ⦃n : Number F⦄ (accepted : Write F → Bool) (fresh_id : ℕ → String)
    (r : ExitRequest F) (c : AutonomousContext) (p : PositionRecord F) (x y : String)
    (e : ExitResult F) (w : World F) where
  -- The new jobs stand behind the old ones, and are of exactly the amounts returned.
  pub record IsQueued (v : World F) : Type 0 where
    pub new : List (SettlementJob F)
    pub behind : v.jobs ≡ (w.jobs ++ new)
    pub amounts : map amount_in new ≡ amounts_returned x y e
    pub fresh : All (IsFreshJob c p.position_id r.pool_address r.now) new

  abbrev pub IsSettled : Bool → World F → Type 0
  IsSettled true v = IsQueued v
  IsSettled false v = Member (persistence_pause r.now) v.pauses

  recorded-IsSettled :
      (b : Bool) (v : World F)
      → IsRecorded accepted fresh_id c p.position_id r.pool_address r.now 0
          (attributable x y e)
          w
          b
          v
      → IsSettled b v
  recorded-IsSettled true v h = record {
    new = jobs_from accepted fresh_id c p.position_id r.pool_address r.now 0 (attributable x y e);
    behind = h;
    amounts =
        amounts-jobs_from c p.position_id r.pool_address r.now fresh_id n accepted
          (attributable x y e) 0
        ∙ attributable-eq x y e;
    fresh =
        jobs_from-IsFreshJob c p.position_id r.pool_address r.now fresh_id n accepted
          (attributable x y e) 0;
  }
  recorded-IsSettled false v h = h

  abbrev SettledBy : Option AutonomousContext → Option String → Option String → Type 0
  SettledBy context token_x token_y =
      let (out, v) = settle_by accepted fresh_id r p w context (some e) token_x token_y in
      IsSettled out.executed v

  -- The settlement of an autonomous EXIT that came back with a result, for a tracked position of a pool
  -- with known tokens: if it reports success, one pending job that is due at once stands behind the
  -- earlier jobs for each positive amount that the exit returned, of the two legs and of the rewards
  -- with a known mint, in this order and for no other; if it reports failure, a pause is raised. The
  -- pause can be saved.
  pub settle_attempted_exit-IsSettled :
      r.autonomous ≡ some c
      → r.token_x ≡ some x
      → r.token_y ≡ some y
      → accepted (save_pause (persistence_pause r.now)) ≡ true
      → IsSettled
          (settle_attempted_exit accepted fresh_id r (some p) (some e) w).0.executed
          (settle_attempted_exit accepted fresh_id r (some p) (some e) w).1
  unfolding settle_attempted_exit
  settle_attempted_exit-IsSettled hc hx hy pausable =
      subst (λ k. SettledBy k r.token_x r.token_y) (sym hc)
        (subst (λ k. SettledBy (some c) k r.token_y) (sym hx)
          (subst (λ k. SettledBy (some c) (some x) k) (sym hy)
            (recorded-IsSettled _ _ (
              settle_with_jobs-IsRecorded accepted fresh_id c r.now p r.pool_address
                (attributable x y e) e w pausable))))
