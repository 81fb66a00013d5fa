-- ===== src/Execution/Left.antt =====
-- What a successful EXIT of engine/program.ts knows of the position on chain.
use beam_clmm.Prelude.{
  none, some, Bool, ℕ, String, Option, ◌≡◌, false, str_eq, any, true, ◌⊎◌, ap, Bool-cases, inl, sym,
  ◌∙◌, inr, refl, ◌or◌, List, Member, ◌≢◌, Member-any, str_eq_iff,
}
use beam_clmm.Number.{Number}
use beam_clmm.Execution.{Write, ExecutionOperation, World}
use beam_clmm.Prelude.Int.{ℤ, ltb_ℤ}
use beam_clmm.Execution.Exit.{
  min_native_for_gas_wei, ExitAnswers, ExitRequest, probe_mined_exit, is_below_gas_floor,
  run_live_exit_attempt, ExitResult, Plan, ExitAttempt, probe_with, after_failure, attempt_with_key,
  after_exit_call, plan_live_exit_operation, read_or_empty,
}
use beam_clmm.Execution.Live.{execute_live_exit, finish_exit, exit_planned, finish_with}
use beam_clmm.Tracking.{PositionRecord, resolve_target_position, OnChainPosition}
use beam_clmm.Settlement.{Reply, ok, err}
use beam_clmm.Tracking.Reconcile.{has_pub_key}

module _ {F : Type 0} ⦃n : Number F⦄ (accepted : Write F → Bool) (fresh_id : ℕ → String) where
  -- The call succeeded, or the wallet's list, empty when it cannot be read, lacks the position.
  pub record IsLeft (r : ExitRequest F) (a : ExitAnswers F) (key : String) : Type 0 where
    pub funded :
        (balance : ℤ)
        → a.native_balance ≡ some balance
        → ltb_ℤ balance (r.min_native_for_gas_wei or min_native_for_gas_wei) ≡ false
    pub evidence :
        ((e : ExitResult F) × (a.exit_position ≡ ok e))
        ⊎ ((ps : List OnChainPosition)
            → a.wallet_positions ≡ some ps
            → (p : OnChainPosition) → Member p ps
            → p.position_pub_key ≢ key)

  lacks :
      (a : ExitAnswers F) (key : String)
      → any (has_pub_key key) (read_or_empty accepted a.wallet_positions) ≡ false
      → (ps : List OnChainPosition) → a.wallet_positions ≡ some ps
      → (p : OnChainPosition) → Member p ps
      → p.position_pub_key ≢ key
  unfolding has_pub_key
  lacks a key h ps read p m e =
      let there = Member-any (has_pub_key key) ps p m ((str_eq_iff p.position_pub_key key).1 e) in
      let none_there : any (has_pub_key key) ps ≡ false = rw read at h in cc

  evidenced :
      (a : ExitAnswers F) (key : String)
      → ((e : ExitResult F) × (a.exit_position ≡ ok e))
        ⊎ (any (has_pub_key key) (read_or_empty accepted a.wallet_positions) ≡ false)
      → ((e : ExitResult F) × (a.exit_position ≡ ok e))
        ⊎ ((ps : List OnChainPosition)
            → a.wallet_positions ≡ some ps
            → (p : OnChainPosition) → Member p ps
            → p.position_pub_key ≢ key)
  evidenced a key (inl x) = inl x
  evidenced a key (inr h) = inr (lacks a key h)

  funded_above :
      (r : ExitRequest F) (read : Option ℤ)
      → is_below_gas_floor accepted r read ≡ false
      → (balance : ℤ) → read ≡ some balance
      → ltb_ℤ balance (r.min_native_for_gas_wei or min_native_for_gas_wei) ≡ false
  funded_above r none h balance e = cc
  funded_above r (some b) h balance e = let same : b ≡ balance = cc in rw (← same) h

  probed :
      (a : ExitAnswers F) (key : String) (wallet : Option String) (e : ExitResult F)
      → probe_with accepted a key wallet ≡ some e
      → any (has_pub_key key) (read_or_empty accepted a.wallet_positions) ≡ false
  probed a key none e h = cc
  probed a key (some wallet) e h =
      elim (Bool-cases (any (has_pub_key key) (read_or_empty accepted a.wallet_positions))) [
        | inl b ↦ let t : ◌≡◌ {A = Option (ExitResult F)} none (some e) = rw b at h in cc
        | inr b ↦ b
      ]

  module _ (r : ExitRequest F) (a : ExitAnswers F) (key : String) where
    failed_call :
        (o : Option ExecutionOperation) (message : String) (w : World F) (e : Option (ExitResult F))
        → probe_mined_exit accepted a key ≡ e
        → (after_failure accepted r o message e w).0.exited ≡ true
        → any (has_pub_key key) (read_or_empty accepted a.wallet_positions) ≡ false
    unfolding probe_mined_exit
    failed_call o message w none q h = cc
    failed_call o message w (some e) q h = probed a key a.wallet_address e q

    left_by_call :
        (o : Option ExecutionOperation) (w : World F) (reply : Reply (ExitResult F))
        → (after_exit_call accepted r a key o reply w).0.exited ≡ true
        → ((e : ExitResult F) × (reply ≡ ok e))
          ⊎ (any (has_pub_key key) (read_or_empty accepted a.wallet_positions) ≡ false)
    left_by_call o w (ok e) h = inl (e, refl)
    left_by_call o w (err message) h =
        inr (failed_call o message w (probe_mined_exit accepted a key) refl h)

    attempt-IsLeft :
        (o : Option ExecutionOperation) (w : World F)
        → (attempt_with_key accepted r a key o w).0.exited ≡ true
        → IsLeft r a key
    attempt-IsLeft o w h = elim (Bool-cases (is_below_gas_floor accepted r a.native_balance)) [
      | inl b ↦ let t : false ≡ true = rw b at h in cc
      | inr b ↦ record {
        funded = funded_above r a.native_balance b;
        evidence = evidenced a key (left_by_call o w a.exit_position (rw b at h));
      }
    ]

    run-IsLeft :
        (o : Option ExecutionOperation) (w : World F)
        → str_eq key "" ≡ false
        → (run_live_exit_attempt accepted r a (some key) o w).0.exited ≡ true
        → IsLeft r a key
    unfolding run_live_exit_attempt
    run-IsLeft o w named h = attempt-IsLeft o w (rw named at h)

    finished_with :
        (p : Option (PositionRecord F)) (t : ExitAttempt F) (exited : Bool) (w : World F)
        → (finish_with accepted fresh_id r p t exited w).0.executed ≡ true
        → exited ≡ true
    finished_with p t true w h = refl
    finished_with p t false w h = cc

    finished :
        (p : Option (PositionRecord F)) (t : ExitAttempt F) (w : World F)
        → (finish_exit accepted fresh_id r p (t, w)).0.executed ≡ true
        → t.exited ≡ true
    finished p t w h = finished_with p t t.exited _ h

    planned-IsLeft :
        (p : PositionRecord F) (error : Option String) (plan : Plan F)
        → str_eq key "" ≡ false
        → p.position_pub_key ≡ some key
        → (exit_planned accepted fresh_id r a (some p) error plan).0.executed ≡ true
        → IsLeft r a key
    planned-IsLeft p (some message) plan named k h = cc
    planned-IsLeft p none plan named k h =
        let t = run_live_exit_attempt accepted r a p.position_pub_key plan.operation plan.world in
        let left = finished (some p) t.0 t.1 h in
        run-IsLeft plan.operation plan.world named (
          ap (λ x. (run_live_exit_attempt accepted r a x plan.operation plan.world).0.exited)
            (sym k)
          ∙ left)

    -- An EXIT of a position with a key on chain that reports success did not read a native balance below
    -- the gas minimum (a balance that cannot be read does not stop it), and either its call succeeded or
    -- no position of the wallet has the key, as far as the wallet could be read.
    pub execute_live_exit-IsLeft :
        (position : Option String) (w : World F) (p : PositionRecord F)
        → resolve_target_position w.tracked position r.pool_address ≡ some p
        → p.position_pub_key ≡ some key
        → str_eq key "" ≡ false
        → (execute_live_exit accepted fresh_id r a position w).0.executed ≡ true
        → IsLeft r a key
    unfolding execute_live_exit
    execute_live_exit-IsLeft position w p found k named h =
        let plan = plan_live_exit_operation accepted r (some p) w in
        let h2 = rw found at h in planned-IsLeft p plan.error plan named k h2
