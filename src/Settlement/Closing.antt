-- ===== src/Settlement/Closing.antt =====
-- Which rows a pass of `processSettlementJobs` returns, and which positions it closes:
-- engine/autonomous-runtime.ts.
use beam_clmm.Prelude.{
  Bool, true, false, Option, some, none, String, ◌≡◌, ◌⊎◌, inl, inr, refl, List, [], ◌∷◌, ◌++◌, map,
  filter, All, Member, first, is_none, later, Bool-cases, Member-cons, sym, &&_true, any-Member,
  filter-Member, all-All, str_eq_iff, if◌then◌else◌,
}
use beam_clmm.Number.{Number}
use beam_clmm.Settlement.{SettlementJob, Answers}
use beam_clmm.Settlement.Step.{SettlementInput}
use beam_clmm.Settlement.Laws.{Follows, process_job-Follows}
use beam_clmm.Settlement.Pass.{
  process_jobs, process_settlement_jobs, is_skipped, is_active, of_position, is_settled, is_closing,
  close_groups, close_group, Finalization, StoredPosition, AutonomousMode, finalization,
}
use beam_clmm.Settlement.Swap.{process_job}

Member-append {ℓ} :
    {A : Type ℓ} {x : A} (xs ys : List A) → Member x (xs ++ ys) → Member x xs ⊎ Member x ys
Member-append [] ys m = inr m
Member-append (x ∷ xs) ys (first e) = inl (first e)
Member-append (x ∷ xs) ys (later m) = elim (Member-append xs ys m) [
  | inl a ↦ inl (later a)
  | inr b ↦ inr b
]

-- A row of a list that starts with one row, with another, or with neither.
one_of {ℓ} :
    {A : Type ℓ} (skip saved : Bool) (x y : A) (rest : List A) (row : A)
    → Member row (if skip then x ∷ rest else if saved then y ∷ rest else rest)
    → (row ≡ x) ⊎ ((row ≡ y) ⊎ Member row rest)
one_of true saved x y rest row (first e) = inl (sym e)
one_of true saved x y rest row (later m) = inr (inr m)
one_of false true x y rest row (first e) = inr (inl (sym e))
one_of false true x y rest row (later m) = inr (inr m)
one_of false false x y rest row m = inr (inr m)

module _ {F : Type 0} ⦃n : Number F⦄ where
  -- A position that is closed.
  pub record IsClosed (jobs : List (SettlementJob F)) (f : Finalization F) : Type 0 where
    pub settled : All (λ job. is_settled job ≡ true) (filter (of_position f.position_id) jobs)
    pub open_row :
        (job : SettlementJob F) × Member job jobs
        × (job.position_id ≡ f.position_id)
        × (is_none job.finalized_at ≡ true)
    pub all_rows : f.job_ids ≡ map (λ job. job.id) (filter (of_position f.position_id) jobs)

  close_group-IsClosed :
      (jobs : List (SettlementJob F)) (input : SettlementInput F) (position : String)
      (s : Option (StoredPosition F)) (f : Finalization F)
      → Member f (close_group s input position (filter (of_position position) jobs))
      → IsClosed jobs f
  close_group-IsClosed jobs input position none f m = elim m [ ]
  close_group-IsClosed jobs input position (some s) f m =
      elim (Bool-cases (is_closing (filter (of_position position) jobs))) [
        | inl e ↦ closed e (Member-cons (rw e at m))
        | inr e ↦ elim (rw e at m) [ ]
      ]
    where
      group : List (SettlementJob F)
      group = filter (of_position position) jobs

      closed :
          is_closing group ≡ true
          → (finalization input position group s ≡ f) ⊎ Member f []
          → IsClosed jobs f
      closed ok (inr k) = elim k [ ]
      closed ok (inl e) =
          let (unfinalized, complete) = &&_true _ _ ok in
          let (job, inside, unset) =
            any-Member (λ job. is_none job.finalized_at) group unfinalized in
          let (listed, same) = filter-Member (of_position position) jobs job inside in
          rw (← e) (record {
            settled = all-All is_settled group complete;
            open_row = (job, listed, (str_eq_iff _ _).0 same, unset);
            all_rows = refl;
          })

  close_groups-IsClosed :
      (jobs : List (SettlementJob F)) (stored : String → Option (StoredPosition F))
      (input : SettlementInput F) (positions : List String) (f : Finalization F)
      → Member f (close_groups stored input jobs positions)
      → IsClosed jobs f
  unfolding close_groups
  close_groups-IsClosed jobs stored input [] f m = elim m [ ]
  close_groups-IsClosed jobs stored input (position ∷ positions) f m =
      elim (Member-append
        (close_group (stored position) input position (filter (of_position position) jobs)) _ m) [
          | inl k ↦ close_group-IsClosed jobs input position (stored position) f k
          | inr k ↦ close_groups-IsClosed jobs stored input positions f k
        ]

  module _ (is_transient is_unrecoverable : String → Bool) where
    -- A pass closes a position only if all the rows of it that the pass returns are confirmed with
    -- their amounts, one of them is still open, and it closes all of them together.
    pub process_settlement_jobs-IsClosed :
        (mode : AutonomousMode) (input : SettlementInput F)
        (stored : String → Option (StoredPosition F)) (jobs : List (SettlementJob F × Answers F))
        (f : Finalization F)
        → let pass = process_settlement_jobs is_transient is_unrecoverable mode input stored jobs in
          Member f pass.finalizations → IsClosed pass.processed f
    unfolding process_settlement_jobs
    process_settlement_jobs-IsClosed mode input stored jobs f m =
        elim (Bool-cases (is_active mode)) [
          | inl on ↦
              rw (process_settlement_jobs, on)
                (close_groups-IsClosed _ stored input _ f (rw (process_settlement_jobs, on) at m))
          | inr off ↦ elim (rw (process_settlement_jobs, off) at m) [ ]
        ]

    -- Every row that a pass returns is one of the rows that it was given, as it was, or the outcome of
    -- a round for one of them.
    pub process_jobs-Follows :
        (input : SettlementInput F) (jobs : List (SettlementJob F × Answers F))
        (row : SettlementJob F)
        → Member row (process_jobs is_transient is_unrecoverable input jobs)
        → (entry : SettlementJob F × Answers F) × Member entry jobs
          × ((row ≡ entry.0) ⊎ Follows input entry.1 entry.0 row)
    unfolding process_jobs
    process_jobs-Follows input [] row m = elim m [ ]
    process_jobs-Follows input ((job, a) ∷ rest) row m =
        let after = process_job is_transient is_unrecoverable input a job in
        let others = process_jobs is_transient is_unrecoverable input rest in
        elim (one_of (is_skipped input.now job) a.save_result job after others row m) [
          | inl e ↦ ((job, a), first refl, inl e)
          | inr (inl e) ↦ (
            (job, a),
            first refl,
            inr (rw e (process_job-Follows input a job is_transient is_unrecoverable)),
          )
          | inr (inr k) ↦
              let (entry, inside, q) = process_jobs-Follows input rest row k in
              (entry, later inside, q)
        ]

    unsaved-rows :
        (input : SettlementInput F) (before after : List (SettlementJob F × Answers F))
        (job : SettlementJob F) (a : Answers F)
        → is_skipped input.now job ≡ false
        → a.save_result ≡ false
        → process_jobs is_transient is_unrecoverable input (before ++ ((job, a) ∷ after))
          ≡ process_jobs is_transient is_unrecoverable input (before ++ after)
    unfolding process_jobs
    unsaved-rows input [] after job a due lost = rw (process_jobs, due, lost) refl
    unsaved-rows input ((k, b) ∷ before) after job a due lost =
        rw (process_jobs, unsaved-rows input before after job a due lost) refl

    -- A row whose save fails counts for nothing: the pass returns the same rows and closes the same
    -- positions as if the job had not been there, its own position included.
    pub process_settlement_jobs-unsaved :
        (mode : AutonomousMode) (input : SettlementInput F)
        (stored : String → Option (StoredPosition F))
        (before after : List (SettlementJob F × Answers F)) (job : SettlementJob F) (a : Answers F)
        → is_active mode ≡ true
        → is_skipped input.now job ≡ false
        → a.save_result ≡ false
        → process_settlement_jobs is_transient is_unrecoverable mode input stored
            (before ++ ((job, a) ∷ after))
          ≡ process_settlement_jobs is_transient is_unrecoverable mode input stored
              (before ++ after)
    unfolding process_settlement_jobs
    process_settlement_jobs-unsaved mode input stored before after job a on due lost =
        rw (process_settlement_jobs, on, unsaved-rows input before after job a due lost) refl
