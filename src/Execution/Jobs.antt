-- ===== src/Execution/Jobs.antt =====
-- The settlement jobs of an EXIT of engine/program.ts: one for each amount, or a pause.
use beam_clmm.Prelude.{
  [], ◌∷◌, first, later, List, Member, ◌++◌, refl, ◌≡◌, Bool, ap, ℕ, String, ◌+◌, true, false, ◌∙◌,
  sym, Bool-cases, inl, inr, length,
}
use beam_clmm.Number.{Number}
use beam_clmm.Execution.{Write, AutonomousContext, save_pause, World, put_pause, put_job, save_job}
use beam_clmm.Execution.Settle.{
  Returned, exit_job, persistence_pause, record_jobs, record_exit_sweep_events,
}
use beam_clmm.Settlement.{SettlementJob}
use beam_clmm.Execution.Live.{settle_with_jobs, settled_by}
use beam_clmm.Tracking.{PositionRecord}
use beam_clmm.Execution.Exit.{ExitResult}
use beam_clmm.Settlement.Pause.{SafetyPause}
use beam_clmm.Execution.Booked.{record_exit_sweep_events-IsAside, close_exited_position-IsAside}

append_nil {ℓ} : {A : Type ℓ} (xs : List A) → (xs ++ []) ≡ xs
append_nil [] = refl
append_nil (x ∷ xs) = ap (λ ys. x ∷ ys) (append_nil xs)

pub append_assoc {ℓ} : {A : Type ℓ} (xs ys zs : List A) → ((xs ++ ys) ++ zs) ≡ (xs ++ (ys ++ zs))
append_assoc [] ys zs = refl
append_assoc (x ∷ xs) ys zs = ap (λ rest. x ∷ rest) (append_assoc xs ys zs)

Member-last {ℓ} : {A : Type ℓ} (x : A) (xs : List A) → Member x (xs ++ x ∷ [])
Member-last x [] = first refl
Member-last x (y ∷ ys) = later (Member-last x ys)

module _ {F : Type 0} ⦃n : Number F⦄ (accepted : Write F → Bool) (fresh_id : ℕ → String)
    (c : AutonomousContext) (position pool : String) (now : ℕ) where
  -- The jobs of a list of amounts, numbered from `i`.
  abbrev pub jobs_from : ℕ → List Returned → List (SettlementJob F)
  jobs_from i [] = []
  jobs_from i (item ∷ items) =
      exit_job fresh_id c position pool now item i ∷ jobs_from (i + 1) items

  -- How the recording of jobs ends: with one job for each amount, or with a pause.
  abbrev pub IsRecorded : ℕ → List Returned → World F → Bool → World F → Type 0
  IsRecorded i items w true v = v.jobs ≡ (w.jobs ++ jobs_from i items)
  IsRecorded i items w false v = Member (persistence_pause now) v.pauses

  module _ (pausable : accepted (save_pause (persistence_pause now)) ≡ true) where
    put_pause-Member :
        (p : SafetyPause) (w : World F)
        → accepted (save_pause p) ≡ true
        → Member p (put_pause accepted p w).pauses
    unfolding put_pause
    put_pause-Member p w h = rw h (Member-last p w.pauses)

    IsRecorded-cons :
        (i : ℕ) (item : Returned) (items : List Returned) (w v : World F) (b : Bool)
        → IsRecorded
            (i + 1)
            items
            (put_job accepted (exit_job fresh_id c position pool now item i) w)
            b
            v
        → IsRecorded i (item ∷ items) w b v
    unfolding put_job
    IsRecorded-cons i item items w v true h = h ∙ append_assoc w.jobs _ _
    IsRecorded-cons i item items w v false h = h

    record_jobs-IsRecorded :
        (items : List Returned) (i : ℕ) (w : World F)
        → IsRecorded i items w
            (record_jobs accepted fresh_id c position pool now items i w).0
            (record_jobs accepted fresh_id c position pool now items i w).1
    unfolding record_jobs
    record_jobs-IsRecorded [] i w = sym (append_nil w.jobs)
    record_jobs-IsRecorded (item ∷ items) i w =
        let job = exit_job {F = F} fresh_id c position pool now item i in
        elim (Bool-cases (accepted (save_job job))) [
          | inl e ↦ rw e (
              IsRecorded-cons i item items w _ _
                (record_jobs-IsRecorded items (i + 1) (put_job accepted job w)))
          | inr e ↦ rw e (put_pause-Member _ w pausable)
        ]

-- The settlement of a list of amounts that reports success has saved one job for each, in their order,
-- beside the jobs that were there; one that reports failure has raised a pause, provided that the pause
-- can be saved.
pub settle_with_jobs-IsRecorded :
    {F : Type 0} ⦃n : Number F⦄ (accepted : Write F → Bool) (fresh_id : ℕ → String)
    (c : AutonomousContext) (now : ℕ) (p : PositionRecord F) (pool : String) (items : List Returned)
    (e : ExitResult F) (w : World F)
    → accepted (save_pause (persistence_pause now)) ≡ true
    → IsRecorded accepted fresh_id c p.position_id pool now 0 items w
        (settle_with_jobs accepted fresh_id c now p pool items e w).0.executed
        (settle_with_jobs accepted fresh_id c now p pool items e w).1
unfolding settle_with_jobs
settle_with_jobs-IsRecorded {F = F} accepted fresh_id c now p pool items e w pausable =
    settled (record_jobs accepted fresh_id c p.position_id pool now items 0 w)
      (record_jobs-IsRecorded accepted fresh_id c p.position_id pool now pausable items 0 w)
  where
    settled :
        (saved : Bool × World F)
        → IsRecorded accepted fresh_id c p.position_id pool now 0 items w saved.0 saved.1
        → IsRecorded accepted fresh_id c p.position_id pool now 0 items w
            (settled_by accepted fresh_id now p pool items e saved).0.executed
            (settled_by accepted fresh_id now p pool items e saved).1
    settled (true, v) h =
        let swept = record_exit_sweep_events accepted fresh_id p pool e v in
        let a = record_exit_sweep_events-IsAside accepted fresh_id p pool e v in
        let b = close_exited_position-IsAside accepted fresh_id p pool e (length items) now swept in
        b.same_jobs ∙ a.same_jobs ∙ h
    settled (false, v) h = h
