-- ===== src/Execution/Recovered.antt =====
-- What `recoverStaleExecutionOperations` of engine/program.ts does to the table of operations.
use beam_clmm.Prelude.{
  [], ◌∷◌, none, some, ℕ, filter, StringMap, String, Option, List, if◌then◌else◌, map_get, IsMap,
  All, ◌&&◌, ◌≡◌, str_eq, refl, Bool, false, Bool-cases, inl, arith, ap, inr, ◌∙◌, true, str_eq_iff,
  sym, map_get-set,
}
use beam_clmm.Execution.{
  AutonomousContext, ExecutionOperation, Write, save_operation, put_operation, World,
}
use beam_clmm.Execution.Recovery.{
  is_of, is_stale, recovered_operation, listed, recover_stale_execution_operations, recover_each,
}

-- What is left of an operation.
abbrev pub recovered : AutonomousContext → ℕ → Option ExecutionOperation → Option ExecutionOperation
recovered c started none = none
recovered c started (some o) =
    if is_of c o && is_stale started o then some (recovered_operation started o) else some o

-- What saving those of a list of operations that are stale makes of one key.
unfoldable overwritten :
    ℕ → String → List ExecutionOperation → Option ExecutionOperation → Option ExecutionOperation
overwritten started k [] x = x
overwritten started k (o ∷ os) x =
    overwritten started k os
      (if is_stale started o && str_eq o.id k then some (recovered_operation started o) else x)

other_key :
    {A : Type 0} (stale same : Bool) (x y : A) → same ≡ false → (if stale && same then y else x) ≡ x
other_key stale same x y h = ground arith

module _ (c : AutonomousContext) (started : ℕ) (k : String) where
  -- What one row makes of the key.
  abbrev row_effect :
      Bool
      → Bool
      → Bool
      → ExecutionOperation
      → Option ExecutionOperation
      → Option ExecutionOperation
  row_effect of_agent stale same o x =
      if of_agent then if stale && same then some (recovered_operation started o) else x else x

  overwritten_step :
      (j : String) (o : ExecutionOperation) (m : StringMap ExecutionOperation)
      (x : Option ExecutionOperation)
      → overwritten started k (listed c ((j, o) ∷ m)) x
        ≡ overwritten started k
            (listed c m)
            (row_effect (is_of c o) (is_stale started o) (str_eq o.id k) o x)
  unfolding overwritten filter
  overwritten_step j o m x = elim (Bool-cases (is_of c o)) [ inl b ↦ rw b refl | inr b ↦ rw b refl ]

  elsewhere :
      (a b s : Bool) (o : ExecutionOperation) (x : Option ExecutionOperation)
      → s ≡ false
      → row_effect a b s o x ≡ x
  elsewhere a b s o x h = ground arith

  here :
      (a b s : Bool) (o : ExecutionOperation)
      → s ≡ true
      → row_effect a b s o (some o)
        ≡ (if a && b then some (recovered_operation started o) else some o)
  here a b s o h = ground arith

  overwritten-listed :
      (m : StringMap ExecutionOperation) (x : Option ExecutionOperation)
      → All (λ entry. entry.1.id ≡ entry.0) m
      → map_get k m ≡ none
      → overwritten started k (listed c m) x ≡ x
  unfolding overwritten filter map_get
  overwritten-listed [] x ids h = refl
  overwritten-listed ((j, o) ∷ m) x (own, ids) h =
      let other : str_eq j k ≡ false = ground arith in
      let rest : map_get k m ≡ none = ground arith in
      overwritten_step j o m x
      ∙ ap (overwritten started k (listed c m)) (
          elsewhere (is_of c o) (is_stale started o) (str_eq o.id k) o x
            (ap (λ i. str_eq i k) own ∙ other))
      ∙ overwritten-listed m x ids rest

  overwritten_get :
      (m : StringMap ExecutionOperation)
      → IsMap m
      → All (λ entry. entry.1.id ≡ entry.0) m
      → overwritten started k (listed c m) (map_get k m) ≡ recovered c started (map_get k m)
  unfolding overwritten filter map_get
  overwritten_get [] u ids = refl
  overwritten_get ((j, o) ∷ m) (u, us) (own, ids) = elim (Bool-cases (str_eq j k)) [
    | inl e ↦
        let s : j ≡ k = (str_eq_iff j k).0 e in
        let absent : map_get k m ≡ none = ap (λ i. map_get i m) (sym s) ∙ u in
        rw e (
          overwritten_step j o m (some o)
          ∙ overwritten-listed m _ ids absent
          ∙ here (is_of c o) (is_stale started o) (str_eq o.id k) o (ap (λ i. str_eq i k) own ∙ e))
    | inr e ↦ rw e (
        overwritten_step j o m (map_get k m)
        ∙ ap (overwritten started k (listed c m)) (
            elsewhere (is_of c o) (is_stale started o) (str_eq o.id k) o (map_get k m)
              (ap (λ i. str_eq i k) own ∙ e))
        ∙ overwritten_get m us ids)
  ]

module _ {F : Type 0} (accepted : Write F → Bool)
    (saved : (o : ExecutionOperation) → accepted (save_operation o) ≡ true) where
  map_get_put_recovered :
      (started : ℕ) (k : String) (o : ExecutionOperation) (w : World F) (stale : Bool)
      → map_get k
          (if stale then put_operation accepted (recovered_operation started o) w else w).operations
        ≡ (if stale && str_eq o.id k
            then some (recovered_operation started o)
            else map_get k w.operations)
  unfolding put_operation
  map_get_put_recovered started k o w false = refl
  map_get_put_recovered started k o w true =
      rw (saved (recovered_operation started o))
        (map_get-set o.id k (recovered_operation started o) w.operations)

  map_get-recover_each :
      (started : ℕ) (k : String) (os : List ExecutionOperation) (w : World F)
      → map_get k (recover_each accepted started os w).0.operations
        ≡ overwritten started k os (map_get k w.operations)
  unfolding recover_each overwritten
  map_get-recover_each started k [] w = refl
  map_get-recover_each started k (o ∷ os) w =
      map_get-recover_each started k os _
      ∙ ap (overwritten started k os) (map_get_put_recovered started k o w (is_stale started o))

  -- When its rows can be read and saved, a recovery marks every planned operation of the wallet and
  -- the agent that is older than the process as failed, and leaves every other operation as it was.
  -- Rows are kept once, each under its own id.
  pub map_get-recover_stale_execution_operations :
      (c : AutonomousContext) (started : ℕ) (k : String) (w : World F)
      → IsMap w.operations
      → All (λ entry. entry.1.id ≡ entry.0) w.operations
      → map_get k (recover_stale_execution_operations accepted true c started w).0.operations
        ≡ recovered c started (map_get k w.operations)
  unfolding recover_stale_execution_operations
  map_get-recover_stale_execution_operations c started k w u ids =
      map_get-recover_each started k (listed c w.operations) w
      ∙ overwritten_get c started k w.operations u ids
