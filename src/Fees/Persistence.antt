-- ===== src/Fees/Persistence.antt =====
-- `feePersistence` of engine/fee-persistence.ts. A refusal is a constructor where the source has a
-- message.
use beam_clmm.Prelude.{
  Bool, sort_by, List, ℕ, ◌or◌, Option, none, if◌then◌else◌, ◌∷◌, get_elem?, leb, some, not, length,
  suc, ◌%◌, [], ◌&&◌, ◌||◌, ◌==◌, ◌/◌, ◌-◌,
}
use beam_clmm.Prelude.Int.{plus_part}
use beam_clmm.Number.{Number, ◌⊖◌, floor, int, ◌>?◌, ◌⊘◌, is_finite, ◌<?◌, ◌≤?◌, ◌⊕◌}

pub record FeePersistenceOptions (F : Type 0) : Type 0 where
  pub window_days : Option F
  pub min_positive_days : Option F
  pub max_spike_ratio : Option F

pub data FeePersistenceDecision : Type 0 where
  invalid_window_days invalid_min_positive_days invalid_max_spike_ratio : FeePersistenceDecision
  few_positive_days spiked persistent : FeePersistenceDecision

-- The last `k` elements, `slice(-k)` for a positive `k`.
abbrev pub last_days {ℓ} : {A : Type ℓ} → ℕ → List A → List A
last_days k [] = []
last_days k (x ∷ xs) = let rest = last_days k xs in if leb (suc (length xs)) k then x ∷ xs else rest

module _ {F : Type 0} ⦃n : Number F⦄ where
  -- The days of a list that are positive finite numbers.
  unfoldable pub positive_days : List (Option F) → List F
  positive_days [] = []
  positive_days (none ∷ ds) = positive_days ds
  positive_days (some x ∷ ds) =
      let rest = positive_days ds in if is_finite x && (x >? int 0) then x ∷ rest else rest

  abbrev pub window_of : FeePersistenceOptions F → F
  window_of o = o.window_days or int 7

  abbrev pub required_days : FeePersistenceOptions F → F
  required_days o = o.min_positive_days or int 4

  abbrev pub spike_limit : FeePersistenceOptions F → F
  spike_limit o = o.max_spike_ratio or int 3

  abbrev pub positives_of : List (Option F) → FeePersistenceOptions F → List F
  positives_of fees o = positive_days (last_days (plus_part (n.to_big (floor (window_of o)))) fees)

  abbrev pub is_larger : F → F → Bool
  is_larger a b = (a ⊖ b) >? int 0

  -- An element that is not there counts as NaN.
  abbrev element : List F → ℕ → F
  element xs i = get_elem? xs i or (int 0 ⊘ int 0)

  unfoldable pub median_of_sorted : List F → F
  median_of_sorted xs =
      if length xs % 2 == 1
      then element xs (length xs / 2)
      else (element xs (length xs / 2 - 1) ⊕ element xs (length xs / 2)) ⊘ int 2

  abbrev pub peak_of : List F → Option F
  peak_of [] = none
  peak_of (x ∷ xs) = get_elem? (x ∷ xs) (length xs)

  abbrev pub spike_ratio : List F → F
  unfolding median_of_sorted
  spike_ratio xs = (peak_of xs or (int 0 ⊘ int 0)) ⊘ median_of_sorted xs

  unfoldable pub fee_persistence :
      List (Option F) → FeePersistenceOptions F → FeePersistenceDecision
  unfolding positive_days sort_by median_of_sorted
  fee_persistence fees o =
      let positives = positives_of fees o in
      if not (is_finite (window_of o)) || (window_of o <? int 1)
      then FeePersistenceDecision.invalid_window_days
      else if not (is_finite (required_days o)) || (required_days o <? int 1)
      then FeePersistenceDecision.invalid_min_positive_days
      else if not (is_finite (spike_limit o)) || (spike_limit o ≤? int 0)
      then FeePersistenceDecision.invalid_max_spike_ratio
      else if int (length positives) <? required_days o
      then FeePersistenceDecision.few_positive_days
      else if spike_ratio (sort_by is_larger positives) >? spike_limit o
      then FeePersistenceDecision.spiked
      else FeePersistenceDecision.persistent
