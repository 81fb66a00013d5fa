-- ===== src/Rotation/Streak.antt =====
-- The observation streak of engine/rotation-controller.ts.
use Prim.Native.Nat.{min as min_nat, max as max_nat}
use beam_clmm.Rotation.{observe_rotation_pair, rotation_pair_key}
use beam_clmm.Prelude.{
  String, ℕ, List, Bool, StringMap, ◌≡◌, map_get, ◌∷◌, ◌≢◌, none, ◌or◌, [], ◌+◌, arith, true,
  map_get-set, false, str_eq_iff,
}

-- One observation after another of the same pair, oldest first.
unfoldable pub observe_all : String → String → ℕ → StringMap ℕ → List Bool → StringMap ℕ
observe_all a b required m [] = m
observe_all a b required m (o ∷ os) =
    observe_all a b required (observe_rotation_pair a b o m required) os

-- How many of the last observations in a row were superior: of the observations alone.
abbrev pub streak_from : ℕ → List Bool → ℕ
streak_from k [] = k
streak_from k (true ∷ os) = streak_from (k + 1) os
streak_from k (false ∷ os) = streak_from 0 os

-- The counter of a pair; a pair that was never observed counts 0.
abbrev pub count_of : String → String → StringMap ℕ → ℕ
count_of a b m = map_get (rotation_pair_key a b) m or 0

observed_count :
    (a b : String) (o : Bool) (m : StringMap ℕ) (required k : ℕ)
    → count_of a b m ≡ min_nat k (max_nat required 1)
    → count_of a b (observe_rotation_pair a b o m required)
      ≡ min_nat (streak_from k (o ∷ [])) (max_nat required 1)
unfolding observe_rotation_pair
observed_count a b true m required k h =
    let key = rotation_pair_key a b in
    let v = min_nat ((map_get key m or 0) + 1) (max_nat required 1) in
    ground (arith, map_get-set key key v m, str_eq_iff key key)
observed_count a b false m required k h =
    let key = rotation_pair_key a b in ground (arith, map_get-set key key 0 m, str_eq_iff key key)

observe_all_from :
    (a b : String) (os : List Bool) (m : StringMap ℕ) (required k : ℕ)
    → count_of a b m ≡ min_nat k (max_nat required 1)
    → count_of a b (observe_all a b required m os) ≡ min_nat (streak_from k os) (max_nat required 1)
unfolding observe_all
observe_all_from a b [] m required k h = h
observe_all_from a b (true ∷ os) m required k h =
    observe_all_from a b os (observe_rotation_pair a b true m required) required (k + 1)
      (observed_count a b true m required k h)
observe_all_from a b (false ∷ os) m required k h =
    observe_all_from a b os (observe_rotation_pair a b false m required) required 0
      (observed_count a b false m required k h)

-- A pair that was never observed, observed any number of times, counts its unbroken run of superior
-- observations up to now, capped at the required number (at 1 if that is 0).
pub count_of-observe_all :
    (a b : String) (os : List Bool) (m : StringMap ℕ) (required : ℕ)
    → map_get (rotation_pair_key a b) m ≡ none
    → count_of a b (observe_all a b required m os) ≡ min_nat (streak_from 0 os) (max_nat required 1)
count_of-observe_all a b os m required h = observe_all_from a b os m required 0 (ground (arith, h))

-- Observing one pair leaves the counter of every other pair as it was.
pub observe-other :
    (a b c d : String) (o : Bool) (m : StringMap ℕ) (required : ℕ)
    → rotation_pair_key a b ≢ rotation_pair_key c d
    → count_of c d (observe_rotation_pair a b o m required) ≡ count_of c d m
unfolding observe_rotation_pair
observe-other a b c d o m required ne =
    let key = rotation_pair_key a b in
    let other = rotation_pair_key c d in
    let v = min_nat ((map_get key m or 0) + 1) (max_nat required 1) in
    ground (arith, map_get-set key other v m, map_get-set key other 0 m, str_eq_iff key other)
