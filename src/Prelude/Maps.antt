-- ===== src/Prelude/Maps.antt =====
-- A JavaScript Map with string keys, as an association list, and the order of strings.
use Prim.Native.Nat.{Ordering}
use Prim.Native.String.{String, compare}
use text.Mathlib.Text.{◌==◌ as str_eq}
use text.Mathlib.TextEquality.{eq_iff}
use mathlib.Core.Path.{◌≡◌, refl}
use mathlib.Core.Bool.{Bool, true, false}
use mathlib.Core.Logic.{inl, inr}
use mathlib.Core.Option.{Option, none, some}
use mathlib.Core.List.{List, [], ◌∷◌}
use native.Mathlib.Omega.{arith}
use beam_clmm.Prelude.Tests.{if◌then◌else◌, Bool-cases}
use beam_clmm.Prelude.Lists.{All}

-- `s > t`
abbrev pub str_gt : String → String → Bool
str_gt s t = elim (compare s t) [ Ordering.gt ↦ true | _ ↦ false ]

abbrev pub StringMap {ℓ} : Type ℓ → Type ℓ
StringMap V = List (String × V)

module _ {ℓ} {V : Type ℓ} where
  unfoldable pub map_get : String → StringMap V → Option V
  map_get k [] = none
  map_get k ((j, v) ∷ m) = let rest = map_get k m in if str_eq j k then some v else rest

  unfoldable pub map_set : String → V → StringMap V → StringMap V
  map_set k v [] = (k, v) ∷ []
  map_set k v ((j, w) ∷ m) =
      let rest = map_set k v m in if str_eq j k then (k, v) ∷ m else (j, w) ∷ rest

  pub map_get-set :
      (k j : String) (v : V) (m : StringMap V)
      → map_get j (map_set k v m) ≡ (if str_eq k j then some v else map_get j m)
  unfolding map_get map_set
  map_get-set k j v [] = refl
  map_get-set k j v ((i, w) ∷ m) =
      ground (arith, eq_iff k j, eq_iff i k, eq_iff i j, map_get-set k j v m)

  -- `Map.prototype.delete`.
  unfoldable pub map_remove : String → StringMap V → StringMap V
  map_remove k [] = []
  map_remove k ((j, w) ∷ m) =
      let rest = map_remove k m in if str_eq j k then rest else (j, w) ∷ rest

  pub map_get-remove :
      (k j : String) (m : StringMap V)
      → map_get j (map_remove k m) ≡ (if str_eq k j then none else map_get j m)
  unfolding map_get map_remove
  map_get-remove k j [] = ground arith
  map_get-remove k j ((i, w) ∷ m) =
      ground (arith, eq_iff k j, eq_iff i k, eq_iff i j, map_get-remove k j m)

  -- A Map has each key once.
  abbrev pub IsMap : StringMap V → Type ℓ
  IsMap [] = Unit
  IsMap ((k, v) ∷ m) = (map_get k m ≡ none) × IsMap m

  pub map_set-IsMap : (k : String) (v : V) (m : StringMap V) → IsMap m → IsMap (map_set k v m)
  unfolding map_set map_get
  map_set-IsMap k v [] u = (refl, tt)
  map_set-IsMap k v ((j, w) ∷ m) (u, us) = elim (Bool-cases (str_eq j k)) [
    | inl e ↦ let s : j ≡ k = (eq_iff j k).0 e in rw e (rw s at u, us)
    | inr e ↦
        let g = map_get-set k j v m in
        let ih = map_set-IsMap k v m us in
        let free : map_get j (map_set k v m) ≡ none = ground (arith, eq_iff j k, eq_iff k j) in
        rw e (free, ih)
  ]

  pub map_remove-IsMap : (k : String) (m : StringMap V) → IsMap m → IsMap (map_remove k m)
  unfolding map_remove map_get
  map_remove-IsMap k [] u = tt
  map_remove-IsMap k ((j, w) ∷ m) (u, us) = elim (Bool-cases (str_eq j k)) [
    | inl e ↦ rw e (map_remove-IsMap k m us)
    | inr e ↦
        let g = map_get-remove k j m in
        let ih = map_remove-IsMap k m us in
        let free : map_get j (map_remove k m) ≡ none = ground arith in rw e (free, ih)
  ]

  module _ {κ} (P : String × V → Type κ) where
    pub map_set-All :
        (k : String) (v : V) (m : StringMap V) → P (k, v) → All P m → All P (map_set k v m)
    unfolding map_set
    map_set-All k v [] h a = (h, tt)
    map_set-All k v ((j, w) ∷ m) h (q, qs) = elim (Bool-cases (str_eq j k)) [
      | inl e ↦ rw e (h, qs)
      | inr e ↦ rw e (q, map_set-All k v m h qs)
    ]

    pub map_remove-All : (k : String) (m : StringMap V) → All P m → All P (map_remove k m)
    unfolding map_remove
    map_remove-All k [] a = tt
    map_remove-All k ((j, w) ∷ m) (q, qs) = elim (Bool-cases (str_eq j k)) [
      | inl e ↦ rw e (map_remove-All k m qs)
      | inr e ↦ rw e (q, map_remove-All k m qs)
    ]

    pub map_get-All :
        (k : String) (v : V) (m : StringMap V) → All P m → map_get k m ≡ some v → P (k, v)
    unfolding map_get
    map_get-All k v [] a h = cc
    map_get-All k v ((j, w) ∷ m) (q, qs) h = elim (Bool-cases (str_eq j k)) [
      | inl e ↦
          let s : j ≡ k = (eq_iff j k).0 e in
          let r : some w ≡ some v = rw (e, map_get) at h in
          let x : w ≡ v = cc r in rw (← s) (rw (← x) q)
      | inr e ↦ map_get-All k v m qs (rw (e, map_get) at h)
    ]
