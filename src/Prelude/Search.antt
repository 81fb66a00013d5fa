-- ===== src/Prelude/Search.antt =====
-- What `filter`, `some`, `every` and `find` promise, over lists with explicit membership.
use beam_clmm.Prelude.Tests.{Bool-cases}
use beam_clmm.Prelude.Lists.{
  filter, any, all, find, find_index, next_index, get_elem?, take, All, Member, first, later,
}
use Prim.Native.Nat.{ℕ, zero, suc}
use mathlib.Core.Path.{◌≡◌, refl}
use mathlib.Core.Logic.{◌⊎◌, inl, inr}
use mathlib.Core.Bool.{Bool, true, false}
use mathlib.Core.Option.{Option, none, some}
use mathlib.Core.List.{List, [], ◌∷◌}
use native.Mathlib.Omega.{arith}

pub Member-cons {ℓ} :
    {A : Type ℓ} {x y : A} {ys : List A} → Member x (y ∷ ys) → (y ≡ x) ⊎ Member x ys
Member-cons (first e) = inl e
Member-cons (later m) = inr m

module _ {ℓ} {A : Type ℓ} (p : A → Bool) where
  pub any-Member : (xs : List A) → any p xs ≡ true → (x : A) × Member x xs × (p x ≡ true)
  unfolding any
  any-Member [] h = cc
  any-Member (x ∷ xs) h = elim (Bool-cases (p x)) [
    | inl e ↦ (x, first refl, e)
    | inr e ↦ let (y, m, q) = any-Member xs (rw (e, any) at h) in (y, later m, q)
  ]

  pub Member-any : (xs : List A) (x : A) → Member x xs → p x ≡ true → any p xs ≡ true
  unfolding any
  Member-any [] x m h = elim m [ ]
  Member-any (y ∷ ys) x (first e) h = rw e (rw h)
  Member-any (y ∷ ys) x (later m) h = ground (arith, Member-any ys x m h)

  pub all-All : (xs : List A) → all p xs ≡ true → All (λ x. p x ≡ true) xs
  unfolding all
  all-All [] h = tt
  all-All (x ∷ xs) h = ground (arith, all-All xs)

  pub All-all : (xs : List A) → All (λ x. p x ≡ true) xs → all p xs ≡ true
  unfolding all
  All-all [] h = refl
  All-all (x ∷ xs) h = ground (arith, All-all xs h.1)

  pub find-Member : (xs : List A) (x : A) → find p xs ≡ some x → Member x xs × (p x ≡ true)
  unfolding find
  find-Member [] x h = cc
  find-Member (y ∷ ys) x h = elim (Bool-cases (p y)) [
    | inl e ↦
        let s : some y ≡ some x = rw (e, find) at h in let q : y ≡ x = cc s in (first q, rw (← q) e)
    | inr e ↦ let (m, q) = find-Member ys x (rw (e, find) at h) in (later m, q)
  ]

  pub find-none : (xs : List A) (x : A) → find p xs ≡ none → Member x xs → p x ≡ false
  unfolding find
  find-none [] x h m = elim m [ ]
  find-none (y ∷ ys) x h (first e) = let r : p y ≡ false = ground arith in rw (← e) r
  find-none (y ∷ ys) x h (later m) = let r : find p ys ≡ none = ground arith in find-none ys x r m

  pub filter-Member : (xs : List A) (x : A) → Member x (filter p xs) → Member x xs × (p x ≡ true)
  unfolding filter
  filter-Member [] x m = elim m [ ]
  filter-Member (y ∷ ys) x m = elim (Bool-cases (p y)) [
    | inl e ↦ elim (Member-cons (rw (e, filter) at m)) [
      | inl q ↦ (first q, rw (← q) e)
      | inr k ↦ let (k', q) = filter-Member ys x k in (later k', q)
    ]
    | inr e ↦ let (k, q) = filter-Member ys x (rw (e, filter) at m) in (later k, q)
  ]

  pub Member-filter : (xs : List A) (x : A) → Member x xs → p x ≡ true → Member x (filter p xs)
  unfolding filter
  Member-filter [] x m h = elim m [ ]
  Member-filter (y ∷ ys) x (first e) h = rw e (rw h (first refl))
  Member-filter (y ∷ ys) x (later m) h = elim (Bool-cases (p y)) [
    | inl e ↦ rw e (later (Member-filter ys x m h))
    | inr e ↦ rw e (Member-filter ys x m h)
  ]

  -- What `findIndex` finds: an element that satisfies the test, after elements that do not.
  pub record IsFirstAt (xs : List A) (i : ℕ) : Type ℓ where
    pub found : A
    pub there : get_elem? xs i ≡ some found
    pub satisfies : p found ≡ true
    pub earlier_fail : All (λ y. p y ≡ false) (take i xs)

  pub find_index-IsFirstAt : (xs : List A) (i : ℕ) → find_index p xs ≡ some i → IsFirstAt xs i
  unfolding find_index
  find_index-IsFirstAt [] i h = cc
  find_index-IsFirstAt (x ∷ xs) i h = elim (Bool-cases (p x)) [
    | inl e ↦
        let at_zero : some 0 ≡ some i = rw (e, find_index) at h in
        let z : 0 ≡ i = cc at_zero in
        rw (← z) (record { found = x; there = refl; satisfies = e; earlier_fail = tt })
    | inr e ↦ later_index e (find_index p xs) (find_index-IsFirstAt xs) (rw (e, find_index) at h)
  ]
    where
      later_index :
          p x ≡ false
          → (o : Option ℕ) → ((j : ℕ) → o ≡ some j → IsFirstAt xs j)
          → next_index o ≡ some i
          → IsFirstAt (x ∷ xs) i
      later_index e none f k = cc
      later_index e (some j) f k =
          let z : suc j ≡ i = cc k in
          let r = f j refl in
          rw (← z) (record {
            found = r.found;
            there = r.there;
            satisfies = r.satisfies;
            earlier_fail = (e, r.earlier_fail);
          })

  pub find_index-All : (xs : List A) → find_index p xs ≡ none → All (λ y. p y ≡ false) xs
  unfolding find_index
  find_index-All [] h = tt
  find_index-All (x ∷ xs) h = elim (Bool-cases (p x)) [
    | inl e ↦ let t : ◌≡◌ {A = Option ℕ} (some 0) none = rw (e, find_index) at h in cc
    | inr e ↦ (e, find_index-All xs (nowhere (find_index p xs) (rw (e, find_index) at h)))
  ]
    where
      nowhere : (o : Option ℕ) → next_index o ≡ none → o ≡ none
      nowhere none k = refl
      nowhere (some j) k = cc

pub get_elem?-All {ℓ κ} :
    {A : Type ℓ} (P : A → Type κ) (xs : List A) (i : ℕ) (x : A)
    → All P xs
    → get_elem? xs i ≡ some x
    → P x
get_elem?-All P [] i x q h = cc
get_elem?-All P (y ∷ ys) zero x (q, qs) h = let e : y ≡ x = cc h in rw (← e) q
get_elem?-All P (y ∷ ys) (suc i) x (q, qs) h = get_elem?-All P ys i x qs h

pub All-Member {ℓ κ} :
    {A : Type ℓ} (P : A → Type κ) (xs : List A) (x : A) → All P xs → Member x xs → P x
All-Member P (y ∷ ys) x (q, qs) (first e) = rw (← e) q
All-Member P (y ∷ ys) x (q, qs) (later m) = All-Member P ys x qs m
All-Member P [] x q m = elim m [ ]
