-- ===== src/Prelude/Sorting.antt =====
-- `Array.prototype.sort` with a comparison: a stable sort, and what it promises.
use beam_clmm.Prelude.Tests.{if◌then◌else◌}
use beam_clmm.Prelude.Lists.{All, Member, first, later, length}
use beam_clmm.Prelude.Search.{Member-cons}
use mathlib.Core.Path.{◌≡◌, refl, ap, ◌∙◌}
use Prim.Native.Nat.{suc}
use mathlib.Core.Logic.{inl, inr}
use mathlib.Core.Bool.{Bool, true, false}
use mathlib.Core.List.{List, [], ◌∷◌}

module _ {ℓ} {A : Type ℓ} where
  -- `after x y` says that the comparison of `x` with `y` is positive.
  unfoldable pub insert_by : (A → A → Bool) → A → List A → List A
  insert_by after x [] = x ∷ []
  insert_by after x (y ∷ ys) =
      let rest = insert_by after x ys in if after x y then y ∷ rest else x ∷ y ∷ ys

  unfoldable pub sort_by : (A → A → Bool) → List A → List A
  sort_by after [] = []
  sort_by after (x ∷ xs) = insert_by after x (sort_by after xs)

  abbrev pub IsSorted {κ} : (A → A → Type κ) → List A → Type κ
  IsSorted R [] = Unit
  IsSorted R (x ∷ xs) = All (R x) xs × IsSorted R xs

  pub All-imp {κ κ'} :
      {P : A → Type κ} {Q : A → Type κ'} (xs : List A) → ((x : A) → P x → Q x) → All P xs → All Q xs
  All-imp [] f q = tt
  All-imp (x ∷ xs) f (q, qs) = (f x q, All-imp xs f qs)

  placed-All {κ} :
      (P : A → Type κ) (b : Bool) (x y : A) (rest ys : List A)
      → P x
      → P y
      → All P rest
      → All P ys
      → All P (if b then y ∷ rest else x ∷ y ∷ ys)
  placed-All P true x y rest ys p q r qs = (q, r)
  placed-All P false x y rest ys p q r qs = (p, (q, qs))

  placed-Member :
      (b : Bool) (x y z : A) (rest ys : List A)
      → (Member z rest → Member z (x ∷ ys))
      → Member z (if b then y ∷ rest else x ∷ y ∷ ys)
      → Member z (x ∷ y ∷ ys)
  placed-Member true x y z rest ys f (first e) = later (first e)
  placed-Member true x y z rest ys f (later m) = elim (Member-cons (f m)) [
    | inl e ↦ first e
    | inr k ↦ later (later k)
  ]
  placed-Member false x y z rest ys f m = m

  placed_keeps :
      (b : Bool) (x y z : A) (rest ys : List A)
      → (Member z (x ∷ ys) → Member z rest)
      → Member z (x ∷ y ∷ ys)
      → Member z (if b then y ∷ rest else x ∷ y ∷ ys)
  placed_keeps true x y z rest ys f (first e) = later (f (first e))
  placed_keeps true x y z rest ys f (later (first e)) = first e
  placed_keeps true x y z rest ys f (later (later m)) = later (f (later m))
  placed_keeps false x y z rest ys f m = m

  placed_length :
      (b : Bool) (x y : A) (rest ys : List A)
      → length rest ≡ suc (length ys)
      → length (if b then y ∷ rest else x ∷ y ∷ ys) ≡ suc (suc (length ys))
  placed_length true x y rest ys e = ap suc e
  placed_length false x y rest ys e = refl

  module _ (after : A → A → Bool) where
    insert_by-All {κ} :
        (P : A → Type κ) (x : A) (ys : List A) → P x → All P ys → All P (insert_by after x ys)
    unfolding insert_by
    insert_by-All P x [] p q = (p, tt)
    insert_by-All P x (y ∷ ys) p (q, qs) =
        placed-All P (after x y) x y _ ys p q (insert_by-All P x ys p qs) qs

    pub sort_by-All {κ} : (P : A → Type κ) (xs : List A) → All P xs → All P (sort_by after xs)
    unfolding sort_by
    sort_by-All P [] q = tt
    sort_by-All P (x ∷ xs) (q, qs) = insert_by-All P x (sort_by after xs) q (sort_by-All P xs qs)

    insert_by-Member :
        (x : A) (ys : List A) (z : A) → Member z (insert_by after x ys) → Member z (x ∷ ys)
    unfolding insert_by
    insert_by-Member x [] z m = m
    insert_by-Member x (y ∷ ys) z m =
        placed-Member (after x y) x y z _ ys (insert_by-Member x ys z) m

    insert_by_keeps :
        (x : A) (ys : List A) (z : A) → Member z (x ∷ ys) → Member z (insert_by after x ys)
    unfolding insert_by
    insert_by_keeps x [] z m = m
    insert_by_keeps x (y ∷ ys) z m = placed_keeps (after x y) x y z _ ys (insert_by_keeps x ys z) m

    pub sort_by-Member : (xs : List A) (z : A) → Member z (sort_by after xs) → Member z xs
    unfolding sort_by
    sort_by-Member [] z m = m
    sort_by-Member (x ∷ xs) z m = elim (Member-cons (insert_by-Member x (sort_by after xs) z m)) [
      | inl e ↦ first e
      | inr k ↦ later (sort_by-Member xs z k)
    ]

    pub sort_by_keeps : (xs : List A) (z : A) → Member z xs → Member z (sort_by after xs)
    unfolding sort_by
    sort_by_keeps [] z m = m
    sort_by_keeps (x ∷ xs) z (first e) = insert_by_keeps x (sort_by after xs) z (first e)
    sort_by_keeps (x ∷ xs) z (later m) =
        insert_by_keeps x (sort_by after xs) z (later (sort_by_keeps xs z m))

    length-insert_by : (x : A) (ys : List A) → length (insert_by after x ys) ≡ suc (length ys)
    unfolding insert_by
    length-insert_by x [] = refl
    length-insert_by x (y ∷ ys) = placed_length (after x y) x y _ ys (length-insert_by x ys)

    pub length-sort_by : (xs : List A) → length (sort_by after xs) ≡ length xs
    unfolding sort_by
    length-sort_by [] = refl
    length-sort_by (x ∷ xs) = length-insert_by x (sort_by after xs) ∙ ap suc (length-sort_by xs)

    -- A comparison that orders the elements that satisfy `P` by `R`.
    pub record Orders {κ κ'} (P : A → Type κ) (R : A → A → Type κ') : Type (ℓ ⊔ κ ⊔ κ') where
      pub swap : (x y : A) → P x → P y → after x y ≡ true → R y x
      pub keep : (x y : A) → P x → P y → after x y ≡ false → R x y
      pub chain : (x y z : A) → R x y → R y z → R x z

    module _ {κ κ'} {P : A → Type κ} {R : A → A → Type κ'} (o : Orders P R) where
      placed-IsSorted :
          (x y : A) (ys : List A) (b : Bool)
          → (b ≡ true → R y x)
          → (b ≡ false → R x y)
          → P x
          → P y
          → All (R y) ys
          → IsSorted R ys
          → IsSorted R (insert_by after x ys)
          → IsSorted R (if b then y ∷ insert_by after x ys else x ∷ y ∷ ys)
      placed-IsSorted x y ys true f g p q low s t = (insert_by-All (R y) x ys (f refl) low, t)
      placed-IsSorted x y ys false f g p q low s t =
          ((g refl, All-imp ys (λ z. o.chain x y z (g refl)) low), (low, s))

      insert_by-IsSorted :
          (x : A) (ys : List A) → P x → All P ys → IsSorted R ys → IsSorted R (insert_by after x ys)
      unfolding insert_by
      insert_by-IsSorted x [] p q s = (tt, tt)
      insert_by-IsSorted x (y ∷ ys) p (q, qs) (low, s) =
          placed-IsSorted x y ys (after x y) (o.swap x y p q) (o.keep x y p q) p q low s
            (insert_by-IsSorted x ys p qs s)

      pub sort_by-IsSorted : (xs : List A) → All P xs → IsSorted R (sort_by after xs)
      unfolding sort_by
      sort_by-IsSorted [] q = tt
      sort_by-IsSorted (x ∷ xs) (q, qs) =
          insert_by-IsSorted x (sort_by after xs) q (sort_by-All P xs qs) (sort_by-IsSorted xs qs)
