-- ===== src/Base/Sort.antt =====
-- Go's `sort.Slice`, which is not stable: any function that permutes its argument into an order
-- where no element is less than one before it.
use mathlib.Core.Path.{◌≡◌, refl}
use mathlib.Core.Logic.{inl, inr}
use mathlib.Core.Bool.{Bool, true, false}
use mathlib.Core.List.{List, [], ◌∷◌, Permᴰ}
use native.Mathlib.Omega.{arith}
use openbotstack_core.Base.Tests.{if◌then◌else◌, Bool-cases}
use openbotstack_core.Base.Lists.{All, Perm-refl}

abbrev pub IsSorted : {A : Type 0} → (A → A → Bool) → List A → Type 0
IsSorted less [] = Unit
IsSorted less (x ∷ xs) = All (λ y. less y x ≡ false) xs × IsSorted less xs

pub record Sort {A : Type 0} (less : A → A → Bool) : Type 0 where
  pub sort : List A → List A
  pub sort-perm : (xs : List A) → Permᴰ xs (sort xs)
  pub sort-IsSorted : (xs : List A) → IsSorted less (sort xs)

-- An insertion sort, which shows that the laws can be met.
module _ {A : Type 0} (less : A → A → Bool) where
  unfoldable pub insert_by : A → List A → List A
  insert_by x [] = x ∷ []
  insert_by x (y ∷ ys) = let rest = insert_by x ys in if less y x then y ∷ rest else x ∷ y ∷ ys

  unfoldable pub sort_by : List A → List A
  unfolding insert_by
  sort_by [] = []
  sort_by (x ∷ xs) = insert_by x (sort_by xs)

  insert_by-perm : (x : A) (ys : List A) → Permᴰ (x ∷ ys) (insert_by x ys)
  unfolding insert_by
  insert_by-perm x [] = Perm-refl (x ∷ [])
  insert_by-perm x (y ∷ ys) = elim (Bool-cases (less y x)) [
    | inl h ↦ rw h (Permᴰ.trans (Permᴰ.swap refl refl) (Permᴰ.cons refl (insert_by-perm x ys)))
    | inr h ↦ rw h (Perm-refl (x ∷ y ∷ ys))
  ]

  pub sort_by-perm : (xs : List A) → Permᴰ xs (sort_by xs)
  unfolding sort_by
  sort_by-perm [] = Permᴰ.nil
  sort_by-perm (x ∷ xs) =
      Permᴰ.trans (Permᴰ.cons refl (sort_by-perm xs)) (insert_by-perm x (sort_by xs))

  module _ (asym : (x y : A) → less x y ≡ true → less y x ≡ false)
      (trans : (x y z : A) → less x y ≡ false → less y z ≡ false → less x z ≡ false) where
    All-trans :
        (x y : A) (ys : List A)
        → less y x ≡ false
        → All (λ z. less z y ≡ false) ys
        → All (λ z. less z x ≡ false) ys
    All-trans x y [] h k = tt
    All-trans x y (z ∷ zs) h (k, ks) = (trans z y x k h, All-trans x y zs h ks)

    All-insert_by :
        (x y : A) (ys : List A)
        → less x y ≡ false
        → All (λ z. less z y ≡ false) ys
        → All (λ z. less z y ≡ false) (insert_by x ys)
    unfolding insert_by
    All-insert_by x y [] h k = (h, tt)
    All-insert_by x y (z ∷ zs) h (k, ks) = ground (arith, All-insert_by x y zs h ks)

    insert_by-IsSorted : (x : A) (ys : List A) → IsSorted less ys → IsSorted less (insert_by x ys)
    unfolding insert_by
    insert_by-IsSorted x [] s = (tt, tt)
    insert_by-IsSorted x (y ∷ ys) (h, s) = elim (Bool-cases (less y x)) [
      | inl p ↦ rw p (All-insert_by x y ys (asym y x p) h, insert_by-IsSorted x ys s)
      | inr p ↦ rw p ((p, All-trans x y ys p h), (h, s))
    ]

    pub sort_by-IsSorted : (xs : List A) → IsSorted less (sort_by xs)
    unfolding sort_by
    sort_by-IsSorted [] = tt
    sort_by-IsSorted (x ∷ xs) = insert_by-IsSorted x (sort_by xs) (sort_by-IsSorted xs)

    abbrev pub insertion_sort : Sort less
    insertion_sort = record {
      sort = sort_by;
      sort-perm = sort_by-perm;
      sort-IsSorted = sort_by-IsSorted;
    }
