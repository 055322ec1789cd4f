-- ===== src/Base/Lists.antt =====
-- Lists measured by native numbers, and predicates over their elements.
use Prim.Native.Nat.{zero, ℕ, suc, ◌+◌}
use mathlib.Core.Path.{◌≡◌, refl, ap, subst, sym, ◌∙◌}
use mathlib.Core.Logic.{◌↔◌, ◌⊎◌, inl, inr}
use mathlib.Core.Bool.{Bool, true, false, ◌&&◌, ◌||◌}
use mathlib.Core.Option.{Option, none, some}
use mathlib.Core.List.{List, [], ◌∷◌, ◌++◌, map, Permᴰ}
use native.Mathlib.Omega.{arith}

module _ {ℓ} {A : Type ℓ} where
  abbrev pub length : List A → ℕ
  length [] = 0
  length (x ∷ xs) = suc (length xs)

  abbrev pub is_empty : List A → Bool
  is_empty [] = true
  is_empty (x ∷ xs) = false

  -- A `for` loop that returns false at the first element that fails a test.
  abbrev pub all : (A → Bool) → List A → Bool
  all p [] = true
  all p (x ∷ xs) = p x && all p xs

  abbrev pub any : (A → Bool) → List A → Bool
  any p [] = false
  any p (x ∷ xs) = p x || any p xs

  -- Appends one after another.
  abbrev pub concat : List (List A) → List A
  concat [] = []
  concat (xs ∷ xss) = xs ++ concat xss

  abbrev pub get_elem? : List A → ℕ → Option A
  get_elem? [] i = none
  get_elem? (x ∷ xs) zero = some x
  get_elem? (x ∷ xs) (suc i) = get_elem? xs i

  pub get_elem?-append :
      (xs ys : List A) (i : ℕ) {x : A} → get_elem? xs i ≡ some x → get_elem? (xs ++ ys) i ≡ some x
  get_elem?-append [] ys i h = cc
  get_elem?-append (x ∷ xs) ys zero h = h
  get_elem?-append (x ∷ xs) ys (suc i) h = get_elem?-append xs ys i h

  pub get_elem?-append_length :
      (xs : List A) (y : A) → get_elem? (xs ++ y ∷ []) (length xs) ≡ some y
  get_elem?-append_length [] y = refl
  get_elem?-append_length (x ∷ xs) y = get_elem?-append_length xs y

  pub length-append : (xs ys : List A) → length (xs ++ ys) ≡ length xs + length ys
  length-append [] ys = omega arith
  length-append (x ∷ xs) ys = omega (arith, length-append xs ys)

pub get_elem?-map :
    {A B : Type 0} (f : A → B) (xs : List A) (i : ℕ) {x : A}
    → get_elem? xs i ≡ some x
    → get_elem? (map f xs) i ≡ some (f x)
get_elem?-map f [] i h = cc
get_elem?-map f (x ∷ xs) zero h = ap (λ o. elim o [ none ↦ some (f x) | some a ↦ some (f a) ]) h
get_elem?-map f (x ∷ xs) (suc i) h = get_elem?-map f xs i h

module _ {ℓ} {A : Type ℓ} (p : A → Bool) where
  pub any-append : (xs ys : List A) → any p (xs ++ ys) ≡ (any p xs || any p ys)
  any-append [] ys = refl
  any-append (x ∷ xs) ys = ground (arith, any-append xs ys)

module _ {ℓ κ} {A : Type ℓ} where
  abbrev pub All : (A → Type κ) → List A → Type κ
  All P [] = Unit
  All P (x ∷ xs) = P x × All P xs

  pub All-append : (P : A → Type κ) (xs ys : List A) → All P xs → All P ys → All P (xs ++ ys)
  All-append P [] ys hx hy = hy
  All-append P (x ∷ xs) ys (h, hx) hy = (h, All-append P xs ys hx hy)

-- Membership by recursion, which case splits take apart.
abbrev pub Elem : {A : Type 0} → A → List A → Type 0
Elem a [] = ⊥
Elem a (x ∷ xs) = (a ≡ x) ⊎ Elem a xs

pub All_at : {A : Type 0} (P : A → Type 0) {a : A} (xs : List A) → All P xs → Elem a xs → P a
All_at P (x ∷ xs) (h, hs) (inl e) = subst P (sym e) h
All_at P (x ∷ xs) (h, hs) (inr m) = All_at P xs hs m
All_at P [] hs m = absurd m

pub All-of_Elem :
    {A : Type 0} (P : A → Type 0) (xs : List A) → ((a : A) → Elem a xs → P a) → All P xs
All-of_Elem P [] h = tt
All-of_Elem P (x ∷ xs) h = (h x (inl refl), All-of_Elem P xs (λ a m. h a (inr m)))

-- A permutation keeps the elements.
pub Elem-perm : {A : Type 0} (a : A) {xs ys : List A} → Permᴰ xs ys → Elem a xs → Elem a ys
Elem-perm a Permᴰ.nil m = m
Elem-perm a (Permᴰ.cons e p) (inl q) = inl (q ∙ e)
Elem-perm a (Permᴰ.cons e p) (inr m) = inr (Elem-perm a p m)
Elem-perm a (Permᴰ.swap e f) (inl q) = inr (inl (q ∙ e))
Elem-perm a (Permᴰ.swap e f) (inr (inl q)) = inl (q ∙ f)
Elem-perm a (Permᴰ.swap e f) (inr (inr m)) = inr (inr m)
Elem-perm a (Permᴰ.trans p q) m = Elem-perm a q (Elem-perm a p m)

pub Perm-symm : {A : Type 0} {xs ys : List A} → Permᴰ xs ys → Permᴰ ys xs
Perm-symm Permᴰ.nil = Permᴰ.nil
Perm-symm (Permᴰ.cons e p) = Permᴰ.cons (sym e) (Perm-symm p)
Perm-symm (Permᴰ.swap e f) = Permᴰ.swap (sym f) (sym e)
Perm-symm (Permᴰ.trans p q) = Permᴰ.trans (Perm-symm q) (Perm-symm p)

pub Perm-refl : {A : Type 0} (xs : List A) → Permᴰ xs xs
Perm-refl [] = Permᴰ.nil
Perm-refl (x ∷ xs) = Permᴰ.cons refl (Perm-refl xs)

pub any-perm : {A : Type 0} (p : A → Bool) {xs ys : List A} → Permᴰ xs ys → any p xs ≡ any p ys
any-perm p Permᴰ.nil = refl
any-perm p (Permᴰ.cons {b = b} e q) = rw (e, any-perm p q)
any-perm p (Permᴰ.swap e f) = rw (e, f) (ground arith)
any-perm p (Permᴰ.trans q r) = any-perm p q ∙ any-perm p r

pub append_assoc : {A : Type 0} (xs ys zs : List A) → (xs ++ ys) ++ zs ≡ xs ++ (ys ++ zs)
append_assoc [] ys zs = refl
append_assoc (x ∷ xs) ys zs = ap (λ l. x ∷ l) (append_assoc xs ys zs)

pub append_nil : {A : Type 0} (xs : List A) → xs ++ [] ≡ xs
append_nil [] = refl
append_nil (x ∷ xs) = ap (λ l. x ∷ l) (append_nil xs)

pub Elem-append :
    {A : Type 0} (a : A) (xs ys : List A) → Elem a (xs ++ ys) ↔ (Elem a xs ⊎ Elem a ys)
Elem-append a [] ys = (inr, elim [ inl m ↦ absurd m | inr m ↦ m ])
Elem-append a (x ∷ xs) ys = (
  elim [
    | inl e ↦ inl (inl e)
    | inr m ↦ elim ((Elem-append a xs ys).0 m) [ inl p ↦ inl (inr p) | inr q ↦ inr q ]
  ],
  elim [
    | inl p ↦ elim p [ inl e ↦ inl e | inr m ↦ inr ((Elem-append a xs ys).1 (inl m)) ]
    | inr q ↦ inr ((Elem-append a xs ys).1 (inr q))
  ],
)
