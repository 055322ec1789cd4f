-- ===== src/Providers/Answers/Embeddings.antt =====
-- providers.go: which embedding stands at each place of the result.
use openbotstack_core.Base.{
  ℕ, zero, suc, false, Option, none, some, List, [], ◌∷◌, ◌≡◌, refl, ap, ◌∙◌, if◌then◌else◌, inl,
  inr, ◌<◌, arith,
}
use openbotstack_core.Base.{length, get_elem?, ltb, nat_eq, Bool-cases}
use openbotstack_core.Base.Int.{ℤ, pos, negsuc}
use openbotstack_core.Providers.Answers.{
  no_embeddings, set_at, place, place_all, embeddings, last_at,
}

length-no_embeddings : (E : Type 0) (n : ℕ) → length (no_embeddings {E = E} n) ≡ n
length-no_embeddings E zero = refl
length-no_embeddings E (suc n) = ap suc (length-no_embeddings E n)

suc_differs : (n : ℕ) → (nat_eq 0 (suc n) ≡ false) × (nat_eq (suc n) 0 ≡ false)
suc_differs n = (ground arith, ground arith)

nat_eq-suc : (m n : ℕ) → nat_eq (suc m) (suc n) ≡ nat_eq m n
nat_eq-suc m n = ground arith

module _ {E : Type 0} where
  get_elem?-no_embeddings : (n i : ℕ) → i < n → get_elem? (no_embeddings {E = E} n) i ≡ some none
  get_elem?-no_embeddings zero i h = absurd (omega arith)
  get_elem?-no_embeddings (suc n) zero h = refl
  get_elem?-no_embeddings (suc n) (suc i) h = get_elem?-no_embeddings n i (omega arith)

  length-set_at : (rs : List (Option E)) (i : ℕ) (e : E) → length (set_at rs i e) ≡ length rs
  unfolding set_at
  length-set_at [] i e = refl
  length-set_at (r ∷ rs) zero e = refl
  length-set_at (r ∷ rs) (suc i) e = ap suc (length-set_at rs i e)

  get_elem?-set_at :
      (rs : List (Option E)) (i j : ℕ) (e : E) (before : Option E)
      → get_elem? rs i ≡ some before
      → get_elem? (set_at rs j e) i ≡ some (if nat_eq i j then some e else before)
  unfolding set_at
  get_elem?-set_at [] i j e before h = absurd (ground arith)
  get_elem?-set_at (r ∷ rs) zero zero e before h = refl
  get_elem?-set_at (r ∷ rs) zero (suc j) e before h = rw (suc_differs j).0 h
  get_elem?-set_at (r ∷ rs) (suc i) zero e before h = rw (suc_differs i).1 h
  get_elem?-set_at (r ∷ rs) (suc i) (suc j) e before h =
      rw (nat_eq-suc i j) (get_elem?-set_at rs i j e before h)

  length-place : (rs : List (Option E)) (d : ℤ × E) → length (place rs d) ≡ length rs
  unfolding place
  length-place rs (negsuc j, e) = refl
  length-place rs (pos j, e) = elim (Bool-cases (ltb j (length rs))) [
    | inl h ↦ rw h (length-set_at rs j e)
    | inr h ↦ rw h refl
  ]

  length-place_all :
      (rs : List (Option E)) (ds : List (ℤ × E)) → length (place_all rs ds) ≡ length rs
  unfolding place_all
  length-place_all rs [] = refl
  length-place_all rs (d ∷ ds) = length-place_all (place rs d) ds ∙ length-place rs d

  get_elem?-place_all :
      (rs : List (Option E)) (ds : List (ℤ × E)) (i : ℕ) (before : Option E)
      → i < length rs
      → get_elem? rs i ≡ some before
      → get_elem? (place_all rs ds) i ≡ some (last_at i before ds)
  unfolding place_all place
  get_elem?-place_all rs [] i before b h = h
  get_elem?-place_all rs ((negsuc j, e) ∷ ds) i before b h = get_elem?-place_all rs ds i before b h
  get_elem?-place_all rs ((pos j, e) ∷ ds) i before b h = elim (Bool-cases (ltb j (length rs))) [
    | inl p ↦ rw p (
        get_elem?-place_all (set_at rs j e) ds i (if nat_eq i j then some e else before)
          (omega (arith, length-set_at rs j e)) (get_elem?-set_at rs i j e before h))
    | inr p ↦ rw p (
        let other : nat_eq i j ≡ false = ground arith in
        rw other (get_elem?-place_all rs ds i before b h))
  ]

  -- There are as many places as embeddings in the reply, and at each place stands the last embedding of
  -- the reply with that index, or nil if there is none.
  pub embeddings-last :
      (ds : List (ℤ × E))
      → (length (embeddings ds) ≡ length ds)
        × ((i : ℕ) → i < length ds → get_elem? (embeddings ds) i ≡ some (last_at i none ds))
  unfolding embeddings
  embeddings-last ds = (
    length-place_all (no_embeddings (length ds)) ds ∙ length-no_embeddings E (length ds),
    λ i h.
        get_elem?-place_all (no_embeddings (length ds)) ds i none
          (omega (arith, h, length-no_embeddings E (length ds)))
          (get_elem?-no_embeddings (length ds) i h),
  )
