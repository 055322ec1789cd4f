-- ===== src/Router/Selection.antt =====
-- router.go: which provider Route returns.
use openbotstack_core.Base.{
  true≢false, Elem-of_lookup, ◌∙◌, subst, sym, ap, String, true, false, Option, none, some, List,
  [], ◌∷◌, ◌≡◌, ◌≢◌, refl, Dict, lookup, ◌==◌, Elem, All, arith, eq_iff, inl, inr, ◌⊎◌,
  Option-cases, Bool-cases,
}
use openbotstack_core.Router.{
  answer, ModelProvider, ModelConstraints, DefaultRouter, AiError, no_matching_provider,
  has_all_capabilities, first_match, route,
}

-- A provider that the loop returns is registered and meets the requirements.
first_match-some :
    (requirements : List String) (d : Dict ModelProvider) (p : ModelProvider)
    → first_match requirements d ≡ some p
    → ((id : String) × Elem (id, p) d) × (has_all_capabilities p requirements ≡ true)
unfolding first_match
first_match-some requirements [] p h = cc
first_match-some requirements ((id, q) ∷ d) p h =
    elim (Bool-cases (has_all_capabilities q requirements)) [
      | inl m ↦
          let e : q ≡ p = ground arith in
          (
            (id, inl (ap (λ x. (id, x)) (sym e))),
            subst (λ x. has_all_capabilities x requirements ≡ true) e m,
          )
      | inr n ↦
          let ((i, there), meets) = first_match-some requirements d p (ground arith) in
          ((i, inr there), meets)
    ]

Fails : List String → String × ModelProvider → Type 0
Fails requirements (_, p) = has_all_capabilities p requirements ≡ false

-- If the loop returns none, every provider fails the requirements.
first_match-none :
    (requirements : List String) (d : Dict ModelProvider)
    → first_match requirements d ≡ none
    → All (Fails requirements) d
unfolding first_match Fails
first_match-none requirements [] h = tt
first_match-none requirements ((id, q) ∷ d) h =
    elim (Bool-cases (has_all_capabilities q requirements)) [
      | inl m ↦ absurd (ground arith)
      | inr n ↦ (n, first_match-none requirements d (ground arith))
    ]

-- What Route answers: a registered provider that meets the requirements, the preferred one if it
-- is named, registered and meets them, or the error, if every provider fails the requirements.
pub Selects :
    DefaultRouter → List String → ModelConstraints → Option ModelProvider × Option AiError → Type 0
Selects r requirements constraints result =
    ((p : ModelProvider) × (result ≡ (some p, none))
      × ((id : String) × Elem (id, p) r.providers)
      × (has_all_capabilities p requirements ≡ true)
      × ((q : ModelProvider)
          → constraints.preferred_provider ≢ ""
          → lookup constraints.preferred_provider r.providers ≡ some q
          → has_all_capabilities q requirements ≡ true
          → p ≡ q))
    ⊎ ((result ≡ (none, some no_matching_provider)) × All (Fails requirements) r.providers)

none≢some : {p : ModelProvider} → none ≡ some p → ⊥
none≢some h = cc

some_injective : {p q : ModelProvider} → some p ≡ some q → p ≡ q
some_injective h = ground arith

-- The answer of the loop, where no preferred provider meets the requirements.
answer-Selects :
    (r : DefaultRouter) (requirements : List String) (constraints : ModelConstraints)
    → ((q : ModelProvider)
        → constraints.preferred_provider ≢ ""
        → lookup constraints.preferred_provider r.providers ≡ some q
        → has_all_capabilities q requirements ≡ false)
    → Selects r requirements constraints (answer (first_match requirements r.providers))
unfolding Selects
answer-Selects r requirements constraints unmet =
    elim (Option-cases (first_match requirements r.providers)) [
      | inl e ↦ rw e (inr (refl, first_match-none requirements r.providers e))
      | inr (p, e) ↦
          let (there, meets) = first_match-some requirements r.providers p e in
          rw e (
            inl (
              p,
              refl,
              there,
              meets,
              λ q named known m. absurd (true≢false (sym m ∙ unmet q named known)),
            ))
    ]

-- The answer where the preferred provider meets the requirements.
preferred-Selects :
    (r : DefaultRouter) (requirements : List String) (constraints : ModelConstraints)
    (p : ModelProvider)
    → lookup constraints.preferred_provider r.providers ≡ some p
    → has_all_capabilities p requirements ≡ true
    → Selects r requirements constraints (some p, none)
unfolding Selects
preferred-Selects r requirements constraints p known m = inl (
  p,
  refl,
  (
    constraints.preferred_provider,
    Elem-of_lookup constraints.preferred_provider p r.providers known,
  ),
  m,
  λ q _ k _. some_injective (sym known ∙ k),
)

-- Route selects: it returns a registered provider that meets the requirements, the preferred one if
-- it is named, registered and meets them, or the error ErrNoMatchingProvider if every registered
-- provider fails the requirements.
pub route-Selects :
    (r : DefaultRouter) (requirements : List String) (constraints : ModelConstraints)
    → Selects r requirements constraints (route r requirements constraints)
unfolding route
route-Selects r requirements constraints =
    elim (Bool-cases (constraints.preferred_provider == "")) [
      | inl e ↦ rw e (
          answer-Selects r requirements constraints
            (λ q named known. absurd (named ((eq_iff constraints.preferred_provider "").0 e))))
      | inr n ↦ elim (Option-cases (lookup constraints.preferred_provider r.providers)) [
        | inl unknown ↦
            rw (n, unknown)
              (answer-Selects r requirements constraints
                (λ q named known. absurd (none≢some (sym unknown ∙ known))))
        | inr (p, known) ↦ elim (Bool-cases (has_all_capabilities p requirements)) [
          | inl m ↦ rw (n, known, m) (preferred-Selects r requirements constraints p known m)
          | inr f ↦
              rw (n, known, f)
                (answer-Selects r requirements constraints (λ q _ k.
                  subst (λ x. has_all_capabilities x requirements ≡ false)
                    (some_injective (sym known ∙ k)) f))
        ]
      ]
    ]
