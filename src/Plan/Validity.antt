-- ===== src/Plan/Validity.antt =====
-- execution/plan.go: which plans Validate accepts, and what it makes of them.
use openbotstack_core.Base.{
  ap, map, ℕ, suc, String, Bool, true, false, not, ◌&&◌, none, List, [], ◌∷◌, ◌≡◌, refl, Dict,
  lookup, insert, lookup-insert, lookup-nil, ◌==◌, is_some, is_empty, all, any, All, arith,
  Bool-cases, Option-cases, inl, inr,
}
use openbotstack_core.Plan.{
  ExecutionStep, ExecutionPlan, is_step_type, or_fresh, validate_steps, validate,
}

-- A step with a name and a type.
abbrev pub is_well_formed : ExecutionStep → Bool
is_well_formed s = not (s.name == "") && is_step_type s.step_type

-- No two steps have the same name.
abbrev pub distinct_names : List ExecutionStep → Bool
distinct_names [] = true
distinct_names (s ∷ steps) = not (any (λ t. s.name == t.name) steps) && distinct_names steps

-- No step has a name that was seen.
abbrev unseen : Dict ℕ → List ExecutionStep → Bool
unseen seen steps = all (λ s. not (is_some (lookup s.name seen))) steps

unseen-insert :
    (name : String) (i : ℕ) (seen : Dict ℕ) (steps : List ExecutionStep)
    → unseen (insert name i seen) steps
      ≡ (not (any (λ t. name == t.name) steps) && unseen seen steps)
unseen-insert name i seen [] = refl
unseen-insert name i seen (s ∷ steps) =
    ground (arith, lookup-insert name s.name i seen, unseen-insert name i seen steps)

-- What Validate may not change: a step without its identifier.
abbrev pub without_id : ExecutionStep → ExecutionStep
without_id s = record s { step_id = "" }

abbrev pub HasId : ExecutionStep → Type 0
HasId s = (s.step_id == "") ≡ false

module _ (fresh : ℕ → String) where
  validate_steps-accepts :
      (drawn i : ℕ) (seen : Dict ℕ) (steps : List ExecutionStep)
      → is_some (validate_steps fresh drawn i seen steps).1
        ≡ not (all is_well_formed steps && (distinct_names steps && unseen seen steps))
  unfolding validate_steps
  validate_steps-accepts drawn i seen [] = refl
  validate_steps-accepts drawn i seen (s ∷ steps) = elim (Bool-cases (s.name == "")) [
    | inl h ↦ rw h refl
    | inr h ↦ elim (Bool-cases (is_step_type s.step_type)) [
      | inr t ↦ rw (h, t) refl
      | inl t ↦ elim (Option-cases (lookup s.name seen)) [
        | inr (prev, e) ↦ rw (h, t, e) (ground arith)
        | inl e ↦
            rw (h, t, e)
              (ground (
                arith,
                validate_steps-accepts (or_fresh fresh s.step_id drawn).1 (suc i)
                    (insert s.name i seen) steps,
                unseen-insert s.name i seen steps,
              ))
      ]
    ]
  ]

  unseen_nil : (steps : List ExecutionStep) → unseen [] steps ≡ true
  unseen_nil [] = refl
  unseen_nil (s ∷ steps) = rw (lookup-nil {V = ℕ} s.name) (unseen_nil steps)

  -- Validate returns no error exactly for a plan that is not frozen and has steps, each with a name
  -- and a known type, no two with the same name.
  pub validate-accepts :
      (drawn : ℕ) (p : ExecutionPlan)
      → is_some (validate fresh drawn p).1
        ≡ not (
            not p.frozen
            && not (is_empty p.steps)
            && (all is_well_formed p.steps && distinct_names p.steps))
  unfolding validate
  validate-accepts drawn p =
      ground (
        arith,
        validate_steps-accepts (or_fresh fresh p.id drawn).1 0 [] p.steps,
        unseen_nil p.steps,
      )

  validate_steps-keeps :
      (drawn i : ℕ) (seen : Dict ℕ) (steps : List ExecutionStep)
      → map without_id (validate_steps fresh drawn i seen steps).0 ≡ map without_id steps
  unfolding validate_steps
  validate_steps-keeps drawn i seen [] = refl
  validate_steps-keeps drawn i seen (s ∷ steps) = elim (Bool-cases (s.name == "")) [
    | inl h ↦ rw h refl
    | inr h ↦ elim (Bool-cases (is_step_type s.step_type)) [
      | inr t ↦ rw (h, t) refl
      | inl t ↦ elim (Option-cases (lookup s.name seen)) [
        | inr (prev, e) ↦ rw (h, t, e) refl
        | inl e ↦
            rw (h, t, e)
              (ap (λ l. without_id s ∷ l)
                (validate_steps-keeps (or_fresh fresh s.step_id drawn).1 (suc i)
                  (insert s.name i seen) steps))
      ]
    ]
  ]

  module _ (fresh_nonempty : (n : ℕ) → (fresh n == "") ≡ false) where
    or_fresh-nonempty : (id : String) (drawn : ℕ) → ((or_fresh fresh id drawn).0 == "") ≡ false
    or_fresh-nonempty id drawn = elim (Bool-cases (id == "")) [
      | inl h ↦ rw h (fresh_nonempty drawn)
      | inr h ↦ rw (h, h) refl
    ]

    validate_steps-ids :
        (drawn i : ℕ) (seen : Dict ℕ) (steps : List ExecutionStep)
        → (validate_steps fresh drawn i seen steps).1 ≡ none
        → All HasId (validate_steps fresh drawn i seen steps).0
    unfolding validate_steps
    validate_steps-ids drawn i seen [] ok = tt
    validate_steps-ids drawn i seen (s ∷ steps) ok = elim (Bool-cases (s.name == "")) [
      | inl h ↦ absurd (ground arith)
      | inr h ↦ elim (Bool-cases (is_step_type s.step_type)) [
        | inr t ↦ absurd (ground arith)
        | inl t ↦ elim (Option-cases (lookup s.name seen)) [
          | inr (prev, e) ↦ absurd (ground arith)
          | inl e ↦
              rw (h, t, e)
                (
                  or_fresh-nonempty s.step_id drawn,
                  validate_steps-ids (or_fresh fresh s.step_id drawn).1 (suc i)
                      (insert s.name i seen) steps (ground arith),
                )
        ]
      ]
    ]

    -- If Validate returns no error, the plan is frozen, it and each of its steps has an identifier,
    -- and nothing else of the steps has changed, where the identifiers drawn are not empty. If it
    -- returns an error, the plan is frozen only if it was, and at most identifiers have changed.
    pub validate-freezes :
        (drawn : ℕ) (p : ExecutionPlan)
        → ((validate fresh drawn p).1 ≡ none
            → ((validate fresh drawn p).0.frozen ≡ true)
              × (((validate fresh drawn p).0.id == "") ≡ false)
              × All HasId (validate fresh drawn p).0.steps)
          × (is_some (validate fresh drawn p).1 ≡ true
              → (validate fresh drawn p).0.frozen ≡ p.frozen)
          × (map without_id (validate fresh drawn p).0.steps ≡ map without_id p.steps)
    unfolding validate
    validate-freezes drawn p = elim (Bool-cases p.frozen) [
      | inl f ↦ rw f (λ no. absurd (ground arith), λ _. refl, refl)
      | inr f ↦ elim (Bool-cases (is_empty p.steps)) [
        | inl e ↦ rw (f, e) (λ no. absurd (ground arith), λ _. refl, refl)
        | inr e ↦
            let next : ℕ = (or_fresh fresh p.id drawn).1 in
            rw (f, e)
              (
                λ ok. (
                  rw ok refl,
                  or_fresh-nonempty p.id drawn,
                  validate_steps-ids next 0 [] p.steps ok,
                ),
                λ no. rw no refl,
                validate_steps-keeps next 0 [] p.steps,
              )
      ]
    ]
