-- ===== src/Plan/Prepare/Outcome.antt =====
-- execution/plan.go: what Prepare makes of each argument, and when it has an error.
use openbotstack_core.Template.Numbers.Coercion.{
  lookup-coerce_string_numbers, map_value, coerce_string_numbers,
}
use openbotstack_core.Template.Resolve.Interpolation.{Extracted-cases}
use openbotstack_core.Base.{
  ◌||◌, if◌then◌else◌, contains, ◌==◌, is_empty, Bool-cases, sym, arith, inr, ◌∙◌, inl, is_some,
  String, none, some, Option, [], ◌∷◌, ◌≡◌, refl, Dict, lookup, Bool, true, false, ◌&&◌, ap,
}
use openbotstack_core.Value.{Value, string}
use openbotstack_core.Template.Numbers.{FloatOps}
use openbotstack_core.Template.Fields.{Extracted, found, failed}
use openbotstack_core.Template.Resolve.{TemplateHost, resolve}
use openbotstack_core.Plan.{ExecutionStep}
use openbotstack_core.Plan.Prepare.{
  copy_map, coerce_from, resolve_from, clone, coerce_arguments, prepare, with_arguments,
  resolve_arguments, coerce_string_numbers, coerce_value, TemplateError, with_argument,
  argument_error, arguments, resolve_all, Resolved, resolved_value, Prepared, ready, step_error,
  copy_arguments,
}

abbrev pub entry : String → Option (Dict Value) → Option Value
entry key none = none
entry key (some args) = lookup key args

-- An argument of a step.
abbrev pub argument : String → ExecutionStep → Option Value
argument key s = entry key s.arguments

abbrev pub is_ready : Prepared → Bool
is_ready (ready _) = true
is_ready (step_error _ _ _) = false

abbrev pub all_values : (Value → Bool) → Dict Value → Bool
all_values p [] = true
all_values p ((_, v) ∷ args) = p v && all_values p args

abbrev pub all_in : (Value → Bool) → Option (Dict Value) → Bool
all_in p none = true
all_in p (some args) = all_values p args

copy_arguments-same : (args : Dict Value) → copy_arguments args ≡ args
copy_arguments-same [] = refl
copy_arguments-same ((k, v) ∷ args) = ap (λ rest. (k, v) ∷ rest) (copy_arguments-same args)

abbrev pub is_resolved : Extracted → Bool
is_resolved (found _) = true
is_resolved (failed _) = false

abbrev pub value_of : Extracted → Option Value
value_of (found v) = some v
value_of (failed _) = none

module _ (ops : FloatOps) (host : TemplateHost) (results : Dict Value) where
  abbrev pub resolved_argument : Option Value → Option Value
  resolved_argument none = none
  resolved_argument (some v) = value_of (resolved_value host results v)

  abbrev resolved_all : Dict Value → Bool
  resolved_all args = all_values (λ v. is_resolved (resolved_value host results v)) args

  abbrev arguments_of : Resolved → Option (Dict Value)
  arguments_of (arguments args) = some args
  arguments_of (argument_error _ _) = none

  abbrev arguments_or_none : Resolved → Dict Value
  arguments_or_none (arguments args) = args
  arguments_or_none (argument_error _ _) = []

  -- A pass over the arguments that ends without an error.
  succeeds-with_argument :
      (k : String) (v : Value) (r : Resolved)
      → is_some (arguments_of (with_argument k v r)) ≡ is_some (arguments_of r)
  succeeds-with_argument k v (arguments args) = refl
  succeeds-with_argument k v (argument_error _ _) = refl

  resolve_all-succeeds :
      (args : Dict Value)
      → is_some (arguments_of (resolve_all host results args)) ≡ resolved_all args
  unfolding resolve_all
  resolve_all-succeeds [] = refl
  resolve_all-succeeds ((k, v) ∷ args) = elim (Extracted-cases (resolved_value host results v)) [
    | inl (w, e) ↦
        rw (e, resolve_all)
          (succeeds-with_argument k w (resolve_all host results args) ∙ resolve_all-succeeds args)
    | inr (err, e) ↦ rw (e, resolve_all) refl
  ]

  with_argument-arguments :
      (k : String) (v : Value) (r : Resolved) (after : Dict Value)
      → with_argument k v r ≡ arguments after
      → (rest : Dict Value) × ((r ≡ arguments rest) × ((k, v) ∷ rest ≡ after))
  with_argument-arguments k v (arguments rest) after h = (rest, (refl, ap arguments_or_none h))
  with_argument-arguments k v (argument_error _ _) after h = absurd (ground arith)

  resolve_all-found :
      (k : String) (v w : Value) (args : Dict Value)
      → resolved_value host results v ≡ found w
      → resolve_all host results ((k, v) ∷ args) ≡ with_argument k w (resolve_all host results args)
  unfolding resolve_all
  resolve_all-found k v w args e = rw (e, resolve_all) refl

  resolve_all-failed :
      (k : String) (v : Value) (args after : Dict Value) (err : TemplateError)
      → resolved_value host results v ≡ failed err
      → ¬ (resolve_all host results ((k, v) ∷ args) ≡ arguments after)
  unfolding resolve_all
  resolve_all-failed k v args after err e h = ground arith

  resolve_all-entry :
      (key : String) (args after : Dict Value)
      → resolve_all host results args ≡ arguments after
      → lookup key after ≡ resolved_argument (lookup key args)
  unfolding resolve_all lookup
  resolve_all-entry key [] after h = ap (λ r. lookup key (arguments_or_none r)) (sym h)
  resolve_all-entry key ((k, v) ∷ args) after h =
      elim (Extracted-cases (resolved_value host results v)) [
        | inl (w, e) ↦
            let (rest, (tail, split)) =
              with_argument-arguments k w (resolve_all host results args) after
                (sym (resolve_all-found k v w args e) ∙ h) in
            ap (lookup key) (sym split) ∙ elim (Bool-cases (k == key)) [
              | inl p ↦ rw p (sym (ap value_of e))
              | inr n ↦ rw n (resolve_all-entry key args rest tail)
            ]
        | inr (err, e) ↦ absurd (resolve_all-failed k v args after err e h)
      ]

  -- The value of an argument of the step that Prepare returns, or the error.
  abbrev pub prepared_value : Value → Extracted
  prepared_value v = resolved_value host results (coerce_value ops v).0

  all_values-coerce :
      (args : Dict Value)
      → resolved_all (coerce_string_numbers ops args).0
        ≡ all_values (λ v. is_resolved (prepared_value v)) args
  unfolding coerce_string_numbers
  all_values-coerce [] = refl
  all_values-coerce ((k, v) ∷ args) =
      ap (λ b. is_resolved (prepared_value v) && b) (all_values-coerce args)

  found_without_results :
      (v : Value) → is_empty results ≡ true → resolved_value host results v ≡ found v
  unfolding resolve
  found_without_results (string s) h = elim (Bool-cases (contains s "{{")) [
    | inl c ↦ rw (h, resolve) (rw c refl)
    | inr c ↦ rw (h, resolve) (rw c refl)
  ]
  found_without_results v h = refl

  all_resolved : (args : Dict Value) → is_empty results ≡ true → resolved_all args ≡ true
  all_resolved [] h = refl
  all_resolved ((k, v) ∷ args) h = rw (found_without_results v h) (all_resolved args h)

  is_ready-with_arguments :
      (s : ExecutionStep) (r : Resolved)
      → is_ready (with_arguments host results s r) ≡ is_some (arguments_of r)
  is_ready-with_arguments s (arguments args) = refl
  is_ready-with_arguments s (argument_error _ _) = refl

  resolve_from-ready :
      (s : ExecutionStep) (o : Option (Dict Value))
      → is_ready (resolve_from host results s o)
        ≡ all_in (λ v. is_resolved (resolved_value host results v)) o
  resolve_from-ready s none = refl
  resolve_from-ready s (some args) = elim (Bool-cases (is_empty results)) [
    | inl h ↦ rw h (sym (all_resolved args h))
    | inr h ↦
        rw h (is_ready-with_arguments s (resolve_all host results args) ∙ resolve_all-succeeds args)
  ]

  abbrev argument_in : String → Prepared → Option Value
  argument_in key (ready t) = argument key t
  argument_in key (step_error _ _ _) = none

  resolved_argument-same : (o : Option Value) → is_empty results ≡ true → resolved_argument o ≡ o
  resolved_argument-same none h = refl
  resolved_argument-same (some v) h = ap value_of (found_without_results v h)

  with_arguments-argument :
      (key : String) (s t : ExecutionStep) (args : Dict Value) (r : Resolved)
      → resolve_all host results args ≡ r
      → with_arguments host results s r ≡ ready t
      → argument key t ≡ resolved_argument (lookup key args)
  with_arguments-argument key s t args (arguments after) e h =
      sym (ap (argument_in key) h) ∙ resolve_all-entry key args after e
  with_arguments-argument key s t args (argument_error _ _) e h = absurd (ground arith)

  abbrev loop : ExecutionStep → Dict Value → Prepared
  loop s args = with_arguments host results s (resolve_all host results args)

  resolve_from-argument :
      (key : String) (s t : ExecutionStep) (o : Option (Dict Value))
      → s.arguments ≡ o
      → resolve_from host results s o ≡ ready t
      → argument key t ≡ resolved_argument (entry key o)
  resolve_from-argument key s t none e h = sym (ap (argument_in key) h) ∙ ap (entry key) e
  resolve_from-argument key s t (some args) e h = elim (Bool-cases (is_empty results)) [
    | inl b ↦
        sym (ap (argument_in key) (sym (ap (λ c. if c then ready s else loop s args) b) ∙ h))
        ∙ ap (entry key) e
        ∙ sym (resolved_argument-same (lookup key args) b)
    | inr b ↦
        with_arguments-argument key s t args (resolve_all host results args) refl
          (sym (ap (λ c. if c then ready s else loop s args) b) ∙ h)
  ]

  abbrev coerced_map : Option (Dict Value) → Option (Dict Value)
  coerced_map none = none
  coerced_map (some args) = some (coerce_string_numbers ops args).0

  coerce_from-arguments :
      (s : ExecutionStep) (o : Option (Dict Value))
      → s.arguments ≡ o
      → ((coerce_from ops s o).0).arguments ≡ coerced_map o
  coerce_from-arguments s none e = e
  coerce_from-arguments s (some args) e = refl

  all_in-coerced :
      (o : Option (Dict Value))
      → all_in (λ v. is_resolved (resolved_value host results v)) (coerced_map (copy_map o))
        ≡ all_in (λ v. is_resolved (prepared_value v)) o
  all_in-coerced none = refl
  all_in-coerced (some args) =
      ap (λ a. resolved_all (coerce_string_numbers ops a).0) (copy_arguments-same args)
      ∙ all_values-coerce args

  entry-coerced :
      (key : String) (o : Option (Dict Value))
      → entry key (coerced_map (copy_map o))
        ≡ map_value ops (λ v. (coerce_value ops v).0) (entry key o)
  entry-coerced key none = refl
  entry-coerced key (some args) =
      ap (λ a. lookup key (coerce_string_numbers ops a).0) (copy_arguments-same args)
      ∙ lookup-coerce_string_numbers ops key args

  abbrev coerced : ExecutionStep → ExecutionStep
  coerced s = (coerce_from ops (clone s) (copy_map s.arguments)).0

  coerced_s : (s : ExecutionStep) → (coerced s).arguments ≡ coerced_map (copy_map s.arguments)
  coerced_s s = coerce_from-arguments (clone s) (copy_map s.arguments) refl

  ready_if_resolved :
      (s : ExecutionStep)
      → is_ready (prepare host results ops s)
        ≡ all_in (λ v. is_resolved (prepared_value v)) s.arguments
  unfolding prepare resolve_arguments coerce_arguments
  ready_if_resolved s =
      ap (λ o. is_ready (resolve_from host results (coerced s) o)) (coerced_s s)
      ∙ resolve_from-ready (coerced s) (coerced_map (copy_map s.arguments))
      ∙ all_in-coerced s.arguments

  all_in_resolved :
      (o : Option (Dict Value))
      → is_empty results ≡ true
      → all_in (λ v. is_resolved (resolved_value host results v)) o ≡ true
  all_in_resolved none h = refl
  all_in_resolved (some args) h = all_resolved args h

  -- Prepare returns a step if there are no results of earlier steps, whatever its templates, or no
  -- argument, coerced, is a text with a template that names nothing; otherwise it returns an error and
  -- no step.
  pub is_ready-prepare :
      (s : ExecutionStep)
      → is_ready (prepare host results ops s)
        ≡ (is_empty results || all_in (λ v. is_resolved (prepared_value v)) s.arguments)
  is_ready-prepare s = elim (Bool-cases (is_empty results)) [
    | inl h ↦
        ready_if_resolved s
        ∙ sym (all_in-coerced s.arguments)
        ∙ all_in_resolved (coerced_map (copy_map s.arguments)) h
        ∙ ap (λ b. b || all_in (λ v. is_resolved (prepared_value v)) s.arguments) (sym h)
    | inr h ↦
        ready_if_resolved s
        ∙ ap (λ b. b || all_in (λ v. is_resolved (prepared_value v)) s.arguments) (sym h)
  ]

  -- Each argument of the step that Prepare returns is that of the step, coerced and with its templates
  -- resolved, and there is no other.
  pub argument-prepare :
      (s t : ExecutionStep) (key : String)
      → prepare host results ops s ≡ ready t
      → argument key t
        ≡ resolved_argument (map_value ops (λ v. (coerce_value ops v).0) (argument key s))
  unfolding prepare resolve_arguments coerce_arguments
  argument-prepare s t key h =
      resolve_from-argument key (coerced s) t (coerced_map (copy_map s.arguments)) (coerced_s s)
        (sym (ap (resolve_from host results (coerced s)) (coerced_s s)) ∙ h)
      ∙ ap resolved_argument (entry-coerced key s.arguments)
