-- ===== src/Plan/Prepare.antt =====
-- execution/plan.go: a step made ready to run, its arguments coerced and its templates resolved.
use openbotstack_core.Base.{
  ℕ, String, none, some, Option, List, [], ◌∷◌, ◌≡◌, refl, Dict, lookup, is_empty, if◌then◌else◌,
  Bool, true, false,
}
use openbotstack_core.Value.{Value, string}
use openbotstack_core.Template.Numbers.{FloatOps, coerce_value}
use openbotstack_core.Template.Fields.{TemplateError, Extracted, found, failed}
use openbotstack_core.Template.Numbers.Coercion.{coerce_string_numbers}
use openbotstack_core.Template.Resolve.{TemplateHost, resolve}
use openbotstack_core.Plan.{ExecutionStep}
pub mod Outcome
mod Tests

-- `Clone`: the copy has a map of its own with the arguments of the step.
abbrev pub copy_arguments : Dict Value → Dict Value
copy_arguments [] = []
copy_arguments ((k, v) ∷ args) = (k, v) ∷ copy_arguments args

abbrev pub copy_map : Option (Dict Value) → Option (Dict Value)
copy_map none = none
copy_map (some args) = some (copy_arguments args)

abbrev pub clone : ExecutionStep → ExecutionStep
clone s = record s { arguments = copy_map s.arguments }

-- The arguments as the loop leaves them, or the first that has an error, with its key.
pub data Resolved : Type 0 where
  arguments : Dict Value → Resolved
  argument_error : String → TemplateError → Resolved

abbrev pub with_argument : String → Value → Resolved → Resolved
with_argument k v (arguments args) = arguments ((k, v) ∷ args)
with_argument k v (argument_error key e) = argument_error key e

-- A step that is ready to run, or the name of the step and the error.
pub data Prepared : Type 0 where
  ready : ExecutionStep → Prepared
  step_error : String → String → TemplateError → Prepared

module _ (ops : FloatOps) where
  abbrev pub coerce_from : ExecutionStep → Option (Dict Value) → ExecutionStep × ℕ
  coerce_from s none = (s, 0)
  coerce_from s (some args) =
      let (coerced, changed) = coerce_string_numbers ops args in
      (record s { arguments = some coerced }, changed)

  -- `CoerceStringNumbers` of the step: the step, with how many values are coerced.
  unfoldable pub coerce_arguments : ExecutionStep → ExecutionStep × ℕ
  coerce_arguments s = coerce_from s s.arguments

module _ (host : TemplateHost) (results : Dict Value) where
  -- The body of the loop of `ResolveArguments`: an argument that is no text stays as it is.
  abbrev pub resolved_value : Value → Extracted
  resolved_value (string s) = resolve host results s
  resolved_value v = found v

  -- The loop over the arguments, in the order of the visit, which ends at the first error.
  unfoldable pub resolve_all : Dict Value → Resolved
  resolve_all [] = arguments []
  resolve_all ((key, val) ∷ args) = elim (resolved_value val) [
    | found v ↦ with_argument key v (resolve_all args)
    | failed e ↦ argument_error key e
  ]

  abbrev pub with_arguments : ExecutionStep → Resolved → Prepared
  with_arguments s (arguments args) = ready (record s { arguments = some args })
  with_arguments s (argument_error key e) = step_error s.name key e

  abbrev pub resolve_from : ExecutionStep → Option (Dict Value) → Prepared
  resolve_from s none = ready s
  resolve_from s (some args) =
      if is_empty results then ready s else with_arguments s (resolve_all args)

  -- `ResolveArguments`
  unfoldable pub resolve_arguments : ExecutionStep → Prepared
  resolve_arguments s = resolve_from s s.arguments

  -- `Prepare`
  unfoldable pub prepare : FloatOps → ExecutionStep → Prepared
  prepare ops s = resolve_arguments (coerce_arguments ops (clone s)).0
