-- ===== src/Plan.antt =====
-- execution/plan.go: execution plans, their validation and the grouping of parallel steps.
use openbotstack_core.Base.{
  ℕ, zero, suc, String, Bool, true, false, not, ◌&&◌, ◌||◌, Option, none, some, List, [], ◌∷◌, Dict,
  lookup, insert, if◌then◌else◌, ◌==◌, is_some, is_empty, length,
}
use openbotstack_core.Base.Int.{ℤ}
use openbotstack_core.Value.{Value}
use openbotstack_core.Validation.{JsonSchema}
pub mod Validity
pub mod Grouping
pub mod Limits
pub mod Prepare
pub mod Replan
mod Tests

-- `ExecutionStep`; a nil map of arguments is `none`.
pub record ExecutionStep : Type 0 where
  pub name : String
  pub step_type : String
  pub arguments : Option (Dict Value)
  pub step_id : String
  pub timeout : ℤ
  pub expected_output : String
  pub output_schema : Option JsonSchema
  pub parallelizable : Bool
  pub parallel_group : String
  pub risk_level : String

-- `ExecutionPlan`
pub record ExecutionPlan : Type 0 where
  pub id : String
  pub parent_id : String
  pub assistant_id : String
  pub steps : List ExecutionStep
  pub reasoning : String
  pub frozen : Bool

pub data PlanError : Type 0 where
  already_frozen no_steps : PlanError
  empty_name : ℕ → PlanError
  invalid_type : ℕ → String → PlanError
  duplicate_name : String → ℕ → ℕ → PlanError

-- `StepTypeSkill`, `StepTypeTool` and `StepTypeLLM`.
abbrev pub is_step_type : String → Bool
is_step_type t = t == "skill" || t == "tool" || t == "llm"

-- `Freeze` and `IsFrozen`
abbrev pub freeze : ExecutionPlan → ExecutionPlan
freeze p = record p { frozen = true }

abbrev pub is_frozen : ExecutionPlan → Bool
is_frozen p = p.frozen

-- The identifiers of uuid.NewString, in the order in which they are drawn.
module _ (fresh : ℕ → String) where
  -- An empty identifier is replaced by the next fresh one.
  abbrev pub or_fresh : String → ℕ → String × ℕ
  or_fresh id drawn = if id == "" then (fresh drawn, suc drawn) else (id, drawn)

  -- The loop of `Validate` from the position `i`, where `seen` has the position of each name so far:
  -- the steps as the loop leaves them, the error, and how many identifiers are drawn.
  unfoldable pub validate_steps :
      ℕ → ℕ → Dict ℕ → List ExecutionStep → List ExecutionStep × Option PlanError × ℕ
  validate_steps drawn i seen [] = ([], none, drawn)
  validate_steps drawn i seen (step ∷ steps) =
      let (step_id, next) = or_fresh step.step_id drawn in
      let (rest, err, last) = validate_steps next (suc i) (insert step.name i seen) steps in
      if step.name == ""
      then (step ∷ steps, some (empty_name i), drawn)
      else if not (is_step_type step.step_type)
      then (step ∷ steps, some (invalid_type i step.step_type), drawn)
      else elim (lookup step.name seen) [
        | some prev ↦ (step ∷ steps, some (duplicate_name step.name prev i), drawn)
        | none ↦ (record step { step_id = step_id } ∷ rest, err, last)
      ]

  -- `Validate`: the plan as the call leaves it, the error, and how many identifiers are drawn.
  unfoldable pub validate : ℕ → ExecutionPlan → ExecutionPlan × Option PlanError × ℕ
  validate drawn p =
      if p.frozen
      then (p, some already_frozen, drawn)
      else if is_empty p.steps
      then (p, some no_steps, drawn)
      else let (id, next) = or_fresh p.id drawn in
        let (steps, err, last) = validate_steps next 0 [] p.steps in
        (record p { id = id; steps = steps; frozen = not (is_some err) }, err, last)

-- Whether a step joins the batch of a group.
abbrev pub in_group : String → ExecutionStep → Bool
in_group group s = s.parallelizable && s.parallel_group == group

-- The inner loop of `GroupParallelSteps`: the steps that join, and the rest.
unfoldable pub take_batch : String → List ExecutionStep → List ExecutionStep × List ExecutionStep
take_batch group [] = ([], [])
take_batch group (s ∷ steps) =
    let (batch, rest) = take_batch group steps in
    if in_group group s then (s ∷ batch, rest) else ([], s ∷ steps)

abbrev pub is_grouped : ExecutionStep → Bool
is_grouped s = s.parallelizable && not (s.parallel_group == "")

-- The outer loop of `GroupParallelSteps`, on fuel.
unfoldable pub group_from : ℕ → List ExecutionStep → List (List ExecutionStep)
group_from fuel [] = []
group_from zero (_ ∷ _) = []
group_from (suc fuel) (s ∷ steps) =
    let (batch, rest) = take_batch s.parallel_group steps in
    let grouped = group_from fuel rest in
    let alone = group_from fuel steps in
    if is_grouped s then (s ∷ batch) ∷ grouped else (s ∷ []) ∷ alone

-- `GroupParallelSteps`
unfoldable pub group_parallel_steps : List ExecutionStep → List (List ExecutionStep)
group_parallel_steps steps = group_from (length steps) steps
