-- ===== src/Plan/Limits.antt =====
-- planner/plan_validator.go and planner/plan_limits.go: the limits on a plan.
use openbotstack_core.Base.{
  ℕ, suc, ◌+◌, String, Bool, true, false, not, ◌&&◌, ◌||◌, Option, none, some, List, [], ◌∷◌, ◌≡◌,
  refl, if◌then◌else◌, ◌==◌, is_some, is_empty, length, all, arith, Bool-cases, inl, inr,
}
use openbotstack_core.Base.Int.{ℤ, pos, ltb_ℤ}
use openbotstack_core.Plan.{ExecutionStep, ExecutionPlan, validate}
use openbotstack_core.Plan.Validity.{is_well_formed, distinct_names, validate-accepts}

-- `ExecutionLimits`, the time in nanoseconds.
pub record ExecutionLimits : Type 0 where
  pub max_steps : ℤ
  pub max_tool_calls : ℤ
  pub max_execution_time : ℤ

-- `DefaultLimits`
abbrev pub default_limits : ExecutionLimits
default_limits = record {
  max_steps = pos 10;
  max_tool_calls = pos 15;
  max_execution_time = pos 300000000000;
}

pub data LimitError : Type 0 where
  nil_plan empty_assistant_id empty_steps : LimitError
  too_many_steps too_many_tool_calls : ℕ → ℤ → LimitError
  empty_step_name : ℕ → LimitError
  invalid_step_type : ℕ → String → LimitError

-- `NewValidator`; nil limits are the default ones.
abbrev pub new_validator : Option ExecutionLimits → ExecutionLimits
new_validator none = default_limits
new_validator (some limits) = limits

abbrev pub calls_tool : String → Bool
calls_tool t = t == "skill" || t == "tool"

-- The loop of `Validate` over the steps from the position `i`: the error, or the count of tool calls.
unfoldable pub count_tools : ℕ → ℕ → List ExecutionStep → Option LimitError × ℕ
count_tools i tool_count [] = (none, tool_count)
count_tools i tool_count (step ∷ steps) =
    let rest =
      count_tools (suc i) (if calls_tool step.step_type then suc tool_count else tool_count)
        steps in
    if step.name == ""
    then (some (empty_step_name i), tool_count)
    else if calls_tool step.step_type || step.step_type == "llm"
    then rest
    else (some (invalid_step_type i step.step_type), tool_count)

-- `Validate`
unfoldable pub validate_limits : ExecutionLimits → Option ExecutionPlan → Option LimitError
validate_limits limits none = some nil_plan
validate_limits limits (some plan) =
    if plan.assistant_id == ""
    then some empty_assistant_id
    else if is_empty plan.steps
    then some empty_steps
    else if ltb_ℤ limits.max_steps (pos (length plan.steps))
    then some (too_many_steps (length plan.steps) limits.max_steps)
    else let (err, tool_count) = count_tools 0 0 plan.steps in
      if is_some err
      then err
      else if ltb_ℤ limits.max_tool_calls (pos tool_count)
      then some (too_many_tool_calls tool_count limits.max_tool_calls)
      else none

-- How many steps call a skill or a tool.
abbrev pub tool_calls : List ExecutionStep → ℕ
tool_calls [] = 0
tool_calls (s ∷ steps) = (if calls_tool s.step_type then 1 else 0) + tool_calls steps

count_tools-error :
    (i n : ℕ) (steps : List ExecutionStep)
    → is_some (count_tools i n steps).0 ≡ not (all is_well_formed steps)
unfolding count_tools
count_tools-error i n [] = refl
count_tools-error i n (s ∷ steps) =
    ground (arith, count_tools-error (suc i) (if calls_tool s.step_type then suc n else n) steps)

count_tools-count :
    (i n : ℕ) (steps : List ExecutionStep)
    → all is_well_formed steps ≡ true
    → (count_tools i n steps).1 ≡ n + tool_calls steps
unfolding count_tools
count_tools-count i n [] ok = omega arith
count_tools-count i n (s ∷ steps) ok =
    ground (arith, count_tools-count (suc i) (if calls_tool s.step_type then suc n else n) steps)

-- The plan is within the limits.
unfoldable pub within_limits : ExecutionLimits → ExecutionPlan → Bool
within_limits limits p =
    not (p.assistant_id == "")
    && not (is_empty p.steps)
    && all is_well_formed p.steps
    && not (ltb_ℤ limits.max_steps (pos (length p.steps)))
    && not (ltb_ℤ limits.max_tool_calls (pos (tool_calls p.steps)))

-- The validator of the planner accepts a plan exactly if it has an assistant and steps, each step
-- has a name and a known type, and neither the steps nor the steps that call a skill or a tool are
-- more than the limits allow.
pub validate_limits-accepts :
    (limits : ExecutionLimits) (p : ExecutionPlan)
    → is_some (validate_limits limits (some p)) ≡ not (within_limits limits p)
unfolding validate_limits within_limits
validate_limits-accepts limits p = elim (Bool-cases (all is_well_formed p.steps)) [
  | inl ok ↦ rw (count_tools-count 0 0 p.steps ok) (ground (arith, count_tools-error 0 0 p.steps))
  | inr bad ↦ ground (arith, count_tools-error 0 0 p.steps)
]

-- A plan that the validator of the planner accepts and that is not frozen is validated by the plan
-- itself exactly if no two of its steps have the same name.
pub validate_limits-validate :
    (fresh : ℕ → String) (drawn : ℕ) (limits : ExecutionLimits) (p : ExecutionPlan)
    → validate_limits limits (some p) ≡ none
    → p.frozen ≡ false
    → is_some (validate fresh drawn p).1 ≡ not (distinct_names p.steps)
unfolding within_limits
validate_limits-validate fresh drawn limits p ok thawed =
    ground (arith, validate_limits-accepts limits p, validate-accepts fresh drawn p)
