-- ===== src/Plan/Tests.antt =====
-- Runs of the validation and the grouping of plans, and the theorems at concrete inputs.
use openbotstack_core.Base.{
  insert, lookup, ℕ, String, ◌<>◌, Bool, true, false, none, some, List, [], ◌∷◌, ◌≡◌, refl,
  show_nat, is_some, concat, All, ◌==◌,
}
use text.Mathlib.TextLemmas.{cons-append}
use Prim.Native.String.compare as compare_text
use openbotstack_core.Base.Int.{pos}
use openbotstack_core.Plan.{
  take_batch, group_from, validate_steps, ExecutionStep, ExecutionPlan, duplicate_name, validate,
  group_parallel_steps,
}
use openbotstack_core.Plan.Validity.{validate-accepts}
use openbotstack_core.Plan.Grouping.{IsBatch, IsMaximal, group_parallel_steps_batches}

abbrev step : String → Bool → String → ExecutionStep
step name parallelizable group = record {
  name = name;
  step_type = "tool";
  arguments = none;
  step_id = "";
  timeout = pos 0;
  expected_output = "";
  output_schema = none;
  parallelizable = parallelizable;
  parallel_group = group;
  risk_level = "";
}

abbrev plan_of : List ExecutionStep → ExecutionPlan
plan_of steps = record {
  id = "";
  parent_id = "";
  assistant_id = "helper";
  steps = steps;
  reasoning = "";
  frozen = false;
}

abbrev pub fetch : ExecutionStep
fetch = step "fetch" true "a"

abbrev read : ExecutionStep
read = step "read" true "a"

abbrev report : ExecutionStep
report = step "report" false ""

abbrev pub two : ExecutionPlan
two = plan_of (fetch ∷ read ∷ [])

abbrev pub repeats : ExecutionPlan
repeats = plan_of (fetch ∷ read ∷ fetch ∷ [])

abbrev pub drawn_id : ℕ → String
drawn_id n = "id-" <> show_nat n

drawn_id_nonempty : (n : ℕ) → (drawn_id n == "") ≡ false
drawn_id_nonempty n = rw (cons-append, compare_text.cons-nil) refl

freezes : validate drawn_id 0 two ≡ (
  record two {
    id = "id-0";
    steps = record fetch { step_id = "id-1" } ∷ record read { step_id = "id-2" } ∷ [];
    frozen = true;
  },
  none,
  3,
)
unfolding validate show_nat validate_steps lookup insert
freezes = refl

rejects : (validate drawn_id 0 repeats).1 ≡ some (duplicate_name "fetch" 0 2)
unfolding validate validate_steps lookup insert
rejects = refl

groups :
    group_parallel_steps (fetch ∷ read ∷ report ∷ read ∷ [])
    ≡ (fetch ∷ read ∷ []) ∷ (report ∷ []) ∷ (read ∷ []) ∷ []
unfolding group_parallel_steps group_from take_batch
groups = refl

validate-accepts_example : is_some (validate drawn_id 0 repeats).1 ≡ true
validate-accepts_example = validate-accepts drawn_id 0 repeats

group_parallel_steps_batches_example :
    (concat (group_parallel_steps (fetch ∷ read ∷ report ∷ [])) ≡ fetch ∷ read ∷ report ∷ [])
    × All IsBatch (group_parallel_steps (fetch ∷ read ∷ report ∷ []))
    × IsMaximal (group_parallel_steps (fetch ∷ read ∷ report ∷ []))
group_parallel_steps_batches_example = group_parallel_steps_batches (fetch ∷ read ∷ report ∷ [])
