-- ===== src/Plan/Prepare/Tests.antt =====
-- A step that Prepare makes ready, and the theorems at it.
use Prim.Native.Nat.{◌*◌}
use openbotstack_core.Base.{
  ◌||◌, is_empty, has_prefix, contains, if◌then◌else◌, ◌+◌, String, false, none, some, [], ◌∷◌, ◌≡◌,
  refl, Dict, ◌==◌,
}
use openbotstack_core.Base.Int.{pos}
use openbotstack_core.Plan.{ExecutionStep}
use openbotstack_core.Plan.Prepare.{
  ready, prepare, resolve_all, resolve_arguments, coerce_arguments,
}
use openbotstack_core.Plan.Prepare.Outcome.{
  is_ready, is_ready-prepare, argument, argument-prepare, resolved_argument, all_in, is_resolved,
  prepared_value,
}
use openbotstack_core.Template.Numbers.{
  scan, all_digits, try_parse_bool, float_syntax, try_parse_float, try_parse_int, native_value,
  FloatOps, coerce_value,
}
use openbotstack_core.Template.Numbers.Coercion.{coerce_string_numbers, map_value}
use openbotstack_core.Template.Resolve.{TemplateHost, literal, template, resolve}
use openbotstack_core.Value.{Value, string, int64}

abbrev ops : FloatOps
ops = record {
  of_digit = λ n. n;
  ten = 10;
  add = λ m n. m + n;
  mul = λ m n. m * n;
  div = λ m _. m;
  neg = λ n. n;
}

abbrev host : TemplateHost
host = record {
  pieces = λ s. if s == "{{a}}" then template "{{a}}" "a" ∷ [] else literal s ∷ [];
  marshal = λ _. none;
  sprint = λ _. "value";
}

abbrev results : Dict Value
results = ("a", string "1") ∷ []

abbrev step : String → Value → ExecutionStep
step x y = record {
  name = "next";
  step_type = "tool";
  arguments = some (("x", string x) ∷ ("y", y) ∷ []);
  step_id = "";
  timeout = pos 0;
  expected_output = "";
  output_schema = none;
  parallelizable = false;
  parallel_group = "";
  risk_level = "";
}

is_ready-prepare_example : is_ready (prepare host results ops (step "{{b}}" (string "12"))) ≡ (
    is_empty results
    || all_in
        (λ v. is_resolved (prepared_value ops host results v))
        (step "{{b}}" (string "12")).arguments)
is_ready-prepare_example = is_ready-prepare ops host results (step "{{b}}" (string "12"))

prepare_next : prepare host results ops (step "z" (string "12")) ≡ ready (step "z" (int64 12))
unfolding prepare resolve_arguments coerce_arguments resolve_all coerce_string_numbers coerce_value
    native_value try_parse_int try_parse_float float_syntax try_parse_bool resolve contains
    has_prefix all_digits scan
prepare_next = refl

argument-prepare_example :
    argument "y" (step "z" (int64 12))
    ≡ resolved_argument ops host results
        (map_value ops (λ v. (coerce_value ops v).0) (argument "y" (step "z" (string "12"))))
argument-prepare_example =
    argument-prepare ops host results (step "z" (string "12")) (step "z" (int64 12)) "y"
      prepare_next

-- Without results a template is kept as it stands.
prepare_first : prepare host [] ops (step "x" (string "{{a}}")) ≡ ready (step "x" (string "{{a}}"))
unfolding prepare resolve_arguments coerce_arguments resolve_all coerce_string_numbers coerce_value
    native_value try_parse_int try_parse_float float_syntax try_parse_bool resolve contains
    has_prefix all_digits scan
prepare_first = refl
