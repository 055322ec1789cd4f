-- ===== src/Plan/Replan.antt =====
-- planner/replan.go: a plan that takes the place of one whose step failed.
use openbotstack_core.Base.{
  ℕ, zero, suc, String, Bool, true, false, not, ◌&&◌, ◌||◌, ◌==◌, Option, none, some, List, [], ◌∷◌,
  ◌++◌, ◌≡◌, refl, sym, ap, ◌∙◌, if◌then◌else◌, ◌⊎◌, inl, inr, ◌≤◌, ◌<◌, ◌+◌, arith,
}
use openbotstack_core.Base.{is_empty, is_some}
use openbotstack_core.Plan.{ExecutionStep, ExecutionPlan, PlanError, validate}
use openbotstack_core.Plan.Limits.{ExecutionLimits, LimitError, validate_limits, within_limits}
pub mod Accepted
pub mod Tests

pub data ReplanError : Type 0 where
  no_original_plan no_planner_context no_skills_available round_failed : ReplanError
  outside_limits : LimitError → ReplanError
  freeze_failed : PlanError → ReplanError

-- The new plan, or the error.
pub data Replanned : Type 0 where
  replanned : ExecutionPlan → Replanned
  replan_error : ReplanError → Replanned

-- What `Replan` is told; the rest of the context is only shown to the model: the results of the
-- earlier steps and of the failed one, and the planner context, of which the IDs of the skills stand
-- here.
pub record ReplanContext : Type 0 where
  pub original_plan : Option ExecutionPlan
  pub failed_step : ExecutionStep
  pub trigger : String
  pub skills : Option (List String)
  pub error_message : String

module _ (limits : ExecutionLimits) (fresh : ℕ → String) (drawn : ℕ) where
  abbrev pub frozen_plan : ExecutionPlan × Option PlanError × ℕ → Replanned
  frozen_plan (p, none, _) = replanned p
  frozen_plan (p, some e, _) = replan_error (freeze_failed e)

  -- The rest of `Replan` from the lineage of the plan on: no steps are the signal to stop.
  unfoldable pub admit : String → ExecutionPlan → Replanned
  admit parent_id round_plan =
      let p : ExecutionPlan = record round_plan { parent_id = parent_id } in
      if is_empty p.steps then replanned p else elim (validate_limits limits (some p)) [
        | some e ↦ replan_error (outside_limits e)
        | none ↦ frozen_plan (validate fresh drawn p)
      ]

  -- `Replan`, where `round` is the plan that the round with the model ends with, if it does.
  unfoldable pub replan : Option ExecutionPlan → ReplanContext → Replanned
  replan round r = elim r.original_plan [
    | none ↦ replan_error no_original_plan
    | some original ↦ elim r.skills [
      | none ↦ replan_error no_planner_context
      | some skills ↦
          if is_empty skills
          then replan_error no_skills_available
          else elim round [ none ↦ replan_error round_failed | some p ↦ admit original.id p ]
    ]
  ]
