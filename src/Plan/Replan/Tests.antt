-- ===== src/Plan/Replan/Tests.antt =====
-- Runs of Replan, and the theorems at concrete inputs.
use openbotstack_core.Base.{false, some, [], ◌∷◌, ◌≡◌, refl}
use openbotstack_core.Plan.{ExecutionPlan}
use openbotstack_core.Plan.Limits.{within_limits, default_limits}
use openbotstack_core.Plan.Tests.{fetch, two, repeats, drawn_id}
use openbotstack_core.Plan.Replan.{
  admit, replanned, replan_error, no_skills_available, replan, ReplanContext,
}
use openbotstack_core.Plan.Replan.Accepted.{is_replanned, Replaces, replan-accepts, replan-Replaces}

abbrev failing : ExecutionPlan
failing = record two { id = "p1" }

abbrev failure : ReplanContext
failure = record {
  original_plan = some failing;
  failed_step = fetch;
  trigger = "tool_failure";
  skills = some ("fetch" ∷ []);
  error_message = "timeout";
}

stops :
    replan default_limits drawn_id 0 (some (record two { steps = [] })) failure
    ≡ replanned (record two { steps = []; parent_id = "p1" })
unfolding replan admit
stops = refl

no_skills :
    replan default_limits drawn_id 0 (some two) (record failure { skills = some [] })
    ≡ replan_error no_skills_available
unfolding replan
no_skills = refl

replan-accepts_example :
    is_replanned (replan default_limits drawn_id 0 (some repeats) failure) ≡ false
unfolding within_limits
replan-accepts_example = replan-accepts default_limits drawn_id 0 repeats failure refl

replan-Replaces_example : Replaces failing (replan default_limits drawn_id 0 (some two) failure)
replan-Replaces_example = replan-Replaces default_limits drawn_id 0 failing two failure refl refl
