-- ===== src/Plan/Replan/Accepted.antt =====
-- planner/replan.go: which plans Replan returns.
use openbotstack_core.Base.{
  ℕ, String, Bool, true, false, not, ◌&&◌, ◌||◌, Option, none, some, List, [], ◌∷◌, ◌≡◌, refl, ap,
  inl, inr, arith,
}
use openbotstack_core.Base.{is_empty, is_some, Bool-cases, Option-cases}
use openbotstack_core.Plan.{ExecutionPlan, PlanError, validate}
use openbotstack_core.Plan.Limits.{
  ExecutionLimits, validate_limits, within_limits, validate_limits-accepts,
  validate_limits-validate,
}
use openbotstack_core.Plan.Validity.{distinct_names}
use openbotstack_core.Plan.Replan.{
  Replanned, replanned, replan_error, frozen_plan, admit, replan, ReplanContext,
}

abbrev pub is_replanned : Replanned → Bool
is_replanned (replanned _) = true
is_replanned (replan_error _) = false

abbrev pub has_skills : Option (List String) → Bool
has_skills none = false
has_skills (some skills) = not (is_empty skills)

-- The plan has the lineage of `o`, and it is frozen unless it has no steps.
abbrev pub Replaces : ExecutionPlan → Replanned → Type 0
Replaces o (replanned q) = (q.parent_id ≡ o.id) × ((is_empty q.steps || q.frozen) ≡ true)
Replaces o (replan_error _) = Unit

module _ (limits : ExecutionLimits) (fresh : ℕ → String) (drawn : ℕ) where
  frozen_plan-accepts :
      (r : ExecutionPlan × Option PlanError × ℕ)
      → is_replanned (frozen_plan limits fresh drawn r) ≡ not (is_some r.1)
  frozen_plan-accepts (p, none, _) = refl
  frozen_plan-accepts (p, some e, _) = refl

  admit-accepts :
      (parent_id : String) (p : ExecutionPlan)
      → p.frozen ≡ false
      → is_replanned (admit limits fresh drawn parent_id p)
        ≡ (is_empty p.steps || (within_limits limits p && distinct_names p.steps))
  unfolding admit within_limits
  admit-accepts parent_id p thawed =
      let q : ExecutionPlan = record p { parent_id = parent_id } in
      elim (Bool-cases (is_empty p.steps)) [
        | inl h ↦ rw h refl
        | inr h ↦ elim (Option-cases (validate_limits limits (some q))) [
          | inl e ↦
              let accepted : is_some (validate_limits limits (some q)) ≡ false = ap is_some e in
              let frozen_by = frozen_plan-accepts (validate fresh drawn q) in
              rw (h, e)
                (ground (
                  arith,
                  accepted,
                  frozen_by,
                  validate_limits-accepts limits q,
                  validate_limits-validate fresh drawn limits q e thawed,
                ))
          | inr (err, e) ↦
              let refused : is_some (validate_limits limits (some q)) ≡ true = ap is_some e in
              rw (h, e) (ground (arith, refused, validate_limits-accepts limits q))
        ]
      ]

  -- A plan of the model that is not frozen takes the place of the original plan exactly if there
  -- are an original plan and skills, and it has no steps or is within the limits and no two of its
  -- steps have the same name.
  pub replan-accepts :
      (p : ExecutionPlan) (r : ReplanContext)
      → p.frozen ≡ false
      → is_replanned (replan limits fresh drawn (some p) r) ≡ (
          is_some r.original_plan
          && has_skills r.skills
          && (is_empty p.steps || (within_limits limits p && distinct_names p.steps)))
  unfolding replan
  replan-accepts p r thawed = elim (Option-cases r.original_plan) [
    | inl e ↦ rw e refl
    | inr (o, e) ↦ elim (Option-cases r.skills) [
      | inl e' ↦ rw (e, e') refl
      | inr ([], e') ↦ rw (e, e') refl
      | inr (_ ∷ _, e') ↦ rw (e, e') (admit-accepts o.id p thawed)
    ]
  ]

  frozen_plan-Replaces :
      (o : ExecutionPlan) (r : ExecutionPlan × Option PlanError × ℕ)
      → r.0.parent_id ≡ o.id
      → r.0.frozen ≡ not (is_some r.1)
      → Replaces o (frozen_plan limits fresh drawn r)
  frozen_plan-Replaces o (p, none, _) lineage frozen = (lineage, ground (arith, frozen))
  frozen_plan-Replaces o (p, some _, _) _ _ = tt

  validate-Replaces :
      (o p : ExecutionPlan)
      → p.parent_id ≡ o.id
      → p.frozen ≡ false
      → is_empty p.steps ≡ false
      → Replaces o (frozen_plan limits fresh drawn (validate fresh drawn p))
  unfolding validate
  validate-Replaces o p lineage thawed steps =
      rw (thawed, steps) (frozen_plan-Replaces o _ lineage refl)

  admit-Replaces :
      (o p : ExecutionPlan) → p.frozen ≡ false → Replaces o (admit limits fresh drawn o.id p)
  unfolding admit
  admit-Replaces o p thawed =
      let q : ExecutionPlan = record p { parent_id = o.id } in
      elim (Bool-cases (is_empty p.steps)) [
        | inl h ↦ rw h (refl, ground (arith, h))
        | inr h ↦ elim (Option-cases (validate_limits limits (some q))) [
          | inl e ↦ rw (h, e) (validate-Replaces o q refl thawed h)
          | inr (_, e) ↦ rw (h, e) tt
        ]
      ]

  -- A plan that takes the place of an original plan, from a plan of the model that is not frozen,
  -- has the ID of the original as its parent, and it is frozen or has no steps.
  pub replan-Replaces :
      (o p : ExecutionPlan) (r : ReplanContext)
      → p.frozen ≡ false
      → r.original_plan ≡ some o
      → Replaces o (replan limits fresh drawn (some p) r)
  unfolding replan
  replan-Replaces o p r thawed original = elim (Option-cases r.skills) [
    | inl e ↦ rw (original, e) tt
    | inr ([], e) ↦ rw (original, e) tt
    | inr (_ ∷ _, e) ↦ rw (original, e) (admit-Replaces o p thawed)
  ]
