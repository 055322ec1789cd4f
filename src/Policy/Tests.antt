-- ===== src/Policy/Tests.antt =====
-- Runs of the policy engine, and its theorems at concrete inputs.
use openbotstack_core.Base.{
  trim_suffix, has_suffix, String, true, false, none, some, [], ◌∷◌, ◌≡◌, refl, Dict, lookup,
  insert, has_prefix, arith, eq_iff, ◌⊎◌,
}
use openbotstack_core.Base.Int.{pos}
use openbotstack_core.Base.Sort.{sort_by, Sort, insertion_sort}
use openbotstack_core.Policy.{
  has_value, has_attribute, match_action, decide, ensure_tenant, PolicyRule, Enforcer, denied,
  not_found, priority_gt, values, tenant_rules, evaluate, add_rule, remove_rule, new_enforcer,
  match_resource, match_conditions,
}
use openbotstack_core.Policy.Decision.{Decides, evaluate-Decides}
use openbotstack_core.Policy.Filing.{IsWellFormed, IsWellFormed-new}
use openbotstack_core.Policy.Adding.{evaluate-add_rule_ne, add_rule-IsWellFormed}
use openbotstack_core.Policy.Removing.{Loses, remove_rule_one_tenant}

priority_gt_asym : (a b : PolicyRule) → priority_gt a b ≡ true → priority_gt b a ≡ false
priority_gt_asym a b h = ground arith

priority_gt_trans :
    (a b c : PolicyRule)
    → priority_gt a b ≡ false
    → priority_gt b c ≡ false
    → priority_gt a c ≡ false
priority_gt_trans a b c h k = ground arith

abbrev by_priority : Sort priority_gt
by_priority = insertion_sort priority_gt priority_gt_asym priority_gt_trans

abbrev no_models : PolicyRule
no_models = record {
  id = "no-models";
  tenant_id = "acme";
  effect = "deny";
  action = "*";
  resource = "model/*";
  conditions = [];
  priority = pos 10;
}

abbrev one_model : PolicyRule
one_model = record {
  id = "one-model";
  tenant_id = "acme";
  effect = "allow";
  action = "model.generate";
  resource = "model/small";
  conditions = ("role", "admin") ∷ [];
  priority = pos 20;
}

abbrev acme : Enforcer
acme = (add_rule (add_rule new_enforcer no_models).0 one_model).0

abbrev admin : Dict String
admin = ("role", "admin") ∷ []

denied_without_role :
    evaluate by_priority acme true "acme" "model.generate" "model/small" []
    ≡ some (denied "no-models")
unfolding evaluate add_rule lookup ensure_tenant insert decide sort_by match_action match_resource
    has_suffix match_conditions has_attribute has_value has_prefix trim_suffix
denied_without_role = refl

allowed_with_role :
    evaluate by_priority acme true "acme" "model.generate" "model/small" admin ≡ none
unfolding evaluate add_rule lookup ensure_tenant insert decide sort_by match_action match_resource
    has_suffix match_conditions has_attribute has_value
allowed_with_role = refl

evaluate-Decides_example :
    Decides "model.generate" "model/small" admin
      (values (tenant_rules acme "acme"))
      (evaluate by_priority acme true "acme" "model.generate" "model/small" admin)
evaluate-Decides_example =
    evaluate-Decides "model.generate" "model/small" admin by_priority acme "acme"
      (ground (arith, eq_iff "acme" "")) (ground (arith, eq_iff "model.generate" ""))

abbrev night : Dict String
night = ("time_after", "18:00") ∷ ("time_before", "09:00") ∷ []

abbrev night_admin : Dict String
night_admin = ("role", "admin") ∷ night

evaluate-add_rule_ne_example :
    evaluate by_priority
      (add_rule acme (record no_models { tenant_id = "other" })).0
      true
      "acme"
      "model.generate"
      "model/small"
      admin
    ≡ evaluate by_priority acme true "acme" "model.generate" "model/small" admin
evaluate-add_rule_ne_example =
    evaluate-add_rule_ne by_priority acme (record no_models { tenant_id = "other" }) true "acme"
      "model.generate" "model/small" admin (ground (arith, eq_iff "other" "acme"))

acme-IsWellFormed : IsWellFormed acme
acme-IsWellFormed =
    add_rule-IsWellFormed (add_rule new_enforcer no_models).0 one_model
      (add_rule-IsWellFormed new_enforcer no_models IsWellFormed-new)

add_rule-IsWellFormed_example : IsWellFormed (add_rule new_enforcer no_models).0
add_rule-IsWellFormed_example = add_rule-IsWellFormed new_enforcer no_models IsWellFormed-new

remove_rule_one_tenant_example :
    ((remove_rule acme "no-models").1 ≡ none)
      × ((t : String) × Loses "no-models" t acme.rules (remove_rule acme "no-models").0.rules)
    ⊎ ((remove_rule acme "no-models").1 ≡ some (not_found "no-models"))
      × ((remove_rule acme "no-models").0 ≡ acme)
      × ((t : String) → lookup "no-models" (tenant_rules acme t) ≡ none)
remove_rule_one_tenant_example = remove_rule_one_tenant acme "no-models" acme-IsWellFormed.once
