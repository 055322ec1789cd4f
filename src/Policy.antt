-- ===== src/Policy.antt =====
-- control/policy/policy.go: rules, the rule store of each tenant, and the evaluation of a request.
-- `sort.Slice` is the parameter `by_priority`; a nil context is `ctx ≡ false`.
pub mod Matching
pub mod Decision
pub mod Filing
pub mod Adding
pub mod Removing
mod Tests
use openbotstack_core.Base.{
  String, ◌<>◌, Bool, true, false, not, ◌&&◌, ◌||◌, Option, none, some, is_some, List, [], ◌∷◌, map,
  ◌==◌, if◌then◌else◌, Dict, lookup, insert, erase, all, is_empty, has_prefix, has_suffix,
  trim_suffix, str_gt, str_ge, str_lt,
}
use openbotstack_core.Base.Int.{ℤ, ltb_ℤ}
use openbotstack_core.Base.Sort.{Sort}

pub record PolicyRule : Type 0 where
  pub id : String
  pub tenant_id : String
  pub effect : String
  pub action : String
  pub resource : String
  pub conditions : Dict String
  pub priority : ℤ

pub record Enforcer : Type 0 where
  pub rules : Dict (Dict PolicyRule)

-- `NewEnforcer`
abbrev pub new_enforcer : Enforcer
new_enforcer = record { rules = [] }

pub data PolicyError : Type 0 where
  context_required tenant_id_required action_required rule_id_required : PolicyError
  denied already_exists not_found : String → PolicyError

-- `matchAction`
unfoldable pub match_action : String → String → Bool
match_action pattern action = if pattern == "*" then true else pattern == action

-- `matchResource`
unfoldable pub match_resource : String → String → Bool
match_resource pattern resource =
    if pattern == "*"
    then true
    else if has_suffix pattern "/*"
    then (let prefix = trim_suffix pattern "/*" in
        has_prefix resource (prefix <> "/") || resource == prefix)
    else pattern == resource

-- `matchTimeWindow`
unfoldable pub match_time_window : String → String → String → Bool
match_time_window after before now =
    if str_gt after before
    then str_ge now after || str_lt now before
    else str_ge now after && str_lt now before

-- `attrVal, ok := attributes[key]`, and whether it is there with the value.
unfoldable pub has_value : Option String → String → Bool
has_value none val = false
has_value (some v) val = v == val

-- One round of the loop over the conditions: false where the loop returns false.
unfoldable pub has_attribute : Dict String → String × String → Bool
has_attribute attributes (key, val) =
    if key == "time_after" || key == "time_before"
    then true
    else has_value (lookup key attributes) val

-- The check of a window with both ends.
unfoldable pub in_window : Dict String → String → String → Bool
in_window attributes after before = elim (lookup "current_time" attributes) [
  | none ↦ false
  | some now ↦ match_time_window after before now
]

-- `matchConditions`
unfoldable pub match_conditions : Dict String → Dict String → Bool
match_conditions conditions attributes =
    let exact = all (has_attribute attributes) conditions in
    if is_empty conditions then true else elim (lookup "time_after" conditions) [
      | none ↦ exact
      | some after ↦ elim (lookup "time_before" conditions) [
        | none ↦ exact
        | some before ↦ in_window attributes after before
      ]
    ]

-- The less function that `Evaluate` gives to `sort.Slice`: higher priorities first.
abbrev pub priority_gt : PolicyRule → PolicyRule → Bool
priority_gt a b = ltb_ℤ b.priority a.priority

-- The values of a map, in the order of a `range` loop.
abbrev pub values : Dict PolicyRule → List PolicyRule
values d = map (λ (_, r). r) d

-- The loop of `Evaluate` over the sorted rules; `none` is a nil error.
unfoldable pub decide : List PolicyRule → String → String → Dict String → Option PolicyError
decide [] action resource attributes = none
decide (rule ∷ rest) action resource attributes =
    let next = decide rest action resource attributes in
    if not (match_action rule.action action)
    then next
    else if not (match_resource rule.resource resource)
    then next
    else if not (match_conditions rule.conditions attributes)
    then next
    else if rule.effect == "deny"
    then some (denied rule.id)
    else if rule.effect == "allow"
    then none
    else next

abbrev pub or_empty : Option (Dict PolicyRule) → Dict PolicyRule
or_empty none = []
or_empty (some d) = d

-- `e.rules[tenantID]`: the nil map reads as the empty one.
abbrev pub tenant_rules : Enforcer → String → Dict PolicyRule
tenant_rules e tenant = or_empty (lookup tenant e.rules)

module _ (by_priority : Sort priority_gt) where
  -- `Enforcer.Evaluate`
  unfoldable pub evaluate :
      Enforcer → Bool → String → String → String → Dict String → Option PolicyError
  evaluate e ctx tenant action resource attributes =
      if not ctx
      then some context_required
      else if tenant == ""
      then some tenant_id_required
      else if action == ""
      then some action_required
      else if is_empty (tenant_rules e tenant)
      then none
      else decide (by_priority.sort (values (tenant_rules e tenant))) action resource attributes

-- The first step of `AddRule` under its lock: a tenant's map is made where there is none.
unfoldable pub ensure_tenant : String → Enforcer → Enforcer
ensure_tenant tenant e = elim (lookup tenant e.rules) [
  | none ↦ record { rules = insert tenant [] e.rules }
  | some d ↦ e
]

-- `e.rules[tenantID] = rules`
abbrev pub set_tenant : Enforcer → String → Dict PolicyRule → Enforcer
set_tenant e tenant rules = record { rules = insert tenant rules e.rules }

-- `Enforcer.AddRule`: the new state, and the error.
unfoldable pub add_rule : Enforcer → PolicyRule → Enforcer × Option PolicyError
add_rule e rule =
    if rule.id == ""
    then (e, some rule_id_required)
    else let ready = ensure_tenant rule.tenant_id e in
      let present = tenant_rules ready rule.tenant_id in
      if is_some (lookup rule.id present)
      then (ready, some (already_exists rule.id))
      else (set_tenant ready rule.tenant_id (insert rule.id rule present), none)

-- The loop of `RemoveRule`: the first tenant visited that has the rule loses it.
unfoldable pub remove_from : String → Dict (Dict PolicyRule) → Option (Dict (Dict PolicyRule))
remove_from id [] = none
remove_from id ((tid, rules) ∷ rest) =
    let later = remove_from id rest in
    elim (lookup id rules) [
      | some old ↦ some ((tid, erase id rules) ∷ rest)
      | none ↦ elim later [ none ↦ none | some rest' ↦ some ((tid, rules) ∷ rest') ]
    ]

-- `Enforcer.RemoveRule`
unfoldable pub remove_rule : Enforcer → String → Enforcer × Option PolicyError
remove_rule e id = elim (remove_from id e.rules) [
  | none ↦ (e, some (not_found id))
  | some rules ↦ (record { rules = rules }, none)
]

-- `Enforcer.ListRules`
unfoldable pub list_rules : Enforcer → String → List PolicyRule
list_rules e tenant = values (tenant_rules e tenant)
