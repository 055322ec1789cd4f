-- ===== src/Policy/Adding.antt =====
-- policy.go, AddRule: what a tenant has after it, and what other tenants keep.
use openbotstack_core.Base.{
  String, Bool, none, some, [], ◌≡◌, ◌≢◌, subst, inl, inr, ◌==◌, if◌then◌else◌, Dict, lookup,
  insert, NodupKeys, lookup-insert, insert-NodupKeys, is_some, arith, eq_iff, eq_false, Bool-cases,
  Option-cases,
}
use openbotstack_core.Base.Sort.{Sort}
use openbotstack_core.Policy.{
  PolicyRule, Enforcer, priority_gt, or_empty, tenant_rules, evaluate, ensure_tenant, add_rule,
}
use openbotstack_core.Policy.Filing.{IsFiled, IsWellFormed, IsFiled-insert, IsFiled-either}

tenant_rules-insert :
    (e : Enforcer) (t u : String) (d : Dict PolicyRule)
    → or_empty (lookup u (insert t d e.rules)) ≡ (if t == u then d else tenant_rules e u)
tenant_rules-insert e t u d = ground (arith, lookup-insert t u d e.rules)

tenant_rules-ensure :
    (e : Enforcer) (t u : String) → tenant_rules (ensure_tenant t e) u ≡ tenant_rules e u
unfolding ensure_tenant
tenant_rules-ensure e t u =
    ground (arith, tenant_rules-insert e t u [], eq_iff t u, Option-cases (lookup t e.rules))

-- After `AddRule` a tenant has the rules that it had, and, if the call succeeds, the new rule under
-- its ID; a call that fails adds nothing to any tenant.
tenant_rules-add_rule :
    (e : Enforcer) (rule : PolicyRule) (tenant : String)
    → tenant_rules (add_rule e rule).0 tenant ≡ (
        if is_some (add_rule e rule).1
        then tenant_rules e tenant
        else if rule.tenant_id == tenant
        then insert rule.id rule (tenant_rules e tenant)
        else tenant_rules e tenant)
unfolding add_rule
tenant_rules-add_rule e rule tenant =
    let t = rule.tenant_id in
    let ready = ensure_tenant t e in
    ground (
      arith,
      tenant_rules-ensure e t tenant,
      tenant_rules-ensure e t t,
      tenant_rules-insert ready t tenant (insert rule.id rule (tenant_rules ready t)),
      eq_iff t tenant,
    )

-- Adding a rule, whether it succeeds or fails, changes no decision for another tenant.
pub evaluate-add_rule_ne :
    (by_priority : Sort priority_gt) (e : Enforcer) (rule : PolicyRule) (ctx : Bool)
    (tenant action resource : String) (attributes : Dict String)
    → rule.tenant_id ≢ tenant
    → evaluate by_priority (add_rule e rule).0 ctx tenant action resource attributes
      ≡ evaluate by_priority e ctx tenant action resource attributes
unfolding evaluate
evaluate-add_rule_ne by_priority e rule ctx tenant action resource attributes h =
    ground (arith, tenant_rules-add_rule e rule tenant, eq_false rule.tenant_id tenant h)

ensure_tenant_absent :
    (e : Enforcer) (t : String)
    → lookup t e.rules ≡ none
    → ensure_tenant t e ≡ record { rules = insert t [] e.rules }
unfolding ensure_tenant
ensure_tenant_absent e t h = rw (h, ensure_tenant)

ensure_tenant_present :
    (e : Enforcer) (t : String) (d : Dict PolicyRule)
    → lookup t e.rules ≡ some d
    → ensure_tenant t e ≡ e
unfolding ensure_tenant
ensure_tenant_present e t d h = rw (h, ensure_tenant)

once-ensure : (e : Enforcer) (t : String) → NodupKeys e.rules → NodupKeys (ensure_tenant t e).rules
once-ensure e t u = elim (Option-cases (lookup t e.rules)) [
  | inl h ↦ rw (ensure_tenant_absent e t h) (insert-NodupKeys t [] e.rules u)
  | inr (d, h) ↦ rw (ensure_tenant_present e t d h) u
]

once-add_rule :
    (e : Enforcer) (rule : PolicyRule) → NodupKeys e.rules → NodupKeys (add_rule e rule).0.rules
unfolding add_rule
once-add_rule e rule u =
    let t = rule.tenant_id in
    let ready = ensure_tenant t e in
    let v = once-ensure e t u in
    elim (Bool-cases (rule.id == "")) [
      | inl p ↦ rw p u
      | inr n ↦ elim (Bool-cases (is_some (lookup rule.id (tenant_rules ready t)))) [
        | inl p ↦ rw (n, p) v
        | inr m ↦
            rw (n, m)
              (insert-NodupKeys t (insert rule.id rule (tenant_rules ready t)) ready.rules v)
      ]
    ]

-- `AddRule` keeps the rules of each tenant filed.
pub add_rule-IsWellFormed :
    (e : Enforcer) (rule : PolicyRule) → IsWellFormed e → IsWellFormed (add_rule e rule).0
add_rule-IsWellFormed e rule w = record {
  once = once-add_rule e rule w.once;
  filed = λ tenant. rw (tenant_rules-add_rule e rule tenant) (
      IsFiled-either (is_some (add_rule e rule).1) (w.filed tenant)
        (elim (Bool-cases (rule.tenant_id == tenant)) [
          | inl p ↦
              let q = (eq_iff rule.tenant_id tenant).0 p in
              rw p (
                subst (λ t. IsFiled t (insert rule.id rule (tenant_rules e t))) q
                  (IsFiled-insert rule (tenant_rules e rule.tenant_id) (w.filed rule.tenant_id)))
          | inr n ↦ rw n (w.filed tenant)
        ]));
}
