-- ===== src/Policy/Filing.antt =====
-- policy.go, Enforcer: how the rules of each tenant are filed.
use openbotstack_core.Base.{
  String, Bool, true, false, some, [], ◌≡◌, if◌then◌else◌, Dict, lookup, insert, erase, NodupKeys,
  lookup-insert, lookup-erase, insert-NodupKeys, erase-NodupKeys, arith, eq_iff,
}
use openbotstack_core.Policy.{PolicyRule, Enforcer, tenant_rules, new_enforcer}

-- The rules of a tenant stand under their own IDs, once, and belong to that tenant.
pub record IsFiled (tenant : String) (d : Dict PolicyRule) : Type 0 where
  pub once : NodupKeys d
  pub by_id : (id : String) (r : PolicyRule) → lookup id d ≡ some r → r.id ≡ id
  pub owned : (id : String) (r : PolicyRule) → lookup id d ≡ some r → r.tenant_id ≡ tenant

pub record IsWellFormed (e : Enforcer) : Type 0 where
  pub once : NodupKeys e.rules
  pub filed : (tenant : String) → IsFiled tenant (tenant_rules e tenant)

pub IsFiled-nil : (tenant : String) → IsFiled tenant []
unfolding lookup
IsFiled-nil tenant = record { once = tt; by_id = λ id r h. cc; owned = λ id r h. cc }

pub IsWellFormed-new : IsWellFormed new_enforcer
unfolding lookup
IsWellFormed-new = record { once = tt; filed = IsFiled-nil }

pub IsFiled-insert :
    (r : PolicyRule) (d : Dict PolicyRule)
    → IsFiled r.tenant_id d
    → IsFiled r.tenant_id (insert r.id r d)
IsFiled-insert r d f = record {
  once = insert-NodupKeys r.id r d f.once;
  by_id = λ id s h. ground (arith, lookup-insert r.id id r d, eq_iff r.id id, f.by_id id s);
  owned = λ id s h. ground (arith, lookup-insert r.id id r d, f.owned id s);
}

pub IsFiled-erase :
    (id tenant : String) (d : Dict PolicyRule) → IsFiled tenant d → IsFiled tenant (erase id d)
IsFiled-erase id tenant d f = record {
  once = erase-NodupKeys id d f.once;
  by_id = λ j s h. ground (arith, lookup-erase id j d, f.by_id j s);
  owned = λ j s h. ground (arith, lookup-erase id j d, f.owned j s);
}

pub IsFiled-either :
    (b : Bool) {tenant : String} {c d : Dict PolicyRule}
    → IsFiled tenant c
    → IsFiled tenant d
    → IsFiled tenant (if b then c else d)
IsFiled-either true h k = h
IsFiled-either false h k = k
