-- ===== src/Policy/Removing.antt =====
-- policy.go, RemoveRule: which tenant loses the rule.
use openbotstack_core.Base.{
  String, true, none, some, [], ◌∷◌, ◌≡◌, ◌⊎◌, inl, inr, ◌==◌, if◌then◌else◌, Dict, lookup, erase,
  NodupKeys, lookup-nil, lookup-cons, is_some, arith, eq_iff, eq_refl, Option-cases,
}
use openbotstack_core.Policy.{
  PolicyRule, Enforcer, or_empty, tenant_rules, remove_from, remove_rule, not_found,
}

remove_from-none :
    (id : String) (ds : Dict (Dict PolicyRule))
    → remove_from id ds ≡ none
    → (t : String) → lookup id (or_empty (lookup t ds)) ≡ none
unfolding remove_from
remove_from-none id [] h t = rw (lookup-nil, or_empty) (lookup-nil id)
remove_from-none id ((tid, d) ∷ ds) h t = ground (
  arith,
  lookup-cons tid t d ds,
  Option-cases (lookup id d),
  Option-cases (remove_from id ds),
  λ (p : remove_from id ds ≡ none). remove_from-none id ds p t,
)

-- What becomes of each tenant when the tenant `t` loses the rule.
abbrev pub Loses : String → String → Dict (Dict PolicyRule) → Dict (Dict PolicyRule) → Type 0
Loses id t ds after =
    (is_some (lookup id (or_empty (lookup t ds))) ≡ true)
    × ((u : String)
        → or_empty (lookup u after)
          ≡ (if t == u then erase id (or_empty (lookup u ds)) else or_empty (lookup u ds)))

Loses-here :
    (id tid : String) (d : Dict PolicyRule) (ds : Dict (Dict PolicyRule))
    → is_some (lookup id d) ≡ true
    → Loses id tid ((tid, d) ∷ ds) ((tid, erase id d) ∷ ds)
Loses-here id tid d ds found = (
  ground (arith, lookup-cons tid tid d ds, eq_refl tid),
  λ v. ground (arith, lookup-cons tid v d ds, lookup-cons tid v (erase id d) ds),
)

Loses-there :
    (id tid t : String) (d : Dict PolicyRule) (ds after : Dict (Dict PolicyRule))
    → lookup tid ds ≡ none
    → Loses id t ds after
    → Loses id t ((tid, d) ∷ ds) ((tid, d) ∷ after)
Loses-there id tid t d ds after fresh (had, lost) = (
  ground (arith, lookup-cons tid t d ds, eq_iff tid t, lookup-nil {V = PolicyRule} id),
  λ v. ground (
    arith,
    lookup-cons tid v d ds,
    lookup-cons tid v d after,
    lost v,
    eq_iff tid v,
    eq_iff t v,
    lookup-nil {V = PolicyRule} id,
  ),
)

-- The two ways in which the loop of `RemoveRule` ends with success.
remove_from-cases :
    (id tid : String) (d : Dict PolicyRule) (ds after : Dict (Dict PolicyRule))
    → remove_from id ((tid, d) ∷ ds) ≡ some after
    → (is_some (lookup id d) ≡ true) × (after ≡ (tid, erase id d) ∷ ds)
      ⊎ ((ds' : Dict (Dict PolicyRule)) × (remove_from id ds ≡ some ds') × (after ≡ (tid, d) ∷ ds'))
unfolding remove_from
remove_from-cases id tid d ds after h = elim (Option-cases (lookup id d)) [
  | inr (r, found) ↦ inl (rw found, ground arith)
  | inl missing ↦ elim (Option-cases (remove_from id ds)) [
    | inl nowhere ↦ cc
    | inr (ds', removed) ↦ inr (ds', removed, ground arith)
  ]
]

remove_from-nil :
    (id : String) {after : Dict (Dict PolicyRule)} → ¬ (remove_from id [] ≡ some after)
unfolding remove_from
remove_from-nil id h = cc

remove_from-Loses :
    (id : String) (ds after : Dict (Dict PolicyRule))
    → NodupKeys ds
    → remove_from id ds ≡ some after
    → (t : String) × Loses id t ds after
remove_from-Loses id [] after u h = absurd (remove_from-nil id h)
remove_from-Loses id ((tid, d) ∷ ds) after (fresh, u) h =
    elim (remove_from-cases id tid d ds after h) [
      | inl (found, e) ↦ (tid, rw e (Loses-here id tid d ds found))
      | inr (ds', removed, e) ↦
          let (t, l) = remove_from-Loses id ds ds' u removed in
          (t, rw e (Loses-there id tid t d ds ds' fresh l))
    ]

-- A call of `RemoveRule` that succeeds takes the rule with that ID from exactly one tenant, one
-- that had it, and leaves the rules of every other tenant; a call that fails changes nothing, and
-- fails only if no tenant has a rule with the ID.
pub remove_rule_one_tenant :
    (e : Enforcer) (id : String)
    → NodupKeys e.rules
    → ((remove_rule e id).1 ≡ none) × ((t : String) × Loses id t e.rules (remove_rule e id).0.rules)
      ⊎ ((remove_rule e id).1 ≡ some (not_found id))
        × ((remove_rule e id).0 ≡ e)
        × ((t : String) → lookup id (tenant_rules e t) ≡ none)
unfolding remove_rule
remove_rule_one_tenant e id u = elim (Option-cases (remove_from id e.rules)) [
  | inl h ↦ inr (rw (h, remove_rule), rw (h, remove_rule), remove_from-none id e.rules h)
  | inr (ds, h) ↦
      let (t, l) = remove_from-Loses id e.rules ds u h in
      inl (rw (h, remove_rule), (t, rw (h, remove_rule) l))
]
