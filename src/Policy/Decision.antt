-- ===== src/Policy/Decision.antt =====
-- policy.go, Evaluate: the strongest rule that applies decides.
use openbotstack_core.Base.{
  String, Bool, true, false, ◌&&◌, ◌||◌, Option, none, some, List, [], ◌∷◌, ◌≡◌, ◌≢◌, refl, ◌⊎◌,
  inl, inr, ◌==◌, if◌then◌else◌, Dict, is_empty, Elem, Elem-perm, Perm-symm, All, All_at, arith,
  eq_iff, Bool-cases, eq_false,
}
use openbotstack_core.Base.Int.{◌<ℤ◌}
use openbotstack_core.Base.Sort.{Sort, IsSorted}
use openbotstack_core.Policy.{
  PolicyRule, Enforcer, PolicyError, denied, match_action, match_resource, match_conditions,
  priority_gt, values, decide, tenant_rules, evaluate,
}

module _ (action resource : String) (attributes : Dict String) where
  -- The three tests of the loop.
  unfoldable pub matches : PolicyRule → Bool
  matches r =
      match_action r.action action
      && (match_resource r.resource resource && match_conditions r.conditions attributes)

  abbrev pub denies : PolicyRule → Bool
  denies r = matches r && r.effect == "deny"

  abbrev pub allows : PolicyRule → Bool
  allows r = matches r && r.effect == "allow"

  -- No rule of the list that decides is stronger than `r`.
  abbrev pub Strongest : PolicyRule → List PolicyRule → Type 0
  Strongest r rules =
      (s : PolicyRule) → Elem s rules → (denies s || allows s) ≡ true → ¬ (r.priority <ℤ s.priority)

  decide-cons :
      (r : PolicyRule) (rest : List PolicyRule)
      → decide (r ∷ rest) action resource attributes ≡ (
          if denies r
          then some (denied r.id)
          else if allows r
          then none
          else decide rest action resource attributes)
  unfolding decide matches
  decide-cons r rest = ground (arith, eq_iff r.effect "deny", eq_iff r.effect "allow")

  Strongest-head :
      (r : PolicyRule) (rest : List PolicyRule)
      → All (λ s. priority_gt s r ≡ false) rest
      → Strongest r (r ∷ rest)
  Strongest-head r rest low s (inl e) d = rw e (λ h. absurd (omega arith))
  Strongest-head r rest low s (inr m) d =
      let e = All_at (λ x. priority_gt x r ≡ false) rest low m in λ h. ground arith

  Strongest-tail :
      (r head : PolicyRule) (rest : List PolicyRule)
      → (denies head || allows head) ≡ false
      → Strongest r rest
      → Strongest r (head ∷ rest)
  Strongest-tail r head rest no_head best s (inl e) d = cc
  Strongest-tail r head rest no_head best s (inr m) d = best s m d

  -- What a decision says: a deny is that of a strongest rule that denies, and a nil error that of
  -- a strongest rule that allows, unless no rule decides.
  abbrev pub Decides : List PolicyRule → Option PolicyError → Type 0
  Decides rules none =
      ((r : PolicyRule) × Elem r rules × (allows r ≡ true) × Strongest r rules)
      ⊎ ((s : PolicyRule) → Elem s rules → (denies s || allows s) ≡ false)
  Decides rules (some e) =
      (r : PolicyRule) × Elem r rules × (denies r ≡ true) × (e ≡ denied r.id) × Strongest r rules

  silent_cons :
      (head : PolicyRule) (rest : List PolicyRule)
      → (denies head || allows head) ≡ false
      → ((s : PolicyRule) → Elem s rest → (denies s || allows s) ≡ false)
      → (s : PolicyRule) → Elem s (head ∷ rest)
      → (denies s || allows s) ≡ false
  silent_cons head rest h silent s (inl e) = rw e h
  silent_cons head rest h silent s (inr m) = silent s m

  Decides-skip :
      (head : PolicyRule) (rest : List PolicyRule) (o : Option PolicyError)
      → (denies head || allows head) ≡ false
      → Decides rest o
      → Decides (head ∷ rest) o
  Decides-skip head rest none h (inl (r, m, a, best)) =
      inl (r, inr m, a, Strongest-tail r head rest h best)
  Decides-skip head rest none h (inr silent) = inr (silent_cons head rest h silent)
  Decides-skip head rest (some e) h (r, m, d, same, best) =
      (r, inr m, d, same, Strongest-tail r head rest h best)

  decide-Decides :
      (rules : List PolicyRule)
      → IsSorted priority_gt rules
      → Decides rules (decide rules action resource attributes)
  unfolding decide
  decide-Decides [] s = inr λ s m. absurd m
  decide-Decides (r ∷ rest) (low, s) = rw decide-cons (elim (Bool-cases (denies r)) [
    | inl d ↦ rw d (r, inl refl, d, refl, Strongest-head r rest low)
    | inr nd ↦ elim (Bool-cases (allows r)) [
      | inl a ↦ rw (nd, a) (inl (r, inl refl, a, Strongest-head r rest low))
      | inr na ↦ rw (nd, na) (Decides-skip r rest _ (ground arith) (decide-Decides rest s))
    ]
  ])

  -- The decision does not depend on the order of the rules that are looked through.
  Decides-perm :
      (xs ys : List PolicyRule) (o : Option PolicyError)
      → ((r : PolicyRule) → Elem r xs → Elem r ys)
      → ((r : PolicyRule) → Elem r ys → Elem r xs)
      → Decides xs o
      → Decides ys o
  Decides-perm xs ys none to back (inl (r, m, a, best)) =
      inl (r, to r m, a, λ s n. best s (back s n))
  Decides-perm xs ys none to back (inr silent) = inr λ s n. silent s (back s n)
  Decides-perm xs ys (some e) to back (r, m, d, same, best) =
      (r, to r m, d, same, λ s n. best s (back s n))

  module _ (by_priority : Sort priority_gt) where
    decide-sort :
        (d : Dict PolicyRule)
        → Decides (values d) (
            if is_empty d
            then none
            else decide (by_priority.sort (values d)) action resource attributes)
    decide-sort [] = inr λ s m. absurd m
    decide-sort (x ∷ d) =
        let rules = values (x ∷ d) in
        let sorted = by_priority.sort-perm rules in
        Decides-perm (by_priority.sort rules) rules _ (λ r m. Elem-perm r (Perm-symm sorted) m)
          (λ r m. Elem-perm r sorted m)
          (decide-Decides (by_priority.sort rules) (by_priority.sort-IsSorted rules))

    -- A request with a context, a tenant and an action is decided by a strongest rule of its tenant
    -- among those that match and have the effect "deny" or "allow": it is denied under the ID of
    -- that rule if the rule denies, and allowed if it allows, or if no rule decides.
    pub evaluate-Decides :
        (e : Enforcer) (tenant : String)
        → tenant ≢ ""
        → action ≢ ""
        → Decides
            (values (tenant_rules e tenant))
            (evaluate by_priority e true tenant action resource attributes)
    unfolding evaluate
    evaluate-Decides e tenant has_tenant has_action =
        rw (eq_false tenant "" has_tenant, eq_false action "" has_action)
          (decide-sort (tenant_rules e tenant))
