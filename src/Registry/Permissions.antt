-- ===== src/Registry/Permissions.antt =====
-- in_memory_registry.go: what List and ListByPermission return.
use openbotstack_core.Base.{
  true≢false, Elem-append, append_nil, append_assoc, ◌&&◌, String, Bool, true, false, some, List,
  [], ◌∷◌, ◌++◌, ◌≡◌, ◌↔◌, ◌⊎◌, refl, sym, ◌∙◌, ap, map, Dict, lookup, NodupKeys, if◌then◌else◌,
  ◌==◌, all, any, All, Elem, Elem-of_lookup, lookup_of_Elem, str_lt, arith, eq_iff, inl, inr,
  Bool-cases,
}
use mathlib.Core.List.{Permᴰ}
use openbotstack_core.Base.Order.{str_lt_asym, str_lt_trans}
use openbotstack_core.Base.Sort.{IsSorted, sort_by-perm, sort_by-IsSorted}
use openbotstack_core.Registry.Store.{for_each}
use openbotstack_core.Registry.Skills.{
  Skill, InMemoryRegistry, can_use, list_by_permission, list_ids,
}

collect : List String → List Skill → String → Skill → List Skill
collect permissions allowed _ skill =
    if can_use permissions skill then allowed ++ skill ∷ [] else allowed

-- A skill that the loop of ListByPermission collects was collected before or is visited and usable.
Collected : List String → Skill → List Skill → Dict Skill → Type 0
Collected permissions s acc d =
    Elem s acc ⊎ ((id : String) × Elem (id, s) d × (can_use permissions s ≡ true))

Collected-used :
    (permissions : List String) (s v : Skill) (k : String) (acc : List Skill) (d : Dict Skill)
    → can_use permissions v ≡ true
    → Collected permissions s (acc ++ v ∷ []) d ↔ Collected permissions s acc ((k, v) ∷ d)
unfolding Collected
Collected-used permissions s v k acc d p = (
  elim [
    | inl a ↦ elim ((Elem-append s acc (v ∷ [])).0 a) [
      | inl m ↦ inl m
      | inr (inl e) ↦ inr (k, inl (ap (λ x. (k, x)) e), ap (can_use permissions) e ∙ p)
      | inr (inr m) ↦ absurd m
    ]
    | inr (id, m, h) ↦ inr (id, inr m, h)
  ],
  elim [
    | inl m ↦ inl ((Elem-append s acc (v ∷ [])).1 (inl m))
    | inr (id, inl q, h) ↦ inl ((Elem-append s acc (v ∷ [])).1 (inr (inl (ap (λ x. x.1) q))))
    | inr (id, inr m, h) ↦ inr (id, m, h)
  ],
)

Collected-passed :
    (permissions : List String) (s v : Skill) (k : String) (acc : List Skill) (d : Dict Skill)
    → can_use permissions v ≡ false
    → Collected permissions s acc d ↔ Collected permissions s acc ((k, v) ∷ d)
unfolding Collected
Collected-passed permissions s v k acc d n = (
  elim [ inl m ↦ inl m | inr (id, m, h) ↦ inr (id, inr m, h) ],
  elim [
    | inl m ↦ inl m
    | inr (id, inl q, h) ↦
        absurd (true≢false (sym h ∙ ap (can_use permissions) (ap (λ x. x.1) q) ∙ n))
    | inr (id, inr m, h) ↦ inr (id, m, h)
  ],
)

collected :
    (permissions : List String) (s : Skill) (acc : List Skill) (d : Dict Skill)
    → Elem s (for_each (collect permissions) acc d) ↔ Collected permissions s acc d
unfolding for_each collect Collected
collected permissions s acc [] = (inl, elim [ inl m ↦ m | inr (id, m, h) ↦ absurd m ])
collected permissions s acc ((k, v) ∷ d) = elim (Bool-cases (can_use permissions v)) [
  | inl p ↦
      let (to, from) = Collected-used permissions s v k acc d p in
      let (there, back) = collected permissions s (acc ++ v ∷ []) d in
      rw p ((λ m. to (there m), λ c. back (from c)))
  | inr n ↦
      let (to, from) = Collected-passed permissions s v k acc d n in
      let (there, back) = collected permissions s acc d in
      rw n ((λ m. to (there m), λ c. back (from c)))
]

any_iff : (x : String) (xs : List String) → (any (λ p. p == x) xs ≡ true) ↔ Elem x xs
any_iff x [] = (λ h. cc, λ m. absurd m)
any_iff x (y ∷ ys) = ground (arith, any_iff x ys, eq_iff y x)

and_split : (a b : Bool) → (a && b) ≡ true → (a ≡ true) × (b ≡ true)
and_split a b h = ground arith

granted_iff :
    (permissions reqs : List String)
    → (all (λ req. any (λ p. p == req) permissions) reqs ≡ true)
      ↔ All (λ req. Elem req permissions) reqs
granted_iff permissions [] = (λ h. tt, λ h. refl)
granted_iff permissions (r ∷ rs) =
    let (to, from) = any_iff r permissions in
    let (there, back) = granted_iff permissions rs in
    (
      λ h.
          let (p, q) =
            and_split (any (λ p. p == r) permissions)
              (all (λ req. any (λ p. p == req) permissions) rs) h in
          (to p, there q),
      λ (m, hs). rw (from m) (back hs),
    )

-- In a store whose keys are distinct, ListByPermission returns exactly the registered skills all of
-- whose required permissions are among the caller's.
list_by_permission_iff :
    (r : InMemoryRegistry) (permissions : List String) (s : Skill)
    → NodupKeys r.store
    → Elem s (list_by_permission r permissions) ↔ (
        (id : String) × (lookup id r.store ≡ some s)
        × All (λ req. Elem req permissions) s.required_permissions)
unfolding list_by_permission can_use collect Collected
list_by_permission_iff r permissions s u =
    let (there, back) = collected permissions s [] r.store in
    let (to, from) = granted_iff permissions s.required_permissions in
    (
      λ m. elim (there m) [
        | inl e ↦ absurd e
        | inr (id, e, h) ↦ (id, lookup_of_Elem id s r.store u e, to h)
      ],
      λ (id, found, h). back (inr (id, Elem-of_lookup id s r.store found, from h)),
    )

keys-loop :
    (acc : List String) (d : Dict Skill)
    → for_each (λ ids id _. ids ++ id ∷ []) acc d ≡ acc ++ map (λ (k, _). k) d
unfolding for_each
keys-loop acc [] = sym (append_nil acc)
keys-loop acc ((k, v) ∷ d) =
    keys-loop (acc ++ k ∷ []) d ∙ append_assoc acc (k ∷ []) (map (λ (k, _). k) d)

-- List returns the IDs of the registered skills, each as often as the store has it, in an order
-- where no ID is less than one before it.
list_ids-perm-IsSorted :
    (r : InMemoryRegistry)
    → Permᴰ (map (λ (k, _). k) r.store) (list_ids r) × IsSorted str_lt (list_ids r)
unfolding list_ids
list_ids-perm-IsSorted r = rw (keys-loop [] r.store) (
  sort_by-perm str_lt (map (λ (k, _). k) r.store),
  sort_by-IsSorted str_lt str_lt_asym str_lt_trans (map (λ (k, _). k) r.store),
)
