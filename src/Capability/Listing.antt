-- ===== src/Capability/Listing.antt =====
-- capability/memory_registry.go: what the listings return.
use openbotstack_core.Base.{
  String, none, some, List, [], ◌∷◌, ◌++◌, ◌≡◌, refl, sym, ap, ◌∙◌, map, Dict, lookup,
  lookup-insert, lookup-erase, if◌then◌else◌, ◌==◌, append_assoc, append_nil, Bool-cases,
  Option-cases, inl, inr,
}
use openbotstack_core.Registry.Store.{for_each}
use openbotstack_core.Capability.{
  SkillDescriptor, Capability, MemoryCapabilityRegistry, capability_to_descriptor,
  register_capability, unregister_capability, get_capability, list_capabilities, list_by_kind,
}

-- The registered capabilities of a kind, in the order of the visit.
abbrev pub of_kind : String → Dict Capability → List Capability
of_kind kind [] = []
of_kind kind ((_, c) ∷ d) = if c.kind == kind then c ∷ of_kind kind d else of_kind kind d

abbrev pub capabilities : Dict Capability → List Capability
capabilities [] = []
capabilities ((_, c) ∷ d) = c ∷ capabilities d

kind-loop :
    (kind : String) (acc : List SkillDescriptor) (d : Dict Capability)
    → for_each
        (λ descs _ c. if c.kind == kind then descs ++ capability_to_descriptor c ∷ [] else descs)
        acc
        d
      ≡ acc ++ map capability_to_descriptor (of_kind kind d)
unfolding for_each
kind-loop kind acc [] = sym (append_nil acc)
kind-loop kind acc ((k, c) ∷ d) = elim (Bool-cases (c.kind == kind)) [
  | inl h ↦ rw h (
      kind-loop kind (acc ++ capability_to_descriptor c ∷ []) d
      ∙ append_assoc acc (capability_to_descriptor c ∷ [])
          (map capability_to_descriptor (of_kind kind d)))
  | inr h ↦ rw h (kind-loop kind acc d)
]

all-loop :
    (acc : List SkillDescriptor) (d : Dict Capability)
    → for_each (λ descs _ c. descs ++ capability_to_descriptor c ∷ []) acc d
      ≡ acc ++ map capability_to_descriptor (capabilities d)
unfolding for_each
all-loop acc [] = sym (append_nil acc)
all-loop acc ((k, c) ∷ d) =
    all-loop (acc ++ capability_to_descriptor c ∷ []) d
    ∙ append_assoc acc (capability_to_descriptor c ∷ [])
        (map capability_to_descriptor (capabilities d))

-- List and ListByKind return the descriptors of the registered capabilities, all of them or those of
-- the kind, each once for each entry of the store and in the same order.
list_by_kind_of_list :
    (r : MemoryCapabilityRegistry) (kind : String)
    → (list_capabilities r ≡ map capability_to_descriptor (capabilities r.store))
      × (list_by_kind r kind ≡ map capability_to_descriptor (of_kind kind r.store))
unfolding list_capabilities list_by_kind
list_by_kind_of_list r kind = (all-loop [] r.store, kind-loop kind [] r.store)

-- What Get finds.
get_capability-lookup :
    (r : MemoryCapabilityRegistry) (id : String) → (get_capability r id).0 ≡ lookup id r.store
unfolding get_capability
get_capability-lookup r id = elim (Option-cases (lookup id r.store)) [
  | inl e ↦ rw (e, get_capability) refl
  | inr (c, e) ↦ rw (e, get_capability) refl
]

-- Get finds a capability that was registered, the last one if an ID is registered again, and none
-- that was unregistered; registering and unregistering touch no other ID.
get_capability-register :
    (r : MemoryCapabilityRegistry) (c : Capability) (id other : String)
    → ((get_capability (register_capability r (some c)).0 id).0
        ≡ (if c.id == id then some c else (get_capability r id).0))
      × ((get_capability (unregister_capability r other) id).0
          ≡ (if other == id then none else (get_capability r id).0))
unfolding register_capability unregister_capability
get_capability-register r c id other = (
  get_capability-lookup (register_capability r (some c)).0 id
      ∙ (lookup-insert c.id id c r.store
          ∙ ap (λ o. if c.id == id then some c else o) (sym (get_capability-lookup r id))),
  get_capability-lookup (unregister_capability r other) id
      ∙ (lookup-erase other id r.store
          ∙ ap (λ o. if other == id then none else o) (sym (get_capability-lookup r id))),
)
