-- ===== src/Registry/Tests.antt =====
-- Runs of the skill registry, and its theorems at concrete inputs.
use openbotstack_core.Base.Sort.{sort_by}
use openbotstack_core.Base.{
  none, some, List, [], ◌∷◌, ◌≡◌, refl, lookup, insert, is_some, erase, String, ◌+◌, arith, erase,
  String, ◌+◌, arith,
}
use openbotstack_core.Registry.Store.{for_each, put_if_absent, delete_if_exists}
use openbotstack_core.Registry.Skills.{
  can_use, Skill, InMemoryRegistry, new_in_memory_registry, begin_register, begin_unregister,
  changed, ChangeEvent, register_event, unregister_event, list_ids, list_by_permission, subscribe,
  snapshot_callbacks, call_at, world, Reach, here, next, unregisters, snapshots, calls, returns,
  storing, firing,
}
use openbotstack_core.Registry.History.{adds, removes, total, one_if, subscribe-balance}

abbrev search : Skill
search = record { id = "search"; required_permissions = "web" ∷ "read" ∷ []; validate = none }

abbrev notes : Skill
notes = record { id = "notes"; required_permissions = "read" ∷ []; validate = none }

abbrev two_skills : InMemoryRegistry
two_skills = record { store = ("search", search) ∷ ("notes", notes) ∷ []; callbacks = [] }

begins : begin_register new_in_memory_registry (some search) ≡ (
  record { store = ("search", search) ∷ []; callbacks = [] },
  changed (record { kind = register_event; skill_id = "search" }),
)
unfolding begin_register put_if_absent lookup insert
begins = refl

sorts : list_ids two_skills ≡ "notes" ∷ "search" ∷ []
unfolding list_ids sort_by for_each
sorts = refl

allows : list_by_permission two_skills ("read" ∷ []) ≡ notes ∷ []
unfolding list_by_permission for_each can_use
allows = refl

abbrev removed : ChangeEvent
removed = record { kind = unregister_event; skill_id = "notes" }

abbrev one_skill : List (List ChangeEvent) → InMemoryRegistry
one_skill cbs = record { store = ("search", search) ∷ []; callbacks = cbs }

-- The notes are removed, and the new subscriber is told.
run : Reach (world (subscribe two_skills) []) (world (one_skill ((removed ∷ []) ∷ [])) [])
unfolding subscribe begin_unregister delete_if_exists lookup erase snapshot_callbacks call_at
run =
    let started : Reach (world (subscribe two_skills) [])
        (world (one_skill ([] ∷ [])) (storing removed ∷ [])) =
      next here (unregisters (record two_skills { callbacks = [] ∷ [] }) [] "notes") in
    let ready : Reach (world (subscribe two_skills) [])
        (world (one_skill ([] ∷ [])) (firing removed 0 1 ∷ [])) =
      next started (snapshots (one_skill ([] ∷ [])) [] [] removed) in
    let told : Reach (world (subscribe two_skills) [])
        (world (one_skill ((removed ∷ []) ∷ [])) (firing removed 1 1 ∷ [])) =
      next ready (calls (one_skill ([] ∷ [])) [] [] removed 0 1 (omega arith)) in
    next told (returns (one_skill ((removed ∷ []) ∷ [])) [] [] removed 1 1 (omega arith))

subscribe-balance_example :
    (es : List ChangeEvent) × ((some (removed ∷ []) ≡ some es)
      × ((id : String)
          → one_if (is_some (lookup id two_skills.store)) + total (adds id) es
            ≡ one_if (is_some (lookup id (one_skill ((removed ∷ []) ∷ [])).store))
              + total (removes id) es))
subscribe-balance_example = subscribe-balance two_skills (one_skill ((removed ∷ []) ∷ [])) run
