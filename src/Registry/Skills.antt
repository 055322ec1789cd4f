-- ===== src/Registry/Skills.antt =====
-- registry/skills/in_memory_registry.go. A skill is what the registry asks of the interface `Skill`;
-- a subscriber is the list of the events that its callback was called with, in order.
use openbotstack_core.Base.{
  ℕ, zero, suc, ◌<◌, ◌≤◌, length, String, Bool, not, Option, none, some, List, [], ◌∷◌, ◌++◌, all,
  any, Dict, lookup, if◌then◌else◌, ◌==◌, is_some, str_lt,
}
use openbotstack_core.Base.Sort.{sort_by}
use openbotstack_core.Registry.Store.{new_map_store, put_if_absent, delete_if_exists, for_each}

-- The methods of `Skill` that the registry calls: `Validate` returns the error, if any.
pub record Skill : Type 0 where
  pub id : String
  pub required_permissions : List String
  pub validate : Option String

pub data ChangeEventType : Type 0 where
  register_event unregister_event : ChangeEventType

pub record ChangeEvent : Type 0 where
  pub kind : ChangeEventType
  pub skill_id : String

pub data RegistryError : Type 0 where
  nil_skill empty_id : RegistryError
  invalid_skill : String → String → RegistryError
  skill_already_exists skill_not_found : String → RegistryError

pub record InMemoryRegistry : Type 0 where
  pub store : Dict Skill
  pub callbacks : List (List ChangeEvent)

-- `NewInMemoryRegistry`
abbrev pub new_in_memory_registry : InMemoryRegistry
new_in_memory_registry = record { store = new_map_store; callbacks = [] }

-- What a call comes to before it takes the snapshot of the callbacks: an error, or the event that it
-- fires. The store is no longer locked then, and other calls can run, those of a callback included.
pub data Begun : Type 0 where
  refused : RegistryError → Begun
  changed : ChangeEvent → Begun

-- `Register` up to the snapshot; `none` is a nil skill.
unfoldable pub begin_register : InMemoryRegistry → Option Skill → InMemoryRegistry × Begun
begin_register r none = (r, refused nil_skill)
begin_register r (some skill) =
    if skill.id == "" then (r, refused empty_id) else elim skill.validate [
      | some e ↦ (r, refused (invalid_skill skill.id e))
      | none ↦
          let (store, stored) = put_if_absent r.store skill.id skill in
          if not stored then (r, refused (skill_already_exists skill.id)) else (
            record r { store = store },
            changed (record { kind = register_event; skill_id = skill.id }),
          )
    ]

-- `snapshotCallbacks`: callbacks are only ever added, so that a snapshot is the number of them.
unfoldable pub snapshot_callbacks : InMemoryRegistry → ℕ
snapshot_callbacks r = length r.callbacks

-- The callback at a place is called with an event, as `fireCallbacks` does; it may panic.
unfoldable pub call_at : ℕ → ChangeEvent → List (List ChangeEvent) → List (List ChangeEvent)
call_at i event [] = []
call_at zero event (seen ∷ cbs) = (seen ++ event ∷ []) ∷ cbs
call_at (suc i) event (seen ∷ cbs) = seen ∷ call_at i event cbs

-- `Get`: the skill, or the error ErrSkillNotFound.
unfoldable pub get_skill : InMemoryRegistry → String → Option Skill × Option RegistryError
get_skill r id = elim (lookup id r.store) [
  | none ↦ (none, some (skill_not_found id))
  | some s ↦ (some s, none)
]

-- `List`
unfoldable pub list_ids : InMemoryRegistry → List String
list_ids r = sort_by str_lt (for_each (λ ids id _. ids ++ id ∷ []) [] r.store)

-- The test of `ListByPermission` on one skill: every permission it requires is in the set.
unfoldable pub can_use : List String → Skill → Bool
can_use permissions skill = all (λ req. any (λ p. p == req) permissions) skill.required_permissions

-- `ListByPermission`
unfoldable pub list_by_permission : InMemoryRegistry → List String → List Skill
list_by_permission r permissions =
    for_each
      (λ allowed _ skill. if can_use permissions skill then allowed ++ skill ∷ [] else allowed) []
      r.store

-- `Validate`: the error of the first invalid skill that the loop visits.
unfoldable pub validate_all : InMemoryRegistry → Option RegistryError
validate_all r =
    for_each
      (λ err id skill.
        if is_some err
        then err
        else elim skill.validate [ none ↦ none | some e ↦ some (invalid_skill id e) ])
      none r.store

-- `Unregister` up to the snapshot
unfoldable pub begin_unregister : InMemoryRegistry → String → InMemoryRegistry × Begun
begin_unregister r id =
    let (store, deleted) = delete_if_exists r.store id in
    if not deleted
    then (r, refused (skill_not_found id))
    else (record r { store = store }, changed (record { kind = unregister_event; skill_id = id }))

-- `Subscribe`: the new callback has seen nothing.
unfoldable pub subscribe : InMemoryRegistry → InMemoryRegistry
subscribe r = record r { callbacks = r.callbacks ++ [] ∷ [] }

-- A call between its steps: it has changed the store, or it calls the callbacks of its snapshot, from
-- one place on to the number of them.
pub data Flight : Type 0 where
  storing : ChangeEvent → Flight
  firing : ChangeEvent → ℕ → ℕ → Flight

pub record World : Type 0 where
  pub registry : InMemoryRegistry
  pub flights : List Flight

abbrev pub world : InMemoryRegistry → List Flight → World
world r fs = record { registry = r; flights = fs }

abbrev pub begun : List Flight → InMemoryRegistry × Begun → World
begun fs (r, refused _) = world r fs
begun fs (r, changed e) = world r (storing e ∷ fs)

-- A step of one of the calls that run, in any goroutine or inside a callback.
pub data Step : World → World → Type 0 where
  registers :
      (r : InMemoryRegistry) (fs : List Flight) (s : Option Skill)
      → Step (world r fs) (begun fs (begin_register r s))
  unregisters :
      (r : InMemoryRegistry) (fs : List Flight) (id : String)
      → Step (world r fs) (begun fs (begin_unregister r id))
  subscribes :
      (r : InMemoryRegistry) (fs : List Flight) → Step (world r fs) (world (subscribe r) fs)
  snapshots :
      (r : InMemoryRegistry) (before after : List Flight) (e : ChangeEvent)
      → Step
          (world r (before ++ storing e ∷ after))
          (world r (before ++ firing e 0 (snapshot_callbacks r) ∷ after))
  calls :
      (r : InMemoryRegistry) (before after : List Flight) (e : ChangeEvent) (place stop : ℕ)
      → place < stop
      → Step (world r (before ++ firing e place stop ∷ after)) (
          world
            (record r { callbacks = call_at place e r.callbacks })
            (before ++ firing e (suc place) stop ∷ after))
  returns :
      (r : InMemoryRegistry) (before after : List Flight) (e : ChangeEvent) (place stop : ℕ)
      → stop ≤ place
      → Step (world r (before ++ firing e place stop ∷ after)) (world r (before ++ after))

-- The worlds that steps lead to.
pub data Reach (w : World) : World → Type 0 where
  here : Reach w w
  next : {u v : World} → Reach w u → Step u v → Reach w v
