-- ===== src/Capability.antt =====
-- capability/types.go, adapter.go and memory_registry.go, and SkillDescriptor of ai/types/types.go:
-- the registry of what a planner may call, on the generic store of the skill registry.
use openbotstack_core.Base.{
  String, ◌<>◌, Bool, true, false, Option, none, some, List, [], ◌∷◌, ◌++◌, Dict, lookup,
  if◌then◌else◌, ◌==◌,
}
use openbotstack_core.Validation.{JsonSchema}
use openbotstack_core.Registry.Store.{new_map_store, put, delete, get, for_each}
pub mod Listing
mod Tests

-- `SkillDescriptor`
pub record SkillDescriptor : Type 0 where
  pub id : String
  pub name : String
  pub description : String
  pub input_schema : Option JsonSchema
  pub kind : String
  pub source_id : String

-- `Capability`, by what its methods return; `descriptor` is what the method Descriptor returns, which
-- only the capability of a skill has.
pub record Capability : Type 0 where
  pub id : String
  pub name : String
  pub description : String
  pub kind : String
  pub input_schema : Option JsonSchema
  pub source_id : String
  pub descriptor : Option SkillDescriptor

pub data CapabilityError : Type 0 where
  nil_capability : CapabilityError
  capability_not_found : String → CapabilityError

-- `ClientTool` of mcp, as far as a capability is made of it.
pub record ClientTool : Type 0 where
  pub name : String
  pub description : String
  pub input_schema : Option JsonSchema

-- `NewFromMCP`
abbrev pub new_from_mcp : String → ClientTool → Capability
new_from_mcp server_id tool = record {
  id = "mcp." <> (server_id <> ("." <> tool.name));
  name = tool.name;
  description = tool.description;
  kind = "mcp";
  input_schema = tool.input_schema;
  source_id = server_id;
  descriptor = none;
}

-- `NewFromNative`
abbrev pub new_from_native : String → String → String → Option JsonSchema → Capability
new_from_native id name description input_schema = record {
  id = id;
  name = name;
  description = description;
  kind = "native";
  input_schema = input_schema;
  source_id = "builtin";
  descriptor = none;
}

-- `CapabilityToDescriptor`
unfoldable pub capability_to_descriptor : Capability → SkillDescriptor
capability_to_descriptor c = elim c.descriptor [
  | some d ↦ d
  | none ↦ record {
    id = c.id;
    name = c.name;
    description = c.description;
    input_schema = c.input_schema;
    kind = c.kind;
    source_id = c.source_id;
  }
]

-- `MemoryCapabilityRegistry`
pub record MemoryCapabilityRegistry : Type 0 where
  pub store : Dict Capability

-- `NewMemoryCapabilityRegistry`
abbrev pub new_memory_capability_registry : MemoryCapabilityRegistry
new_memory_capability_registry = record { store = new_map_store }

-- `Register`; `none` is a nil capability.
unfoldable pub register_capability :
    MemoryCapabilityRegistry → Option Capability → MemoryCapabilityRegistry × Option CapabilityError
register_capability r none = (r, some nil_capability)
register_capability r (some c) = (record { store = put r.store c.id c }, none)

-- `Unregister`, which returns no error.
unfoldable pub unregister_capability : MemoryCapabilityRegistry → String → MemoryCapabilityRegistry
unregister_capability r id = record { store = delete r.store id }

-- `Get`: the capability, or the error.
unfoldable pub get_capability :
    MemoryCapabilityRegistry → String → Option Capability × Option CapabilityError
get_capability r id = elim (get r.store id) [
  | none ↦ (none, some (capability_not_found id))
  | some c ↦ (some c, none)
]

-- `List`
unfoldable pub list_capabilities : MemoryCapabilityRegistry → List SkillDescriptor
list_capabilities r = for_each (λ descs _ c. descs ++ capability_to_descriptor c ∷ []) [] r.store

-- `ListByKind`
unfoldable pub list_by_kind : MemoryCapabilityRegistry → String → List SkillDescriptor
list_by_kind r kind =
    for_each
      (λ descs _ c. if c.kind == kind then descs ++ capability_to_descriptor c ∷ [] else descs) []
      r.store
