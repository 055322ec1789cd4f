-- ===== src/Capability/Tests.antt =====
-- Runs of the capability registry, and its theorems at concrete inputs.
use openbotstack_core.Registry.Store.{for_each}
use openbotstack_core.Base.{insert, String, none, some, [], ◌∷◌, ◌≡◌, refl}
use openbotstack_core.Capability.{
  Capability, ClientTool, MemoryCapabilityRegistry, new_from_mcp, new_from_native,
  new_memory_capability_registry, register_capability, capability_to_descriptor, list_by_kind,
}

abbrev tool : String → ClientTool
tool name = record { name = name; description = ""; input_schema = none }

abbrev clock : Capability
clock = new_from_native "clock" "clock" "" none

abbrev patient : Capability
patient = new_from_mcp "his" (tool "patient")

abbrev two_capabilities : MemoryCapabilityRegistry
two_capabilities = record { store = ("clock", clock) ∷ ("mcp.his.patient", patient) ∷ [] }

registers :
    (register_capability
      (register_capability new_memory_capability_registry (some clock)).0
      (some patient)).0
    ≡ two_capabilities
unfolding register_capability insert
registers = refl

lists : list_by_kind two_capabilities "mcp" ≡ capability_to_descriptor patient ∷ []
unfolding list_by_kind for_each
lists = refl

-- Two servers whose IDs and tools join to the same text share an ID.
same_id : (new_from_mcp "his" (tool "lab.order")).id ≡ (new_from_mcp "his.lab" (tool "order")).id
same_id = refl
