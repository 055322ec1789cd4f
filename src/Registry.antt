-- ===== src/Registry.antt =====
-- registry/skills: the generic store of base.go and the skill registry of in_memory_registry.go.
pub mod Store
pub mod Skills
pub mod History
pub mod Permissions
mod Tests
