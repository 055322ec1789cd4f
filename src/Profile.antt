-- ===== src/Profile.antt =====
-- control/profile/profile.go: the assistant profile and its policies. A pointer is an `Option`;
-- the temperature, which is only copied, is the bit pattern of its float64.
pub mod Scope
pub mod Merge
pub mod Matrix
pub mod Reports
mod Tests
pub mod Vocabulary
use openbotstack_core.Base.{ℕ, String, Bool, Option, List, ◌==◌, ◌||◌}

-- `ProfileScope`, a string type with three recognised values.
abbrev pub ProfileScope : Type 0
ProfileScope = String

abbrev pub scope_global : ProfileScope
scope_global = "global"

abbrev pub scope_tenant : ProfileScope
scope_tenant = "tenant"

abbrev pub scope_session : ProfileScope
scope_session = "session"

-- `ProfileScope.Valid`
unfoldable pub valid : ProfileScope → Bool
valid s = s == scope_global || (s == scope_tenant || s == scope_session)

pub record Identity : Type 0 where
  pub name : String
  pub description : String
  pub persona : String
  pub domain : String
  pub avatar : String

pub record Behavior : Type 0 where
  pub tone : String
  pub citations : Option Bool

pub record Soul : Type 0 where
  pub identity : Identity
  pub behavior : Behavior

pub record ReasoningPolicy : Type 0 where
  pub enabled : Option Bool
  pub show_reasoning : Option Bool

pub record SafetyPolicy : Type 0 where
  pub hallucination_guard : Option Bool
  pub medical_mode : Option Bool
  pub content_filter : Option Bool

pub record EvidencePolicy : Type 0 where
  pub required : Option Bool
  pub required_fields : List String
  pub citation_required : Option Bool

pub record OutputPolicy : Type 0 where
  pub language : String
  pub markdown : Option Bool
  pub citations : Option Bool
  pub temperature : Option ℕ

pub record PresentationPolicy : Type 0 where
  pub reasoning_summary : Option Bool
  pub compact_mode : Option Bool
  pub theme : String

pub record AssistantProfile : Type 0 where
  pub id : String
  pub name : String
  pub description : String
  pub scope : ProfileScope
  pub tenant_id : String
  pub soul : Soul
  pub reasoning : ReasoningPolicy
  pub safety : SafetyPolicy
  pub evidence : EvidencePolicy
  pub output : OutputPolicy
  pub presentation : PresentationPolicy
