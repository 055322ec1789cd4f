-- ===== src/Profile/Scope.antt =====
-- control/profile/scope.go: which fields a scope may set, and the violations that are reported.
-- The stable sort of `SortedViolations` has one possible result, and so has the sort of
-- `sessionAllowListViolations`, whose fields differ: both are the insertion sort.
use openbotstack_core.Base.{
  String, ◌<>◌, Bool, not, ◌&&◌, List, [], ◌∷◌, ◌++◌, concat, ◌==◌, if◌then◌else◌, any, is_some,
  is_empty, str_lt, map,
}
use openbotstack_core.Base.Sort.{sort_by}
use openbotstack_core.Profile.{
  ProfileScope, scope_global, scope_tenant, scope_session, valid, SafetyPolicy, EvidencePolicy,
  AssistantProfile,
}

pub record Violation : Type 0 where
  pub scope : ProfileScope
  pub field : String
  pub reason : String

-- `append(out, leaf)` under an `if`.
abbrev pub when : Bool → String → List String
when b leaf = if b then leaf ∷ [] else []

-- `safetySetFields`
unfoldable pub safety_set_fields : SafetyPolicy → List String
safety_set_fields s =
    when (is_some s.hallucination_guard) "hallucination_guard"
    ++ (when (is_some s.medical_mode) "medical_mode"
        ++ when (is_some s.content_filter) "content_filter")

-- `evidenceSetFields`
unfoldable pub evidence_set_fields : EvidencePolicy → List String
evidence_set_fields e =
    when (is_some e.required) "required"
    ++ (when (not (is_empty e.required_fields)) "required_fields"
        ++ when (is_some e.citation_required) "citation_required")

-- `constitutionViolations`
unfoldable pub constitution_violations : ProfileScope → String → List String → List Violation
constitution_violations scope block leaves =
    map
      (λ l. record {
        scope = scope;
        field = block <> "." <> l;
        reason = "constitution field, only Global scope may set it";
      })
      leaves

-- One `if` of `tenantSessionOnlyViolations`.
abbrev pub session_only : Bool → String → List Violation
session_only set field =
    if set
    then record {
      scope = scope_tenant;
      field = field;
      reason = "field not overridable at tenant scope";
    }
      ∷ []
    else []

-- `tenantSessionOnlyViolations`
unfoldable pub tenant_session_only_violations : AssistantProfile → List Violation
tenant_session_only_violations p =
    session_only (is_some p.reasoning.show_reasoning) "reasoning.show_reasoning"
    ++ (session_only (is_some p.presentation.compact_mode) "presentation.compact_mode"
        ++ session_only (not (p.presentation.theme == "")) "presentation.theme")

-- The keys of `sessionAllowedFields`, all of which are true.
abbrev pub session_allowed_fields : List String
session_allowed_fields =
    "reasoning.show_reasoning" ∷ "output.language" ∷ "output.markdown" ∷ "presentation.compact_mode"
    ∷ "presentation.theme" ∷ "id" ∷ "name" ∷ "description" ∷ "scope" ∷ "tenant_id" ∷ []

-- The closure `report` of `sessionAllowListViolations`.
unfoldable pub report : String → Bool → List Violation
report path set =
    if set && not (any (λ f. f == path) session_allowed_fields)
    then record {
      scope = scope_session;
      field = path;
      reason = "field not overridable at session scope";
    }
      ∷ []
    else []

-- The calls of `report`, in the order of the code.
unfoldable pub session_reports : AssistantProfile → List Violation
session_reports p = concat (
    report "soul.identity.name" (not (p.soul.identity.name == ""))
    ∷ report "soul.identity.description" (not (p.soul.identity.description == ""))
    ∷ report "soul.identity.persona" (not (p.soul.identity.persona == ""))
    ∷ report "soul.identity.domain" (not (p.soul.identity.domain == ""))
    ∷ report "soul.identity.avatar" (not (p.soul.identity.avatar == ""))
    ∷ report "soul.behavior.tone" (not (p.soul.behavior.tone == ""))
    ∷ report "soul.behavior.citations" (is_some p.soul.behavior.citations)
    ∷ report "reasoning.enabled" (is_some p.reasoning.enabled)
    ∷ report "reasoning.show_reasoning" (is_some p.reasoning.show_reasoning)
    ∷ report "output.language" (not (p.output.language == ""))
    ∷ report "output.markdown" (is_some p.output.markdown)
    ∷ report "output.citations" (is_some p.output.citations)
    ∷ report "output.temperature" (is_some p.output.temperature)
    ∷ report "presentation.reasoning_summary" (is_some p.presentation.reasoning_summary)
    ∷ report "presentation.compact_mode" (is_some p.presentation.compact_mode)
    ∷ report "presentation.theme" (not (p.presentation.theme == ""))
    ∷ [])

-- The less functions of the two sorts.
abbrev pub field_lt : Violation → Violation → Bool
field_lt a b = str_lt a.field b.field

abbrev pub violation_lt : Violation → Violation → Bool
violation_lt a b =
    if not (a.scope == b.scope) then str_lt a.scope b.scope else str_lt a.field b.field

-- `sessionAllowListViolations`
unfoldable pub session_allow_list_violations : AssistantProfile → List Violation
session_allow_list_violations p = sort_by field_lt (session_reports p)

-- `SortedViolations`
unfoldable pub sorted_violations : List Violation → List Violation
sorted_violations vs = sort_by violation_lt vs

-- The violations of the two constitution blocks at a scope.
unfoldable pub constitution : ProfileScope → AssistantProfile → List Violation
constitution scope p =
    constitution_violations scope "safety" (safety_set_fields p.safety)
    ++ constitution_violations scope "evidence" (evidence_set_fields p.evidence)

-- `ValidateScope`
unfoldable pub validate_scope : AssistantProfile → List Violation
validate_scope p =
    if not (valid p.scope)
    then record { scope = p.scope; field = "scope"; reason = "unknown scope" } ∷ []
    else (if not (p.scope == scope_global) then constitution p.scope p else [])
      ++ ((if p.scope == scope_tenant then tenant_session_only_violations p else [])
          ++ (if p.scope == scope_session then session_allow_list_violations p else []))
