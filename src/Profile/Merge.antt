-- ===== src/Profile/Merge.antt =====
-- control/profile/merge.go: the effective profile of a global profile and its overlays.
use openbotstack_core.Base.{
  String, true, false, not, Option, none, some, is_some, List, [], ◌++◌, ◌==◌, if◌then◌else◌,
}
use openbotstack_core.Profile.{scope_global, scope_tenant, AssistantProfile}
use openbotstack_core.Profile.Scope.{
  Violation, constitution, tenant_session_only_violations, validate_scope, sorted_violations,
}

-- `mergeString`: the new value of `dst`.
unfoldable pub merge_string : String → String → String
merge_string dst src = if not (src == "") then src else dst

-- `mergeBoolPtr`, and `mergeFloatPtr` likewise.
unfoldable pub merge_ptr : {A : Type 0} → Option A → Option A → Option A
merge_ptr dst src = if is_some src then src else dst

-- `mergeTenant`: the effective profile after the overrides that a tenant may make.
unfoldable pub merge_tenant : AssistantProfile → AssistantProfile → AssistantProfile
merge_tenant effective tenant =
    let e = effective in
    record e {
      soul = record {
        identity = record {
          name = merge_string e.soul.identity.name tenant.soul.identity.name;
          description = merge_string e.soul.identity.description tenant.soul.identity.description;
          persona = merge_string e.soul.identity.persona tenant.soul.identity.persona;
          domain = merge_string e.soul.identity.domain tenant.soul.identity.domain;
          avatar = merge_string e.soul.identity.avatar tenant.soul.identity.avatar;
        };
        behavior = record {
          tone = merge_string e.soul.behavior.tone tenant.soul.behavior.tone;
          citations = merge_ptr e.soul.behavior.citations tenant.soul.behavior.citations;
        };
      };
      reasoning = record {
        enabled = merge_ptr e.reasoning.enabled tenant.reasoning.enabled;
        show_reasoning = e.reasoning.show_reasoning;
      };
      output = record {
        language = merge_string e.output.language tenant.output.language;
        markdown = merge_ptr e.output.markdown tenant.output.markdown;
        citations = merge_ptr e.output.citations tenant.output.citations;
        temperature = merge_ptr e.output.temperature tenant.output.temperature;
      };
      presentation = record {
        reasoning_summary =
            merge_ptr e.presentation.reasoning_summary tenant.presentation.reasoning_summary;
        compact_mode = e.presentation.compact_mode;
        theme = e.presentation.theme;
      };
    }

-- The violations that `mergeTenant` returns.
unfoldable pub merge_tenant_violations : AssistantProfile → List Violation
merge_tenant_violations tenant =
    tenant_session_only_violations tenant ++ constitution scope_tenant tenant

-- `mergeSession`; its violations are `validate_scope session`.
unfoldable pub merge_session : AssistantProfile → AssistantProfile → AssistantProfile
merge_session effective session =
    let e = effective in
    record e {
      reasoning = record {
        enabled = e.reasoning.enabled;
        show_reasoning = merge_ptr e.reasoning.show_reasoning session.reasoning.show_reasoning;
      };
      output = record {
        language = merge_string e.output.language session.output.language;
        markdown = merge_ptr e.output.markdown session.output.markdown;
        citations = e.output.citations;
        temperature = e.output.temperature;
      };
      presentation = record {
        reasoning_summary = e.presentation.reasoning_summary;
        compact_mode = merge_ptr e.presentation.compact_mode session.presentation.compact_mode;
        theme = merge_string e.presentation.theme session.presentation.theme;
      };
    }

-- The two `if overlay != nil` blocks of `Merge`, each with the state and the violations so far.
unfoldable pub apply_tenant :
    Option AssistantProfile → AssistantProfile × List Violation → AssistantProfile × List Violation
apply_tenant none (e, vs) = (e, vs)
apply_tenant (some tenant) (e, vs) = (merge_tenant e tenant, vs ++ merge_tenant_violations tenant)

unfoldable pub apply_session :
    Option AssistantProfile → AssistantProfile × List Violation → AssistantProfile × List Violation
apply_session none (e, vs) = (e, vs)
apply_session (some session) (e, vs) = (merge_session e session, vs ++ validate_scope session)

-- `Merge`
unfoldable pub merge :
    AssistantProfile
    → Option AssistantProfile
    → Option AssistantProfile
    → AssistantProfile × List Violation
unfolding apply_tenant apply_session
merge global tenant session =
    let start = record global { scope = scope_global; tenant_id = "" } in
    let (e, vs) = apply_session session (apply_tenant tenant (start, [])) in
    (e, sorted_violations vs)

-- `DefaultGlobal`. The temperature is the bit pattern of the float64 0.3.
abbrev pub default_global : AssistantProfile
default_global = record {
  id = "global";
  name = "Default Assistant";
  description = "OpenBotStack default global assistant profile";
  scope = scope_global;
  tenant_id = "";
  soul = record {
    identity = record {
      name = "Assistant";
      description = "OpenBotStack assistant";
      persona = "general";
      domain = "general";
      avatar = "";
    };
    behavior = record { tone = "concise"; citations = none };
  };
  reasoning = record { enabled = some true; show_reasoning = some false };
  safety = record {
    hallucination_guard = some true;
    medical_mode = some false;
    content_filter = some true;
  };
  evidence = record { required = some true; required_fields = []; citation_required = some true };
  output = record {
    language = "zh-CN";
    markdown = some true;
    citations = some true;
    temperature = some 0x3fd3333333333333;
  };
  presentation = record {
    reasoning_summary = some false;
    compact_mode = some false;
    theme = "light";
  };
}
