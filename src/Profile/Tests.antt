-- ===== src/Profile/Tests.antt =====
-- Runs of the profile package, and its theorems at concrete inputs.
use openbotstack_core.Base.{
  true, false, not, ◌||◌, ◌&&◌, Option, none, some, ◌≡◌, refl, ◌==◌, any, sym, ap,
}
use openbotstack_core.Profile.{AssistantProfile, valid}
use openbotstack_core.Profile.Scope.{validate_scope}
use openbotstack_core.Profile.Merge.{
  merge_tenant, merge_string, merge_session, merge, default_global,
}
use openbotstack_core.Profile.Matrix.{
  path, get, is_set, overlay, tenant_may, session_may, medical_mode, presentation_theme,
  merge_matrix,
}
use openbotstack_core.Profile.Reports.{may, refused, validate_scope_matrix, merge_reports}

-- A tenant that speaks English and tries to turn the medical mode on.
abbrev english : AssistantProfile
english = record default_global {
  scope = "tenant";
  safety = record { hallucination_guard = none; medical_mode = some true; content_filter = none };
  output = record { language = "en"; markdown = none; citations = none; temperature = none };
}

abbrev dark : AssistantProfile
dark = record default_global {
  scope = "session";
  presentation = record { reasoning_summary = none; compact_mode = none; theme = "dark" };
}

english-dark :
    ((merge default_global (some english) (some dark)).0.output.language ≡ "zh-CN")
    × ((merge default_global (some english) none).0.output.language ≡ "en")
    × ((merge default_global (some english) (some dark)).0.safety.medical_mode ≡ some false)
unfolding merge merge_session merge_string merge_tenant
english-dark = (refl, refl, refl)

merge_matrix_example :
    get presentation_theme (merge default_global (some english) (some dark)).0
    ≡ overlay session_may presentation_theme (some dark) (
        overlay tenant_may presentation_theme
          (some english)
          (get presentation_theme default_global))
merge_matrix_example = merge_matrix presentation_theme default_global (some english) (some dark)

english-valid : valid english.scope ≡ true
unfolding valid
english-valid = refl

validate_scope_matrix_example :
    any (λ v. v.field == path medical_mode) (validate_scope english)
    ≡ (is_set (get medical_mode english) && not (may english.scope medical_mode))
validate_scope_matrix_example = validate_scope_matrix medical_mode english english-valid

dark_session : (s : AssistantProfile) → some dark ≡ some s → s.scope ≡ "session"
dark_session s e =
    ap (λ (o : Option AssistantProfile). elim o [ none ↦ "session" | some p ↦ p.scope ]) (sym e)

merge_reports_example :
    any (λ v. v.field == path medical_mode) (merge default_global (some english) (some dark)).1 ≡ (
      refused tenant_may medical_mode (some english)
      || refused session_may medical_mode (some dark))
merge_reports_example =
    merge_reports medical_mode default_global (some english) (some dark) dark_session
