-- ===== src/Profile/Matrix.antt =====
-- control/profile/merge.go and scope.go: the permission matrix of merge.go's header comment, as a
-- table over the fields of a profile, and the two code paths that implement it.
use openbotstack_core.Base.{
  ℕ, String, Bool, true, false, not, ◌&&◌, Option, none, some, List, ◌≡◌, refl, ◌∙◌, ◌==◌,
  if◌then◌else◌, is_some, is_empty, arith, ap,
}
use openbotstack_core.Profile.{AssistantProfile}
use openbotstack_core.Profile.Merge.{
  merge_string, merge_ptr, merge_tenant, merge_session, apply_tenant, apply_session, merge,
}

-- The rows of the matrix.
pub data Field : Type 0 where
  identity_name identity_description identity_persona identity_domain identity_avatar : Field
  behavior_tone behavior_citations reasoning_enabled show_reasoning hallucination_guard : Field
  medical_mode content_filter evidence_required evidence_fields citation_required : Field
  output_language output_markdown output_citations output_temperature reasoning_summary : Field
  compact_mode presentation_theme : Field

-- The dotted path of a field.
abbrev pub path : Field → String
path identity_name = "soul.identity.name"
path identity_description = "soul.identity.description"
path identity_persona = "soul.identity.persona"
path identity_domain = "soul.identity.domain"
path identity_avatar = "soul.identity.avatar"
path behavior_tone = "soul.behavior.tone"
path behavior_citations = "soul.behavior.citations"
path reasoning_enabled = "reasoning.enabled"
path show_reasoning = "reasoning.show_reasoning"
path hallucination_guard = "safety.hallucination_guard"
path medical_mode = "safety.medical_mode"
path content_filter = "safety.content_filter"
path evidence_required = "evidence.required"
path evidence_fields = "evidence.required_fields"
path citation_required = "evidence.citation_required"
path output_language = "output.language"
path output_markdown = "output.markdown"
path output_citations = "output.citations"
path output_temperature = "output.temperature"
path reasoning_summary = "presentation.reasoning_summary"
path compact_mode = "presentation.compact_mode"
path presentation_theme = "presentation.theme"

-- The value of a field, whatever its type.
pub data Value : Type 0 where
  text : String → Value
  flag : Option Bool → Value
  float : Option ℕ → Value
  texts : List String → Value

abbrev pub get : Field → AssistantProfile → Value
get identity_name p = text p.soul.identity.name
get identity_description p = text p.soul.identity.description
get identity_persona p = text p.soul.identity.persona
get identity_domain p = text p.soul.identity.domain
get identity_avatar p = text p.soul.identity.avatar
get behavior_tone p = text p.soul.behavior.tone
get behavior_citations p = flag p.soul.behavior.citations
get reasoning_enabled p = flag p.reasoning.enabled
get show_reasoning p = flag p.reasoning.show_reasoning
get hallucination_guard p = flag p.safety.hallucination_guard
get medical_mode p = flag p.safety.medical_mode
get content_filter p = flag p.safety.content_filter
get evidence_required p = flag p.evidence.required
get evidence_fields p = texts p.evidence.required_fields
get citation_required p = flag p.evidence.citation_required
get output_language p = text p.output.language
get output_markdown p = flag p.output.markdown
get output_citations p = flag p.output.citations
get output_temperature p = float p.output.temperature
get reasoning_summary p = flag p.presentation.reasoning_summary
get compact_mode p = flag p.presentation.compact_mode
get presentation_theme p = text p.presentation.theme

-- A field is set unless it holds the value that means "inherit".
abbrev pub is_set : Value → Bool
is_set (text s) = not (s == "")
is_set (flag o) = is_some o
is_set (float o) = is_some o
is_set (texts l) = not (is_empty l)

-- The column "Tenant" of the matrix.
abbrev pub tenant_may : Field → Bool
tenant_may show_reasoning = false
tenant_may hallucination_guard = false
tenant_may medical_mode = false
tenant_may content_filter = false
tenant_may evidence_required = false
tenant_may evidence_fields = false
tenant_may citation_required = false
tenant_may compact_mode = false
tenant_may presentation_theme = false
tenant_may _ = true

-- The column "Session" of the matrix.
abbrev pub session_may : Field → Bool
session_may show_reasoning = true
session_may output_language = true
session_may output_markdown = true
session_may compact_mode = true
session_may presentation_theme = true
session_may _ = false

-- An overlay's value where the overlay may set the field and sets it.
abbrev pub override : Bool → Value → Value → Value
override may over base = if may && is_set over then over else base

abbrev pub overlay : (Field → Bool) → Field → Option AssistantProfile → Value → Value
overlay may f none base = base
overlay may f (some p) base = override (may f) (get f p) base

get-merge_tenant :
    (f : Field) (e tenant : AssistantProfile)
    → get f (merge_tenant e tenant) ≡ override (tenant_may f) (get f tenant) (get f e)
unfolding merge_tenant merge_string merge_ptr
get-merge_tenant identity_name e tenant = ground arith
get-merge_tenant _ e tenant = ground arith

get-merge_session :
    (f : Field) (e session : AssistantProfile)
    → get f (merge_session e session) ≡ override (session_may f) (get f session) (get f e)
unfolding merge_session merge_string merge_ptr
get-merge_session identity_name e session = ground arith
get-merge_session _ e session = ground arith

get-start :
    (f : Field) (g : AssistantProfile) (scope tenant : String)
    → get f (record g { scope = scope; tenant_id = tenant }) ≡ get f g
get-start identity_name g scope tenant = refl
get-start _ g scope tenant = refl

-- Each field of the effective profile is the session's value if the matrix lets a session set it
-- and the session does, else the tenant's value if the matrix lets a tenant set it and the tenant
-- does, else the global value.
pub merge_matrix :
    (f : Field) (global : AssistantProfile) (tenant session : Option AssistantProfile)
    → get f (merge global tenant session).0
      ≡ overlay session_may f session (overlay tenant_may f tenant (get f global))
unfolding merge
merge_matrix f global none none = get-start f global "global" ""
merge_matrix f global (some t) none =
    get-merge_tenant f _ t ∙ ap (override (tenant_may f) (get f t)) (get-start f global "global" "")
merge_matrix f global none (some s) =
    get-merge_session f _ s
    ∙ ap (override (session_may f) (get f s)) (get-start f global "global" "")
merge_matrix f global (some t) (some s) =
    get-merge_session f _ s
    ∙ ap (override (session_may f) (get f s)) (
        get-merge_tenant f _ t
        ∙ ap (override (tenant_may f) (get f t)) (get-start f global "global" ""))

-- The constitution is locked: whatever the overlays hold, the effective profile has the global
-- safety and evidence policies.
merge_constitution :
    (global : AssistantProfile) (tenant session : Option AssistantProfile)
    → ((merge global tenant session).0.safety ≡ global.safety)
      × ((merge global tenant session).0.evidence ≡ global.evidence)
unfolding merge apply_tenant apply_session merge_tenant merge_session
merge_constitution global none none = (refl, refl)
merge_constitution global none (some s) = (refl, refl)
merge_constitution global (some t) none = (refl, refl)
merge_constitution global (some t) (some s) = (refl, refl)
