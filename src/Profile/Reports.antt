-- ===== src/Profile/Reports.antt =====
-- control/profile/scope.go: what ValidateScope reports, against the permission matrix.
use mathlib.Core.List.{map-append}
use openbotstack_core.Base.{
  String, Bool, true, false, Option, none, some, not, ◌&&◌, ◌||◌, List, [], ◌∷◌, ◌++◌, map, ◌≡◌,
  refl, sym, ◌∙◌, ap, ◌==◌, if◌then◌else◌, any, any-append, any-perm, arith, eq_iff,
}
use openbotstack_core.Base.Sort.{sort_by-perm}
use openbotstack_core.Profile.{AssistantProfile, valid}
use openbotstack_core.Profile.Scope.{
  Violation, when, session_only, report, safety_set_fields, evidence_set_fields,
  constitution_violations, constitution, tenant_session_only_violations, session_allowed_fields,
  session_reports, field_lt, session_allow_list_violations, validate_scope, sorted_violations,
  violation_lt,
}
use openbotstack_core.Profile.Merge.{merge, apply_tenant, apply_session, merge_tenant_violations}
use openbotstack_core.Profile.Matrix.{
  Field, path, get, is_set, tenant_may, session_may, identity_name,
}

abbrev at : Field → Violation → Bool
at f v = v.field == path f

any-if :
    (q : Violation → Bool) (b : Bool) (v : Violation)
    → any q (if b then v ∷ [] else []) ≡ (b && q v)
any-if q b v = ground arith

any-session_only :
    (f : Field) (b : Bool) (s : String) → any (at f) (session_only b s) ≡ (s == path f && b)
any-session_only f b s = ground arith

constitution_violations-append :
    (scope block : String) (xs ys : List String)
    → constitution_violations scope block (xs ++ ys)
      ≡ constitution_violations scope block xs ++ constitution_violations scope block ys
unfolding constitution_violations
constitution_violations-append scope block xs ys = map-append _ xs ys

any-tenant :
    (f : Field) (p : AssistantProfile)
    → any (at f) (tenant_session_only_violations p)
      ≡ (is_set (get f p) && (session_may f && not (tenant_may f)))
unfolding tenant_session_only_violations
any-tenant identity_name p = simp (any-append, any-session_only) (ground arith)
any-tenant _ p = simp (any-append, any-session_only) (ground arith)

-- Of one leaf under an `if`.
any-map-when :
    (f : Field) (g : String → Violation) (b : Bool) (leaf : String)
    → any (at f) (map g (when b leaf)) ≡ ((g leaf).field == path f && b)
any-map-when f g true leaf = ground arith
any-map-when f g false leaf = ground arith

any-constitution :
    (f : Field) (scope : String) (p : AssistantProfile)
    → any (at f) (constitution scope p)
      ≡ (is_set (get f p) && (not (session_may f) && not (tenant_may f)))
unfolding constitution constitution_violations safety_set_fields evidence_set_fields
any-constitution identity_name scope p = simp (any-append, map-append, any-map-when) (ground arith)
any-constitution _ scope p = simp (any-append, map-append, any-map-when) (ground arith)

any-report :
    (f : Field) (s : String) (b : Bool)
    → any (at f) (report s b)
      ≡ ((not (any (λ g. g == s) session_allowed_fields) && s == path f) && b)
unfolding report
any-report f s b = ground arith

any-session :
    (f : Field) (p : AssistantProfile)
    → any (at f) (session_reports p) ≡ (is_set (get f p) && (not (session_may f) && tenant_may f))
unfolding session_reports
any-session identity_name p = simp (any-append, any-report) (ground arith)
any-session _ p = simp (any-append, any-report) (ground arith)

any-branch :
    (q : Violation → Bool) (b : Bool) (vs : List Violation)
    → any q (if b then vs else []) ≡ (b && any q vs)
any-branch q true vs = refl
any-branch q false vs = refl

any-allow_list :
    (f : Field) (p : AssistantProfile)
    → any (at f) (session_allow_list_violations p)
      ≡ (is_set (get f p) && (not (session_may f) && tenant_may f))
unfolding session_allow_list_violations
any-allow_list f p =
    sym (any-perm (at f) (sort_by-perm field_lt (session_reports p))) ∙ any-session f p

-- The matrix as a function of the scope.
abbrev pub may : String → Field → Bool
may scope f =
    if scope == "tenant" then tenant_may f else if scope == "session" then session_may f else true

combine :
    (s : String) (set t u : Bool)
    → (s == "global" || (s == "tenant" || s == "session")) ≡ true
    → ((not (s == "global") && (set && (not u && not t)))
        || ((s == "tenant" && (set && (u && not t))) || (s == "session" && (set && (not u && t)))))
      ≡ (set && not (if s == "tenant" then t else if s == "session" then u else true))
combine s set t u h = ground (
  arith,
  eq_iff s "global",
  eq_iff s "tenant",
  eq_iff s "session",
  eq_iff "global" "tenant",
  eq_iff "global" "session",
  eq_iff "tenant" "session",
)

-- ValidateScope reports a field of a profile exactly if the profile sets it and the matrix does not
-- let its scope set it, at each of the three scopes.
pub validate_scope_matrix :
    (f : Field) (p : AssistantProfile)
    → valid p.scope ≡ true
    → any (λ v. v.field == path f) (validate_scope p) ≡ (is_set (get f p) && not (may p.scope f))
unfolding validate_scope valid
validate_scope_matrix f p h = rw h (
    simp (any-append, any-branch, any-constitution, any-tenant, any-allow_list)
      (combine p.scope (is_set (get f p)) (tenant_may f) (session_may f) h))

any-merge_tenant :
    (f : Field) (t : AssistantProfile)
    → any (at f) (merge_tenant_violations t) ≡ (is_set (get f t) && not (tenant_may f))
unfolding merge_tenant_violations
any-merge_tenant f t =
    simp (any-append, any-constitution, any-tenant)
      (both (is_set (get f t)) (tenant_may f) (session_may f))
  where
    both : (set t u : Bool) → ((set && (u && not t)) || (set && (not u && not t))) ≡ (set && not t)
    both set t u = ground arith

-- What an overlay contributes to the violations: nothing if it is nil.
abbrev pub refused : (Field → Bool) → Field → Option AssistantProfile → Bool
refused allowed f none = false
refused allowed f (some p) = is_set (get f p) && not (allowed f)

valid_session : valid "session" ≡ true
unfolding valid
valid_session = refl

any-validate_session :
    (f : Field) (s : AssistantProfile)
    → s.scope ≡ "session"
    → any (at f) (validate_scope s) ≡ (is_set (get f s) && not (session_may f))
any-validate_session f s e =
    validate_scope_matrix f s (ap valid e ∙ valid_session)
    ∙ ap (λ x. is_set (get f s) && not (may x f)) e

any-overlays :
    (f : Field) (tenant session : Option AssistantProfile) (start : AssistantProfile)
    → ((s : AssistantProfile) → session ≡ some s → s.scope ≡ "session")
    → any (at f) (apply_session session (apply_tenant tenant (start, []))).1
      ≡ (refused tenant_may f tenant || refused session_may f session)
unfolding apply_tenant apply_session
any-overlays f none none start h = refl
any-overlays f (some t) none start h = any-merge_tenant f t ∙ ground arith
any-overlays f none (some s) start h = any-validate_session f s (h s refl)
any-overlays f (some t) (some s) start h = rw (
  any-append (at f) (merge_tenant_violations t) (validate_scope s),
  any-merge_tenant f t,
  any-validate_session f s (h s refl),
)

-- Merge reports a field exactly if the tenant overlay sets it and the matrix does not let a tenant
-- set it, or likewise for the session overlay, when that carries the scope "session".
pub merge_reports :
    (f : Field) (global : AssistantProfile) (tenant session : Option AssistantProfile)
    → ((s : AssistantProfile) → session ≡ some s → s.scope ≡ "session")
    → any (λ v. v.field == path f) (merge global tenant session).1
      ≡ (refused tenant_may f tenant || refused session_may f session)
unfolding merge sorted_violations
merge_reports f global tenant session h =
    sym (any-perm (at f) (sort_by-perm violation_lt _)) ∙ any-overlays f tenant session _ h
