-- ===== src/Audit.antt =====
-- audit/event.go and audit/envelope.go: audit events, and the envelopes that classify them.
use Prim.Native.Nat.{◌/◌}
use openbotstack_core.Base.{
  ℕ, zero, suc, String, Bool, true, false, not, ◌&&◌, ◌||◌, Option, none, some, List, [], ◌∷◌, Dict,
  lookup, if◌then◌else◌, ◌==◌, is_some,
}
use openbotstack_core.Base.Int.{ℤ, pos, negsuc}
use openbotstack_core.Value.{Value, Fields, null, object, end_fields, field}
pub mod Classification
pub mod Emitter
mod Tests

-- `AuditEvent`; the duration is in nanoseconds, and so is the time, since the epoch.
pub record AuditEvent : Type 0 where
  pub id : String
  pub tenant_id : String
  pub user_id : String
  pub request_id : String
  pub action : String
  pub resource : String
  pub outcome : String
  pub duration : ℤ
  pub metadata : Dict String
  pub timestamp : ℤ
  pub actor_id : String
  pub source : String
  pub step_id : String
  pub step_name : String
  pub step_type : String
  pub status : String
  pub tool_input : Fields
  pub tool_output : Value
  pub error : String
  pub trace_id : String

-- `AuditEnvelope`
pub record AuditEnvelope : Type 0 where
  pub event_id : String
  pub trace_id : String
  pub timestamp : ℤ
  pub tenant_id : String
  pub user_id : String
  pub execution_id : String
  pub session_id : String
  pub step_id : String
  pub step_name : String
  pub event_type : String
  pub severity : String
  pub source : String
  pub action : String
  pub resource : String
  pub outcome : String
  pub duration_ms : ℤ
  pub error : String
  pub metadata : Dict String
  pub payload : Option String

abbrev pub is_policy : String → Bool
is_policy action = action == "policy.enforce" || action == "policy.check"

-- What `inferEventType` returns where no case of its switch applies.
abbrev pub default_event_type : AuditEvent → String
default_event_type e =
    if e.status == "failed" || not (e.error == "")
    then "execution.step.failed"
    else if not (e.step_id == "")
    then "execution.step.completed"
    else "execution.step.completed"

-- `inferEventType`
unfoldable pub infer_event_type : AuditEvent → String
infer_event_type e =
    if e.action == ""
    then default_event_type e
    else if e.action == "harness.replan"
    then "execution.plan.replanned"
    else if is_policy e.action
    then (if e.outcome == "denied" then "policy.denied" else "policy.allowed")
    else if not (e.step_id == "") && e.status == "started"
    then "execution.step.started"
    else if not (e.step_id == "") && e.status == "completed"
    then "execution.step.completed"
    else if not (e.step_id == "") && e.status == "failed"
    then "execution.step.failed"
    else default_event_type e

-- `inferSeverity`
unfoldable pub infer_severity : AuditEvent → String
infer_severity e =
    if e.status == "failed"
      || not (e.error == "")
      || e.outcome == "failure"
      || e.outcome == "timeout"
    then "error"
    else if e.outcome == "denied"
    then "warn"
    else "info"

-- `inferSource`
unfoldable pub infer_source : AuditEvent → String
infer_source e =
    if e.actor_id == "admin" || e.action == "admin"
    then "admin_api"
    else if is_policy e.action
    then "policy"
    else if e.step_type == "llm"
    then "reasoning_loop"
    else if not (e.step_id == "") || not (e.step_name == "")
    then "executor"
    else "executor"

-- `resolveSource`
unfoldable pub resolve_source : AuditEvent → String
resolve_source e = if not (e.source == "") then e.source else infer_source e

-- `Duration.Milliseconds`, which drops the part below a millisecond.
abbrev pub negated : ℕ → ℤ
negated zero = pos 0
negated (suc n) = negsuc n

abbrev pub milliseconds : ℤ → ℤ
milliseconds (pos n) = pos (n / 1000000)
milliseconds (negsuc n) = negated (suc n / 1000000)

abbrev pub or_blank : Option String → String
or_blank none = ""
or_blank (some s) = s

abbrev pub has_fields : Fields → Bool
has_fields end_fields = false
has_fields (field _ _ _) = true

abbrev pub is_nil : Value → Bool
is_nil null = true
is_nil _ = false

-- The object that `ToEnvelope` marshals: the input and the output of the tool, where there is one.
unfoldable pub tool_payload : AuditEvent → Fields
tool_payload e =
    let output =
      if is_nil e.tool_output then end_fields else field "tool_output" e.tool_output end_fields in
    if has_fields e.tool_input then field "tool_input" (object e.tool_input) output else output

-- `ToEnvelope`, where `marshal` is json.Marshal, which may fail.
unfoldable pub to_envelope : (Value → Option String) → AuditEvent → AuditEnvelope
to_envelope marshal e = record {
  event_id = e.id;
  trace_id = e.trace_id;
  timestamp = e.timestamp;
  tenant_id = e.tenant_id;
  user_id = e.user_id;
  execution_id = e.request_id;
  session_id = or_blank (lookup "session_id" e.metadata);
  step_id = e.step_id;
  step_name = e.step_name;
  event_type = infer_event_type e;
  severity = infer_severity e;
  source = resolve_source e;
  action = e.action;
  resource = e.resource;
  outcome = e.outcome;
  duration_ms = milliseconds e.duration;
  error = e.error;
  metadata = e.metadata;
  payload =
      if has_fields e.tool_input || not (is_nil e.tool_output)
      then marshal (object (tool_payload e))
      else none;
}
