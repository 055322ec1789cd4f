-- ===== src/Audit/Tests.antt =====
-- Runs of the audit emitter and the classification, and the theorems at concrete inputs.
use openbotstack_core.Base.{true, false, some, List, [], ◌∷◌, ◌≡◌, refl}
use openbotstack_core.Base.Int.{pos, negsuc}
use openbotstack_core.Value.{null, end_fields}
use openbotstack_core.Audit.{AuditEvent, infer_event_type, milliseconds}
use openbotstack_core.Audit.Emitter.{
  Subscriber, AuditEmitter, EmitterCall, emit_call, subscribe_call, unsubscribe_call,
}

abbrev denial : AuditEvent
denial = record {
  id = "";
  tenant_id = "acme";
  user_id = "ada";
  request_id = "r1";
  action = "policy.enforce";
  resource = "skill/search";
  outcome = "denied";
  duration = pos 2500000;
  metadata = [];
  timestamp = pos 0;
  actor_id = "";
  source = "";
  step_id = "s1";
  step_name = "search";
  step_type = "tool";
  status = "failed";
  tool_input = end_fields;
  tool_output = null;
  error = "";
  trace_id = "";
}

abbrev logger : Subscriber
logger = record { id = "log"; received = [] }

abbrev one_logger : AuditEmitter
one_logger = record { subscribers = ("log", logger) ∷ [] }

abbrev calls : List EmitterCall
calls =
    emit_call true "e1" denial
    ∷ unsubscribe_call "other"
    ∷ subscribe_call (some logger)
    ∷ emit_call false "e2" denial
    ∷ []

rounds : milliseconds (pos 2500000) ≡ pos 2
rounds = refl

rounds_negative : milliseconds (negsuc 1499999) ≡ negsuc 0
rounds_negative = refl

-- A step whose event has no action is classified as completed when it starts.
started_without_action :
    infer_event_type (record denial { action = ""; status = "started" })
    ≡ "execution.step.completed"
unfolding infer_event_type
started_without_action = refl
