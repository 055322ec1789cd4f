-- ===== src/Audit/Emitter.antt =====
-- audit/emitter.go: the delivery of events to subscribers.
use openbotstack_core.Base.{
  ◌&&◌, sym, sym, String, Bool, true, not, Option, none, some, List, [], ◌∷◌, ◌++◌, map, Dict,
  lookup, insert, erase, if◌then◌else◌, ◌==◌, is_some, length, ℕ,
}
use openbotstack_core.Audit.{AuditEvent}

-- A subscriber: its ID, and the events that OnEvent was called with, in order. What OnEvent returns
-- is dropped and a panic of it is recovered, so that neither stops the delivery to the others.
pub record Subscriber : Type 0 where
  pub id : String
  pub received : List AuditEvent

pub data EmitterError : Type 0 where
  context_required subscriber_required subscriber_id_required : EmitterError
  already_registered not_registered : String → EmitterError

-- `AuditEmitter`
pub record AuditEmitter : Type 0 where
  pub subscribers : Dict Subscriber

-- `NewEmitter`
abbrev pub new_emitter : AuditEmitter
new_emitter = record { subscribers = [] }

-- The event as it is delivered: an empty ID is replaced by a fresh one.
abbrev pub with_id : String → AuditEvent → AuditEvent
with_id fresh event = if event.id == "" then record event { id = fresh } else event

abbrev pub on_event : AuditEvent → String × Subscriber → String × Subscriber
on_event event (k, s) = (k, record s { received = s.received ++ event ∷ [] })

-- `Emit`; `has_context` says that the context is not nil, and `fresh` is what uuid.NewString draws.
unfoldable pub emit : Bool → String → AuditEvent → AuditEmitter → AuditEmitter × Option EmitterError
emit has_context fresh event e =
    if not has_context
    then (e, some context_required)
    else (record { subscribers = map (on_event (with_id fresh event)) e.subscribers }, none)

-- `Subscribe`; `none` is a nil subscriber.
unfoldable pub subscribe_emitter :
    Option Subscriber → AuditEmitter → AuditEmitter × Option EmitterError
subscribe_emitter none e = (e, some subscriber_required)
subscribe_emitter (some s) e =
    if is_some (lookup s.id e.subscribers)
    then (e, some (already_registered s.id))
    else (record { subscribers = insert s.id s e.subscribers }, none)

-- `Unsubscribe`
unfoldable pub unsubscribe : String → AuditEmitter → AuditEmitter × Option EmitterError
unsubscribe id e =
    if id == ""
    then (e, some subscriber_id_required)
    else if not (is_some (lookup id e.subscribers))
    then (e, some (not_registered id))
    else (record { subscribers = erase id e.subscribers }, none)

-- `Subscribers`
abbrev pub subscribers_count : AuditEmitter → ℕ
subscribers_count e = length e.subscribers

-- The calls that change the emitter.
pub data EmitterCall : Type 0 where
  emit_call : Bool → String → AuditEvent → EmitterCall
  subscribe_call : Option Subscriber → EmitterCall
  unsubscribe_call : String → EmitterCall

abbrev pub step : EmitterCall → AuditEmitter → AuditEmitter
step (emit_call has_context fresh event) e = (emit has_context fresh event e).0
step (subscribe_call s) e = (subscribe_emitter s e).0
step (unsubscribe_call id) e = (unsubscribe id e).0

abbrev pub run : List EmitterCall → AuditEmitter → AuditEmitter
run [] e = e
run (c ∷ cs) e = run cs (step c e)

-- The events that the calls emit, as they are delivered.
abbrev pub emitted : List EmitterCall → List AuditEvent
emitted [] = []
emitted (emit_call has_context fresh event ∷ cs) =
    if has_context then with_id fresh event ∷ emitted cs else emitted cs
emitted (_ ∷ cs) = emitted cs

-- No call unsubscribes the ID.
abbrev pub keeps : String → List EmitterCall → Bool
keeps id [] = true
keeps id (unsubscribe_call other ∷ cs) = not (other == id) && keeps id cs
keeps id (_ ∷ cs) = keeps id cs

-- What the subscriber with an ID has received; none if there is no such subscriber.
abbrev pub log_of : Option Subscriber → Option (List AuditEvent)
log_of none = none
log_of (some s) = some s.received

abbrev pub received_by : String → AuditEmitter → Option (List AuditEvent)
received_by id e = log_of (lookup id e.subscribers)
