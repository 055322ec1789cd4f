-- ===== src/Audit/Classification.antt =====
-- audit/envelope.go: how an event is classified.
use openbotstack_core.Base.{
  String, Bool, true, false, not, ◌&&◌, ◌||◌, ◌≡◌, if◌then◌else◌, ◌==◌, arith, eq_iff, refl,
}
use openbotstack_core.Audit.{AuditEvent, is_policy, infer_event_type, infer_severity}

-- An event that is neither a replanning nor a policy decision.
abbrev pub is_step_event : AuditEvent → Bool
is_step_event e = not (e.action == "harness.replan") && not (is_policy e.action)

-- A text equals one literal at most.
exclusive : (s a b : String) → (a == b) ≡ false → (s == a) ≡ true → (s == b) ≡ false
exclusive s a b h k = rw ((eq_iff s a).0 k) h

eq-if : (b : Bool) (s t u : String) → ((if b then s else t) == u) ≡ (if b then s == u else t == u)
eq-if true s t u = refl
eq-if false s t u = refl

severity_table :
    (failed blank failure timeout denied : Bool)
    → (denied ≡ true → failure ≡ false)
    → (denied ≡ true → timeout ≡ false)
    → (((if failed || not blank || failure || timeout
            then "error"
            else if denied
            then "warn"
            else "info")
          == "error")
        ≡ (failed || not blank || failure || timeout))
      × (((if failed || not blank || failure || timeout
              then "error"
              else if denied
              then "warn"
              else "info")
            == "warn")
          ≡ (denied && not failed && blank))
severity_table failed blank failure timeout denied h k =
    (rw (eq-if, eq-if) (ground (arith, h, k)), rw (eq-if, eq-if) (ground (arith, h, k)))

-- `infer_event_type` by the answers of its tests.
abbrev default_type_of : Bool → Bool → String
default_type_of bad has_step =
    if bad
    then "execution.step.failed"
    else if has_step
    then "execution.step.completed"
    else "execution.step.completed"

abbrev event_type_of : Bool → Bool → Bool → Bool → Bool → Bool → Bool → Bool → Bool → String
event_type_of blank replan policy denied has_step started completed failed bad =
    if blank
    then default_type_of bad has_step
    else if replan
    then "execution.plan.replanned"
    else if policy
    then (if denied then "policy.denied" else "policy.allowed")
    else if has_step && started
    then "execution.step.started"
    else if has_step && completed
    then "execution.step.completed"
    else if has_step && failed
    then "execution.step.failed"
    else default_type_of bad has_step

-- A type that is neither "completed" nor "failed" is not the default one.
default_type_of_ne :
    (u : String) (bad has_step : Bool)
    → ("execution.step.failed" == u) ≡ false
    → ("execution.step.completed" == u) ≡ false
    → (default_type_of bad has_step == u) ≡ false
default_type_of_ne u true has_step f c = f
default_type_of_ne u false true f c = c
default_type_of_ne u false false f c = c

Table : Bool → Bool → Bool → Bool → Bool → Bool → String → Type 0
Table blank replan policy denied has_step started t =
    ((t == "execution.plan.replanned") ≡ replan)
    × ((t == "policy.denied") ≡ (policy && denied))
    × ((t == "policy.allowed") ≡ (policy && not denied))
    × ((t == "execution.step.started")
        ≡ (not replan && not policy && not blank && has_step && started))

type-Table :
    (blank replan policy denied has_step started completed failed bad : Bool)
    → (blank ≡ true → replan ≡ false)
    → (blank ≡ true → policy ≡ false)
    → (replan ≡ true → policy ≡ false)
    → Table blank replan policy denied has_step started
        (event_type_of blank replan policy denied has_step started completed failed bad)
unfolding Table
type-Table true replan policy denied has_step started completed failed bad h k l =
    rw (h refl, k refl)
      (
        default_type_of_ne "execution.plan.replanned" bad has_step refl refl,
        default_type_of_ne "policy.denied" bad has_step refl refl,
        default_type_of_ne "policy.allowed" bad has_step refl refl,
        default_type_of_ne "execution.step.started" bad has_step refl refl,
      )
type-Table false true policy denied has_step started completed failed bad h k l =
    rw (l refl) (refl, refl, refl, refl)
type-Table false false true true has_step started completed failed bad h k l =
    (refl, refl, refl, refl)
type-Table false false true false has_step started completed failed bad h k l =
    (refl, refl, refl, refl)
type-Table false false false denied true true completed failed bad h k l = (refl, refl, refl, refl)
type-Table false false false denied true false true failed bad h k l = (refl, refl, refl, refl)
type-Table false false false denied true false false true bad h k l = (refl, refl, refl, refl)
type-Table false false false denied true false false false true h k l = (refl, refl, refl, refl)
type-Table false false false denied true false false false false h k l = (refl, refl, refl, refl)
type-Table false false false denied false started completed failed true h k l =
    (refl, refl, refl, refl)
type-Table false false false denied false started completed failed false h k l =
    (refl, refl, refl, refl)

-- An event is of the type of a replanning, a denial or an approval exactly if its action is one,
-- whatever its status and its error say, and of the type of a started step exactly if it has another
-- action, which is not blank, and a step, whose status is "started".
infer_event_type_table :
    (e : AuditEvent)
    → ((infer_event_type e == "execution.plan.replanned") ≡ (e.action == "harness.replan"))
      × ((infer_event_type e == "policy.denied") ≡ (is_policy e.action && e.outcome == "denied"))
      × ((infer_event_type e == "policy.allowed")
          ≡ (is_policy e.action && not (e.outcome == "denied")))
      × ((infer_event_type e == "execution.step.started") ≡ (
          is_step_event e
          && not (e.action == "")
          && not (e.step_id == "")
          && e.status == "started"))
unfolding infer_event_type Table
infer_event_type_table e =
    type-Table (e.action == "") (e.action == "harness.replan") (is_policy e.action)
      (e.outcome == "denied") (not (e.step_id == "")) (e.status == "started")
      (e.status == "completed") (e.status == "failed") (e.status == "failed" || not (e.error == ""))
      (exclusive e.action "" "harness.replan" refl) (λ b. rw ((eq_iff e.action "").0 b) refl)
      (λ r. rw ((eq_iff e.action "harness.replan").0 r) refl)

-- An event has the severity "error" exactly if it failed, carries an error, or has the outcome
-- "failure" or "timeout", and the severity "warn" exactly if it is a denial that did not fail and
-- carries no error.
infer_severity_table :
    (e : AuditEvent)
    → ((infer_severity e == "error") ≡ (
        e.status == "failed"
        || not (e.error == "")
        || e.outcome == "failure"
        || e.outcome == "timeout"))
      × ((infer_severity e == "warn")
          ≡ (e.outcome == "denied" && not (e.status == "failed") && e.error == ""))
unfolding infer_severity
infer_severity_table e =
    severity_table (e.status == "failed") (e.error == "") (e.outcome == "failure")
      (e.outcome == "timeout") (e.outcome == "denied") (exclusive e.outcome "denied" "failure" refl)
      (exclusive e.outcome "denied" "timeout" refl)
