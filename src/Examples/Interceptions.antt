-- ===== src/Examples/Interceptions.antt =====
-- Recorded, enforced, shadowed and resumed actions at concrete inputs.
use computational_governance.Prelude.{
  String, pos, ◌≡◌, refl, ◌↔◌, inl, true, false, Option, none, some, [], ◌∷◌, arith, ◌<>◌, contains,
}
use computational_governance.Errors.{Try, ok}
use computational_governance.Decimal.{pad4}
use computational_governance.Model.{Decision, DecisionKind}
use computational_governance.Approval.{ApprovalManager}
use computational_governance.Approval.Manager.{get}
use computational_governance.Approval.Requests.{prepare_resume}
use computational_governance.Approval.Steps.{done}
use computational_governance.Audit.Fingerprints.{kind_value}
use computational_governance.Audit.Events.{DecisionEvent, event_of, make_event, from_decision}
use computational_governance.Audit.Log.{
  AuditLog, append_event, empty_log, next_sequence, max_sequence, sequence_of, digits_value,
  after_prefix, all_digits,
}
use computational_governance.Audit.Replay.{
  ReplayResult, authority_of, evaluate_with, drift_of, replay_event,
}
use computational_governance.Audit.Exact.{Agrees, replay_event_exact, replay_event-from_decision}
use computational_governance.Audit.Sequence.{IsConsistent, next_sequence_fresh}
use computational_governance.Interceptor.{
  InterceptorMode, shadow, enforce, Interceptor, Outcome, record_event,
}
use computational_governance.Interceptor.Methods.{
  evaluate, execute, decided, escalated, conclude, record_and_run, record_and_withhold,
  resume_approved,
}
use computational_governance.Interceptor.Records.{IsNumbered}
use computational_governance.Interceptor.Enforcement.{
  Permits, RunIsLogged, execute_permitted, execute_shadowed,
}
use computational_governance.Interceptor.Honest.{IsHonest, execute-IsHonest}
use computational_governance.Interceptor.Resumption.{resume_approved_once}
use computational_governance.Examples.Policies.{
  payment_of, midnight, escalation_of_150, default_deny_policy,
}
use computational_governance.Examples.Policies
use computational_governance.Examples.Approvals
use computational_governance.Examples.Approvals.{digest, agreed, agreed-IsSound}

abbrev pub guarded : InterceptorMode → Option ApprovalManager → Interceptor
guarded mode manager = record {
  policy = default_deny_policy;
  mode = mode;
  delegation = none;
  approval_handler = none;
  approval_manager = manager;
  audit_log = empty_log;
  trace_id = "t";
  next_event_id = 1;
  events = [];
}

unfoldable pub runs : Unit {0}
unfolding Policies.runs Approvals.runs kind_value event_of make_event from_decision append_event
    next_sequence max_sequence sequence_of digits_value after_prefix all_digits authority_of
    evaluate_with drift_of replay_event record_event evaluate execute decided escalated conclude
    record_and_run record_and_withhold resume_approved
runs = tt

abbrev pub allowed_40 : Decision
allowed_40 = record {
  kind = DecisionKind.allow;
  role = none;
  reason = "all applicable rules satisfied";
  matched_rules = "LAW-001" ∷ "LAW-002" ∷ [];
  authority_source = "";
  authority_path = [];
  approval_roles = [];
  approval_threshold = 0;
}

pub evaluated_40 : evaluate_with default_deny_policy (payment_of 40) midnight none ≡ ok allowed_40
unfolding runs
evaluated_40 = refl

evaluated_150 :
    evaluate_with default_deny_policy (payment_of 150) midnight none ≡ ok escalation_of_150
unfolding runs
evaluated_150 = refl

abbrev pub sent : Try String
sent = ok "sent"

abbrev recorded_40 : DecisionEvent
recorded_40 =
    event_of digest "t-0001" "t" default_deny_policy (payment_of 40) midnight allowed_40 "enforce"
      none (some true) (some "Allow")

recording :
    from_decision digest "t-0001" "t" default_deny_policy
      (payment_of 40)
      midnight
      allowed_40
      "enforce"
      none
      (some true)
      (some "Allow")
    ≡ ok recorded_40
unfolding runs
recording = refl

replay_event-from_decision_example :
    replay_event digest recorded_40 default_deny_policy (payment_of 40) midnight none
    ≡ ok (record { decision = allowed_40; drift = [] })
replay_event-from_decision_example =
    replay_event-from_decision digest "t-0001" "t" default_deny_policy (payment_of 40) midnight
      allowed_40 "enforce" none (some true) (some "Allow") recorded_40 evaluated_40 recording

-- The same event, replayed for another amount.
abbrev drifted : ReplayResult
drifted = record { decision = escalation_of_150; drift = "decision" ∷ "role" ∷ "reason" ∷ [] }

drifts :
    replay_event digest recorded_40 default_deny_policy (payment_of 150) midnight none ≡ ok drifted
unfolding runs
drifts = refl

replay_event_exact_example :
    (drifted.drift ≡ [])
    ↔ Agrees digest recorded_40 default_deny_policy (payment_of 150) midnight none drifted.decision
replay_event_exact_example =
    replay_event_exact digest recorded_40 default_deny_policy (payment_of 150) midnight none drifted
      drifts

abbrev one_event : AuditLog
one_event = record { events = recorded_40 ∷ []; ids = "t-0001" ∷ [] }

one_event-IsConsistent : IsConsistent one_event
unfolding event_of
one_event-IsConsistent = record { known = λ k h. (recorded_40, inl refl, ground arith) }

next_sequence_fresh_example : contains one_event.ids (("t" <> "-") <> pad4 2) ≡ false
unfolding runs
next_sequence_fresh_example =
    next_sequence_fresh one_event "t" 2 one_event-IsConsistent (λ event m s named. ground arith)
      (omega arith)

execute_permitted_example :
    (d : Decision) × (evaluate (guarded enforce none) (payment_of 40) midnight ≡ ok d)
    × Permits (guarded enforce none) (payment_of 40) d
    × RunIsLogged digest
        (guarded enforce none)
        (execute digest (guarded enforce none) (payment_of 40) midnight sent).after
        (payment_of 40)
        midnight
        d
        DecisionKind.allow
unfolding runs
execute_permitted_example =
    execute_permitted digest String (guarded enforce none) (payment_of 40) midnight sent refl refl

fresh_numbers : IsNumbered (guarded shadow none)
fresh_numbers n above = refl

execute_shadowed_example :
    ((execute digest (guarded shadow none) (payment_of 150) midnight sent).ran ≡ true)
    × ((execute digest (guarded shadow none) (payment_of 150) midnight sent).result
        ≡ ok (record {
          decision = escalation_of_150;
          executed = true;
          value = some "sent";
          initial_decision = some escalation_of_150;
          approval_request_id = none;
        }))
unfolding runs
execute_shadowed_example =
    execute_shadowed digest String (guarded shadow none) (payment_of 150) midnight sent
      escalation_of_150 refl fresh_numbers refl refl

execute-IsHonest_example :
    IsHonest
      (guarded enforce none)
      (execute digest (guarded enforce none) (payment_of 600) midnight sent)
execute-IsHonest_example =
    execute-IsHonest digest String (guarded enforce none) (payment_of 600) midnight sent

abbrev after_resume : Outcome String
after_resume =
    resume_approved digest (guarded enforce (some agreed)) "approval-0001" (payment_of 150) midnight
      none sent

abbrev used_manager : ApprovalManager
used_manager =
    (prepare_resume digest (get agreed "approval-0001" (some (pos 0))).0 "approval-0001"
      default_deny_policy (payment_of 150) midnight none (some (pos 0))).0

resume_approved_once_example :
    (resume_approved digest
      (guarded enforce (some used_manager))
      "approval-0001"
      (payment_of 150)
      midnight
      none
      sent).ran
    ≡ false
unfolding runs
resume_approved_once_example =
    resume_approved_once digest String (guarded enforce (some agreed))
      (guarded enforce (some used_manager)) "approval-0001" (payment_of 150) (payment_of 150)
      midnight midnight none none sent sent agreed used_manager used_manager refl refl refl
      agreed-IsSound refl refl done refl
