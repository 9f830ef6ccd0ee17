-- ===== src/Interceptor/Methods.antt =====
-- governance/interceptor.py: `check`, `record_governance_error`, `execute` and `resume_approved`.
use computational_governance.Prelude.{
  String, ℤ, Bool, true, false, ◌||◌, not, Option, none, some, [], ◌==◌, ◌<>◌, if◌then◌else◌,
}
use computational_governance.Errors.{Exception, approval_error, Try, ok, raise, ◌>>=◌}
use computational_governance.Json.{Json}
use computational_governance.Model.{Action, Context, Decision, DecisionKind, is_escalate, is_allow}
use computational_governance.Audit.Fingerprints.{kind_value}
use computational_governance.Audit.Replay.{evaluate_with}
use computational_governance.Approval.{ApprovalRequest, ApprovalManager}
use computational_governance.Approval.Manager.{default_to, get}
use computational_governance.Approval.Requests.{request, prepare_resume}
use computational_governance.Interceptor.{is_shadow, Handler, Interceptor, Outcome, record_event}

-- A decision without a reviewer that keeps the evidence of another.
abbrev pub settled : DecisionKind → String → Decision → Decision
settled kind reason evidence = record {
  kind = kind;
  role = none;
  reason = reason;
  matched_rules = evidence.matched_rules;
  authority_source = evidence.authority_source;
  authority_path = evidence.authority_path;
  approval_roles = [];
  approval_threshold = 0;
}

-- `Decision(DecisionKind.BLOCK, reason=reason)`
abbrev pub blocked : String → Decision
blocked reason = record {
  kind = DecisionKind.block;
  role = none;
  reason = reason;
  matched_rules = [];
  authority_source = "";
  authority_path = [];
  approval_roles = [];
  approval_threshold = 0;
}

-- A text in an f-string.
abbrev pub shown : Option String → String
shown none = "None"
shown (some s) = s

-- `_evaluate`
unfoldable pub evaluate : Interceptor → Action → Context → Try Decision
unfolding evaluate_with
evaluate self action context = evaluate_with self.policy action context self.delegation

abbrev pub is_role : Option String → String → Bool
is_role none role = false
is_role (some r) role = r == role

module _ (digest : Json → String) {V : Type 0} where
  abbrev pub stop : Interceptor → Exception → Outcome V
  stop self problem = record { after = self; ran = false; result = raise problem }

  -- `value=operation()` in the result.
  abbrev pub run : Try V → Decision → Decision → Option String → Interceptor → Outcome V
  run operation initial decision request_id self = record {
    after = self;
    ran = true;
    result = operation >>= λ value. ok (record {
      decision = decision;
      executed = true;
      value = some value;
      initial_decision = some initial;
      approval_request_id = request_id;
    });
  }

  abbrev pub withhold : Decision → Decision → Option String → Interceptor → Outcome V
  withhold initial decision request_id self = record {
    after = self;
    ran = false;
    result = ok (record {
      decision = decision;
      executed = false;
      value = none;
      initial_decision = some initial;
      approval_request_id = request_id;
    });
  }

  -- What follows a record that succeeded.
  abbrev pub recorded : Interceptor × Try (Unit {0}) → (Interceptor → Outcome V) → Outcome V
  recorded (self, raise problem) rest = stop self problem
  recorded (self, ok u) rest = rest self

  -- Record the decision, then run the operation, or do not.
  unfoldable pub record_and_run :
      Interceptor → Action → Context → Decision → Decision → Option String → Try V → Outcome V
  record_and_run self action context initial decision request_id operation =
      recorded
        (record_event digest self action context initial (some true)
          (some (kind_value decision.kind)))
        (run operation initial decision request_id)

  unfoldable pub record_and_withhold :
      Interceptor → Action → Context → Decision → Decision → Option String → Outcome V
  record_and_withhold self action context initial decision request_id =
      recorded
        (record_event digest self action context initial (some false)
          (some (kind_value decision.kind)))
        (withhold initial decision request_id)

  -- The end of `execute`: only an Allow runs the operation.
  unfoldable pub conclude : Interceptor → Action → Context → Decision → Decision → Try V → Outcome V
  unfolding record_and_run record_and_withhold
  conclude self action context initial decision operation =
      if not (is_allow decision.kind)
      then record_and_withhold self action context initial decision none
      else record_and_run self action context initial decision none operation

  -- An escalation that waits for a request.
  abbrev pub requested :
      Interceptor → Action → Context → Decision → ApprovalManager × Try ApprovalRequest → Outcome V
  requested self action context initial (manager, raise problem) =
      stop (record self { approval_manager = some manager }) problem
  requested self action context initial (manager, ok made) =
      record_and_withhold (record self { approval_manager = some manager }) action context initial
        initial (some made.id)

  -- An escalation that the handler answers at once.
  abbrev pub answered : Interceptor → Action → Context → Decision → Try V → Try Bool → Outcome V
  answered self action context initial operation (raise problem) = stop self problem
  answered self action context initial operation (ok true) =
      conclude self action context initial
        (settled DecisionKind.allow ("approved by " <> shown initial.role) initial) operation
  answered self action context initial operation (ok false) =
      conclude self action context initial
        (settled DecisionKind.block ("approval denied by " <> shown initial.role) initial) operation

  unfoldable pub escalated :
      Interceptor
      → Action
      → Context
      → Decision
      → Try V
      → Option ApprovalManager
      → Option Handler
      → Outcome V
  unfolding conclude
  escalated self action context initial operation (some manager) handler =
      requested self action context initial (
        request digest manager initial self.policy action context self.delegation (some context.now)
          none)
  escalated self action context initial operation none (some handler) =
      answered self action context initial operation (handler (shown initial.role) action initial)
  escalated self action context initial operation none none =
      conclude self action context initial initial operation

  unfoldable pub decided : Interceptor → Action → Context → Try V → Try Decision → Outcome V
  unfolding escalated conclude record_and_run
  decided self action context operation (raise problem) = stop self problem
  decided self action context operation (ok initial) =
      if is_shadow self.mode
      then record_and_run self action context initial initial none operation
      else if is_escalate initial.kind
      then escalated self action context initial operation self.approval_manager
          self.approval_handler
      else conclude self action context initial initial operation

  -- `execute`
  unfoldable pub execute : Interceptor → Action → Context → Try V → Outcome V
  unfolding decided evaluate
  execute self action context operation =
      decided self action context operation (evaluate self action context)

  -- A refused resumption is recorded as a block.
  abbrev pub resume_refused :
      Interceptor → Action → Context → Decision → String → String → Outcome V
  resume_refused self action context current request_id reason =
      record_and_withhold self action context current (settled DecisionKind.block reason current)
        (some request_id)

  -- `try: prepare_resume(...) except ApprovalError`
  abbrev pub prepared :
      Interceptor
      → Action
      → Context
      → Decision
      → String
      → ApprovalRequest
      → Try V
      → ApprovalManager × Try ApprovalRequest
      → Outcome V
  prepared self action context current request_id found operation
        (manager, raise (approval_error m)) =
      resume_refused (record self { approval_manager = some manager }) action context current
        request_id m
  prepared self action context current request_id found operation (manager, raise problem) =
      stop (record self { approval_manager = some manager }) problem
  prepared self action context current request_id found operation (manager, ok used) =
      record_and_run (record self { approval_manager = some manager }) action context current
        (settled DecisionKind.allow ("approved by " <> found.role) current) (some request_id)
        operation

  -- The request that was read has to be for the current escalation.
  abbrev pub looked_up :
      Interceptor
      → Action
      → Context
      → Decision
      → String
      → ℤ
      → Try V
      → ApprovalManager × Try ApprovalRequest
      → Outcome V
  looked_up self action context current request_id now operation (manager, raise problem) =
      stop (record self { approval_manager = some manager }) problem
  looked_up self action context current request_id now operation (manager, ok found) =
      if not (is_escalate current.kind) || not (is_role current.role found.role)
      then resume_refused (record self { approval_manager = some manager }) action context current
          request_id "approval no longer matches the current escalation"
      else prepared (record self { approval_manager = some manager }) action context current
          request_id found operation
          (prepare_resume digest manager request_id self.policy action context self.delegation
            (some now))

  abbrev pub resume_current :
      Interceptor
      → ApprovalManager
      → Action
      → Context
      → String
      → ℤ
      → Try V
      → Try Decision
      → Outcome V
  resume_current self manager action context request_id now operation (raise problem) =
      stop self problem
  resume_current self manager action context request_id now operation (ok current) =
      looked_up self action context current request_id now operation
        (get manager request_id (some now))

  abbrev pub resume_with :
      Interceptor → Option ApprovalManager → Action → Context → String → ℤ → Try V → Outcome V
  resume_with self none action context request_id now operation =
      stop self (approval_error "no approval manager is configured")
  resume_with self (some manager) action context request_id now operation =
      resume_current self manager action context request_id now operation
        (evaluate self action context)

  -- `resume_approved`
  unfoldable pub resume_approved :
      Interceptor → String → Action → Context → Option ℤ → Try V → Outcome V
  unfolding execute evaluate record_and_run record_and_withhold
  resume_approved self request_id action context now operation =
      if is_shadow self.mode
      then execute self action context operation
      else resume_with self self.approval_manager action context request_id
          (default_to context.now now) operation

module _ (digest : Json → String) where
  abbrev checked : Interceptor → Action → Context → Try Decision → Interceptor × Try Decision
  checked self action context (raise problem) = (self, raise problem)
  checked self action context (ok decision) =
      let (after, done) = record_event digest self action context decision none none in
      (after, done >>= λ u. ok decision)

  -- `check`
  unfoldable pub check : Interceptor → Action → Context → Interceptor × Try Decision
  unfolding evaluate
  check self action context = checked self action context (evaluate self action context)

  -- `record_governance_error`
  unfoldable pub record_governance_error :
      Interceptor → Action → Context → String → Bool → Interceptor × Try Decision
  record_governance_error self action context reason executed =
      let (after, done) =
        record_event digest self action context (blocked reason) (some executed) (some "Block") in
      (after, done >>= λ u. ok (blocked reason))
