-- ===== src/Interceptor.antt =====
-- governance/interceptor.py: the state of an `Interceptor`, and what it records.
pub mod Methods
pub mod Records
pub mod Enforcement
pub mod Honest
pub mod Resumption
use computational_governance.Prelude.{
  ℕ, suc, String, Bool, true, false, Option, none, some, List, [], ◌∷◌, ◌++◌, Dict, lookup, ◌<>◌,
}
use computational_governance.Decimal.{pad4}
use computational_governance.Errors.{Try, ok, raise}
use computational_governance.Json.{Json}
use computational_governance.Model.{Action, Context, Decision}
use computational_governance.Compiler.{CompiledPolicy}
use computational_governance.Delegation.{DelegationGraph}
use computational_governance.Approval.{ApprovalManager}
use computational_governance.Audit.Fingerprints.{kind_value}
use computational_governance.Audit.Events.{DecisionEvent, from_decision, outcome_or}
use computational_governance.Audit.Log.{AuditLog, append_event, next_sequence}

pub data InterceptorMode : Type 0 where
  shadow enforce : InterceptorMode

abbrev pub mode_value : InterceptorMode → String
mode_value shadow = "shadow"
mode_value enforce = "enforce"

abbrev pub is_shadow : InterceptorMode → Bool
is_shadow shadow = true
is_shadow enforce = false

-- One entry of `events`, the dict that is also logged.
pub record GovernanceEvent : Type 0 where
  pub actor : String
  pub capability : String
  pub decision : Decision
  pub identity_reference : Option String
  pub identity_roles : List String
  pub mode : String
  pub event_id : String
  pub trace_id : String
  pub executed : Option Bool
  pub outcome : String

-- `approval_handler`: called with the role, the action and the decision.
abbrev pub Handler : Type 0
Handler = String → Action → Decision → Try Bool

pub record Interceptor : Type 0 where
  pub policy : CompiledPolicy
  pub mode : InterceptorMode
  pub delegation : Option DelegationGraph
  pub approval_handler : Option Handler
  pub approval_manager : Option ApprovalManager
  pub audit_log : AuditLog
  pub trace_id : String
  pub next_event_id : ℕ
  pub events : List GovernanceEvent

-- `Interceptor(...)`
unfoldable pub make_interceptor :
    CompiledPolicy
    → InterceptorMode
    → Option DelegationGraph
    → Option Handler
    → Option ApprovalManager
    → AuditLog
    → String
    → Interceptor
make_interceptor policy mode delegation approval_handler approval_manager audit_log trace_id =
    record {
      policy = policy;
      mode = mode;
      delegation = delegation;
      approval_handler = approval_handler;
      approval_manager = approval_manager;
      audit_log = audit_log;
      trace_id = trace_id;
      next_event_id = next_sequence audit_log trace_id;
      events = [];
    }

-- What a call returns: `value` is there where the operation ran.
pub record InterceptionResult (V : Type 0) : Type 0 where
  pub decision : Decision
  pub executed : Bool
  pub value : Option V
  pub initial_decision : Option Decision
  pub approval_request_id : Option String

-- A call: the interceptor after it, whether the operation was started, and what the call returns or
-- raises.
pub record Outcome (V : Type 0) : Type 0 where
  pub after : Interceptor
  pub ran : Bool
  pub result : Try (InterceptionResult V)

-- The id of the next event.
abbrev pub event_id_of : Interceptor → String
event_id_of self = (self.trace_id <> "-") <> pad4 self.next_event_id

module _ (digest : Json → String) where
  abbrev pub logged : Interceptor → GovernanceEvent → Try AuditLog → Interceptor × Try (Unit {0})
  logged self event (raise problem) = (self, raise problem)
  logged self event (ok log) =
      (record self { audit_log = log; events = self.events ++ event ∷ [] }, ok tt)

  abbrev pub append_recorded :
      Interceptor → GovernanceEvent → Try DecisionEvent → Interceptor × Try (Unit {0})
  append_recorded self event (raise problem) = (self, raise problem)
  append_recorded self event (ok recorded) =
      logged self event (append_event self.audit_log recorded)

  -- `_record`: the number is used up also where recording fails.
  unfoldable pub record_event :
      Interceptor
      → Action
      → Context
      → Decision
      → Option Bool
      → Option String
      → Interceptor × Try (Unit {0})
  record_event self action context decision executed outcome =
      append_recorded (record self { next_event_id = suc self.next_event_id })
        (record {
          actor = action.actor.id;
          capability = action.capability.name;
          decision = decision;
          identity_reference = action.identity_reference;
          identity_roles = action.identity_roles;
          mode = mode_value self.mode;
          event_id = event_id_of self;
          trace_id = self.trace_id;
          executed = executed;
          outcome = outcome_or outcome (kind_value decision.kind);
        })
        (from_decision digest (event_id_of self) self.trace_id self.policy action context decision
          (mode_value self.mode) self.delegation executed outcome)

-- `ApprovalStub`
pub record ApprovalStub : Type 0 where
  pub decisions : Dict Bool
  pub default : Bool
  pub requests : List (String × String × String)

abbrev answer_or : Option Bool → Bool → Bool
answer_or none default = default
answer_or (some answer) default = answer

-- `ApprovalStub.request`
unfoldable pub stub_request : ApprovalStub → String → Action → ApprovalStub × Bool
stub_request self role action = (
  record self { requests = self.requests ++ (role, action.actor.id, action.capability.name) ∷ [] },
  answer_or (lookup role self.decisions) self.default,
)
