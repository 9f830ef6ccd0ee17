-- ===== src/Audit/Events.antt =====
-- governance/audit.py: `DecisionEvent`, what one governance check leaves in the log.
use computational_governance.Prelude.{
  ℕ, String, pos, Bool, false, ◌&&◌, ◌||◌, not, Option, none, some, List, if◌then◌else◌, ◌==◌, ◌<>◌,
}
use computational_governance.Decimal.{repr}
use computational_governance.Errors.{value_error, Try, ok, raise}
use computational_governance.Json.{
  Json, null, bool, int, word, arr, obj, Fields, end, field, texts, optional,
}
use computational_governance.Model.{Action, Context, Decision, truthy}
use computational_governance.Compiler.{CompiledPolicy}
use computational_governance.Delegation.{DelegationGraph}
use computational_governance.Audit.Fingerprints.{
  kind_value, action_fingerprint, context_fingerprint, policy_fingerprint, state_fingerprint,
}

-- A replayable governance check; parameters are represented by a digest.
pub record DecisionEvent : Type 0 where
  pub event_id : String
  pub trace_id : String
  pub policy_fingerprint : String
  pub state_fingerprint : String
  pub action_fingerprint : String
  pub context_fingerprint : String
  pub actor_id : String
  pub capability : String
  pub decision : String
  pub role : Option String
  pub reason : String
  pub matched_rules : List String
  pub authority_source : String
  pub authority_path : List String
  pub mode : String
  pub approval_roles : List String
  pub approval_threshold : ℕ
  pub executed : Option Bool
  pub outcome : Option String
  pub event_version : String
  pub identity_reference : Option String
  pub identity_roles : List String

-- `value in {kind.value for kind in DecisionKind}`
abbrev pub is_kind : String → Bool
is_kind value = value == "Allow" || (value == "Block" || value == "Escalate")

abbrev pub unknown_outcome : Option String → Bool
unknown_outcome none = false
unknown_outcome (some value) = not (is_kind value)

-- The text that is printed for an outcome.
abbrev outcome_repr : Option String → String
outcome_repr none = "None"
outcome_repr (some value) = repr value

-- `DecisionEvent(...)`, with the checks of `__post_init__`.
unfoldable pub make_event : DecisionEvent → Try DecisionEvent
make_event self =
    if not (is_kind self.decision)
    then raise (value_error ("unknown event decision " <> repr self.decision))
    else if (self.decision == "Escalate") && not (truthy self.role)
    then raise (value_error "Escalate events require a role")
    else if not (self.decision == "Escalate") && truthy self.role
    then raise (value_error "role is only valid for Escalate events")
    else if unknown_outcome self.outcome
    then raise (value_error ("unknown event outcome " <> outcome_repr self.outcome))
    else ok self

-- `outcome or decision.kind.value`
abbrev pub outcome_or : Option String → String → String
outcome_or none value = value
outcome_or (some outcome) value = if outcome == "" then value else outcome

-- `AUDIT_EVENT_VERSION`
abbrev pub audit_event_version : String
audit_event_version = "1.0"

module _ (digest : Json → String) where
  -- The event of a decision, before the checks of its constructor.
  unfoldable pub event_of :
      String
      → String
      → CompiledPolicy
      → Action
      → Context
      → Decision
      → String
      → Option DelegationGraph
      → Option Bool
      → Option String
      → DecisionEvent
  unfolding kind_value action_fingerprint context_fingerprint policy_fingerprint state_fingerprint
  event_of event_id trace_id policy action context decision mode delegation executed outcome =
      record {
        event_id = event_id;
        trace_id = trace_id;
        policy_fingerprint = policy_fingerprint digest policy;
        state_fingerprint = state_fingerprint digest policy delegation;
        action_fingerprint = action_fingerprint digest action;
        context_fingerprint = context_fingerprint digest context;
        actor_id = action.actor.id;
        capability = action.capability.name;
        decision = kind_value decision.kind;
        role = decision.role;
        reason = decision.reason;
        matched_rules = decision.matched_rules;
        authority_source = decision.authority_source;
        authority_path = decision.authority_path;
        mode = mode;
        approval_roles = decision.approval_roles;
        approval_threshold = decision.approval_threshold;
        executed = executed;
        outcome = some (outcome_or outcome (kind_value decision.kind));
        event_version = audit_event_version;
        identity_reference = action.identity_reference;
        identity_roles = action.identity_roles;
      }

  -- `DecisionEvent.from_decision`
  unfoldable pub from_decision :
      String
      → String
      → CompiledPolicy
      → Action
      → Context
      → Decision
      → String
      → Option DelegationGraph
      → Option Bool
      → Option String
      → Try DecisionEvent
  unfolding event_of make_event
  from_decision event_id trace_id policy action context decision mode delegation executed outcome =
      make_event
        (event_of event_id trace_id policy action context decision mode delegation executed outcome)

abbrev optional_bool : Option Bool → Json
optional_bool none = null
optional_bool (some b) = bool b

-- Records without an identity are written as they were before identities were recorded.
abbrev event_identity : Option String → List String → Fields
event_identity none roles = end
event_identity (some reference) roles =
    field "identity_reference" (word reference) (field "identity_roles" (arr (texts roles)) end)

-- `DecisionEvent.to_dict`
unfoldable pub event_dict : DecisionEvent → Json
event_dict self = obj (
    field "event_version" (word self.event_version) (
      field "event_id" (word self.event_id) (
        field "trace_id" (word self.trace_id) (
          field "policy_fingerprint" (word self.policy_fingerprint) (
            field "state_fingerprint" (word self.state_fingerprint) (
              field "action_fingerprint" (word self.action_fingerprint) (
                field "context_fingerprint" (word self.context_fingerprint) (event_tail self))))))))
  where
    event_tail : DecisionEvent → Fields
    event_tail self = field "actor_id" (word self.actor_id) (
        field "capability" (word self.capability) (
          field "decision" (word self.decision) (
            field "role" (optional self.role) (
              field "reason" (word self.reason) (
                field "matched_rules" (arr (texts self.matched_rules)) (
                  field "authority_source" (word self.authority_source) (
                    field "authority_path" (arr (texts self.authority_path)) (
                      field "approval_roles" (arr (texts self.approval_roles)) (
                        field "approval_threshold" (int (pos self.approval_threshold)) (
                          field "mode" (word self.mode) (
                            field "executed" (optional_bool self.executed) (
                              field "outcome" (optional self.outcome) (
                                event_identity self.identity_reference
                                  self.identity_roles)))))))))))))
