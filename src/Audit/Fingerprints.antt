-- ===== src/Audit/Fingerprints.antt =====
-- governance/audit.py: `policy_fingerprint`, `action_fingerprint`, `context_fingerprint` and
-- `state_fingerprint`.
use computational_governance.Prelude.{String, pos, Option, none, some, List, [], ◌∷◌, Dict, sort_by}
use computational_governance.Json.{
  Json, null, int, word, arr, obj, Items, nil, cons, Fields, end, field, texts, optional,
  optional_int,
}
use computational_governance.Model.{
  Action, Context, DecisionKind, Disposition, Value, num, string, structured,
}
use computational_governance.Rule.{Rule, ApprovalRequirement}
use computational_governance.Rule.Predicate.{
  PredicateSpec, Operator, le, ge, lt, gt, eq, ne, Threshold, number,
}
use computational_governance.Compiler.{CompiledPolicy}
use computational_governance.Delegation.{Grant, DelegationGraph}
use computational_governance.Delegation.Methods.{sorted_grants, revoked_grants}

operator_symbol : Operator → String
operator_symbol le = "<="
operator_symbol ge = ">="
operator_symbol lt = "<"
operator_symbol gt = ">"
operator_symbol eq = "=="
operator_symbol ne = "!="

threshold_value : Threshold → Json
threshold_value (number n) = int n
threshold_value (Threshold.word s) = word s

disposition_value : Disposition → Json
disposition_value Disposition.block = word "block"
disposition_value Disposition.escalate = word "escalate"

unfoldable pub kind_value : DecisionKind → String
kind_value DecisionKind.allow = "Allow"
kind_value DecisionKind.block = "Block"
kind_value DecisionKind.escalate = "Escalate"

quorum_value : Option ApprovalRequirement → Json
quorum_value none = null
quorum_value (some q) =
    obj (field "roles" (arr (texts q.roles)) (field "threshold" (int (pos q.threshold)) end))

predicate_value : Option PredicateSpec → Json
unfolding operator_symbol threshold_value
predicate_value none = null
predicate_value (some p) = obj (
    field "field_name" (word p.field_name) (
      field "operator" (word (operator_symbol p.operator))
        (field "threshold" (threshold_value p.threshold) end)))

unfoldable pub rule_value : Rule → Json
unfolding disposition_value quorum_value predicate_value
rule_value r = obj (
    field "id" (word r.id) (
      field "capability" (word r.capability.name) (
        field "min_authority" (int r.min_authority) (
          field "disposition" (disposition_value r.disposition) (
            field "requires_approval" (optional r.requires_approval) (
              field "approval_requirement" (quorum_value r.approval_requirement) (
                field "forbidden_classes" (arr (texts (sort_by (λ c. c) r.forbidden_classes))) (
                  field "parent_id" (optional r.parent_id)
                    (field "predicate" (predicate_value r.predicate_spec) end)))))))))

rule_values : List Rule → Items
unfolding rule_value
rule_values [] = nil
rule_values (r ∷ rs) = cons (rule_value r) (rule_values rs)

-- What is fingerprinted of a policy: callables are not part of it.
unfoldable pub policy_value : CompiledPolicy → Json
unfolding rule_values kind_value
policy_value policy = obj (
    field "rules" (arr (rule_values policy.rules)) (
      field "roles" (arr (texts (sort_by (λ r. r) policy.roles)))
        (field "default_decision" (word (kind_value policy.default_decision)) end)))

unfoldable pub param_value : Value → Json
param_value (num n) = int n
param_value (string s) = word s
param_value Value.null = null
param_value (structured j) = j

unfoldable pub params_value : Dict Value → Fields
unfolding param_value
params_value [] = end
params_value ((k, v) ∷ d) = field k (param_value v) (params_value d)

identity_fields : Option String → List String → Fields
identity_fields none roles = end
identity_fields (some reference) roles =
    field "identity"
      (obj (field "reference" (word reference) (field "roles" (arr (texts roles)) end))) end

unfoldable pub action_value : Action → Json
unfolding params_value identity_fields
action_value action = obj (
    field "actor"
      (obj (
        field "id" (word action.actor.id) (
          field "authority_level" (int action.actor.authority_level) (
            field "class" (word action.actor.cls) (
              field "capabilities" (arr (texts (sort_by (λ c. c) action.actor.capabilities)))
                end)))))
      (field "capability" (word action.capability.name) (
        field "params" (obj (params_value action.params))
          (identity_fields action.identity_reference action.identity_roles))))

unfoldable pub context_value : Context → Json
context_value context = obj (
    field "budget_used" (int context.budget_used) (
      field "prior_approvals" (arr (texts context.prior_approvals))
        (field "now" (int context.now) end)))

reference_fields : Option String → Fields
reference_fields none = end
reference_fields (some reference) = field "identity_reference" (word reference) end

grant_value : Grant → Json
unfolding reference_fields
grant_value g = obj (
    field "id" (word g.id) (
      field "from_actor" (word g.from_actor) (
        field "to_actor" (word g.to_actor) (
          field "capability" (word g.capability.name) (
            field "depth" (int (pos g.depth)) (
              field "expires_at" (optional_int g.expires_at) (
                field "parent_grant_id" (optional g.parent_grant_id) (
                  field "granting_rule_id" (optional g.granting_rule_id)
                    (reference_fields g.identity_reference)))))))))

grant_values : List Grant → Items
unfolding grant_value
grant_values [] = nil
grant_values (g ∷ gs) = cons (grant_value g) (grant_values gs)

intrinsic_fields : Dict (List String) → Fields
intrinsic_fields [] = end
intrinsic_fields ((a, cs) ∷ d) = field a (arr (texts (sort_by (λ c. c) cs))) (intrinsic_fields d)

-- `delegation_snapshot`
unfoldable pub delegation_value : Option DelegationGraph → Json
unfolding grant_values intrinsic_fields
delegation_value none = null
delegation_value (some d) = obj (
    field "intrinsic" (obj (intrinsic_fields (sort_by (λ (a, cs). a) d.intrinsic))) (
      field "grants" (arr (grant_values (sorted_grants d)))
        (field "revoked" (arr (texts (revoked_grants d))) end)))

module _ (digest : Json → String) where
  unfoldable pub policy_fingerprint : CompiledPolicy → String
  policy_fingerprint policy = digest (policy_value policy)

  unfoldable pub action_fingerprint : Action → String
  action_fingerprint action = digest (action_value action)

  unfoldable pub context_fingerprint : Context → String
  context_fingerprint context = digest (context_value context)

  unfoldable pub state_fingerprint : CompiledPolicy → Option DelegationGraph → String
  state_fingerprint policy delegation = digest (
      obj (
        field "policy" (word (policy_fingerprint policy))
          (field "delegation" (delegation_value delegation) end)))
