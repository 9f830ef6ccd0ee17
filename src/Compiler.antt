-- ===== src/Compiler.antt =====
-- governance/compiler.py: rules are validated and compiled to an enforcement artifact. The rules
-- come parsed: `parse_laws` turns a source into the list that the model starts from.
pub mod Policies
use computational_governance.Prelude.{
  String, Bool, true, false, ◌&&◌, not, Option, none, some, List, [], ◌∷◌, if◌then◌else◌, ite, ◌==◌,
  ◌<>◌, contains, keep, sort_by, is_some, str_dec, ℕ_discrete,
}
use text.Mathlib.Text.{find?}
use computational_governance.Decimal.{repr}
use computational_governance.Errors.{
  Exception, type_error, recursion_error, compile_error, message, Try, ok, raise, ◌>>=◌, ◌>>◌,
  refuse_if,
}
use computational_governance.Model.{
  Action, Context, Decision, DecisionKind, Disposition, is_allow, is_empty, make_decision,
}
use computational_governance.Rule.{Rule, Signature, ApprovalRequirement, semantic_signature}
use computational_governance.Composition.{Authority, evaluate_rules, ids}
use computational_governance.Composition.Inheritance.{
  Search, inherit_rules, validate_inheritance_graph,
}

unfoldable pub Signature-discrete : Discrete Signature
Signature-discrete = hlevel (ℕ_discrete, str_dec)

-- The dict `seen`, newest entry first.
unfoldable pub previous : Signature → List Rule → Option Rule
previous sig [] = none
previous sig (r ∷ rs) =
    ite (Signature-discrete (semantic_signature r) sig) (some r) (previous sig rs)

abbrev pub same_disposition : Disposition → Disposition → Bool
same_disposition Disposition.block Disposition.block = true
same_disposition Disposition.escalate Disposition.escalate = true
same_disposition _ _ = false

-- `role is not in roles`, when a role registry is given
unfoldable pub dangling : Option String → Option (List String) → Bool
dangling none roles = false
dangling (some role) none = false
dangling (some role) (some known) = not (role == "") && not (contains known role)

unfoldable pub unknown_roles : Option ApprovalRequirement → Option (List String) → List String
unknown_roles none roles = []
unknown_roles (some q) none = []
unknown_roles (some q) (some known) = sort_by (λ r. r) (keep (λ r. not (contains known r)) q.roles)

abbrev pub contradicts : Option Rule → Rule → Bool
contradicts none rule = false
contradicts (some p) rule = not (same_disposition p.disposition rule.disposition)

abbrev disposition_value : Disposition → String
disposition_value Disposition.block = "block"
disposition_value Disposition.escalate = "escalate"

abbrev contradiction : Option Rule → Rule → Exception
contradiction none rule = compile_error "contradictory_rules" ""
contradiction (some p) rule = compile_error "contradictory_rules" (
    "rules "
    <> p.id
    <> " and "
    <> rule.id
    <> " have identical conditions but dispositions "
    <> disposition_value p.disposition
    <> " and "
    <> disposition_value rule.disposition)

abbrev quoted : List String → String
quoted [] = ""
quoted (r ∷ []) = repr r
quoted (r ∷ rs) = repr r <> ", " <> quoted rs

abbrev role_name : Option String → String
role_name none = "None"
role_name (some r) = r

-- The checks of one rule; `earlier` are the rules before it, newest first.
unfoldable pub validate_rule : Option (List String) → List Rule → Rule → Try (Unit {0})
validate_rule roles earlier rule = do
  refuse_if (contains (ids earlier) rule.id)
      (compile_error "duplicate_rule" ("duplicate rule id " <> rule.id))
  refuse_if (dangling rule.requires_approval roles) (
      compile_error "dangling_role"
        ("rule " <> rule.id <> " references unknown role " <> role_name rule.requires_approval))
  refuse_if (not (is_empty (unknown_roles rule.approval_requirement roles))) (
      compile_error "dangling_role" (
        "rule "
        <> rule.id
        <> " references unknown approval roles ["
        <> quoted (unknown_roles rule.approval_requirement roles)
        <> "]"))
  refuse_if (contradicts (previous (semantic_signature rule) earlier) rule)
      (contradiction (previous (semantic_signature rule) earlier) rule)

-- `_validate_rules`
unfoldable pub validate_rules : Option (List String) → List Rule → List Rule → Try (Unit {0})
validate_rules roles earlier [] = ok tt
validate_rules roles earlier (r ∷ rs) =
    let rest = validate_rules roles (r ∷ earlier) rs in
    (validate_rule roles earlier r >>= λ _. rest)

pub record CompiledPolicy : Type 0 where
  pub rules : List Rule
  pub roles : List String
  pub default_decision : DecisionKind

abbrev pub is_block_kind : DecisionKind → Bool
is_block_kind DecisionKind.block = true
is_block_kind _ = false

abbrev pub default_deny : Decision
default_deny = record {
  kind = DecisionKind.block;
  role = none;
  reason = "no applicable rule; default-deny policy";
  matched_rules = [];
  authority_source = "";
  authority_path = [];
  approval_roles = [];
  approval_threshold = 0;
}

-- A policy that denies by default blocks an action that is allowed only because no rule applies.
unfoldable pub apply_default : DecisionKind → Decision → Try Decision
apply_default default decision =
    if is_allow decision.kind && is_empty decision.matched_rules && is_block_kind default
    then make_decision default_deny
    else ok decision

-- `CompiledPolicy.evaluate`
unfoldable pub evaluate : CompiledPolicy → Action → Context → Authority → Try Decision
unfolding apply_default
evaluate self action context delegation =
    evaluate_rules self.rules action context delegation >>= λ decision.
    apply_default self.default_decision decision

-- `DecisionKind(default_decision)`
unfoldable pub default_kind : String → Try DecisionKind
default_kind s =
    if s == "Allow"
    then ok DecisionKind.allow
    else if s == "Block"
    then ok DecisionKind.block
    else if s == "Escalate"
    then raise (compile_error "invalid_default_decision" "default decision cannot be Escalate")
    else raise (compile_error "invalid_default_decision" ("unknown default decision " <> repr s))

-- `except ValueError`: the package's errors are ValueErrors, a TypeError passes.
unfoldable pub graph_error : Exception → Exception
graph_error (type_error m) = type_error m
graph_error recursion_error = recursion_error
graph_error e =
    if is_some (find? (message e) "missing parent")
    then compile_error "dangling_parent" (message e)
    else compile_error "inheritance_error" (message e)

-- Running out of fuel stands for the interpreter's recursion limit.
unfoldable pub check_graph : Option (Try Search) → Try (Unit {0})
unfolding graph_error
check_graph none = raise recursion_error
check_graph (some (raise e)) = raise (graph_error e)
check_graph (some (ok s)) = ok tt

unfoldable pub with_parents : List Rule → List Rule → Try (List Rule)
with_parents [] rules = ok rules
with_parents (p ∷ ps) rules = inherit_rules (p ∷ ps) rules

abbrev role_set : Option (List String) → List String
role_set none = []
role_set (some roles) = roles

unfoldable pub compile_policy :
    List Rule → Option (List String) → List Rule → String → Try CompiledPolicy
compile_policy source roles parent_rules default_decision = do
  default ← default_kind default_decision
  rules ← with_parents parent_rules source
  check_graph (validate_inheritance_graph rules)
  validate_rules roles [] rules
  ok (record { rules = rules; roles = role_set roles; default_decision = default })
