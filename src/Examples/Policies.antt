-- ===== src/Examples/Policies.antt =====
-- Rules, policies and inheritance at concrete inputs.
use mathlib.Core.List.{Permᴰ}
use computational_governance.Prelude.{
  ℕ, String, pos, ◌≡◌, ◌≢◌, refl, ap, true, false, Option, none, some, List, [], ◌∷◌, arith, ◌≤◌,
  str_dec, All, DistinctKeys, sort_by, min_from, lookup, insert, values, keys, str_le, ℕ_discrete,
  ◌==◌, ◌++◌,
}
use computational_governance.Errors.{Try, ok}
use computational_governance.Model.{
  Action, Actor, Capability, Context, Decision, DecisionKind, Disposition, num, is_descendant_of,
  make_decision,
}
use computational_governance.Rule.{
  semantic_signature, Rule, Result, ApprovalRequirement, evaluate, applies_to, predicate_fails,
  approval_missing, count_approved,
}
use computational_governance.Rule.Predicate.{
  PredicateSpec, le, number, predicate_of, compare, field_value,
}
use computational_governance.Composition.{evaluate_rules, role_for}
use computational_governance.Composition.Decisions.{
  evaluate_rules-Permᴰ, evaluate_rules_decides, expected_kind, added_rule_tightens, severity,
}
use computational_governance.Composition.Inheritance.{
  validate_inheritance, validate_inheritance_graph, inherit_rules, weakens_quorum, index,
  is_at_least_as_restrictive, predicate_proven, add_children, check_child, visit_all, remove,
}
use computational_governance.Compiler
use computational_governance.Compiler.{
  CompiledPolicy, compile_policy, check_graph, validate_rules, validate_rule, previous,
  Signature-discrete, default_kind, with_parents, dangling, unknown_roles, apply_default,
}
use computational_governance.Compiler.Policies.{
  IsSound, policy_kind, compile_policy-IsSound, compiled_policy_answers,
}
use computational_governance.Composition.Inheritance.Tightening.{child-tightens}
use computational_governance.Composition.Inheritance.Graph.{
  Rooted, validate_inheritance_graph_ends, validate_inheritance_graph-Rooted,
}
use computational_governance.Composition.Inheritance.Union.{IsUnited, inherit_rules-ok}

abbrev pub agent : Actor
agent = record { id = "agent-1"; authority_level = pos 5; cls = "agent"; capabilities = [] }

abbrev pub send : Capability
send = record { name = "payment.send" }

abbrev pub payment_of : ℕ → Action
payment_of n = record {
  actor = agent;
  capability = send;
  params = ("amount", num (pos n)) ∷ [];
  identity_reference = none;
  identity_roles = [];
}

abbrev pub midnight : Context
midnight = record { budget_used = pos 0; prior_approvals = []; now = pos 0 }

abbrev at_most : ℕ → PredicateSpec
at_most n = record { field_name = "amount"; operator = le; threshold = number (pos n) }

abbrev limit : String → ℕ → Disposition → Option String → Rule
limit id n disposition parent = record {
  id = id;
  capability = send;
  min_authority = pos 3;
  disposition = disposition;
  requires_approval = none;
  approval_requirement = none;
  predicate = some (record { ref = n; call = predicate_of (at_most n) });
  forbidden_classes = [];
  predicate_spec = some (at_most n);
  parent_id = parent;
}

abbrev pub escalating : Rule
escalating = limit "LAW-001" 100 Disposition.escalate none

abbrev blocking : Rule
blocking = limit "LAW-002" 500 Disposition.block none

abbrev stricter : Rule
stricter = limit "LAW-003" 50 Disposition.escalate (some "LAW-001")

abbrev rules : List Rule
rules = blocking ∷ escalating ∷ []

-- A test that unfolds this runs the whole evaluation.
unfoldable pub runs : Unit {0}
unfolding evaluate_rules evaluate applies_to is_descendant_of predicate_fails predicate_of compare
    field_value approval_missing make_decision sort_by str_le str_dec compile_policy check_graph
    validate_rules validate_rule previous Signature-discrete ℕ_discrete default_kind with_parents
    dangling unknown_roles semantic_signature Compiler.evaluate apply_default min_from lookup
    role_for validate_inheritance is_at_least_as_restrictive predicate_proven weakens_quorum
    inherit_rules index add_children check_child visit_all validate_inheritance_graph remove insert
    values keys count_approved
runs = tt

abbrev answer : List Rule → Try Decision
answer rs = evaluate_rules rs (payment_of 150) midnight none

abbrev pub escalation_of_150 : Decision
escalation_of_150 = record {
  kind = DecisionKind.escalate;
  role = some "human-reviewer";
  reason = "escalated by LAW-001 to human-reviewer";
  matched_rules = "LAW-001" ∷ "LAW-002" ∷ [];
  authority_source = "";
  authority_path = [];
  approval_roles = [];
  approval_threshold = 0;
}

escalates : answer rules ≡ ok escalation_of_150
unfolding runs
escalates = refl

distinct_rules : DistinctKeys (λ (r : Rule). r.id) rules
unfolding str_dec
distinct_rules = (((λ e. absurd (ground (arith, ap (λ s. s == "LAW-002") e))), tt), (tt, tt))

evaluate_rules-Permᴰ_example : answer rules ≡ answer (escalating ∷ blocking ∷ [])
evaluate_rules-Permᴰ_example =
    evaluate_rules-Permᴰ rules (escalating ∷ blocking ∷ []) (payment_of 150) midnight none
      (Permᴰ.swap refl refl) distinct_rules

evaluate_rules_decides_example :
    (d : Decision) × (answer rules ≡ ok d)
    × (d.kind ≡ expected_kind rules (payment_of 150) midnight none)
evaluate_rules_decides_example =
    evaluate_rules_decides rules (payment_of 150) midnight none distinct_rules (tt, (tt, tt))

abbrev pub escalation_of_one : Decision
escalation_of_one = record escalation_of_150 { matched_rules = "LAW-001" ∷ [] }

escalates_alone : answer (escalating ∷ []) ≡ ok escalation_of_one
unfolding runs
escalates_alone = refl

added_rule_tightens_example : severity escalation_of_one.kind ≤ severity escalation_of_150.kind
added_rule_tightens_example =
    added_rule_tightens blocking (escalating ∷ []) (payment_of 150) midnight none escalation_of_one
      escalation_of_150 distinct_rules (tt, (tt, tt)) escalates_alone escalates

stricter_valid : validate_inheritance escalating stricter ≡ ok tt
unfolding runs
stricter_valid = refl

child-tightens_example : evaluate escalating (payment_of 40) midnight ≡ Result.satisfied
unfolding runs
child-tightens_example =
    child-tightens escalating stricter (payment_of 40) midnight stricter_valid refl refl
      (λ e. absurd (omega arith)) refl refl refl

validate_inheritance_graph_ends_example :
    validate_inheritance_graph (escalating ∷ stricter ∷ []) ≢ none
validate_inheritance_graph_ends_example =
    validate_inheritance_graph_ends (escalating ∷ stricter ∷ [])

links_checked :
    validate_inheritance_graph (escalating ∷ stricter ∷ [])
    ≡ some (ok (record { visiting = []; checked = "LAW-003" ∷ "LAW-001" ∷ [] }))
unfolding runs
links_checked = refl

validate_inheritance_graph-Rooted_example :
    All (Rooted (index (escalating ∷ stricter ∷ []))) (values (index (escalating ∷ stricter ∷ [])))
validate_inheritance_graph-Rooted_example =
    validate_inheritance_graph-Rooted (escalating ∷ stricter ∷ [])
      (record { visiting = []; checked = "LAW-003" ∷ "LAW-001" ∷ [] }) links_checked

united : inherit_rules rules (stricter ∷ []) ≡ ok (rules ++ stricter ∷ [])
unfolding runs
united = refl

inherit_rules-ok_example :
    (rules ++ stricter ∷ [] ≡ rules ++ stricter ∷ [])
    × DistinctKeys (λ c. c.id) (stricter ∷ [])
    × All (IsUnited rules) (stricter ∷ [])
inherit_rules-ok_example = inherit_rules-ok rules (stricter ∷ []) (rules ++ stricter ∷ []) united

-- A child quorum with more reviewers is accepted, and may be met where the parent's is not.
abbrev two_of_two : ApprovalRequirement
two_of_two = record { roles = "A" ∷ "B" ∷ []; threshold = 2 }

abbrev two_of_three : ApprovalRequirement
two_of_three = record { roles = "A" ∷ "B" ∷ "C" ∷ []; threshold = 2 }

wider_quorum_loosens :
    (weakens_quorum (some two_of_two) (some two_of_three) ≡ false)
    × (approval_missing (some two_of_three) none ("A" ∷ "C" ∷ []) ≡ false)
    × (approval_missing (some two_of_two) none ("A" ∷ "C" ∷ []) ≡ true)
unfolding runs
wider_quorum_loosens = (refl, refl, refl)

abbrev pub default_deny_policy : CompiledPolicy
default_deny_policy = record { rules = rules; roles = []; default_decision = DecisionKind.block }

compiled : compile_policy rules none [] "Block" ≡ ok default_deny_policy
unfolding runs
compiled = refl

compile_policy-IsSound_example : IsSound rules
compile_policy-IsSound_example =
    compile_policy-IsSound rules none [] "Block" default_deny_policy compiled

compiled_policy_answers_example :
    (d : Decision) × (Compiler.evaluate default_deny_policy (payment_of 150) midnight none ≡ ok d)
    × (d.kind ≡ policy_kind default_deny_policy (payment_of 150) midnight none)
compiled_policy_answers_example =
    compiled_policy_answers rules none [] "Block" default_deny_policy (payment_of 150) midnight none
      compiled (tt, (tt, tt))
