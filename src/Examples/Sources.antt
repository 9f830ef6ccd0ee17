-- ===== src/Examples/Sources.antt =====
-- A policy source, as it is read.
use computational_governance.Prelude.{
  ℕ, ◌≤◌, length, String, ℤ, pos, negsuc, ◌≡◌, refl, Option, none, some, List, [], ◌∷◌, str_dec,
  update,
}
use computational_governance.Errors.{parse_error, value_error, ok, raise}
use computational_governance.Model.{Disposition, Decision, DecisionKind}
use computational_governance.Strip.{split_lines, partition_on, strip, after_any_case, split_on}
use computational_governance.Audit.Log.{after_prefix}
use computational_governance.Rule.{Rule, make_requirement}
use computational_governance.Rule.Predicate.{Operator, Threshold, PredicateSpec, predicate_of}
use computational_governance.Parser.Shlex.{shell_split, read_all}
use computational_governance.Parser.Values.{
  int_of, plain_digits, parse_authority, parse_constraint, operator_of, parse_approval_policy,
  match_quorum, take_digits, comma_list,
}
use computational_governance.Parser.Laws.{
  parse_laws, read_lines, read_line, set_field, close, finalize, check_ids,
}
use computational_governance.Compiler.{CompiledPolicy, evaluate}
use computational_governance.Compiler.Policies.{policy_kind}
use computational_governance.Parser.Policies.{compile_source, compiled_source_answers}
use computational_governance.Parser.Reports.{parse_laws_refused}
use computational_governance.Examples.Policies
use computational_governance.Examples.Policies.{payment_of, midnight}

abbrev pub float : String → Option ℤ
float s = none

abbrev pub source : String
source =
    "# payments\nLAW-001\n  capability: payment.send\n  authority_level: >= 3\n  constraint: amount <= 'a b'\r\n  approval_policy: Quorum 2 of ReleaseManager, SecurityLead ,\n\n  on_violation: Escalate\n"

abbrev pub expected : List Rule
expected =
    record {
      id = "LAW-001";
      capability = record { name = "payment.send" };
      min_authority = pos 3;
      disposition = Disposition.escalate;
      requires_approval = none;
      approval_requirement =
          some (record { roles = "ReleaseManager" ∷ "SecurityLead" ∷ []; threshold = 2 });
      predicate = some (record { ref = 5; call = predicate_of spec });
      forbidden_classes = [];
      predicate_spec = some spec;
      parent_id = none;
    }
    ∷ []
  where
    spec : PredicateSpec
    spec = record {
      field_name = "amount";
      operator = Operator.le;
      threshold = Threshold.word "a b";
    }

unfoldable pub runs : Unit {0}
unfolding parse_laws read_lines read_line set_field close finalize check_ids split_lines
    partition_on strip after_any_case parse_authority int_of plain_digits parse_constraint
    operator_of shell_split read_all parse_approval_policy match_quorum take_digits comma_list
    split_on make_requirement str_dec update after_prefix
runs = tt

splits : shell_split "a \"b \\\" c\" '' d\\ e" ≡ ok ("a" ∷ "b \" c" ∷ "" ∷ "d e" ∷ [])
unfolding runs
splits = refl

unclosed : shell_split "a 'b" ≡ raise (value_error "No closing quotation")
unfolding runs
unclosed = refl

numbers :
    (int_of " 1_000 " ≡ some (pos 1000)) × (int_of "-3" ≡ some (negsuc 2)) × (int_of "1__0" ≡ none)
unfolding runs
numbers = (refl, refl, refl)

refused :
    parse_laws float "LAW-1\n capability: a\n owner: b"
    ≡ raise (parse_error 3 "unknown field 'owner'")
unfolding runs
refused = refl

parse_laws_refused_example :
    (n : ℕ) × (m : String) × (parse_error 3 "unknown field 'owner'" ≡ parse_error n m)
    × (n ≤ length (split_lines "LAW-1\n capability: a\n owner: b"))
parse_laws_refused_example =
    parse_laws_refused float "LAW-1\n capability: a\n owner: b"
      (parse_error 3 "unknown field 'owner'") refused

abbrev compiled : CompiledPolicy
compiled = record { rules = expected; roles = []; default_decision = DecisionKind.block }

compiles : compile_source float source none [] "Block" ≡ ok compiled
unfolding runs Policies.runs compile_source
compiles = refl

compiled_source_answers_example :
    (d : Decision) × (evaluate compiled (payment_of 150) midnight none ≡ ok d)
    × (d.kind ≡ policy_kind compiled (payment_of 150) midnight none)
compiled_source_answers_example =
    compiled_source_answers float source none "Block" compiled (payment_of 150) midnight none
      compiles
