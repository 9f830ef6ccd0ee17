-- ===== src/Parser/Policies.antt =====
-- governance/compiler.py: `compile_policy` on a source text.
use computational_governance.Prelude.{String, ℤ, ◌≡◌, Option, List, [], arith, All, All-map, sym}
use mathlib.Core.Path.{subst}
use computational_governance.Errors.{Try, ok, ◌>>=◌, both_return}
use computational_governance.Model.{Action, Context, Decision}
use computational_governance.Rule.{Rule}
use computational_governance.Composition.{Authority}
use computational_governance.Composition.Decisions.{HasQuorum}
use computational_governance.Compiler.{CompiledPolicy, compile_policy, evaluate, with_parents}
use computational_governance.Compiler.Policies.{policy_kind, compiled_policy_answers}
use computational_governance.Parser.Laws.{parse_laws}
use computational_governance.Parser.Parsed.{IsParsed, parse_laws-IsParsed}

-- `compile_policy(source, ...)`, where the source is a text
unfoldable pub compile_source :
    (String → Option ℤ) → String → Option (List String) → List Rule → String → Try CompiledPolicy
compile_source float source roles parent_rules default_decision =
    parse_laws float source >>= λ rules. compile_policy rules roles parent_rules default_decision

compile_policy-rules :
    (rules : List Rule) (roles : Option (List String)) (default : String) (p : CompiledPolicy)
    → compile_policy rules roles [] default ≡ ok p
    → p.rules ≡ rules
unfolding compile_policy with_parents
compile_policy-rules rules roles default p h = ground arith

-- A policy that is compiled from a source text without parent rules answers every action, whatever
-- the roles, the default decision and the delegation, and the kind of its decision is the policy's.
pub compiled_source_answers :
    (float : String → Option ℤ) (source : String) (roles : Option (List String)) (default : String)
    (p : CompiledPolicy) (action : Action) (context : Context) (delegation : Authority)
    → compile_source float source roles [] default ≡ ok p
    → (d : Decision) × (evaluate p action context delegation ≡ ok d)
      × (d.kind ≡ policy_kind p action context delegation)
unfolding compile_source
compiled_source_answers float source roles default p action context delegation h =
    let (rules, compiled, parsed) = both_return (parse_laws float source) _ p h in
    let (some_rules, apart, laws) = parse_laws-IsParsed float source rules parsed in
    let same = compile_policy-rules rules roles default p compiled in
    compiled_policy_answers rules roles [] default p action context delegation compiled (
      subst (All (λ r. HasQuorum r.approval_requirement)) (sym same) (
        All-map _ (λ r. HasQuorum r.approval_requirement) rules (λ r (w : IsParsed r). w.quorum)
          laws))
