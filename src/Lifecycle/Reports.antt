-- ===== src/Lifecycle/Reports.antt =====
-- governance/lifecycle.py: simulations, which compare a candidate with a baseline on given cases.
use computational_governance.Prelude.{
  ℕ, ◌*◌, ◌^◌, String, ℤ, Bool, true, false, ◌&&◌, not, Option, none, some, List, [], ◌∷◌, ◌==◌,
  distinct, keep, ltb, eqb, eq_int,
}
use mathlib.Core.List.{map}
use computational_governance.Errors.{lifecycle_error, Try, ok, ◌>>=◌, ◌>>◌, refuse_if}
use computational_governance.Json.{Json}
use computational_governance.Model.{Action, Context, Decision}
use computational_governance.Compiler
use computational_governance.Compiler.{CompiledPolicy}
use computational_governance.Audit.Fingerprints.{
  kind_value, action_fingerprint, context_fingerprint,
}
use computational_governance.Audit.Replay.{same_texts, same_option}
use computational_governance.Versioning.{PolicyBundle}
use computational_governance.Versioning.Bundles.{compile}
use computational_governance.Lifecycle.{
  SimulationCase, DecisionSnapshot, SimulationCaseResult, SimulationReport, Rate, CanaryReport,
}

-- `DecisionSnapshot.from_decision`
unfoldable pub snapshot_of : Decision → DecisionSnapshot
unfolding kind_value
snapshot_of decision = record {
  kind = kind_value decision.kind;
  role = decision.role;
  reason = decision.reason;
  matched_rules = decision.matched_rules;
  authority_source = decision.authority_source;
  authority_path = decision.authority_path;
  approval_roles = decision.approval_roles;
  approval_threshold = decision.approval_threshold;
}

-- `==` on snapshots
unfoldable pub snapshot_eq : DecisionSnapshot → DecisionSnapshot → Bool
snapshot_eq a b =
    (a.kind == b.kind)
    && (same_option a.role b.role
        && ((a.reason == b.reason)
            && (same_texts a.matched_rules b.matched_rules
                && ((a.authority_source == b.authority_source)
                    && (same_texts a.authority_path b.authority_path
                        && (same_texts a.approval_roles b.approval_roles
                            && eqb a.approval_threshold b.approval_threshold))))))

abbrev pub changed_from : Option DecisionSnapshot → DecisionSnapshot → Bool
changed_from none candidate = false
changed_from (some baseline) candidate = not (snapshot_eq candidate baseline)

-- The version of an optional bundle.
abbrev pub version_of : Option PolicyBundle → Option String
version_of none = none
version_of (some bundle) = some bundle.policy_version

abbrev pub compile_option : (String → Option ℤ) → Option PolicyBundle → Try (Option CompiledPolicy)
compile_option float none = ok none
compile_option float (some bundle) = compile float bundle >>= λ policy. ok (some policy)

abbrev pub evaluate_option :
    Option CompiledPolicy → Action → Context → Try (Option DecisionSnapshot)
evaluate_option none action context = ok none
evaluate_option (some policy) action context =
    Compiler.evaluate policy action context none >>= λ decision. ok (some (snapshot_of decision))

module _ (digest : Json → String) where
  unfoldable pub case_result :
      CompiledPolicy → Option CompiledPolicy → SimulationCase → Try SimulationCaseResult
  unfolding snapshot_of snapshot_eq action_fingerprint context_fingerprint
  case_result candidate baseline case =
      Compiler.evaluate candidate case.action case.context none >>= λ decision.
      evaluate_option baseline case.action case.context >>= λ compared. ok (record {
        case_id = case.case_id;
        action_fingerprint = action_fingerprint digest case.action;
        context_fingerprint = context_fingerprint digest case.context;
        candidate = snapshot_of decision;
        baseline = compared;
        changed = changed_from compared (snapshot_of decision);
      })

  unfoldable pub case_results :
      CompiledPolicy → Option CompiledPolicy → List SimulationCase → Try (List SimulationCaseResult)
  unfolding case_result
  case_results candidate baseline [] = ok []
  case_results candidate baseline (case ∷ cases) =
      let rest = case_results candidate baseline cases in
      case_result candidate baseline case >>= λ result. rest >>= λ results. ok (result ∷ results)

  -- `_simulation`
  unfoldable pub simulation :
      (String → Option ℤ)
      → ℤ
      → PolicyBundle
      → List SimulationCase
      → Option PolicyBundle
      → Try SimulationReport
  unfolding case_results compile
  simulation float clock candidate cases baseline =
      refuse_if (not (distinct (map (λ (c : SimulationCase). c.case_id) cases)))
        (lifecycle_error "simulation case IDs must be unique")
      >> (compile float candidate >>= λ candidate_policy.
          compile_option float baseline >>= λ baseline_policy.
          case_results candidate_policy baseline_policy cases >>= λ results. ok (record {
            policy_id = candidate.policy_id;
            candidate_version = candidate.policy_version;
            baseline_version = version_of baseline;
            cases = results;
            generated_at = clock;
          }))

-- `changed_cases`
abbrev pub changed_cases : SimulationReport → List SimulationCaseResult
changed_cases self = keep (λ c. c.changed) self.cases

-- The cases of a sample: `hash48` is the number that the first twelve hexadecimal digits of the
-- SHA-256 of the id stand for.
unfoldable pub sample : (String → ℕ) → Rate → List SimulationCase → List SimulationCase
sample hash48 rate cases =
    keep (λ case. ltb (hash48 case.case_id * rate.den) (rate.num * 16 ^ 12)) cases

abbrev same_bool : Bool → Bool → Bool
same_bool true b = b
same_bool false b = not b

-- `==` on the reports of a canary, part by part
abbrev same_baseline : Option DecisionSnapshot → Option DecisionSnapshot → Bool
same_baseline none none = true
same_baseline (some a) (some b) = snapshot_eq a b
same_baseline _ _ = false

unfoldable pub result_eq : SimulationCaseResult → SimulationCaseResult → Bool
unfolding snapshot_eq
result_eq a b =
    (a.case_id == b.case_id)
    && ((a.action_fingerprint == b.action_fingerprint)
        && ((a.context_fingerprint == b.context_fingerprint)
            && (snapshot_eq a.candidate b.candidate
                && (same_baseline a.baseline b.baseline && same_bool a.changed b.changed))))

unfoldable pub results_eq : List SimulationCaseResult → List SimulationCaseResult → Bool
unfolding result_eq
results_eq [] [] = true
results_eq (x ∷ xs) (y ∷ ys) = result_eq x y && results_eq xs ys
results_eq _ _ = false

unfoldable pub simulation_eq : SimulationReport → SimulationReport → Bool
unfolding results_eq
simulation_eq a b =
    (a.policy_id == b.policy_id)
    && ((a.candidate_version == b.candidate_version)
        && (same_option a.baseline_version b.baseline_version
            && (results_eq a.cases b.cases && eq_int a.generated_at b.generated_at)))

unfoldable pub canary_eq : CanaryReport → CanaryReport → Bool
unfolding simulation_eq
canary_eq a b =
    (a.policy_id == b.policy_id)
    && ((a.candidate_version == b.candidate_version)
        && ((a.environment == b.environment)
            && (eqb (a.sample_rate.num * b.sample_rate.den) (b.sample_rate.num * a.sample_rate.den)
                && (eqb a.max_changed_decisions b.max_changed_decisions
                    && (simulation_eq a.simulation b.simulation && same_bool a.passed b.passed)))))
