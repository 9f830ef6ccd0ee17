-- ===== src/Examples/Versions.antt =====
-- Two versions of a policy, activated one after the other.
use computational_governance.Prelude.{
  String, ◌≡◌, refl, Bool, true, false, List, none, some, [], ◌∷◌, lookup, insert, update,
}
use mathlib.Core.List.{map}
use computational_governance.Errors.{Try, ok, raise}
use computational_governance.Json.{texts}
use computational_governance.Model.{DecisionKind}
use computational_governance.Compiler.{CompiledPolicy}
use computational_governance.Strip.{strip}
use computational_governance.Versioning.{PolicyBundle, PolicyVersionEvent, PolicyVersionStore}
use computational_governance.Versioning.Semver.{
  Version, version_key, version_lt, split_dots, of_parts, numeric_part,
}
use computational_governance.Versioning.Bundles.{
  policy_semantics, compile, content_hash, from_policy, make_bundle, validate_provenance, json_eq,
  items_eq, fields_eq,
}
use computational_governance.Audit.Log.{all_digits}
use computational_governance.Audit.Fingerprints.{rule_value, kind_value}
use computational_governance.Versioning.Store.{new_store, activate, register, add_event, current}
use computational_governance.Versioning.Activation.{Serves, activate-Serves, activate_forward}
use computational_governance.Versioning.Register.{
  Call, activating, rolling_back, perform, perform_all, served, write_all,
}
use computational_governance.Versioning.Register.Refinement.{served-perform_all}
use computational_governance.Decimal.{pad4, str}
use computational_governance.Examples.Policies
use computational_governance.Examples.Sources
use computational_governance.Examples.Sources.{float, source, expected}
use computational_governance.Parser.Policies.{compile_source}
use computational_governance.Examples.Approvals.{digest}

abbrev compiled : CompiledPolicy
compiled = record {
  rules = expected;
  roles = "ReleaseManager" ∷ "SecurityLead" ∷ [];
  default_decision = DecisionKind.allow;
}

abbrev pub bundle : String → PolicyBundle
bundle version = record {
  policy_id = "payments";
  policy_version = version;
  source = source;
  semantics = policy_semantics compiled;
  provenance = [];
  bundle_version = "1.0";
}

unfoldable pub runs : Unit {0}
unfolding Sources.runs compile_source Policies.runs policy_semantics compile content_hash json_eq
    items_eq fields_eq rule_value kind_value texts version_key split_dots of_parts numeric_part
    all_digits strip activate register add_event current lookup insert update pad4 str
runs = tt

compiles : compile float (bundle "1.0.0") ≡ ok compiled
unfolding runs
compiles = refl

made_of_policy : from_policy float compiled source "payments" "1.0.0" [] ≡ ok (bundle "1.0.0")
unfolding runs from_policy make_bundle validate_provenance
made_of_policy = refl

abbrev first : PolicyVersionEvent
first = record {
  event_id = "policy-version-0001";
  policy_id = "payments";
  event = "activate";
  from_version = none;
  to_version = "1.0.0";
  content_hash = "digest-policy_id";
  reason = "first";
}

abbrev with_first : PolicyVersionStore
with_first = (activate digest float new_store (bundle "1.0.0") "first" false).0

abbrev second : PolicyVersionEvent
second = record first {
  event_id = "policy-version-0002";
  from_version = some "1.0.0";
  to_version = "1.1.0";
  reason = "second";
}

activated : (activate digest float with_first (bundle "1.1.0") "second" false).1 ≡ ok second
unfolding runs
activated = refl

live : lookup "payments" with_first.active ≡ some "1.0.0"
unfolding runs
live = refl

activate-Serves_example :
    Serves digest
      (activate digest float with_first (bundle "1.1.0") "second" false).0
      (bundle "1.1.0")
activate-Serves_example =
    activate-Serves digest float with_first (bundle "1.1.0") "second" false second activated

activate_forward_example :
    (k : Version) × (l : Version) × (version_key "1.0.0" ≡ ok k)
    × (version_key "1.1.0" ≡ ok l)
    × (version_lt l k ≡ false)
activate_forward_example =
    activate_forward digest float with_first (bundle "1.1.0") "second" "1.0.0" second live activated

abbrev calls : List Call
calls =
    activating (bundle "1.1.0") "first" false
    ∷ activating (bundle "1.0.0") "back" false
    ∷ activating (bundle "1.0.0") "on purpose" true
    ∷ rolling_back "payments" "2.0.0" "unknown"
    ∷ []

abbrev is_ok : Try PolicyVersionEvent → Bool
is_ok (ok event) = true
is_ok (raise problem) = false

-- The second call and the last raise.
outcomes :
    map {A = Try PolicyVersionEvent} {B = Bool} is_ok (perform_all digest float calls new_store).1
    ≡ true ∷ false ∷ true ∷ false ∷ []
unfolding runs perform perform_all
outcomes = refl

perform_all-Refines_example :
    served digest (perform_all digest float calls new_store).0 "payments"
    ≡ write_all (perform_all digest float calls new_store).1 (λ p. none) "payments"
perform_all-Refines_example = served-perform_all digest float calls "payments"
