-- ===== src/Examples/Runtimes.antt =====
-- Tool calls at concrete inputs.
use computational_governance.Prelude.{
  String, pos, ◌≡◌, refl, true, false, Option, none, some, [], ◌∷◌,
}
use computational_governance.Errors.{ok, raise, identity_error}
use computational_governance.Model.{Action, Decision, num, make_action}
use computational_governance.Approval.{VerifiedIdentity}
use computational_governance.Approval.Verifier.{IdentityVerifier, verify}
use computational_governance.Interceptor.{enforce, shadow, InterceptionResult}
use computational_governance.Interceptor.Methods.{evaluate, record_governance_error}
use computational_governance.Interceptor.Enforcement.{Permits}
use computational_governance.Runtime.{ToolCall, to_action, RuntimeAdapter}
use computational_governance.Runtime.Invoke.{
  is_completed, verified_with, error_result, governed, invoke,
}
use computational_governance.Runtime.Mediation.{invoke_mediated, invoke_unverified}
use computational_governance.Runtime.Once.{none_yet, invoke_once}
use computational_governance.Examples.Policies.{agent, send, midnight}
use computational_governance.Examples.Approvals.{digest}
use computational_governance.Examples.Interceptions
use computational_governance.Examples.Interceptions.{guarded, allowed_40, sent}

abbrev call : ToolCall
call = record {
  actor = agent;
  capability = send;
  params = ("amount", num (pos 40)) ∷ [];
  request_id = some "r-1";
  credential = none;
}

abbrev adapter : RuntimeAdapter
adapter = record {
  interceptor = guarded enforce none;
  raise_in_shadow = false;
  identity_verifier = none;
  completed_request_ids = [];
}

-- A provider that refuses every credential.
abbrev refusing : IdentityVerifier
refusing = record {
  provider = λ credential now. raise (identity_error "identity credential is required");
  trust_domain = "example.org";
  role_mapping = [];
}

abbrev shadowing : RuntimeAdapter
shadowing = record {
  interceptor = guarded shadow none;
  raise_in_shadow = false;
  identity_verifier = some refusing;
  completed_request_ids = [];
}

runs : Unit {0}
unfolding Interceptions.runs make_action to_action verify record_governance_error error_result
    governed invoke
runs = tt

abbrev paid : InterceptionResult String
paid = record {
  decision = allowed_40;
  executed = true;
  value = some "sent";
  initial_decision = some allowed_40;
  approval_request_id = none;
}

invoke_mediated_example :
    (is_completed adapter.completed_request_ids call.request_id ≡ false)
    × (identity : Option VerifiedIdentity) × (action : Action) × (d : Decision) × (verified_with
          digest adapter.identity_verifier call midnight
        ≡ ok identity)
    × (to_action digest call identity ≡ ok action)
    × (evaluate adapter.interceptor action midnight ≡ ok d)
    × Permits adapter.interceptor action d
unfolding runs
invoke_mediated_example = invoke_mediated digest String adapter call midnight sent refl refl

invoke_unverified_example : (invoke digest shadowing call midnight sent).ran ≡ false
unfolding runs
invoke_unverified_example =
    invoke_unverified digest String shadowing call midnight sent
      (identity_error "identity credential is required") refl

pays : (invoke digest adapter call midnight sent).result ≡ ok paid
unfolding runs
pays = refl

invoke_once_example :
    (invoke digest (invoke digest adapter call midnight sent).after call midnight sent).ran ≡ false
invoke_once_example =
    invoke_once digest String adapter (invoke digest adapter call midnight sent).after call call
      midnight midnight sent sent paid "r-1" refl refl refl pays refl none_yet
