-- ===== src/Examples/Approvals.antt =====
-- An approval that is requested, voted for and resumed, with a digest that is easy to compute.
use computational_governance.Prelude.{
  String, ◌≡◌, refl, pos, ◌+ℤ◌, true, false, none, some, [], ◌∷◌, arith, str_dec, lookup, insert,
  distinct, subset, length, le_int, ◌≤◌, ◌<>◌,
}
use computational_governance.Errors.{ok, Returns}
use computational_governance.Decimal.{pad4, str}
use computational_governance.Json.{Json, obj, field}
use computational_governance.Model.{make_decision}
use computational_governance.Approval.{ApprovalRequest, ApprovalManager, approved}
use computational_governance.Approval.Manager.{
  default_to, expire_due, get, found, changed, finish, with_request, check_binding, reviewer,
  mismatches,
}
use computational_governance.Approval.Requests.{
  request, request_for, new_request, approve, vote, add_vote, prepare_resume, consume,
}
use computational_governance.Approval.Lifecycle.{IsSound}
use computational_governance.Approval.Bodies.{IsBound}
use computational_governance.Approval.Steps.{
  Steps, done, next, step-IsSound, requested, voted, resumed,
}
use computational_governance.Approval.Resume.{
  steps-IsSound, steps_closed, resumed_once, resumed_rightly,
}
use computational_governance.Audit.Fingerprints.{
  action_fingerprint, action_value, context_fingerprint, context_value, policy_fingerprint,
  policy_value, state_fingerprint,
}
use computational_governance.Examples.Policies.{
  payment_of, midnight, escalation_of_150, default_deny_policy,
}

abbrev pub digest : Json → String
digest (obj (field key value rest)) = "digest-" <> key
digest other = "digest"

abbrev pub start : ApprovalManager
start = record {
  ttl = pos 300;
  request_prefix = "approval";
  require_identity = false;
  next_id = 1;
  requests = [];
}

abbrev pub asked : ApprovalManager
asked =
    (request digest start escalation_of_150 default_deny_policy (payment_of 150) midnight none none
      none).0

abbrev pub agreed : ApprovalManager
agreed =
    (approve digest asked "approval-0001" "human-reviewer" default_deny_policy (payment_of 150)
      midnight none none none).0

abbrev pub used : ApprovalManager
used =
    (prepare_resume digest agreed "approval-0001" default_deny_policy (payment_of 150) midnight none
      none).0

unfoldable pub runs : Unit {0}
unfolding ◌+ℤ◌ str_dec lookup insert expire_due get found changed finish with_request check_binding
    reviewer mismatches request request_for new_request approve vote add_vote prepare_resume consume
    action_fingerprint context_fingerprint policy_fingerprint state_fingerprint action_value
    context_value policy_value pad4 str make_decision
runs = tt

accepted : make_decision escalation_of_150 ≡ ok escalation_of_150
unfolding runs
accepted = refl

start-IsSound : IsSound start
unfolding runs
start-IsSound = record {
  valid = λ k r h. absurd (ground arith);
  numbered = λ k r h. absurd (ground arith);
}

agreeing : Steps digest start agreed
agreeing =
    next
      (requested escalation_of_150 default_deny_policy (payment_of 150) midnight none none none
        accepted)
      (next
        (voted "approval-0001" "human-reviewer" default_deny_policy (payment_of 150) midnight none
          none none)
        done)

pub agreed-IsSound : IsSound agreed
agreed-IsSound = steps-IsSound agreeing start-IsSound

abbrev pub resumed_request : ApprovalRequest
resumed_request = record {
  id = "approval-0001";
  role = "human-reviewer";
  action_fingerprint = "digest-actor";
  context_fingerprint = "digest-budget_used";
  policy_fingerprint = "digest-rules";
  state_fingerprint = "digest-policy";
  matched_rules = "LAW-001" ∷ "LAW-002" ∷ [];
  created_at = pos 0;
  expires_at = pos 300;
  required_roles = "human-reviewer" ∷ [];
  threshold = 1;
  votes = "human-reviewer" ∷ [];
  state = approved;
  consumed = true;
  identity_reference = none;
  vote_identity_references = [];
  denial_identity_reference = none;
}

pub resumes :
    (prepare_resume digest agreed "approval-0001" default_deny_policy
      (payment_of 150)
      midnight
      none
      none).1
    ≡ ok resumed_request
unfolding runs
resumes = refl

stays_used : lookup "approval-0001" used.requests ≡ some resumed_request
unfolding runs
stays_used = refl

used-IsSound : IsSound used
used-IsSound =
    step-IsSound digest
      (resumed "approval-0001" default_deny_policy (payment_of 150) midnight none none)
      agreed-IsSound

steps-IsSound_example : IsSound agreed
steps-IsSound_example = steps-IsSound agreeing start-IsSound

abbrev again : ApprovalManager
again =
    (prepare_resume digest used "approval-0001" default_deny_policy (payment_of 150) midnight none
      none).0

calls : Steps digest used again
calls = next (resumed "approval-0001" default_deny_policy (payment_of 150) midnight none none) done

steps_closed_example : lookup "approval-0001" again.requests ≡ some resumed_request
steps_closed_example =
    steps_closed "approval-0001" resumed_request calls used-IsSound stays_used refl

resumed_once_example :
    ¬ Returns
      (prepare_resume digest again "approval-0001" default_deny_policy
        (payment_of 150)
        midnight
        none
        (some (pos 10))).1
resumed_once_example =
    resumed_once digest agreed again "approval-0001" default_deny_policy (payment_of 150) midnight
      none none resumed_request default_deny_policy (payment_of 150) midnight none (some (pos 10))
      agreed-IsSound resumes calls

resumed_rightly_example :
    IsBound digest resumed_request default_deny_policy (payment_of 150) midnight none
    × (resumed_request.threshold ≤ length resumed_request.votes)
    × (distinct resumed_request.votes ≡ true)
    × (subset resumed_request.votes resumed_request.required_roles ≡ true)
    × (le_int resumed_request.expires_at (default_to resumed_request.created_at none) ≡ false)
resumed_rightly_example =
    resumed_rightly digest agreed "approval-0001" default_deny_policy (payment_of 150) midnight none
      none resumed_request agreed-IsSound resumes
