-- ===== src/Examples/Releases.antt =====
-- A policy that is drafted, validated, simulated, approved and deployed, and its next version.
use computational_governance.Prelude.{
  ℕ, ◌≤◌, String, ℤ, pos, ◌≡◌, refl, true, none, some, List, [], ◌∷◌, distinct, length, values,
  ◌++◌, false,
}
use computational_governance.Strip.{strip}
use computational_governance.Lifecycle.Serving.{monitor, monitor_all, current, expiry_due, or_clock}
use computational_governance.Lifecycle.Keyed.{key_of}
use computational_governance.Lifecycle.Expiry.{current_unexpired}
use computational_governance.Errors.{ok, raise, lifecycle_error}
use computational_governance.Json.{Json, word, end, field}
use computational_governance.Lifecycle.{
  fail_closed, approved, deployed, PolicyLifecycleEvent, LifecycleEntry, PolicyLifecycleManager,
  Rate,
}
use computational_governance.Lifecycle.Tables.{find, put, drop}
use computational_governance.Lifecycle.Monad.{◌>>=◌}
use computational_governance.Lifecycle.Authoring.{
  save, non_empty, expiry_mode_of, make_manager, entry, append_event, latest_event, draft_policy,
  validate, recompute_state,
}
use computational_governance.Lifecycle.Reports.{simulation, case_results, sample}
use computational_governance.Lifecycle.Rollout.{
  cast, simulate, canary, approve, vote_allowed, threshold_for,
}
use computational_governance.Lifecycle.Deployment.{
  set_active, restore, is_deployable, votes_for, require_approval, deploy,
}
use computational_governance.Lifecycle.Approvals.{approver_ids}
use computational_governance.Lifecycle.Calls.{
  Call, drafting, validating, simulating, canarying, approving, deploying, perform, perform_all,
}
use computational_governance.Lifecycle.Quorum.{deploy_agreed}
use computational_governance.Examples.Approvals.{digest}
use computational_governance.Examples.Sources.{float}
use computational_governance.Examples.Versions
use computational_governance.Examples.Versions.{bundle}

abbrev hash48 : String → ℕ
hash48 s = 0

abbrev fresh : PolicyLifecycleManager
fresh = record {
  production_approval_threshold = 2;
  approver_roles = [];
  expiry_mode = fail_closed;
  entries = [];
  approvals = [];
  active = [];
  events = [];
  next_event_id = 1;
}

abbrev half : Rate
half = record { num = 1; den = 2 }

-- The calls that bring a version before its deployment.
abbrev ready : String → List (ℤ × Call)
ready version =
    (pos 1, drafting (bundle version) "owner" none "authored")
    ∷ (pos 2, validating "payments" version none "passed")
    ∷ (pos 3, simulating "payments" version [] none "production" none "dry run")
    ∷ (pos 4, approving "payments" version "ann" "owner" "production" "fine")
    ∷ (pos 5, approving "payments" version "bob" "owner" "production" "fine")
    ∷ []

unfoldable pub runs : Unit {0}
unfolding Versions.runs save set_active cast restore monitor monitor_all current find put drop ◌>>=◌
    non_empty expiry_mode_of make_manager entry append_event latest_event draft_policy validate
    recompute_state simulation case_results sample simulate canary approve vote_allowed
    require_approval deploy perform perform_all values
runs = tt

made : make_manager 2 [] "fail_closed" ≡ ok fresh
unfolding runs
made = refl

abbrev agreed : PolicyLifecycleManager
agreed = perform_all digest float hash48 (ready "1.0.0") fresh

abbrev deployment : PolicyLifecycleEvent
deployment = record {
  event_id = "policy-lifecycle-0006";
  occurred_at = pos 6;
  policy_id = "payments";
  policy_version = "1.0.0";
  event = "deployed";
  from_state = approved;
  to_state = deployed;
  environment = some "production";
  actor_id = none;
  reason = "released";
  attributes = field "previous_version" Json.null end;
}

released :
    (deploy (pos 6) "payments" "1.0.0" "production" "released" none none agreed).1 ≡ ok deployment
unfolding runs
released = refl

deploy_agreed_example :
    (env : String) × (e : LifecycleEntry) × (non_empty "production" "environment" ≡ ok env)
    × ((entry "payments" "1.0.0" agreed).1 ≡ ok e)
    × (is_deployable e.state ≡ true)
    × (distinct (approver_ids (votes_for agreed "payments" "1.0.0" env)) ≡ true)
    × (threshold_for agreed env ≤ length (votes_for agreed "payments" "1.0.0" env))
deploy_agreed_example =
    deploy_agreed digest float hash48 2 [] "fail_closed" fresh (ready "1.0.0") (pos 6) "payments"
      "1.0.0" "production" "released" none none deployment made released

-- The next version, with a canary against the one in production.
abbrev next_ready : PolicyLifecycleManager
next_ready =
    perform_all digest float hash48
      (ready "1.0.0"
        ++ (pos 6, deploying "payments" "1.0.0" "production" "released" none none) ∷ ready "1.1.0"
        ++ (pos 7, canarying "payments" "1.1.0" [] none "production" half 0 none "canary") ∷ [])
      fresh

abbrev upgrade : PolicyLifecycleEvent
upgrade = record deployment {
  event_id = "policy-lifecycle-0014";
  occurred_at = pos 8;
  policy_version = "1.1.0";
  reason = "upgraded";
  attributes = field "previous_version" (word "1.0.0") end;
}

-- A version with a deadline, deployed before it.
abbrev serving_it : List (ℤ × Call)
serving_it =
    (pos 1, drafting (bundle "1.0.0") "owner" (some (pos 10)) "authored")
    ∷ (pos 2, validating "payments" "1.0.0" none "passed")
    ∷ (pos 3, simulating "payments" "1.0.0" [] none "production" none "dry run")
    ∷ (pos 4, approving "payments" "1.0.0" "ann" "owner" "production" "fine")
    ∷ (pos 4, approving "payments" "1.0.0" "bob" "owner" "production" "fine")
    ∷ (pos 4, deploying "payments" "1.0.0" "production" "released" none none)
    ∷ []

served :
    (current
      (pos 5)
      "payments"
      "production"
      none
      (perform_all digest float hash48 serving_it fresh)).1
    ≡ ok (bundle "1.0.0")
unfolding runs
served = refl

-- At its deadline it is not served any more.
expired_then :
    (current
      (pos 10)
      "payments"
      "production"
      none
      (perform_all digest float hash48 serving_it fresh)).1
    ≡ raise (lifecycle_error "no active, non-expired policy for payments in production")
unfolding runs
expired_then = refl

plain : strip "payments" ≡ "payments"
unfolding runs
plain = refl

current_unexpired_example :
    (e : LifecycleEntry) × (find
        (key_of e)
        (monitor (pos 5) none (perform_all digest float hash48 serving_it fresh)).0.entries
      ≡ some e)
    × (e.bundle ≡ bundle "1.0.0")
    × (expiry_due e.expires_at (or_clock none (pos 5)) ≡ false)
current_unexpired_example =
    current_unexpired digest float hash48 2 [] "fail_closed" fresh serving_it (pos 5) "payments"
      "production" none (bundle "1.0.0") made plain served
