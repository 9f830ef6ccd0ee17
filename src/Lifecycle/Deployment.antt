-- ===== src/Lifecycle/Deployment.antt =====
-- governance/lifecycle.py: `deploy` and `rollback`.
use computational_governance.Prelude.{
  String, ℤ, Bool, true, false, ◌&&◌, not, Option, none, some, List, [], ◌∷◌, if◌then◌else◌, ◌==◌,
  ◌<>◌, lookup, length, ltb,
}
use computational_governance.Decimal.{str}
use computational_governance.Errors.{lifecycle_error, Try, ok, raise}
use computational_governance.Json.{word, end, field, optional}
use computational_governance.Audit.Replay.{same_option}
use computational_governance.Lifecycle.{
  PolicyLifecycleState, approved, deployed, superseded, rolled_back, expired, PolicyLifecycleEvent,
  CanaryReport, LifecycleEntry, PolicyApproval, PolicyLifecycleManager,
}
use computational_governance.Lifecycle.Tables.{find, put}
use computational_governance.Lifecycle.Monad.{M, ◌>>=◌, ◌>>◌, lift, pure, gets, modify, fail_if}
use computational_governance.Lifecycle.Authoring.{
  non_empty, or_raise, entry, save, append_event, latest_event, recompute_state, state_in,
  set_state_in,
}
use computational_governance.Lifecycle.Reports.{canary_eq}
use computational_governance.Lifecycle.Rollout.{active_version, votes_or, threshold_for}

-- The states from which a policy is deployed.
abbrev pub is_deployable : PolicyLifecycleState → Bool
is_deployable approved = true
is_deployable deployed = true
is_deployable superseded = true
is_deployable rolled_back = true
is_deployable _ = false

abbrev pub is_expired : PolicyLifecycleState → Bool
is_expired expired = true
is_expired _ = false

abbrev pub votes_for : PolicyLifecycleManager → String → String → String → List PolicyApproval
votes_for self policy_id version environment =
    votes_or (find (policy_id ∷ version ∷ environment ∷ []) self.approvals)

-- `_require_production_approval`
unfoldable pub require_approval : PolicyLifecycleManager → String → String → String → Try (Unit {0})
require_approval self policy_id version environment =
    if ltb (length (votes_for self policy_id version environment)) (threshold_for self environment)
    then raise (
        lifecycle_error (
          "policy requires "
          <> str (threshold_for self environment)
          <> " distinct approvals for "
          <> environment
          <> "; got "
          <> str (length (votes_for self policy_id version environment))))
    else ok tt

-- `canary_report is not None and stored_report != canary_report`
abbrev pub not_recorded : Option CanaryReport → Option CanaryReport → Bool
not_recorded none stored = false
not_recorded (some supplied) none = true
not_recorded (some supplied) (some stored) = not (canary_eq stored supplied)

-- The stored report is about this candidate, environment and active version.
abbrev pub report_matches : CanaryReport → String → String → String → String → Bool
report_matches report policy_id version environment previous =
    (report.policy_id == policy_id)
    && ((report.candidate_version == version)
        && ((report.environment == environment)
            && same_option report.simulation.baseline_version (some previous)))

abbrev pub stored_passes : Option CanaryReport → String → String → String → String → Try (Unit {0})
stored_passes none policy_id version environment previous =
    raise (lifecycle_error "production deployment requires a matching canary report")
stored_passes (some report) policy_id version environment previous =
    if not (report_matches report policy_id version environment previous)
    then raise (lifecycle_error "production deployment requires a matching canary report")
    else if not report.passed
    then raise (lifecycle_error "production deployment blocked by failed canary")
    else ok tt

-- The canary checks of `deploy`, which hold for a production that has an active version.
abbrev pub canary_allows :
    LifecycleEntry → String → String → String → Option String → Option CanaryReport → Try (Unit {0})
canary_allows e policy_id version environment none supplied = ok tt
canary_allows e policy_id version environment (some previous) supplied =
    if not (environment == "production")
    then ok tt
    else if not_recorded supplied (lookup environment e.canaries)
    then raise (lifecycle_error "supplied canary evidence is not manager-recorded")
    else stored_passes (lookup environment e.canaries) policy_id version environment previous

unfoldable pub set_active : String → String → String → M (Unit {0})
set_active policy_id environment version =
    modify (λ self. record self { active = put (policy_id ∷ environment ∷ []) version self.active })

module _ (clock : ℤ) where
  -- The version that was active gives way.
  abbrev pub supersede :
      String → String → String → String → Option String → Option String → M (Unit {0})
  supersede policy_id version environment reason actor_id none = pure tt
  supersede policy_id version environment reason actor_id (some previous) =
      entry policy_id previous >>= λ old.
      let after = recompute_state (set_state_in environment superseded old) in
      save after
      >> (append_event clock after "superseded" (state_in old environment) superseded
            ("superseded by " <> version <> ": " <> reason) (some environment) actor_id end
          >>= λ event. pure tt)

  -- The entry is read again: it may be the one that was superseded.
  abbrev pub install :
      String → String → String → String → Option String → Option String → M PolicyLifecycleEvent
  install policy_id version environment reason actor_id previous =
      supersede policy_id version environment reason actor_id previous
      >> (entry policy_id version >>= λ e.
          let after = record (set_state_in environment deployed e) { state = deployed } in
          save after
          >> (set_active policy_id environment version
              >> append_event clock after "deployed" (state_in e environment) deployed reason
                  (some environment) actor_id (field "previous_version" (optional previous) end)))

  -- `deploy`
  unfoldable pub deploy :
      String
      → String
      → String
      → String
      → Option String
      → Option CanaryReport
      → M PolicyLifecycleEvent
  deploy policy_id version environment reason actor_id canary_report =
      entry policy_id version >>= λ e. lift (non_empty environment "environment") >>= λ env.
      fail_if (not (is_deployable e.state))
        (lifecycle_error "policy must be approved before deployment")
      >> (gets (λ self. require_approval self policy_id version env) >>= λ enough.
          lift enough
          >> (active_version policy_id env >>= λ previous.
              lift (canary_allows e policy_id version env previous canary_report)
              >> (if same_option previous (some version)
                  then latest_event
                  else install policy_id version env reason actor_id previous)))

  -- The target takes the place of the version that leaves. It is read again: it may be that entry.
  unfoldable pub restore :
      String
      → String
      → String
      → String
      → String
      → Option String
      → LifecycleEntry
      → M PolicyLifecycleEvent
  restore policy_id current_version target_version environment reason actor_id old =
      let left = recompute_state (set_state_in environment rolled_back old) in
      save left
      >> (set_active policy_id environment target_version
          >> (append_event clock left "rolled_back" (state_in old environment) rolled_back reason
                (some environment) actor_id (field "restored_version" (word target_version) end)
              >>= λ event. entry policy_id target_version >>= λ again.
                  let restored = record (set_state_in environment deployed again) {
                    state = deployed;
                  } in
                  save restored
                  >> append_event clock restored "rollback_restored" (state_in again environment)
                      deployed reason (some environment) actor_id
                      (field "replaced_version" (word current_version) end)))

  -- `rollback`
  unfoldable pub rollback :
      String → String → String → String → Option String → M PolicyLifecycleEvent
  rollback policy_id target_version environment reason actor_id =
      lift (non_empty environment "environment") >>= λ env.
      active_version policy_id env >>= λ found.
      lift
        (or_raise found (lifecycle_error ("no active policy for " <> policy_id <> " in " <> env)))
      >>= λ current_version.
          fail_if (current_version == target_version)
            (lifecycle_error "rollback target is already active")
          >> (entry policy_id current_version >>= λ old.
              entry policy_id target_version >>= λ target.
              fail_if (is_expired target.state)
                (lifecycle_error "cannot roll back to an expired policy")
              >> (gets (λ self. require_approval self policy_id target_version env) >>= λ enough.
                  lift enough
                  >> restore policy_id current_version target_version env reason actor_id old))
