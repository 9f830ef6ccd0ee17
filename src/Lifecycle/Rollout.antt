-- ===== src/Lifecycle/Rollout.antt =====
-- governance/lifecycle.py: `simulate`, `canary` and `approve`.
use computational_governance.Prelude.{
  ℕ, pos, String, ℤ, Bool, true, false, ◌&&◌, ◌||◌, not, Option, none, some, List, [], ◌∷◌, ◌++◌,
  if◌then◌else◌, ◌==◌, ◌<>◌, insert, any, contains, length, leb, ltb, is_some,
}
use computational_governance.Decimal.{repr}
use computational_governance.Errors.{lifecycle_error, Try, ok, raise}
use computational_governance.Json.{Json, int, word, bool, arr, cons, nil, end, field, optional}
use computational_governance.Model.{is_empty}
use computational_governance.Versioning.{PolicyBundle}
use computational_governance.Lifecycle.{
  PolicyLifecycleState, validated, approved, deployed, superseded, rolled_back, PolicyApproval,
  SimulationCase, SimulationReport, Rate, CanaryReport, LifecycleEntry, PolicyLifecycleManager,
}
use computational_governance.Lifecycle.Tables.{find, put}
use computational_governance.Lifecycle.Monad.{M, ◌>>=◌, ◌>>◌, lift, pure, gets, modify, fail_if}
use computational_governance.Lifecycle.Authoring.{non_empty, entry, save, append_event}
use computational_governance.Lifecycle.Reports.{simulation, changed_cases, sample}

abbrev pub is_validated : PolicyLifecycleState → Bool
is_validated validated = true
is_validated _ = false

abbrev pub is_validated_or_approved : PolicyLifecycleState → Bool
is_validated_or_approved validated = true
is_validated_or_approved approved = true
is_validated_or_approved _ = false

-- The states in which votes are taken.
abbrev pub takes_votes : PolicyLifecycleState → Bool
takes_votes validated = true
takes_votes approved = true
takes_votes deployed = true
takes_votes superseded = true
takes_votes rolled_back = true
takes_votes _ = false

-- The active version.
abbrev pub active_version : String → String → M (Option String)
active_version policy_id environment =
    gets (λ self. find (policy_id ∷ environment ∷ []) self.active)

-- The bundle of an active version, where there is one.
abbrev pub bundle_of : String → Option String → M (Option PolicyBundle)
bundle_of policy_id none = pure none
bundle_of policy_id (some version) = entry policy_id version >>= λ e. pure (some e.bundle)

-- `baseline`, or the active bundle.
abbrev pub baseline_or_active : Option PolicyBundle → String → String → M (Option PolicyBundle)
baseline_or_active (some bundle) policy_id environment = pure (some bundle)
baseline_or_active none policy_id environment =
    active_version policy_id environment >>= bundle_of policy_id

abbrev pub count : {A : Type 0} → List A → Json
count xs = int (pos (length xs))

-- A fraction among the attributes, as its two numbers.
abbrev pub rate_value : Rate → Json
rate_value rate = arr (cons (int (pos rate.num)) (cons (int (pos rate.den)) nil))

-- `environment == "production"` asks for the configured number of votes.
abbrev pub threshold_for : PolicyLifecycleManager → String → ℕ
threshold_for self environment =
    if environment == "production" then self.production_approval_threshold else 1

module _ (digest : Json → String) (clock : ℤ) where
  -- `simulate`
  unfoldable pub simulate :
      (String → Option ℤ)
      → String
      → String
      → List SimulationCase
      → Option PolicyBundle
      → String
      → Option String
      → String
      → M SimulationReport
  simulate float policy_id version cases baseline environment actor_id reason =
      entry policy_id version >>= λ e.
      fail_if (not (is_validated e.state))
        (lifecycle_error "policy must be validated before simulation")
      >> (lift (non_empty environment "environment") >>= λ env.
          baseline_or_active baseline policy_id env >>= λ compared.
          lift (simulation digest float clock e.bundle cases compared) >>= λ report.
          save (record e { simulation = some report })
          >> (append_event clock e "simulated" e.state e.state reason (some env) actor_id (
                field "case_count" (count report.cases) (
                  field "changed_case_count" (count (changed_cases report))
                    (field "baseline_version" (optional report.baseline_version) end)))
              >>= λ event. pure report))

  abbrev pub needed_baseline : Option PolicyBundle → Try PolicyBundle
  needed_baseline none = raise (lifecycle_error "canary requires an active baseline policy")
  needed_baseline (some bundle) = ok bundle

  -- `canary`
  unfoldable pub canary :
      (String → Option ℤ)
      → (String → ℕ)
      → String
      → String
      → List SimulationCase
      → Option PolicyBundle
      → String
      → Rate
      → ℕ
      → Option String
      → String
      → M CanaryReport
  canary float hash48 policy_id version cases baseline environment rate max_changed actor_id
        reason =
      entry policy_id version >>= λ e.
      fail_if (not (is_validated_or_approved e.state))
        (lifecycle_error "policy must be validated before canary evaluation")
      >> (lift (non_empty environment "environment") >>= λ env.
          fail_if (leb rate.num 0 || ltb rate.den rate.num)
            (lifecycle_error "sample_rate must be greater than 0 and at most 1")
          >> (baseline_or_active baseline policy_id env >>= λ found.
              lift (needed_baseline found) >>= λ compared.
              lift
                (simulation digest float clock e.bundle (sample hash48 rate cases) (some compared))
              >>= λ simulated.
                  let report : CanaryReport = record {
                    policy_id = policy_id;
                    candidate_version = version;
                    environment = env;
                    sample_rate = rate;
                    max_changed_decisions = max_changed;
                    simulation = simulated;
                    passed = leb (length (changed_cases simulated)) max_changed;
                  } in
                  save (record e { canaries = insert env report e.canaries })
                  >> (append_event clock e
                        (if report.passed then "canary_passed" else "canary_failed") e.state e.state
                        reason (some env) actor_id
                        (field "policy_id" (word policy_id) (
                          field "candidate_version" (word version) (
                            field "environment" (word env) (
                              field "sample_rate" (rate_value rate) (
                                field "max_changed_decisions" (int (pos max_changed)) (
                                  field "sampled_case_count" (count simulated.cases) (
                                    field "changed_case_count" (count (changed_cases simulated))
                                      (field "passed" (bool report.passed) end))))))))
                      >>= λ event. pure report)))

abbrev pub votes_or : Option (List PolicyApproval) → List PolicyApproval
votes_or none = []
votes_or (some votes) = votes

-- The checks of a vote against those that were cast.
unfoldable pub vote_allowed :
    PolicyLifecycleManager → String → String → String → List PolicyApproval → Try (Unit {0})
vote_allowed self approver_id role environment votes =
    if any (λ v. v.approver_id == approver_id) votes
    then raise (lifecycle_error ("approver " <> repr approver_id <> " already voted"))
    else if (environment == "production")
        && (not (is_empty self.approver_roles) && any (λ v. v.role == role) votes)
    then raise (lifecycle_error ("approver role " <> repr role <> " already voted"))
    else ok tt

module _ (clock : ℤ) where
  -- The vote is stored, and makes a validated policy approved where it is enough.
  abbrev pub voted :
      LifecycleEntry
      → List String
      → String
      → ℕ
      → List PolicyApproval
      → PolicyApproval
      → M (List PolicyApproval)
  voted e key environment threshold votes vote =
      let all_votes = votes ++ vote ∷ [] in
      let enough = leb threshold (length all_votes) && is_validated e.state in
      let after : LifecycleEntry = if enough then record e { state = approved } else e in
      modify (λ self. record self { approvals = put key all_votes self.approvals })
      >> (save after
          >> (append_event clock after (if enough then "approved" else "approval_recorded") e.state
                after.state vote.reason (some environment) (some vote.approver_id)
                (field "role" (word vote.role) (
                  field "approval_count" (count all_votes)
                    (field "approval_threshold" (int (pos threshold)) end)))
              >>= λ event. pure all_votes))

  -- An empty list of votes is stored before the checks of the vote.
  unfoldable pub cast :
      LifecycleEntry
      → List String
      → String
      → String
      → String
      → String
      → List PolicyApproval
      → M (List PolicyApproval)
  cast e key environment approver role reason votes =
      modify (λ self. record self { approvals = put key votes self.approvals })
      >> (gets (λ self. vote_allowed self approver role environment votes) >>= λ allowed.
          lift allowed
          >> (lift (non_empty reason "reason") >>= λ kept_reason.
              gets (λ self. threshold_for self environment) >>= λ threshold.
              voted e key environment threshold votes (record {
                approver_id = approver;
                role = role;
                reason = kept_reason;
                approved_at = clock;
              })))

  -- `approve`
  unfoldable pub approve :
      String → String → String → String → String → String → M (List PolicyApproval)
  approve policy_id version approver_id role environment reason = entry policy_id version >>= λ e.
      fail_if (not (takes_votes e.state))
        (lifecycle_error "policy must be validated before approval")
      >> (fail_if (not (is_some e.simulation))
            (lifecycle_error "policy must be simulated before approval")
          >> (lift (non_empty approver_id "approver_id") >>= λ approver.
              lift (non_empty role "approver role") >>= λ kept_role.
              lift (non_empty environment "environment") >>= λ env.
              gets (λ self. self.approver_roles) >>= λ roles.
              fail_if (not (is_empty roles) && not (contains roles kept_role))
                (lifecycle_error ("approver role " <> repr kept_role <> " is not configured"))
              >> (let key : List String = policy_id ∷ version ∷ env ∷ [] in
                  gets (λ self. votes_or (find key self.approvals)) >>= λ votes.
                  cast e key env approver kept_role reason votes)))
