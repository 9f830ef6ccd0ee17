-- ===== src/Lifecycle/Calls.antt =====
-- governance/lifecycle.py: sequences of calls on one manager. A call that raises leaves what it had
-- changed, and the next call goes on from there.
use computational_governance.Prelude.{ℕ, String, ℤ, ◌≡◌, Option, List, [], ◌∷◌, arith}
use computational_governance.Errors.{ok}
use computational_governance.Json.{Json}
use computational_governance.Model.{Action, Context}
use computational_governance.Versioning.{PolicyBundle}
use computational_governance.Lifecycle.{SimulationCase, Rate, CanaryReport, PolicyLifecycleManager}
use computational_governance.Lifecycle.Tables.{find}
use computational_governance.Lifecycle.Authoring.{make_manager, draft_policy, validate}
use computational_governance.Lifecycle.Rollout.{simulate, canary, approve}
use computational_governance.Lifecycle.Deployment.{deploy, rollback}
use computational_governance.Lifecycle.Serving.{monitor, current, promote, evaluate}
use computational_governance.Lifecycle.Approvals.{VotesDistinct, IsKept, approve-Keeps}
use computational_governance.Lifecycle.Kept.{
  draft_policy-Keeps, validate-Keeps, simulate-Keeps, canary-Keeps,
}
use computational_governance.Lifecycle.Served.{
  deploy-Keeps, rollback-Keeps, monitor-Keeps, current-Keeps, promote-Keeps, evaluate-Keeps,
}

-- A call of a method, with its arguments.
pub data Call : Type 0 where
  drafting : PolicyBundle → String → Option ℤ → String → Call
  validating : String → String → Option String → String → Call
  simulating :
      String
      → String
      → List SimulationCase
      → Option PolicyBundle
      → String
      → Option String
      → String
      → Call
  canarying :
      String
      → String
      → List SimulationCase
      → Option PolicyBundle
      → String
      → Rate
      → ℕ
      → Option String
      → String
      → Call
  approving : String → String → String → String → String → String → Call
  deploying : String → String → String → String → Option String → Option CanaryReport → Call
  promoting :
      String → String → String → String → String → Option String → Option CanaryReport → Call
  rolling_back : String → String → String → String → Option String → Call
  monitoring : Option ℤ → Call
  serving : String → String → Option ℤ → Call
  evaluating : String → Action → Context → String → Option ℤ → Call

module _ (digest : Json → String) (float : String → Option ℤ) (hash48 : String → ℕ) where
  -- What a call makes of the manager, whether it returns or raises.
  unfoldable pub perform : ℤ → Call → PolicyLifecycleManager → PolicyLifecycleManager
  perform clock (drafting bundle owner expires_at reason) self =
      (draft_policy digest clock bundle owner expires_at reason self).0
  perform clock (validating policy_id version actor_id reason) self =
      (validate digest clock float policy_id version actor_id reason self).0
  perform clock (simulating policy_id version cases baseline environment actor_id reason) self =
      (simulate digest clock float policy_id version cases baseline environment actor_id reason
        self).0
  perform clock
        (canarying policy_id version cases baseline environment rate max_changed actor_id reason)
        self =
      (canary digest clock float hash48 policy_id version cases baseline environment rate
        max_changed actor_id reason self).0
  perform clock (approving policy_id version approver_id role environment reason) self =
      (approve clock policy_id version approver_id role environment reason self).0
  perform clock (deploying policy_id version environment reason actor_id canary_report) self =
      (deploy clock policy_id version environment reason actor_id canary_report self).0
  perform clock
        (promoting policy_id version from_environment to_environment reason actor_id canary_report)
        self =
      (promote clock policy_id version from_environment to_environment reason actor_id canary_report
        self).0
  perform clock (rolling_back policy_id target_version environment reason actor_id) self =
      (rollback clock policy_id target_version environment reason actor_id self).0
  perform clock (monitoring now) self = (monitor clock now self).0
  perform clock (serving policy_id environment now) self =
      (current clock policy_id environment now self).0
  perform clock (evaluating policy_id action context environment now) self =
      (evaluate clock float policy_id action context environment now self).0

  -- A sequence of calls, each with the reading of the clock.
  unfoldable pub perform_all : List (ℤ × Call) → PolicyLifecycleManager → PolicyLifecycleManager
  unfolding perform
  perform_all [] self = self
  perform_all ((clock, call) ∷ calls) self = perform_all calls (perform clock call self)

  perform-IsKept :
      (clock : ℤ) (call : Call) (self : PolicyLifecycleManager)
      → IsKept self
      → IsKept (perform clock call self)
  unfolding perform
  perform-IsKept clock (drafting _ _ _ _) self = draft_policy-Keeps digest clock _ _ _ _ self
  perform-IsKept clock (validating _ _ _ _) self = validate-Keeps digest clock float _ _ _ _ self
  perform-IsKept clock (simulating _ _ _ _ _ _ _) self =
      simulate-Keeps digest clock float _ _ _ _ _ _ _ self
  perform-IsKept clock (canarying _ _ _ _ _ _ _ _ _) self =
      canary-Keeps digest clock float hash48 _ _ _ _ _ _ _ _ _ self
  perform-IsKept clock (approving _ _ _ _ _ _) self = approve-Keeps clock _ _ _ _ _ _ self
  perform-IsKept clock (deploying _ _ _ _ _ _) self = deploy-Keeps clock _ _ _ _ _ _ self
  perform-IsKept clock (promoting _ _ _ _ _ _ _) self = promote-Keeps clock _ _ _ _ _ _ _ self
  perform-IsKept clock (rolling_back _ _ _ _ _) self = rollback-Keeps clock _ _ _ _ _ self
  perform-IsKept clock (monitoring _) self = monitor-Keeps clock _ self
  perform-IsKept clock (serving _ _ _) self = current-Keeps clock _ _ _ self
  perform-IsKept clock (evaluating _ _ _ _ _) self = evaluate-Keeps clock float _ _ _ _ _ self

  all-IsKept :
      (calls : List (ℤ × Call)) (self : PolicyLifecycleManager)
      → IsKept self
      → IsKept (perform_all calls self)
  unfolding perform_all
  all-IsKept [] self h = h
  all-IsKept ((clock, call) ∷ calls) self h =
      all-IsKept calls (perform clock call self) (perform-IsKept clock call self h)

  fresh-IsKept :
      (threshold : ℕ) (approver_roles : List String) (expiry_mode : String)
      (self : PolicyLifecycleManager)
      → make_manager threshold approver_roles expiry_mode ≡ ok self
      → IsKept self
  unfolding make_manager find
  fresh-IsKept threshold approver_roles expiry_mode self made =
      ((λ key. ground arith), (λ k e h. ground arith), ground arith)

  pub perform_all-IsKept :
      (threshold : ℕ) (approver_roles : List String) (expiry_mode : String)
      (self : PolicyLifecycleManager) (calls : List (ℤ × Call))
      → make_manager threshold approver_roles expiry_mode ≡ ok self
      → IsKept (perform_all calls self)
  perform_all-IsKept threshold approver_roles expiry_mode self calls made =
      all-IsKept calls self (fresh-IsKept threshold approver_roles expiry_mode self made)

  pub perform_all-VotesDistinct :
      (threshold : ℕ) (approver_roles : List String) (expiry_mode : String)
      (self : PolicyLifecycleManager) (calls : List (ℤ × Call))
      → make_manager threshold approver_roles expiry_mode ≡ ok self
      → VotesDistinct (perform_all calls self)
  perform_all-VotesDistinct threshold approver_roles expiry_mode self calls made =
      (perform_all-IsKept threshold approver_roles expiry_mode self calls made).0
