-- ===== src/Lifecycle/Quorum.antt =====
-- governance/lifecycle.py: what stands behind a deployment that returns.
use computational_governance.Prelude.{
  ℕ, ◌≤◌, String, ℤ, ◌≡◌, refl, ap, Bool, true, false, Option, some, List, [], ◌∷◌, arith, distinct,
  ◌<>◌, lookup, length,
}
use mathlib.Core.Path.{subst}
use computational_governance.Errors.{Exception, lifecycle_error, Try, ok, raise}
use computational_governance.Json.{Json}
use computational_governance.Lifecycle.{
  PolicyLifecycleEvent, CanaryReport, LifecycleEntry, PolicyLifecycleManager,
}
use computational_governance.Lifecycle.Tables.{find}
use computational_governance.Lifecycle.Monad.{M, ◌>>=◌, continue_with, lift, gets, fail_if}
use computational_governance.Lifecycle.Authoring.{non_empty, or_raise, entry, make_manager}
use computational_governance.Lifecycle.Rollout.{threshold_for}
use computational_governance.Lifecycle.Deployment.{
  is_deployable, votes_for, require_approval, canary_allows, deploy,
}
use computational_governance.Lifecycle.Approvals.{approver_ids}
use computational_governance.Lifecycle.Calls.{Call, perform_all, perform_all-VotesDistinct}

pub entry_still :
    (policy_id version : String) (self : PolicyLifecycleManager)
    → (entry policy_id version self).0 ≡ self
unfolding entry ◌>>=◌
entry_still policy_id version self =
    go (non_empty policy_id "policy_id") (non_empty version "policy_version")
  where
    go :
        (t u : Try String)
        → ((lift t >>= λ p. lift u >>= λ v.
              gets (λ self. find (p ∷ v ∷ []) self.entries) >>= λ found.
              lift (or_raise found (lifecycle_error ("unknown policy " <> p <> "@" <> v))))
            self).0
          ≡ self
    go (raise e) u = refl
    go (ok p) (raise e) = refl
    go (ok p) (ok v) = refl

module _ {B : Type 0} where
  pub lift_returned :
      {A : Type 0} (t : Try A) (f : A → M B) (self : PolicyLifecycleManager) (b : B)
      → ((lift t >>= f) self).1 ≡ ok b
      → (a : A) × (t ≡ ok a) × ((f a self).1 ≡ ok b)
  unfolding ◌>>=◌
  lift_returned (ok a) f self b h = (a, refl, h)
  lift_returned (raise e) f self b h = absurd (ground arith)

  test_returned :
      (t : Bool) (e : Exception) (f : Unit {0} → M B) (self : PolicyLifecycleManager) (b : B)
      → ((fail_if t e >>= f) self).1 ≡ ok b
      → (t ≡ false) × ((f tt self).1 ≡ ok b)
  unfolding ◌>>=◌
  test_returned false e f self b h = (refl, h)
  test_returned true e f self b h = absurd (ground arith)

  pub gets_returned :
      {A : Type 0} (g : PolicyLifecycleManager → A) (f : A → M B) (self : PolicyLifecycleManager)
      (b : B)
      → ((gets g >>= f) self).1 ≡ ok b
      → (f (g self) self).1 ≡ ok b
  unfolding ◌>>=◌
  gets_returned g f self b h = h

  pub entry_returned :
      (policy_id version : String) (f : LifecycleEntry → M B) (self : PolicyLifecycleManager)
      (b : B)
      → ((entry policy_id version >>= f) self).1 ≡ ok b
      → (e : LifecycleEntry) × (entry policy_id version self ≡ (self, ok e))
        × ((f e self).1 ≡ ok b)
        × ((entry policy_id version >>= f) self ≡ f e self)
  unfolding entry ◌>>=◌
  entry_returned policy_id version f self b h =
      go (entry policy_id version self) (entry_still policy_id version self) h
    where
      go :
          (p : PolicyLifecycleManager × Try LifecycleEntry)
          → p.0 ≡ self
          → (continue_with f p).1 ≡ ok b
          → (e : LifecycleEntry) × (p ≡ (self, ok e))
            × ((f e self).1 ≡ ok b)
            × (continue_with f p ≡ f e self)
      go (s, ok e) q h = (
        e,
        ap (λ s. (s, ok e)) q,
        subst (λ (s : PolicyLifecycleManager). (f e s).1 ≡ ok b) q h,
        ap (f e) q,
      )
      go (s, raise e) q h = absurd (ground arith)

-- A deployment into `environment` that returns was made of an entry in a state from which policies are
-- deployed, with enough votes, and with the canary that it needs.
pub record Deployable (self : PolicyLifecycleManager) (policy_id version environment : String)
    (canary_report : Option CanaryReport) : Type 0 where
  pub kept_environment : String
  pub named : non_empty environment "environment" ≡ ok kept_environment
  pub deployed_entry : LifecycleEntry
  pub found : entry policy_id version self ≡ (self, ok deployed_entry)
  pub deployable : is_deployable deployed_entry.state ≡ true
  pub agreed :
      threshold_for self kept_environment
      ≤ length (votes_for self policy_id version kept_environment)
  pub canaried :
      canary_allows deployed_entry policy_id version kept_environment
        (find (policy_id ∷ kept_environment ∷ []) self.active)
        canary_report
      ≡ ok tt

approval-enough :
    (self : PolicyLifecycleManager) (policy_id version environment : String)
    → require_approval self policy_id version environment ≡ ok tt
    → threshold_for self environment ≤ length (votes_for self policy_id version environment)
unfolding require_approval
approval-enough self policy_id version environment h = ground arith

pub deploy-Deployable :
    (clock : ℤ) (self : PolicyLifecycleManager) (policy_id version environment reason : String)
    (actor_id : Option String) (canary_report : Option CanaryReport) (event : PolicyLifecycleEvent)
    → (deploy clock policy_id version environment reason actor_id canary_report self).1 ≡ ok event
    → Deployable self policy_id version environment canary_report
unfolding deploy
deploy-Deployable clock self policy_id version environment reason actor_id canary_report event h =
    let (e, found, h1, whole) = entry_returned policy_id version _ self event h in
    let (env, named, h2) = lift_returned _ _ self event h1 in
    let (state, h3) = test_returned _ _ _ self event h2 in
    let h4 = gets_returned _ _ self event h3 in
    let (u, enough, h5) = lift_returned _ _ self event h4 in
    let h6 = gets_returned _ _ self event h5 in
    let (v, canaried, h7) = lift_returned _ _ self event h6 in
    record {
      kept_environment = env;
      named = named;
      deployed_entry = e;
      found = found;
      deployable = ground arith;
      agreed = approval-enough self policy_id version env enough;
      canaried = canaried;
    }

-- On a new manager, after every sequence of calls, a deployment that returns had the votes of distinct
-- approvers for this policy, version and environment, as many as the environment asks for, and a policy
-- in a state from which policies are deployed.
pub deploy_agreed :
    (digest : Json → String) (float : String → Option ℤ) (hash48 : String → ℕ) (threshold : ℕ)
    (approver_roles : List String) (expiry_mode : String) (fresh : PolicyLifecycleManager)
    (calls : List (ℤ × Call)) (clock : ℤ) (policy_id version environment reason : String)
    (actor_id : Option String) (canary_report : Option CanaryReport) (event : PolicyLifecycleEvent)
    → make_manager threshold approver_roles expiry_mode ≡ ok fresh
    → (deploy clock policy_id version environment reason actor_id canary_report
        (perform_all digest float hash48 calls fresh)).1
      ≡ ok event
    → (env : String) × (e : LifecycleEntry) × (non_empty environment "environment" ≡ ok env)
      × ((entry policy_id version (perform_all digest float hash48 calls fresh)).1 ≡ ok e)
      × (is_deployable e.state ≡ true)
      × (distinct (
            approver_ids
              (votes_for (perform_all digest float hash48 calls fresh) policy_id version env))
          ≡ true)
      × (threshold_for (perform_all digest float hash48 calls fresh) env
          ≤ length (votes_for (perform_all digest float hash48 calls fresh) policy_id version env))
deploy_agreed digest float hash48 threshold approver_roles expiry_mode fresh calls clock policy_id
      version environment reason actor_id canary_report event made returned =
    let self = perform_all digest float hash48 calls fresh in
    let behind =
      deploy-Deployable clock self policy_id version environment reason actor_id canary_report event
        returned in
    let env = behind.kept_environment in
    (
      env,
      behind.deployed_entry,
      behind.named,
      ap (λ p. p.1) behind.found,
      behind.deployable,
      perform_all-VotesDistinct digest float hash48 threshold approver_roles expiry_mode fresh calls
          made (policy_id ∷ version ∷ env ∷ []),
      behind.agreed,
    )

-- The entry holds a passed canary report for production, on this policy and version, and on a baseline
-- with the version number that is active there.
abbrev pub Canaried : LifecycleEntry → String → String → String → Type 0
Canaried e policy_id version previous =
    (report : CanaryReport) × (lookup "production" e.canaries ≡ some report)
    × (report.passed ≡ true)
    × (report.policy_id ≡ policy_id)
    × (report.candidate_version ≡ version)
    × (report.environment ≡ "production")
    × (report.simulation.baseline_version ≡ some previous)
