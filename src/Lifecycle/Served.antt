-- ===== src/Lifecycle/Served.antt =====
-- governance/lifecycle.py: the votes and tables under `deploy`, `rollback`, `monitor` and `evaluate`.
use computational_governance.Prelude.{
  String, ℤ, Bool, true, false, Option, none, some, [], ◌∷◌, if◌then◌else◌,
}
use computational_governance.Errors.{Try, ok, raise}
use computational_governance.Model.{Action, Context}
use computational_governance.Versioning.{PolicyBundle}
use computational_governance.Lifecycle.{CanaryReport, LifecycleEntry, PolicyLifecycleManager}
use computational_governance.Lifecycle.Tables.{Key, Table}
use computational_governance.Lifecycle.Monad.{M}
use computational_governance.Lifecycle.Deployment.{
  set_active, restore, deploy, install, supersede, rollback,
}
use computational_governance.Lifecycle.Serving.{
  monitor, monitor_all, monitored, or_clock, current, promote, evaluate, after_current,
}
use computational_governance.Lifecycle.Keyed.{put-UniqueKeys, drop-UniqueKeys}
use computational_governance.Lifecycle.Approvals.{
  IsKept, Keeps, save-Keeps, both-Keeps, entry-Keeps, fail_if-Keeps, append_event-Keeps,
  latest_event-Keeps,
}

set_active-Keeps :
    (policy_id environment version : String) → Keeps (set_active policy_id environment version)
unfolding set_active
set_active-Keeps policy_id environment version self (votes, keyed, unique) =
    (votes, keyed, put-UniqueKeys (policy_id ∷ environment ∷ []) version self.active unique)

module _ (clock : ℤ) where
  supersede-Keeps :
      (policy_id version environment reason : String) (actor_id previous : Option String)
      → Keeps (supersede clock policy_id version environment reason actor_id previous)
  supersede-Keeps policy_id version environment reason actor_id none = λ s h. h
  supersede-Keeps policy_id version environment reason actor_id (some previous) =
      both-Keeps _ _ (entry-Keeps policy_id previous) (λ old.
        both-Keeps _ _ (save-Keeps _)
          (λ _. both-Keeps _ _ (append_event-Keeps clock _ _ _ _ _ _ _ _) (λ event s h. h)))

  install-Keeps :
      (policy_id version environment reason : String) (actor_id previous : Option String)
      → Keeps (install clock policy_id version environment reason actor_id previous)
  install-Keeps policy_id version environment reason actor_id previous =
      both-Keeps _ _ (supersede-Keeps policy_id version environment reason actor_id previous) (λ _.
        both-Keeps _ _ (entry-Keeps policy_id version) (λ e. both-Keeps _ _ (save-Keeps _) (λ _.
          both-Keeps _ _ (set_active-Keeps _ _ _) (λ _. append_event-Keeps clock _ _ _ _ _ _ _ _))))

  choice-Keeps :
      {A : Type 0} (b : Bool) (m k : M A) → Keeps m → Keeps k → Keeps (if b then m else k)
  choice-Keeps true m k one other = one
  choice-Keeps false m k one other = other

  pub deploy-Keeps :
      (policy_id version environment reason : String) (actor_id : Option String)
      (canary_report : Option CanaryReport)
      → Keeps (deploy clock policy_id version environment reason actor_id canary_report)
  unfolding deploy
  deploy-Keeps policy_id version environment reason actor_id canary_report =
      both-Keeps _ _ (entry-Keeps policy_id version) (λ e.
        both-Keeps _ _ (λ s h. h)
          (λ env. both-Keeps _ _ (fail_if-Keeps _ _) (λ _.
            both-Keeps _ _ (λ s h. h)
              (λ enough.
                both-Keeps _ _ (λ s h. h)
                  (λ _.
                    both-Keeps _ _ (λ s h. h)
                      (λ previous.
                        both-Keeps _ _ (λ s h. h)
                          (λ _.
                            choice-Keeps _ _ _ latest_event-Keeps
                              (install-Keeps policy_id version env reason actor_id previous))))))))

  restore-Keeps :
      (policy_id current_version target_version environment reason : String)
      (actor_id : Option String) (old : LifecycleEntry)
      → Keeps
          (restore clock policy_id current_version target_version environment reason actor_id old)
  unfolding restore
  restore-Keeps policy_id current_version target_version environment reason actor_id old =
      both-Keeps _ _ (save-Keeps _) (λ _. both-Keeps _ _ (set_active-Keeps _ _ _) (λ _.
        both-Keeps _ _ (append_event-Keeps clock _ _ _ _ _ _ _ _) (λ event.
          both-Keeps _ _ (entry-Keeps policy_id target_version) (λ again.
            both-Keeps _ _ (save-Keeps _) (λ _. append_event-Keeps clock _ _ _ _ _ _ _ _)))))

  pub rollback-Keeps :
      (policy_id target_version environment reason : String) (actor_id : Option String)
      → Keeps (rollback clock policy_id target_version environment reason actor_id)
  unfolding rollback
  rollback-Keeps policy_id target_version environment reason actor_id =
      both-Keeps _ _ (λ s h. h)
        (λ env.
          both-Keeps _ _ (λ s h. h)
            (λ found.
              both-Keeps _ _ (λ s h. h)
                (λ current_version. both-Keeps _ _ (fail_if-Keeps _ _) (λ _.
                  both-Keeps _ _ (entry-Keeps policy_id current_version) (λ old.
                    both-Keeps _ _ (entry-Keeps policy_id target_version) (λ target.
                      both-Keeps _ _ (fail_if-Keeps _ _) (λ _.
                        both-Keeps _ _ (λ s h. h)
                          (λ enough.
                            both-Keeps _ _ (λ s h. h)
                              (λ _.
                                restore-Keeps policy_id current_version target_version env reason
                                  actor_id old)))))))))

  monitored-Keeps : (now : ℤ) (key : Key) (e : LifecycleEntry) → Keeps (monitored clock now key e)
  monitored-Keeps now key e =
      choice-Keeps _ _ _ (λ s h. h)
        (both-Keeps _ _ (save-Keeps _) (λ _.
          both-Keeps _ _
            (λ s (votes, keyed, unique). (votes, keyed, drop-UniqueKeys key s.active unique))
            (λ _. both-Keeps _ _ (append_event-Keeps clock _ _ _ _ _ _ _ _) (λ event s h. h))))

  monitor_all-Keeps : (now : ℤ) (items : Table String) → Keeps (monitor_all clock now items)
  unfolding monitor_all
  monitor_all-Keeps now [] = λ s h. h
  monitor_all-Keeps now ((key, version) ∷ rest) = both-Keeps _ _ (entry-Keeps _ version) (λ e.
      both-Keeps _ _ (monitored-Keeps now key e)
        (λ events. both-Keeps _ _ (monitor_all-Keeps now rest) (λ others s h. h)))

  pub monitor-Keeps : (now : Option ℤ) → Keeps (monitor clock now)
  unfolding monitor
  monitor-Keeps now =
      both-Keeps _ _ (λ s h. h) (λ items. monitor_all-Keeps (or_clock now clock) items)

  pub current-Keeps :
      (policy_id environment : String) (now : Option ℤ)
      → Keeps (current clock policy_id environment now)
  unfolding current
  current-Keeps policy_id environment now = both-Keeps _ _ (monitor-Keeps now) (λ events.
      both-Keeps _ _ (λ s h. h)
        (λ p.
          both-Keeps _ _ (λ s h. h)
            (λ env.
              both-Keeps _ _ (λ s h. h)
                (λ found.
                  both-Keeps _ _ (λ s h. h)
                    (λ version. both-Keeps _ _ (entry-Keeps policy_id version) (λ e s h. h))))))

  pub promote-Keeps :
      (policy_id version from_environment to_environment reason : String) (actor_id : Option String)
      (canary_report : Option CanaryReport)
      → Keeps (
          promote clock policy_id version from_environment to_environment reason actor_id
            canary_report)
  unfolding promote
  promote-Keeps policy_id version from_environment to_environment reason actor_id canary_report =
      both-Keeps _ _ (current-Keeps policy_id from_environment none) (λ source.
        both-Keeps _ _ (fail_if-Keeps _ _)
          (λ _. deploy-Keeps policy_id version to_environment reason actor_id canary_report))

  after_current-Keeps :
      (float : String → Option ℤ) (action : Action) (context : Context)
      (p : PolicyLifecycleManager × Try PolicyBundle)
      → IsKept p.0
      → IsKept (after_current float action context p).0
  after_current-Keeps float action context (self, ok bundle) h = h
  after_current-Keeps float action context (self, raise problem) h = h

  pub evaluate-Keeps :
      (float : String → Option ℤ) (policy_id : String) (action : Action) (context : Context)
      (environment : String) (now : Option ℤ)
      → Keeps (evaluate clock float policy_id action context environment now)
  unfolding evaluate
  evaluate-Keeps float policy_id action context environment now self h =
      after_current-Keeps float action context (current clock policy_id environment now self)
        (current-Keeps policy_id environment now self h)
