-- ===== src/Lifecycle/Kept.antt =====
-- governance/lifecycle.py: the votes and tables under `draft`, `validate`, `simulate` and `canary`.
use computational_governance.Prelude.{ℕ, String, ℤ, Option, none, some, List}
use computational_governance.Errors.{
  Exception, value_error, type_error, recursion_error, inheritance_error, compile_error,
  delegation_error, approval_error, runtime_adapter_error, identity_error, versioning_error,
  parse_error, lifecycle_error, key_error, index_error, Try, ok, raise,
}
use computational_governance.Json.{Json}
use computational_governance.Compiler.{CompiledPolicy}
use computational_governance.Versioning.{PolicyBundle}
use computational_governance.Versioning.Bundles.{compile}
use computational_governance.Lifecycle.{SimulationCase, Rate, LifecycleEntry}
use computational_governance.Lifecycle.Authoring.{
  draft_policy, drafted, validate, validated_entry, validation_failed,
}
use computational_governance.Lifecycle.Rollout.{simulate, canary}
use computational_governance.Lifecycle.Approvals.{
  Keeps, save-Keeps, both-Keeps, entry-Keeps, fail_if-Keeps, append_event-Keeps, latest_event-Keeps,
  baseline_or_active-Keeps,
}

module _ (digest : Json → String) (clock : ℤ) where
  drafted-Keeps :
      (bundle : PolicyBundle) (owner : String) (expires_at : Option ℤ) (reason : String)
      (o : Option LifecycleEntry)
      → Keeps (drafted digest clock bundle owner expires_at reason o)
  drafted-Keeps bundle owner expires_at reason (some existing) =
      both-Keeps _ _ (fail_if-Keeps _ _) (λ _. latest_event-Keeps)
  drafted-Keeps bundle owner expires_at reason none =
      both-Keeps _ _ (save-Keeps _) (λ _. append_event-Keeps clock _ _ _ _ _ _ _ _)

  pub draft_policy-Keeps :
      (bundle : PolicyBundle) (owner : String) (expires_at : Option ℤ) (reason : String)
      → Keeps (draft_policy digest clock bundle owner expires_at reason)
  unfolding draft_policy
  draft_policy-Keeps bundle owner expires_at reason =
      both-Keeps _ _ (λ s h. h)
        (λ kept. both-Keeps _ _ (fail_if-Keeps _ _) (λ _.
          both-Keeps _ _ (λ s h. h) (λ found. drafted-Keeps bundle kept expires_at reason found)))

  validation_failed-Keeps :
      (e : LifecycleEntry) (actor_id : Option String) (problem : Exception)
      → Keeps (validation_failed digest clock e actor_id problem)
  validation_failed-Keeps e actor_id problem =
      both-Keeps _ _ (append_event-Keeps clock _ _ _ _ _ _ _ _) (λ event s h. h)

  validated_entry-Keeps :
      (e : LifecycleEntry) (actor_id : Option String) (reason : String) (t : Try CompiledPolicy)
      → Keeps (validated_entry digest clock e actor_id reason t)
  validated_entry-Keeps e actor_id reason (ok policy) =
      both-Keeps _ _ (save-Keeps _) (λ _. append_event-Keeps clock _ _ _ _ _ _ _ _)
  validated_entry-Keeps e actor_id reason (raise (type_error m)) = λ s h. h
  validated_entry-Keeps e actor_id reason (raise recursion_error) = λ s h. h
  validated_entry-Keeps e actor_id reason (raise (key_error m)) = λ s h. h
  validated_entry-Keeps e actor_id reason (raise index_error) = λ s h. h
  validated_entry-Keeps e actor_id reason (raise (value_error m)) =
      validation_failed-Keeps e actor_id (value_error m)
  validated_entry-Keeps e actor_id reason (raise (inheritance_error m)) =
      validation_failed-Keeps e actor_id (inheritance_error m)
  validated_entry-Keeps e actor_id reason (raise (compile_error c m)) =
      validation_failed-Keeps e actor_id (compile_error c m)
  validated_entry-Keeps e actor_id reason (raise (delegation_error m)) =
      validation_failed-Keeps e actor_id (delegation_error m)
  validated_entry-Keeps e actor_id reason (raise (approval_error m)) =
      validation_failed-Keeps e actor_id (approval_error m)
  validated_entry-Keeps e actor_id reason (raise (runtime_adapter_error m)) =
      validation_failed-Keeps e actor_id (runtime_adapter_error m)
  validated_entry-Keeps e actor_id reason (raise (identity_error m)) =
      validation_failed-Keeps e actor_id (identity_error m)
  validated_entry-Keeps e actor_id reason (raise (versioning_error m)) =
      validation_failed-Keeps e actor_id (versioning_error m)
  validated_entry-Keeps e actor_id reason (raise (lifecycle_error m)) =
      validation_failed-Keeps e actor_id (lifecycle_error m)
  validated_entry-Keeps e actor_id reason (raise (parse_error n m)) =
      validation_failed-Keeps e actor_id (parse_error n m)

  pub validate-Keeps :
      (float : String → Option ℤ) (policy_id version : String) (actor_id : Option String)
      (reason : String)
      → Keeps (validate digest clock float policy_id version actor_id reason)
  unfolding validate
  validate-Keeps float policy_id version actor_id reason =
      both-Keeps _ _ (entry-Keeps policy_id version) (λ e.
        both-Keeps _ _ (fail_if-Keeps _ _)
          (λ _. validated_entry-Keeps e actor_id reason (compile float e.bundle)))

  pub simulate-Keeps :
      (float : String → Option ℤ) (policy_id version : String) (cases : List SimulationCase)
      (baseline : Option PolicyBundle) (environment : String) (actor_id : Option String)
      (reason : String)
      → Keeps
          (simulate digest clock float policy_id version cases baseline environment actor_id reason)
  unfolding simulate
  simulate-Keeps float policy_id version cases baseline environment actor_id reason =
      both-Keeps _ _ (entry-Keeps policy_id version) (λ e. both-Keeps _ _ (fail_if-Keeps _ _) (λ _.
        both-Keeps _ _ (λ s h. h)
          (λ env. both-Keeps _ _ (baseline_or_active-Keeps baseline policy_id env) (λ compared.
            both-Keeps _ _ (λ s h. h)
              (λ report. both-Keeps _ _ (save-Keeps _) (λ _.
                both-Keeps _ _ (append_event-Keeps clock _ _ _ _ _ _ _ _) (λ event s h. h)))))))

  pub canary-Keeps :
      (float : String → Option ℤ) (hash48 : String → ℕ) (policy_id version : String)
      (cases : List SimulationCase) (baseline : Option PolicyBundle) (environment : String)
      (rate : Rate) (max_changed : ℕ) (actor_id : Option String) (reason : String)
      → Keeps (
          canary digest clock float hash48 policy_id version cases baseline environment rate
            max_changed actor_id reason)
  unfolding canary
  canary-Keeps float hash48 policy_id version cases baseline environment rate max_changed actor_id
        reason =
      both-Keeps _ _ (entry-Keeps policy_id version) (λ e. both-Keeps _ _ (fail_if-Keeps _ _) (λ _.
        both-Keeps _ _ (λ s h. h)
          (λ env. both-Keeps _ _ (fail_if-Keeps _ _) (λ _.
            both-Keeps _ _ (baseline_or_active-Keeps baseline policy_id env) (λ found.
              both-Keeps _ _ (λ s h. h)
                (λ compared.
                  both-Keeps _ _ (λ s h. h)
                    (λ simulated. both-Keeps _ _ (save-Keeps _) (λ _.
                      both-Keeps _ _ (append_event-Keeps clock _ _ _ _ _ _ _ _)
                        (λ event s h. h)))))))))
