-- ===== src/Lifecycle/Serving.antt =====
-- governance/lifecycle.py: `monitor`, `current`, `promote` and `evaluate`. A policy past its deadline
-- leaves the active versions, and what has no active version fails closed or escalates.
use computational_governance.Prelude.{
  String, ℤ, Bool, false, not, Option, none, some, List, [], ◌∷◌, ◌++◌, if◌then◌else◌, ◌==◌, ◌<>◌,
  le_int,
}
use computational_governance.Errors.{lifecycle_error, Try, ok, raise, and_then}
use computational_governance.Json.{Json, null, int, end, field}
use computational_governance.Model.{Action, Context, Decision, DecisionKind, make_decision}
use computational_governance.Compiler
use computational_governance.Versioning.{PolicyBundle}
use computational_governance.Versioning.Bundles.{compile}
use computational_governance.Lifecycle.{
  expired, fail_closed, escalate, PolicyExpiryMode, PolicyLifecycleEvent, CanaryReport,
  LifecycleEntry, PolicyLifecycleManager,
}
use computational_governance.Lifecycle.Tables.{Key, Table, drop}
use computational_governance.Lifecycle.Monad.{M, ◌>>=◌, ◌>>◌, lift, pure, gets, modify, fail_if}
use computational_governance.Lifecycle.Authoring.{
  non_empty, or_raise, entry, save, append_event, recompute_state, state_in, set_state_in,
}
use computational_governance.Lifecycle.Deployment.{deploy}
use computational_governance.Lifecycle.Rollout.{active_version}

-- The parts of a key `(policy_id, environment)`.
abbrev pub policy_of : Key → String
policy_of [] = ""
policy_of (policy_id ∷ rest) = policy_id

abbrev pub environment_of : Key → String
environment_of (policy_id ∷ environment ∷ rest) = environment
environment_of _ = ""

abbrev pub or_clock : Option ℤ → ℤ → ℤ
or_clock none clock = clock
or_clock (some now) clock = now

abbrev pub expiry_due : Option ℤ → ℤ → Bool
expiry_due none now = false
expiry_due (some deadline) now = le_int deadline now

-- `entry.expires_at`, in the attributes of an event
abbrev pub deadline_value : Option ℤ → Json
deadline_value none = null
deadline_value (some deadline) = int deadline

-- `except PolicyLifecycleError`: the expiry mode decides.
abbrev pub no_policy : PolicyExpiryMode → String → Try Decision
no_policy escalate reason = make_decision (record {
  kind = DecisionKind.escalate;
  role = some "policy-owner";
  reason = reason;
  matched_rules = [];
  authority_source = "";
  authority_path = [];
  approval_roles = [];
  approval_threshold = 0;
})
no_policy fail_closed reason = make_decision (record {
  kind = DecisionKind.block;
  role = none;
  reason = reason;
  matched_rules = [];
  authority_source = "";
  authority_path = [];
  approval_roles = [];
  approval_threshold = 0;
})

abbrev pub handled : PolicyExpiryMode → Try Decision → Try Decision
handled mode (raise (lifecycle_error reason)) = no_policy mode reason
handled mode t = t

abbrev pub policy_decision : (String → Option ℤ) → Action → Context → PolicyBundle → Try Decision
policy_decision float action context bundle =
    and_then (compile float bundle) (λ policy. Compiler.evaluate policy action context none)

abbrev pub after_current :
    (String → Option ℤ)
    → Action
    → Context
    → PolicyLifecycleManager × Try PolicyBundle
    → PolicyLifecycleManager × Try Decision
after_current float action context (self, raise problem) =
    (self, handled self.expiry_mode (raise problem))
after_current float action context (self, ok bundle) =
    (self, handled self.expiry_mode (policy_decision float action context bundle))

module _ (clock : ℤ) where
  abbrev pub monitored : ℤ → Key → LifecycleEntry → M (List PolicyLifecycleEvent)
  monitored now key e =
      if not (expiry_due e.expires_at now)
      then pure []
      else let environment = environment_of key in
        let after = recompute_state (set_state_in environment expired e) in
        save after
        >> (modify (λ self. record self { active = drop key self.active })
            >> (append_event clock after "expired" (state_in e environment) expired
                  "policy expiry reached" (some environment) none
                  (field "expires_at" (deadline_value e.expires_at) end)
                >>= λ event. pure (event ∷ [])))

  -- The loop of `monitor`, over a copy of the active versions.
  unfoldable pub monitor_all : ℤ → Table String → M (List PolicyLifecycleEvent)
  monitor_all now [] = pure []
  monitor_all now ((key, version) ∷ rest) = entry (policy_of key) version >>= λ e.
      monitored now key e >>= λ events. monitor_all now rest >>= λ others. pure (events ++ others)

  -- `monitor`
  unfoldable pub monitor : Option ℤ → M (List PolicyLifecycleEvent)
  monitor now = gets (λ self. self.active) >>= monitor_all (or_clock now clock)

  -- `current`
  unfoldable pub current : String → String → Option ℤ → M PolicyBundle
  current policy_id environment now = monitor now >>= λ events.
      lift (non_empty policy_id "policy_id") >>= λ p.
      lift (non_empty environment "environment") >>= λ env. active_version p env >>= λ found.
      lift (
        or_raise found (
          lifecycle_error
            ("no active, non-expired policy for " <> policy_id <> " in " <> environment)))
      >>= λ version. entry policy_id version >>= λ e. pure e.bundle

  -- `promote`
  unfoldable pub promote :
      String
      → String
      → String
      → String
      → String
      → Option String
      → Option CanaryReport
      → M PolicyLifecycleEvent
  promote policy_id version from_environment to_environment reason actor_id canary_report =
      current policy_id from_environment none >>= λ source.
      fail_if (not (source.policy_version == version))
        (lifecycle_error (version <> " is not active in " <> from_environment))
      >> deploy clock policy_id version to_environment reason actor_id canary_report

  -- `evaluate`
  unfoldable pub evaluate :
      (String → Option ℤ) → String → Action → Context → String → Option ℤ → M Decision
  evaluate float policy_id action context environment now self =
      after_current float action context (current policy_id environment now self)
