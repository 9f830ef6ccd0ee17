-- ===== src/Lifecycle/Authoring.antt =====
-- governance/lifecycle.py: the constructor, the helpers that the methods share, `draft` and `validate`.
-- `clock` is the reading of the manager's clock during the call.
use computational_governance.Prelude.{
  ℕ, suc, String, ℤ, Bool, true, false, not, Option, none, some, List, [], ◌∷◌, ◌++◌, if◌then◌else◌,
  ◌==◌, ◌<>◌, lookup, insert, values, le_int, ltb, any, update,
}
use computational_governance.Decimal.{pad4, repr}
use computational_governance.Errors.{
  Exception, message, lifecycle_error, type_error, recursion_error, key_error, index_error, Try, ok,
  raise,
}
use computational_governance.Json.{Json, Fields, end}
use computational_governance.Strip.{strip}
use computational_governance.Compiler.{CompiledPolicy}
use computational_governance.Versioning.{PolicyBundle}
use computational_governance.Versioning.Bundles.{content_hash, compile}
use computational_governance.Lifecycle.{
  PolicyLifecycleState, draft, validated, approved, deployed, superseded, rolled_back, expired,
  PolicyExpiryMode, fail_closed, escalate, PolicyLifecycleEvent, LifecycleEntry,
  PolicyLifecycleManager,
}
use computational_governance.Lifecycle.Tables.{find, put}
use computational_governance.Lifecycle.Monad.{M, ◌>>=◌, ◌>>◌, lift, pure, gets, modify, fail_if}

abbrev pub state_value : PolicyLifecycleState → String
state_value draft = "draft"
state_value validated = "validated"
state_value approved = "approved"
state_value deployed = "deployed"
state_value superseded = "superseded"
state_value rolled_back = "rolled_back"
state_value expired = "expired"

-- `_non_empty`
unfoldable pub non_empty : String → String → Try String
non_empty value field_name =
    if strip value == ""
    then raise (lifecycle_error (field_name <> " must be a non-empty string"))
    else ok (strip value)

-- `PolicyExpiryMode(expiry_mode)`
unfoldable pub expiry_mode_of : String → Try PolicyExpiryMode
expiry_mode_of s =
    if s == "fail_closed"
    then ok fail_closed
    else if s == "escalate"
    then ok escalate
    else raise (lifecycle_error ("unsupported expiry mode " <> repr s))

abbrev stripped_roles : List String → Try (List String)
stripped_roles [] = ok []
stripped_roles (r ∷ rs) = with_role (non_empty r "approver role") (stripped_roles rs)
  where
    with_role : Try String → Try (List String) → Try (List String)
    with_role (raise e) rest = raise e
    with_role (ok s) (raise e) = raise e
    with_role (ok s) (ok ss) = ok (s ∷ ss)

-- `PolicyLifecycleManager(...)`
unfoldable pub make_manager : ℕ → List String → String → Try PolicyLifecycleManager
make_manager threshold approver_roles expiry_mode =
    if ltb threshold 1
    then raise (lifecycle_error "production approval threshold must be positive")
    else with_mode (expiry_mode_of expiry_mode) (stripped_roles approver_roles)
  where
    with_mode : Try PolicyExpiryMode → Try (List String) → Try PolicyLifecycleManager
    with_mode (raise e) roles = raise e
    with_mode (ok mode) (raise e) = raise e
    with_mode (ok mode) (ok roles) = ok (record {
      production_approval_threshold = threshold;
      approver_roles = update [] roles;
      expiry_mode = mode;
      entries = [];
      approvals = [];
      active = [];
      events = [];
      next_event_id = 1;
    })

abbrev pub or_raise : {A : Type 0} → Option A → Exception → Try A
or_raise none e = raise e
or_raise (some a) e = ok a

-- `_entry`
unfoldable pub entry : String → String → M LifecycleEntry
entry policy_id version = lift (non_empty policy_id "policy_id") >>= λ p.
    lift (non_empty version "policy_version") >>= λ v.
    gets (λ self. find (p ∷ v ∷ []) self.entries) >>= λ found.
    lift (or_raise found (lifecycle_error ("unknown policy " <> p <> "@" <> v)))

-- A change of the entry object, which the manager holds under the names in its bundle.
unfoldable pub save : LifecycleEntry → M (Unit {0})
save e = modify (λ self. record self {
  entries = put (e.bundle.policy_id ∷ e.bundle.policy_version ∷ []) e self.entries;
})

-- `_append_event`
unfoldable pub append_event :
    ℤ
    → LifecycleEntry
    → String
    → PolicyLifecycleState
    → PolicyLifecycleState
    → String
    → Option String
    → Option String
    → Fields
    → M PolicyLifecycleEvent
append_event clock e event from_state to_state reason environment actor_id attributes =
    lift (non_empty reason "reason") >>= λ kept. gets (λ self. self.next_event_id) >>= λ n.
    let appended : PolicyLifecycleEvent = record {
      event_id = "policy-lifecycle-" <> pad4 n;
      occurred_at = clock;
      policy_id = e.bundle.policy_id;
      policy_version = e.bundle.policy_version;
      event = event;
      from_state = from_state;
      to_state = to_state;
      environment = environment;
      actor_id = actor_id;
      reason = kept;
      attributes = attributes;
    } in
    modify (λ self. record self {
      next_event_id = suc self.next_event_id;
      events = self.events ++ appended ∷ [];
    })
    >> pure appended

-- `self._events[-1]`
abbrev last_of :
    Option PolicyLifecycleEvent → List PolicyLifecycleEvent → Option PolicyLifecycleEvent
last_of found [] = found
last_of found (e ∷ es) = last_of (some e) es

unfoldable pub latest_event : M PolicyLifecycleEvent
latest_event =
    gets (λ self. last_of none self.events) >>= λ found. lift (or_raise found index_error)

abbrev pub past_deadline : Option ℤ → ℤ → Bool
past_deadline none clock = false
past_deadline (some deadline) clock = le_int deadline clock

module _ (digest : Json → String) (clock : ℤ) where
  abbrev pub drafted :
      PolicyBundle → String → Option ℤ → String → Option LifecycleEntry → M PolicyLifecycleEvent
  drafted bundle owner expires_at reason (some existing) =
      fail_if (not (content_hash digest existing.bundle == content_hash digest bundle)) (
        lifecycle_error (
          "policy " <> bundle.policy_id <> "@" <> bundle.policy_version
          <> " already has different content"))
      >> latest_event
  drafted bundle owner expires_at reason none =
      let fresh : LifecycleEntry = record {
        bundle = bundle;
        owner = owner;
        expires_at = expires_at;
        state = draft;
        environment_states = [];
        simulation = none;
        canaries = [];
      } in
      save fresh >> append_event clock fresh "drafted" draft draft reason none (some owner) end

  -- `draft`
  unfoldable pub draft_policy : PolicyBundle → String → Option ℤ → String → M PolicyLifecycleEvent
  draft_policy bundle owner expires_at reason = lift (non_empty owner "owner") >>= λ kept.
      fail_if (past_deadline expires_at clock)
        (lifecycle_error "policy expiry must be in the future")
      >> (gets (λ self. find (bundle.policy_id ∷ bundle.policy_version ∷ []) self.entries)
          >>= drafted bundle kept expires_at reason)

  abbrev pub is_draft : PolicyLifecycleState → Bool
  is_draft draft = true
  is_draft _ = false

  -- `except (VersioningError, ValueError)`: what is neither passes.
  abbrev pub validation_failed : LifecycleEntry → Option String → Exception → M PolicyLifecycleEvent
  validation_failed e actor_id problem =
      append_event clock e "validation_failed" e.state e.state (message problem) none actor_id end
      >>= λ event. lift (raise (lifecycle_error ("policy validation failed: " <> message problem)))

  abbrev pub validated_entry :
      LifecycleEntry → Option String → String → Try CompiledPolicy → M PolicyLifecycleEvent
  validated_entry e actor_id reason (raise (type_error m)) = lift (raise (type_error m))
  validated_entry e actor_id reason (raise recursion_error) = lift (raise recursion_error)
  validated_entry e actor_id reason (raise (key_error k)) = lift (raise (key_error k))
  validated_entry e actor_id reason (raise index_error) = lift (raise index_error)
  validated_entry e actor_id reason (raise problem) = validation_failed e actor_id problem
  validated_entry e actor_id reason (ok policy) =
      let passed = record e { state = validated } in
      save passed
      >> append_event clock passed "validated" e.state validated reason none actor_id end

  -- `validate`
  unfoldable pub validate :
      (String → Option ℤ) → String → String → Option String → String → M PolicyLifecycleEvent
  validate float policy_id version actor_id reason = entry policy_id version >>= λ e.
      fail_if (not (is_draft e.state))
        (lifecycle_error ("policy must be draft to validate, got " <> state_value e.state))
      >> validated_entry e actor_id reason (compile float e.bundle)

abbrev has_state : PolicyLifecycleState → List PolicyLifecycleState → Bool
has_state s states = any (λ t. state_value t == state_value s) states

-- `_recompute_state`
unfoldable pub recompute_state : LifecycleEntry → LifecycleEntry
recompute_state e =
    let states = values e.environment_states in
    if has_state deployed states
    then record e { state = deployed }
    else if has_state expired states
    then record e { state = expired }
    else if has_state rolled_back states
    then record e { state = rolled_back }
    else if has_state superseded states
    then record e { state = superseded }
    else e

-- `entry.environment_states.get(environment, entry.state)`
abbrev pub state_or : Option PolicyLifecycleState → PolicyLifecycleState → PolicyLifecycleState
state_or none s = s
state_or (some t) s = t

abbrev pub state_in : LifecycleEntry → String → PolicyLifecycleState
state_in e environment = state_or (lookup environment e.environment_states) e.state

abbrev pub set_state_in : String → PolicyLifecycleState → LifecycleEntry → LifecycleEntry
set_state_in environment s e = record e {
  environment_states = insert environment s e.environment_states;
}
