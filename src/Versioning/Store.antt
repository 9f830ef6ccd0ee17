-- ===== src/Versioning/Store.antt =====
-- governance/versioning.py: `PolicyVersionStore`, which guards the activation of policy versions.
use computational_governance.Prelude.{
  suc, String, ℤ, Bool, true, false, ◌&&◌, not, Option, none, some, List, [], ◌∷◌, ◌++◌, Dict,
  if◌then◌else◌, ◌==◌, ◌<>◌, lookup, insert, keep,
}
use computational_governance.Decimal.{pad4}
use computational_governance.Errors.{versioning_error, key_error, Try, ok, raise}
use computational_governance.Json.{Json}
use computational_governance.Strip.{strip}
use computational_governance.Compiler.{CompiledPolicy}
use computational_governance.Versioning.{PolicyBundle, PolicyVersionEvent, PolicyVersionStore}
use computational_governance.Versioning.Semver.{Version, version_key, version_lt, version_eq}
use computational_governance.Versioning.Bundles.{content_hash, compile}

abbrev pub new_store : PolicyVersionStore
new_store = record { bundles = []; active = []; events = []; next_event_id = 1 }

-- `self._bundles.get(policy_id, {})`
abbrev pub or_no_versions : Option (Dict PolicyBundle) → Dict PolicyBundle
or_no_versions none = []
or_no_versions (some versions) = versions

abbrev pub versions_of : PolicyVersionStore → String → Dict PolicyBundle
versions_of self policy_id = or_no_versions (lookup policy_id self.bundles)

-- `matching[-1] if matching else None`
abbrev pub last_event :
    Option PolicyVersionEvent → List PolicyVersionEvent → Option PolicyVersionEvent
last_event found [] = found
last_event found (e ∷ es) = last_event (some e) es

module _ (digest : Json → String) where
  abbrev pub differs_from : Option PolicyBundle → PolicyBundle → Bool
  differs_from none bundle = false
  differs_from (some existing) bundle =
      not (content_hash digest existing == content_hash digest bundle)

  -- `register`: the entry of the policy is made before the content is compared.
  unfoldable pub register : PolicyVersionStore → PolicyBundle → PolicyVersionStore × Try (Unit {0})
  unfolding content_hash
  register self bundle =
      if differs_from (lookup bundle.policy_version (versions_of self bundle.policy_id)) bundle
      then (
        record self {
          bundles = insert bundle.policy_id (versions_of self bundle.policy_id) self.bundles;
        },
        raise (
            versioning_error (
              "policy version " <> bundle.policy_id <> "@" <> bundle.policy_version
              <> " already has different content")),
      )
      else (
        record self {
          bundles =
              insert bundle.policy_id
                (insert bundle.policy_version bundle (versions_of self bundle.policy_id))
                self.bundles;
        },
        ok tt,
      )

  -- `_event`
  unfoldable pub add_event :
      PolicyVersionStore
      → PolicyBundle
      → Option String
      → String
      → String
      → PolicyVersionStore × PolicyVersionEvent
  add_event self bundle previous event_type reason =
      let event : PolicyVersionEvent = record {
        event_id = "policy-version-" <> pad4 self.next_event_id;
        policy_id = bundle.policy_id;
        event = event_type;
        from_version = previous;
        to_version = bundle.policy_version;
        content_hash = content_hash digest bundle;
        reason = reason;
      } in
      (
        record self { events = self.events ++ event ∷ []; next_event_id = suc self.next_event_id },
        event,
      )

  abbrev pub recorded_event :
      PolicyVersionStore × PolicyVersionEvent → PolicyVersionStore × Try PolicyVersionEvent
  recorded_event (self, event) = (self, ok event)

  -- `self._active[bundle.policy_id] = bundle.policy_version`, after the event
  abbrev pub activated :
      PolicyVersionStore
      → PolicyBundle
      → Option String
      → String
      → String
      → PolicyVersionStore × Try PolicyVersionEvent
  activated self bundle previous event_type reason =
      let (after, event) = add_event self bundle previous event_type reason in
      (
        record after { active = insert bundle.policy_id bundle.policy_version after.active },
        ok event,
      )

  -- The version is active already: the last event of it is returned.
  abbrev pub repeated :
      PolicyVersionStore
      → PolicyBundle
      → String
      → String
      → Option PolicyVersionEvent
      → PolicyVersionStore × Try PolicyVersionEvent
  repeated self bundle previous reason (some event) = (self, ok event)
  repeated self bundle previous reason none =
      recorded_event (add_event self bundle (some previous) "activate" reason)

  abbrev pub same_version :
      PolicyVersionStore
      → PolicyBundle
      → String
      → String
      → Option PolicyBundle
      → PolicyVersionStore × Try PolicyVersionEvent
  same_version self bundle previous reason none = (self, raise (key_error previous))
  same_version self bundle previous reason (some current) =
      if not (content_hash digest current == content_hash digest bundle)
      then (self, raise (versioning_error "active policy version content cannot be replaced"))
      else repeated self bundle previous reason (
          last_event none (
            keep (λ e. (e.policy_id == bundle.policy_id) && (e.to_version == previous))
              self.events))

  -- The rest of `activate` where a version is active, on the two version keys.
  abbrev pub replace_active :
      PolicyVersionStore
      → PolicyBundle
      → String
      → String
      → Bool
      → Try Version
      → Try Version
      → PolicyVersionStore × Try PolicyVersionEvent
  replace_active self bundle previous reason allow_rollback (raise problem) target =
      (self, raise problem)
  replace_active self bundle previous reason allow_rollback (ok current) (raise problem) =
      (self, raise problem)
  replace_active self bundle previous reason allow_rollback (ok current) (ok target) =
      if version_lt target current && not allow_rollback
      then (
        self,
        raise (
            versioning_error (
              "rollback from " <> previous <> " to " <> bundle.policy_version
              <> " requires explicit override")),
      )
      else if version_eq target current
      then same_version self bundle previous reason
          (lookup previous (versions_of self bundle.policy_id))
      else activated self bundle (some previous)
          (if version_lt target current then "rollback" else "activate") reason

  abbrev pub activate_registered :
      PolicyBundle
      → String
      → Bool
      → PolicyVersionStore
      → Option String
      → PolicyVersionStore × Try PolicyVersionEvent
  activate_registered bundle reason allow_rollback self none =
      activated self bundle none "activate" reason
  activate_registered bundle reason allow_rollback self (some previous) =
      replace_active self bundle previous reason allow_rollback (version_key previous)
        (version_key bundle.policy_version)

  abbrev pub after_register :
      PolicyBundle
      → String
      → Bool
      → PolicyVersionStore × Try (Unit {0})
      → PolicyVersionStore × Try PolicyVersionEvent
  after_register bundle reason allow_rollback (self, raise problem) = (self, raise problem)
  after_register bundle reason allow_rollback (self, ok u) =
      activate_registered bundle reason allow_rollback self (lookup bundle.policy_id self.active)

  abbrev pub after_compile :
      PolicyVersionStore
      → PolicyBundle
      → String
      → Bool
      → Try CompiledPolicy
      → PolicyVersionStore × Try PolicyVersionEvent
  after_compile self bundle reason allow_rollback (raise problem) = (self, raise problem)
  after_compile self bundle reason allow_rollback (ok policy) =
      after_register bundle reason allow_rollback (register self bundle)

  -- `activate`
  unfoldable pub activate :
      (String → Option ℤ)
      → PolicyVersionStore
      → PolicyBundle
      → String
      → Bool
      → PolicyVersionStore × Try PolicyVersionEvent
  unfolding register add_event
  activate float self bundle reason allow_rollback =
      if strip reason == ""
      then (self, raise (versioning_error "activation reason is required"))
      else after_compile self bundle reason allow_rollback (compile float bundle)

  abbrev pub rollback_to :
      (String → Option ℤ)
      → PolicyVersionStore
      → String
      → String
      → String
      → Option PolicyBundle
      → PolicyVersionStore × Try PolicyVersionEvent
  rollback_to float self policy_id version reason none =
      (self, raise (versioning_error ("unknown policy version " <> policy_id <> "@" <> version)))
  rollback_to float self policy_id version reason (some bundle) =
      activate float self bundle reason true

  -- `rollback`
  unfoldable pub rollback :
      (String → Option ℤ)
      → PolicyVersionStore
      → String
      → String
      → String
      → PolicyVersionStore × Try PolicyVersionEvent
  unfolding activate
  rollback float self policy_id version reason =
      rollback_to float self policy_id version reason (lookup version (versions_of self policy_id))

abbrev stored_bundle : String → Option PolicyBundle → Try PolicyBundle
stored_bundle version none = raise (key_error version)
stored_bundle version (some bundle) = ok bundle

abbrev active_bundle : PolicyVersionStore → String → Option String → Try PolicyBundle
active_bundle self policy_id none = raise (versioning_error ("no active policy for " <> policy_id))
active_bundle self policy_id (some version) =
    stored_bundle version (lookup version (versions_of self policy_id))

-- `current`
unfoldable pub current : PolicyVersionStore → String → Try PolicyBundle
current self policy_id = active_bundle self policy_id (lookup policy_id self.active)

-- `history`
unfoldable pub history : PolicyVersionStore → Option String → List PolicyVersionEvent
history self none = self.events
history self (some policy_id) = keep (λ e. e.policy_id == policy_id) self.events
