-- ===== src/Versioning/Activation.antt =====
-- governance/versioning.py: what is behind an activation that returns.
use mathlib.Core.Path.{subst}
use computational_governance.Prelude.{
  inl, inr, Bool-cases, String, ℤ, ◌≡◌, refl, Bool, false, ◌&&◌, not, Option, none, some, arith,
  ◌==◌, lookup, insert, lookup-insert_self, Dict,
}
use computational_governance.Errors.{Try, ok, raise}
use computational_governance.Json.{Json}
use computational_governance.Strip.{strip}
use computational_governance.Compiler.{CompiledPolicy}
use computational_governance.Versioning.{PolicyBundle, PolicyVersionEvent, PolicyVersionStore}
use computational_governance.Versioning.Semver.{Version, version_key, version_lt, version_eq}
use computational_governance.Versioning.Bundles.{content_hash, compile}
use computational_governance.Versioning.Store.{
  versions_of, register, add_event, activated, repeated, same_version, replace_active,
  activate_registered, after_register, after_compile, activate, current,
}

-- The store serves a bundle of this content under the policy's name.
abbrev pub Serves : (Json → String) → PolicyVersionStore → PolicyBundle → Type 0
Serves digest self bundle =
    (b : PolicyBundle) × (current self bundle.policy_id ≡ ok b)
    × (content_hash digest b ≡ content_hash digest bundle)

module _ (digest : Json → String) where
  register-ok :
      (self : PolicyVersionStore) (bundle : PolicyBundle)
      → (register digest self bundle).1 ≡ ok tt
      → ((register digest self bundle).0.active ≡ self.active)
        × (lookup bundle.policy_version
              (versions_of (register digest self bundle).0 bundle.policy_id)
            ≡ some bundle)
  unfolding register
  register-ok self bundle h = (
    ground arith,
    ground (
      arith,
      lookup-insert_self bundle.policy_version bundle (versions_of self bundle.policy_id),
      lookup-insert_self bundle.policy_id
          (insert bundle.policy_version bundle (versions_of self bundle.policy_id)) self.bundles,
    ),
  )

  activated-Serves :
      (self : PolicyVersionStore) (bundle : PolicyBundle) (previous : Option String)
      (event_type reason : String)
      → lookup bundle.policy_version (versions_of self bundle.policy_id) ≡ some bundle
      → Serves digest (activated digest self bundle previous event_type reason).0 bundle
  unfolding add_event current
  activated-Serves self bundle previous event_type reason stored = (
    bundle,
    ground (arith, lookup-insert_self bundle.policy_id bundle.policy_version self.active, stored),
    refl,
  )

  repeated-Serves :
      (self : PolicyVersionStore) (bundle served : PolicyBundle) (previous reason : String)
      (o : Option PolicyVersionEvent)
      → lookup bundle.policy_id self.active ≡ some previous
      → lookup previous (versions_of self bundle.policy_id) ≡ some served
      → content_hash digest served ≡ content_hash digest bundle
      → Serves digest (repeated digest self bundle previous reason o).0 bundle
  unfolding add_event current
  repeated-Serves self bundle served previous reason (some event) live stored same =
      (served, ground arith, same)
  repeated-Serves self bundle served previous reason none live stored same =
      (served, ground arith, same)

  same_version-Serves :
      (self : PolicyVersionStore) (bundle : PolicyBundle) (previous reason : String)
      (event : PolicyVersionEvent) (o : Option PolicyBundle)
      → lookup bundle.policy_id self.active ≡ some previous
      → lookup previous (versions_of self bundle.policy_id) ≡ o
      → (same_version digest self bundle previous reason o).1 ≡ ok event
      → Serves digest (same_version digest self bundle previous reason o).0 bundle
  same_version-Serves self bundle previous reason event none live stored =
      λ h. absurd (ground arith)
  same_version-Serves self bundle previous reason event (some served) live stored =
      elim (Bool-cases (content_hash digest served == content_hash digest bundle)) [
        | inl same ↦
            rw same
              (λ h. repeated-Serves self bundle served previous reason _ live stored (ground arith))
        | inr other ↦ rw other (λ h. absurd (ground arith))
      ]

  -- An activation where another version is active: the keys are read, and the store serves.
  replace_active-ok :
      (self : PolicyVersionStore) (bundle : PolicyBundle) (previous reason : String)
      (allow_rollback : Bool) (t u : Try Version) (event : PolicyVersionEvent)
      → lookup bundle.policy_id self.active ≡ some previous
      → lookup bundle.policy_version (versions_of self bundle.policy_id) ≡ some bundle
      → (replace_active digest self bundle previous reason allow_rollback t u).1 ≡ ok event
      → (k : Version) × (l : Version) × (t ≡ ok k)
        × (u ≡ ok l)
        × ((version_lt l k && not allow_rollback) ≡ false)
        × Serves digest
            (replace_active digest self bundle previous reason allow_rollback t u).0
            bundle
  replace_active-ok self bundle previous reason allow (raise p) u event live stored =
      λ h. absurd (ground arith)
  replace_active-ok self bundle previous reason allow (ok k) (raise p) event live stored =
      λ h. absurd (ground arith)
  replace_active-ok self bundle previous reason allow (ok k) (ok l) event live stored =
      elim (Bool-cases (version_lt l k && not allow)) [
        | inl back ↦ rw back (λ h. absurd (ground arith))
        | inr forward ↦ rw forward (elim (Bool-cases (version_eq l k)) [
          | inl same ↦ rw same (λ h. (
            k,
            l,
            refl,
            refl,
            forward,
            same_version-Serves self bundle previous reason event
                (lookup previous (versions_of self bundle.policy_id)) live refl h,
          ))
          | inr other ↦ rw other (λ h. (
            k,
            l,
            refl,
            refl,
            forward,
            activated-Serves self bundle (some previous) _ reason stored,
          ))
        ])
      ]

  -- What a successful activation has behind it.
  abbrev Moved : PolicyVersionStore → PolicyBundle → Bool → Option String → Type 0
  Moved self bundle allow_rollback none = Unit
  Moved self bundle allow_rollback (some previous) =
      (k : Version) × (l : Version) × (version_key previous ≡ ok k)
      × (version_key bundle.policy_version ≡ ok l)
      × ((version_lt l k && not allow_rollback) ≡ false)

  activate_registered-ok :
      (self : PolicyVersionStore) (bundle : PolicyBundle) (reason : String) (allow_rollback : Bool)
      (o : Option String) (event : PolicyVersionEvent)
      → lookup bundle.policy_id self.active ≡ o
      → lookup bundle.policy_version (versions_of self bundle.policy_id) ≡ some bundle
      → (activate_registered digest bundle reason allow_rollback self o).1 ≡ ok event
      → Moved self bundle allow_rollback o
        × Serves digest (activate_registered digest bundle reason allow_rollback self o).0 bundle
  activate_registered-ok self bundle reason allow none event live stored h =
      (tt, activated-Serves self bundle none "activate" reason stored)
  activate_registered-ok self bundle reason allow (some previous) event live stored h =
      let (k, l, old_key, new_key, forward, serves) =
        replace_active-ok self bundle previous reason allow (version_key previous)
          (version_key bundle.policy_version) event live stored h in
      ((k, l, old_key, new_key, forward), serves)

  after_register-ok :
      (self : PolicyVersionStore) (bundle : PolicyBundle) (reason : String) (allow_rollback : Bool)
      (p : PolicyVersionStore × Try (Unit {0})) (event : PolicyVersionEvent)
      → (p.1 ≡ ok tt
          → (p.0.active ≡ self.active)
            × (lookup bundle.policy_version (versions_of p.0 bundle.policy_id) ≡ some bundle))
      → (after_register digest bundle reason allow_rollback p).1 ≡ ok event
      → Moved self bundle allow_rollback (lookup bundle.policy_id self.active)
        × Serves digest (after_register digest bundle reason allow_rollback p).0 bundle
  after_register-ok self bundle reason allow (s, raise problem) event kept h = absurd (ground arith)
  after_register-ok self bundle reason allow (s, ok tt) event kept h =
      let (same, stored) = kept refl in
      let (moved, serves) =
        activate_registered-ok s bundle reason allow (lookup bundle.policy_id s.active) event refl
          stored h in
      (
        subst (λ (active : Dict String). Moved self bundle allow (lookup bundle.policy_id active))
            same moved,
        serves,
      )

  after_compile-ok :
      (self : PolicyVersionStore) (bundle : PolicyBundle) (reason : String) (allow_rollback : Bool)
      (t : Try CompiledPolicy) (event : PolicyVersionEvent)
      → (after_compile digest self bundle reason allow_rollback t).1 ≡ ok event
      → Moved self bundle allow_rollback (lookup bundle.policy_id self.active)
        × Serves digest (after_compile digest self bundle reason allow_rollback t).0 bundle
  after_compile-ok self bundle reason allow (raise problem) event h = absurd (ground arith)
  after_compile-ok self bundle reason allow (ok policy) event h =
      after_register-ok self bundle reason allow (register digest self bundle) event
        (register-ok self bundle) h

  activate-ok :
      (float : String → Option ℤ) (self : PolicyVersionStore) (bundle : PolicyBundle)
      (reason : String) (allow_rollback : Bool) (event : PolicyVersionEvent)
      → (activate digest float self bundle reason allow_rollback).1 ≡ ok event
      → Moved self bundle allow_rollback (lookup bundle.policy_id self.active)
        × Serves digest (activate digest float self bundle reason allow_rollback).0 bundle
  unfolding activate
  activate-ok float self bundle reason allow event = elim (Bool-cases (strip reason == "")) [
    | inl blank ↦ rw blank (λ h. absurd (ground arith))
    | inr given ↦ rw given (after_compile-ok self bundle reason allow (compile float bundle) event)
  ]

  -- After an activation that returns, the store serves a bundle of the activated content under the
  -- policy's name.
  pub activate-Serves :
      (float : String → Option ℤ) (self : PolicyVersionStore) (bundle : PolicyBundle)
      (reason : String) (allow_rollback : Bool) (event : PolicyVersionEvent)
      → (activate digest float self bundle reason allow_rollback).1 ≡ ok event
      → Serves digest (activate digest float self bundle reason allow_rollback).0 bundle
  activate-Serves float self bundle reason allow event h =
      (activate-ok float self bundle reason allow event h).1

  -- An activation without the override that returns, where a version is active, does not go back: both
  -- versions are stable, and the new one is not below the old one.
  pub activate_forward :
      (float : String → Option ℤ) (self : PolicyVersionStore) (bundle : PolicyBundle)
      (reason previous : String) (event : PolicyVersionEvent)
      → lookup bundle.policy_id self.active ≡ some previous
      → (activate digest float self bundle reason false).1 ≡ ok event
      → (k : Version) × (l : Version) × (version_key previous ≡ ok k)
        × (version_key bundle.policy_version ≡ ok l)
        × (version_lt l k ≡ false)
  activate_forward float self bundle reason previous event live h =
      let (k, l, old_key, new_key, forward) =
        subst (Moved self bundle false) live
          (activate-ok float self bundle reason false event h).0 in
      (k, l, old_key, new_key, ground arith)
