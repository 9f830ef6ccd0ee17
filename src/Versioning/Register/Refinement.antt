-- ===== src/Versioning/Register/Refinement.antt =====
-- governance/versioning.py: the calls of the version store beside those of the register.
use computational_governance.Prelude.{
  inl, inr, String, ℤ, ◌≡◌, refl, ◌∙◌, Bool, true, ◌&&◌, not, Option, none, some, List, [], ◌∷◌,
  arith, ◌==◌, lookup, Bool-cases,
}
use computational_governance.Errors.{Try, ok, raise}
use computational_governance.Json.{Json}
use computational_governance.Strip.{strip}
use computational_governance.Compiler.{CompiledPolicy}
use computational_governance.Versioning.{PolicyBundle, PolicyVersionEvent, PolicyVersionStore}
use computational_governance.Versioning.Semver.{Version, version_key, version_lt, version_eq}
use computational_governance.Versioning.Bundles.{content_hash, compile}
use computational_governance.Versioning.Store.{
  new_store, versions_of, register, replace_active, activate_registered, after_register,
  after_compile, activate, rollback_to, rollback,
}
use computational_governance.Versioning.Register.{
  Register, write, write_all, Call, activating, rolling_back, perform, perform_all, stored, served,
}
use computational_governance.Versioning.Register.Stored.{
  IsRecorded, served_lem, stored_lem, register-frame, register-IsRecorded, register-served,
}
use computational_governance.Versioning.Register.Writes.{
  Refines, raise-Refines, activated-Refines, same_version-Refines,
}

module _ (digest : Json → String) where
  -- An activation where another version is active, on the two keys.
  replace_active-Refines :
      (self : PolicyVersionStore) (bundle : PolicyBundle) (previous reason : String)
      (allow_rollback : Bool) (t u : Try Version)
      → IsRecorded digest self
      → lookup bundle.policy_id self.active ≡ some previous
      → stored digest self bundle.policy_id bundle.policy_version
        ≡ some (content_hash digest bundle)
      → Refines digest self (replace_active digest self bundle previous reason allow_rollback t u)
  replace_active-Refines self bundle previous reason allow (raise p) u kept active here =
      raise-Refines digest self self p kept (λ q. refl)
  replace_active-Refines self bundle previous reason allow (ok k) (raise p) kept active here =
      raise-Refines digest self self p kept (λ q. refl)
  replace_active-Refines self bundle previous reason allow (ok k) (ok l) kept active here =
      elim (Bool-cases (version_lt l k && not allow)) [
        | inl back ↦ rw back (raise-Refines digest self self _ kept (λ q. refl))
        | inr forward ↦ rw forward (elim (Bool-cases (version_eq l k)) [
          | inl same ↦ rw same (
              same_version-Refines digest self bundle previous reason
                (lookup previous (versions_of self bundle.policy_id)) kept active
                (stored_lem digest self bundle.policy_id previous) here)
          | inr other ↦
              rw other (activated-Refines digest self bundle (some previous) _ reason kept here)
        ])
      ]

  activate_registered-Refines :
      (self : PolicyVersionStore) (bundle : PolicyBundle) (reason : String) (allow_rollback : Bool)
      (o : Option String)
      → IsRecorded digest self
      → lookup bundle.policy_id self.active ≡ o
      → stored digest self bundle.policy_id bundle.policy_version
        ≡ some (content_hash digest bundle)
      → Refines digest self (activate_registered digest bundle reason allow_rollback self o)
  activate_registered-Refines self bundle reason allow none kept active here =
      activated-Refines digest self bundle none "activate" reason kept here
  activate_registered-Refines self bundle reason allow (some previous) kept active here =
      replace_active-Refines self bundle previous reason allow (version_key previous)
        (version_key bundle.policy_version) kept active here

  Refines-from :
      (self middle : PolicyVersionStore) (p : PolicyVersionStore × Try PolicyVersionEvent)
      → ((q : String) → served digest middle q ≡ served digest self q)
      → Refines digest middle p
      → Refines digest self p
  unfolding write
  Refines-from self middle (next, raise problem) same (kept, writes) =
      (kept, λ q. writes q ∙ same q)
  Refines-from self middle (next, ok event) same (kept, writes) =
      (kept, λ q. ground (arith, writes q, same q))

  after_register-Refines :
      (self : PolicyVersionStore) (bundle : PolicyBundle) (reason : String) (allow_rollback : Bool)
      (p : PolicyVersionStore × Try (Unit {0}))
      → IsRecorded digest p.0
      → ((q : String) → served digest p.0 q ≡ served digest self q)
      → (p.1 ≡ ok tt
          → stored digest p.0 bundle.policy_id bundle.policy_version
            ≡ some (content_hash digest bundle))
      → Refines digest self (after_register digest bundle reason allow_rollback p)
  after_register-Refines self bundle reason allow (next, raise problem) kept same here =
      raise-Refines digest self next problem kept same
  after_register-Refines self bundle reason allow (next, ok tt) kept same here =
      Refines-from self next _ same (
        activate_registered-Refines next bundle reason allow (lookup bundle.policy_id next.active)
          kept refl (here refl))

  after_compile-Refines :
      (self : PolicyVersionStore) (bundle : PolicyBundle) (reason : String) (allow_rollback : Bool)
      (t : Try CompiledPolicy)
      → IsRecorded digest self
      → Refines digest self (after_compile digest self bundle reason allow_rollback t)
  after_compile-Refines self bundle reason allow (raise problem) kept =
      raise-Refines digest self self problem kept (λ q. refl)
  after_compile-Refines self bundle reason allow (ok policy) kept =
      after_register-Refines self bundle reason allow (register digest self bundle)
        (register-IsRecorded digest self bundle kept)
        (λ q. register-served digest self bundle q kept) (register-frame digest self bundle).2

  activate-Refines :
      (float : String → Option ℤ) (self : PolicyVersionStore) (bundle : PolicyBundle)
      (reason : String) (allow_rollback : Bool)
      → IsRecorded digest self
      → Refines digest self (activate digest float self bundle reason allow_rollback)
  unfolding activate
  activate-Refines float self bundle reason allow kept = elim (Bool-cases (strip reason == "")) [
    | inl blank ↦ rw blank (raise-Refines digest self self _ kept (λ q. refl))
    | inr given ↦
        rw given (after_compile-Refines self bundle reason allow (compile float bundle) kept)
  ]

  rollback_to-Refines :
      (float : String → Option ℤ) (self : PolicyVersionStore) (policy_id version reason : String)
      (o : Option PolicyBundle)
      → IsRecorded digest self
      → Refines digest self (rollback_to digest float self policy_id version reason o)
  rollback_to-Refines float self policy_id version reason none kept =
      raise-Refines digest self self _ kept (λ q. refl)
  rollback_to-Refines float self policy_id version reason (some bundle) kept =
      activate-Refines float self bundle reason true kept

  perform-Refines :
      (float : String → Option ℤ) (call : Call) (self : PolicyVersionStore)
      → IsRecorded digest self
      → Refines digest self (perform digest float call self)
  unfolding perform rollback
  perform-Refines float (activating bundle reason allow) self kept =
      activate-Refines float self bundle reason allow kept
  perform-Refines float (rolling_back policy_id version reason) self kept =
      rollback_to-Refines float self policy_id version reason _ kept

  write_all_cong :
      (ts : List (Try PolicyVersionEvent)) (r s : Register) (q : String)
      → ((p : String) → r p ≡ s p)
      → write_all ts r q ≡ write_all ts s q
  unfolding write_all write
  write_all_cong [] r s q same = same q
  write_all_cong (raise problem ∷ ts) r s q same = write_all_cong ts _ _ q same
  write_all_cong (ok event ∷ ts) r s q same = write_all_cong ts _ _ q (λ p. ground (arith, same p))

  all-Refines :
      (float : String → Option ℤ) (calls : List Call) (self : PolicyVersionStore) (q : String)
      → IsRecorded digest self
      → served digest (perform_all digest float calls self).0 q
        ≡ write_all (perform_all digest float calls self).1 (served digest self) q
  unfolding perform_all write_all
  all-Refines float [] self q kept = refl
  all-Refines float (call ∷ calls) self q kept =
      let (next, writes) = perform-Refines float call self kept in
      all-Refines float calls (perform digest float call self).0 q next
      ∙ write_all_cong (perform_all digest float calls (perform digest float call self).0).1 _ _ q
          writes

  new_store-IsRecorded : IsRecorded digest new_store
  unfolding lookup
  new_store-IsRecorded = (λ q v h. absurd (ground arith), λ e m. absurd m)

  -- In every sequence of activations and rollbacks of a new store, returning or raising, the store
  -- refines a register: for every policy, `current` gives the content hash of the last event that a
  -- call returned for this policy, and nothing before there is one.
  pub served-perform_all :
      (float : String → Option ℤ) (calls : List Call) (q : String)
      → served digest (perform_all digest float calls new_store).0 q
        ≡ write_all (perform_all digest float calls new_store).1 (λ p. none) q
  unfolding lookup
  served-perform_all float calls q =
      all-Refines float calls new_store q new_store-IsRecorded
      ∙ write_all_cong (perform_all digest float calls new_store).1 (served digest new_store) _ q
          nothing_served
    where
      nothing_served : (p : String) → served digest new_store p ≡ none
      nothing_served p = served_lem digest new_store p
