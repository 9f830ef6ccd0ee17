-- ===== src/Versioning/Register/Stored.antt =====
-- governance/versioning.py: what a registration of a bundle leaves of the versions that are stored.
use mathlib.Core.Path.{sym, ap, subst}
use computational_governance.Prelude.{
  String, ◌≡◌, refl, ◌∙◌, Option, none, some, arith, lookup, insert, lookup-insert, In,
}
use computational_governance.Errors.{ok}
use computational_governance.Json.{Json}
use computational_governance.Versioning.{PolicyBundle, PolicyVersionEvent, PolicyVersionStore}
use computational_governance.Versioning.Bundles.{content_hash}
use computational_governance.Versioning.Store.{versions_of, register, current}
use computational_governance.Versioning.Register.{hash_of, stored, served}

module _ (digest : Json → String) where
  abbrev stored_at : PolicyVersionStore → String → Option String → Option String
  stored_at self q none = none
  stored_at self q (some v) = stored digest self q v

  pub stored_lem :
      (self : PolicyVersionStore) (q v : String)
      → stored digest self q v ≡ hash_of digest (lookup v (versions_of self q))
  unfolding stored
  stored_lem self q v = refl

  pub served_lem :
      (self : PolicyVersionStore) (q : String)
      → served digest self q ≡ stored_at self q (lookup q self.active)
  unfolding served current stored
  served_lem self q = ground arith

  -- What is active is stored, and every event gives the hash of the version that it made active.
  abbrev pub IsRecorded : PolicyVersionStore → Type 0
  IsRecorded self =
      ((q v : String)
        → lookup q self.active ≡ some v
        → (h : String) × (stored digest self q v ≡ some h))
      × ((e : PolicyVersionEvent)
          → In e self.events
          → stored digest self e.policy_id e.to_version ≡ some e.content_hash)

  -- A registration that changes a stored version leaves its hash, and one that raises leaves all.
  pub register-stored :
      (self : PolicyVersionStore) (bundle : PolicyBundle) (q v h : String)
      → stored digest self q v ≡ some h
      → stored digest (register digest self bundle).0 q v ≡ some h
  unfolding register stored
  register-stored self bundle q v h e = ground (
    arith,
    lookup-insert q bundle.policy_id (versions_of self bundle.policy_id) self.bundles,
    lookup-insert q bundle.policy_id
        (insert bundle.policy_version bundle (versions_of self bundle.policy_id)) self.bundles,
    lookup-insert v bundle.policy_version bundle (versions_of self bundle.policy_id),
  )

  pub register-frame :
      (self : PolicyVersionStore) (bundle : PolicyBundle)
      → ((register digest self bundle).0.active ≡ self.active)
        × ((register digest self bundle).0.events ≡ self.events)
        × ((register digest self bundle).1 ≡ ok tt
            → stored digest (register digest self bundle).0 bundle.policy_id bundle.policy_version
              ≡ some (content_hash digest bundle))
  unfolding register stored
  register-frame self bundle = (
    ground arith,
    ground arith,
    λ h. ground (
      arith,
      lookup-insert bundle.policy_id bundle.policy_id
          (insert bundle.policy_version bundle (versions_of self bundle.policy_id)) self.bundles,
      lookup-insert bundle.policy_version bundle.policy_version bundle
          (versions_of self bundle.policy_id),
    ),
  )

  pub register-IsRecorded :
      (self : PolicyVersionStore) (bundle : PolicyBundle)
      → IsRecorded self
      → IsRecorded (register digest self bundle).0
  register-IsRecorded self bundle (live, told) =
      let (same, events, _) = register-frame self bundle in
      (
        λ q v h.
            let (k, e) = live q v (ap (lookup q) (sym same) ∙ h) in
            (k, register-stored self bundle q v k e),
        λ e m.
            register-stored self bundle e.policy_id e.to_version e.content_hash
              (told e (subst (In e) events m)),
      )

  pub register-served :
      (self : PolicyVersionStore) (bundle : PolicyBundle) (q : String)
      → IsRecorded self
      → served digest (register digest self bundle).0 q ≡ served digest self q
  register-served self bundle q (live, told) =
      served_lem (register digest self bundle).0 q
      ∙ ap (λ a. stored_at (register digest self bundle).0 q (lookup q a))
          (register-frame self bundle).0
      ∙ go (lookup q self.active) refl
      ∙ sym (served_lem self q)
    where
      go :
          (o : Option String)
          → lookup q self.active ≡ o
          → stored_at (register digest self bundle).0 q o ≡ stored_at self q o
      go none h = refl
      go (some v) h = let (k, e) = live q v h in register-stored self bundle q v k e ∙ sym e
