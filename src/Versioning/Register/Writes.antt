-- ===== src/Versioning/Register/Writes.antt =====
-- governance/versioning.py: what an activation writes into the register, with the version stored.
use computational_governance.Prelude.{
  ◌⊎◌, inl, inr, String, ◌≡◌, refl, Bool, true, ◌&&◌, Option, none, some, List, [], ◌∷◌, arith,
  ◌==◌, lookup, lookup-insert, insert-cases, In-snoc, Bool-cases, keep, In, In-keep, keep-holds,
}
use computational_governance.Errors.{Exception, Try, raise}
use computational_governance.Json.{Json}
use computational_governance.Versioning.{PolicyBundle, PolicyVersionEvent, PolicyVersionStore}
use computational_governance.Versioning.Bundles.{content_hash}
use computational_governance.Versioning.Store.{
  last_event, add_event, activated, repeated, same_version, current,
}
use computational_governance.Versioning.Register.{write, hash_of, stored, served}
use computational_governance.Versioning.Register.Stored.{IsRecorded, served_lem}

module _ (digest : Json → String) where
  -- What a call keeps, and what it writes.
  abbrev pub Refines : PolicyVersionStore → PolicyVersionStore × Try PolicyVersionEvent → Type 0
  Refines self (next, outcome) =
      IsRecorded digest next
      × ((q : String) → served digest next q ≡ write outcome (served digest self) q)

  pub raise-Refines :
      (self next : PolicyVersionStore) (problem : Exception)
      → IsRecorded digest next
      → ((q : String) → served digest next q ≡ served digest self q)
      → Refines self (next, raise problem)
  unfolding write
  raise-Refines self next problem kept same = (kept, same)

  pub activated-Refines :
      (self : PolicyVersionStore) (bundle : PolicyBundle) (previous : Option String)
      (event_type reason : String)
      → IsRecorded digest self
      → stored digest self bundle.policy_id bundle.policy_version
        ≡ some (content_hash digest bundle)
      → Refines self (activated digest self bundle previous event_type reason)
  unfolding add_event served current stored write
  activated-Refines self bundle previous event_type reason (live, told) here = (
    (
      λ q v h. elim (insert-cases q bundle.policy_id bundle.policy_version v self.active h) [
        | inl (e, w) ↦ (content_hash digest bundle, ground arith)
        | inr old ↦ live q v old
      ],
      λ e m. elim (In-snoc e _ self.events m) [ inl new ↦ ground arith | inr old ↦ told e old ],
    ),
    λ q. ground (arith, lookup-insert q bundle.policy_id bundle.policy_version self.active),
  )

  recorded-Refines :
      (self : PolicyVersionStore) (bundle : PolicyBundle) (previous reason : String)
      → IsRecorded digest self
      → lookup bundle.policy_id self.active ≡ some previous
      → stored digest self bundle.policy_id previous ≡ some (content_hash digest bundle)
      → stored digest self bundle.policy_id bundle.policy_version
        ≡ some (content_hash digest bundle)
      → Refines self (repeated digest self bundle previous reason none)
  unfolding add_event write served current stored
  recorded-Refines self bundle previous reason (live, told) active same here = (
    (
      live,
      λ e m. elim (In-snoc e _ self.events m) [ inl new ↦ ground arith | inr old ↦ told e old ],
    ),
    λ q. ground arith,
  )

  -- An activation of what is active already: the last event of that version, or a new one.
  repeated-Refines :
      (self : PolicyVersionStore) (bundle : PolicyBundle) (previous reason : String)
      (o : Option PolicyVersionEvent)
      → IsRecorded digest self
      → lookup bundle.policy_id self.active ≡ some previous
      → stored digest self bundle.policy_id previous ≡ some (content_hash digest bundle)
      → stored digest self bundle.policy_id bundle.policy_version
        ≡ some (content_hash digest bundle)
      → ((e : PolicyVersionEvent)
          → o ≡ some e
          → In e self.events
            × (((e.policy_id == bundle.policy_id) && (e.to_version == previous)) ≡ true))
      → Refines self (repeated digest self bundle previous reason o)
  unfolding write
  repeated-Refines self bundle previous reason (some event) (live, told) active same here found =
      let (member, matches) = found event refl in
      ((live, told), λ q. ground (arith, served_lem digest self q, told event member))
  repeated-Refines self bundle previous reason none kept active same here found =
      recorded-Refines self bundle previous reason kept active same here

  last_event-In :
      (p : PolicyVersionEvent → Bool) (e : PolicyVersionEvent) (es : List PolicyVersionEvent)
      (found : Option PolicyVersionEvent)
      → last_event found es ≡ some e
      → (found ≡ some e) ⊎ In e es
  last_event-In p e [] found h = inl h
  last_event-In p e (x ∷ es) found h = elim (last_event-In p e es (some x) h) [
    | inl same ↦ inr (inl (ground arith))
    | inr later ↦ inr (inr later)
  ]

  last_event-keep :
      (p : PolicyVersionEvent → Bool) (e : PolicyVersionEvent) (es : List PolicyVersionEvent)
      → last_event none (keep p es) ≡ some e
      → In e es × (p e ≡ true)
  last_event-keep p e es h = elim (last_event-In p e (keep p es) none h) [
    | inl missing ↦ absurd (cc)
    | inr m ↦ (In-keep p e es m, keep-holds p e es m)
  ]

  pub same_version-Refines :
      (self : PolicyVersionStore) (bundle : PolicyBundle) (previous reason : String)
      (o : Option PolicyBundle)
      → IsRecorded digest self
      → lookup bundle.policy_id self.active ≡ some previous
      → stored digest self bundle.policy_id previous ≡ hash_of digest o
      → stored digest self bundle.policy_id bundle.policy_version
        ≡ some (content_hash digest bundle)
      → Refines self (same_version digest self bundle previous reason o)
  same_version-Refines self bundle previous reason none kept active there here =
      raise-Refines self self _ kept (λ q. refl)
  same_version-Refines self bundle previous reason (some now) kept active there here =
      elim (Bool-cases (content_hash digest now == content_hash digest bundle)) [
        | inl same ↦ rw same (
            repeated-Refines self bundle previous reason
              (last_event none (
                keep (λ e. (e.policy_id == bundle.policy_id) && (e.to_version == previous))
                  self.events))
              kept active (ground arith) here (λ e. last_event-keep _ e self.events))
        | inr other ↦ rw other (raise-Refines self self _ kept (λ q. refl))
      ]
