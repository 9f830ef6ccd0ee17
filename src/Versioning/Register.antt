-- ===== src/Versioning/Register.antt =====
-- governance/versioning.py: the version store seen as a register. The abstract view holds one content
-- hash per policy, and a call writes what the event that it returns says, or nothing.
mod Stored
mod Writes
pub mod Refinement
use computational_governance.Prelude.{
  String, ℤ, Bool, Option, none, some, List, [], ◌∷◌, if◌then◌else◌, ◌==◌, lookup,
}
use computational_governance.Errors.{Try, ok, raise}
use computational_governance.Json.{Json}
use computational_governance.Versioning.{PolicyBundle, PolicyVersionEvent, PolicyVersionStore}
use computational_governance.Versioning.Bundles.{content_hash}
use computational_governance.Versioning.Store.{versions_of, activate, rollback, current}

-- The content hash that every policy is served with.
abbrev pub Register : Type 0
Register = String → Option String

-- What a call writes.
unfoldable pub write : Try PolicyVersionEvent → Register → Register
write (raise problem) r q = r q
write (ok event) r q = if q == event.policy_id then some event.content_hash else r q

unfoldable pub write_all : List (Try PolicyVersionEvent) → Register → Register
unfolding write
write_all [] r = r
write_all (t ∷ ts) r = write_all ts (write t r)

-- A call that changes the store, with its arguments.
pub data Call : Type 0 where
  activating : PolicyBundle → String → Bool → Call
  rolling_back : String → String → String → Call

module _ (digest : Json → String) where
  unfoldable pub perform :
      (String → Option ℤ) → Call → PolicyVersionStore → PolicyVersionStore × Try PolicyVersionEvent
  unfolding activate rollback
  perform float (activating bundle reason allow_rollback) self =
      activate digest float self bundle reason allow_rollback
  perform float (rolling_back policy_id version reason) self =
      rollback digest float self policy_id version reason

  -- A sequence of calls, with what each of them returns or raises.
  unfoldable pub perform_all :
      (String → Option ℤ)
      → List Call
      → PolicyVersionStore
      → PolicyVersionStore × List (Try PolicyVersionEvent)
  unfolding perform
  perform_all float [] self = (self, [])
  perform_all float (call ∷ calls) self =
      let (next, outcome) = perform float call self in
      let (last, outcomes) = perform_all float calls next in (last, outcome ∷ outcomes)

  abbrev pub hash_of : Option PolicyBundle → Option String
  hash_of none = none
  hash_of (some bundle) = some (content_hash digest bundle)

  -- The hash of a stored version.
  unfoldable pub stored : PolicyVersionStore → String → String → Option String
  unfolding lookup
  stored self q v = hash_of (lookup v (versions_of self q))

  abbrev answer_hash : Try PolicyBundle → Option String
  answer_hash (raise problem) = none
  answer_hash (ok bundle) = some (content_hash digest bundle)

  -- The view of a store: the hash of what `current` returns.
  unfoldable pub served : PolicyVersionStore → Register
  unfolding current
  served self q = answer_hash (current self q)
