-- ===== src/Lifecycle/Expiry.antt =====
-- governance/lifecycle.py: what `monitor` and `current` leave to be served at a deadline.
mod Turns
mod Loop
use computational_governance.Errors.{ok-injective}
use computational_governance.Prelude.{
  ℕ, String, ℤ, ◌≡◌, ap, sym, ◌∙◌, false, Option, some, List, [], ◌∷◌,
}
use computational_governance.Errors.{ok}
use computational_governance.Strip.{strip}
use computational_governance.Versioning.{PolicyBundle}
use computational_governance.Lifecycle.{LifecycleEntry, PolicyLifecycleManager}
use computational_governance.Lifecycle.Tables.{find}
use computational_governance.Lifecycle.Monad.{both_returned}
use computational_governance.Lifecycle.Authoring.{make_manager}
use computational_governance.Lifecycle.Serving.{expiry_due, or_clock, monitor, current}
use computational_governance.Lifecycle.Quorum.{lift_returned, gets_returned, entry_returned}
use computational_governance.Json.{Json}
use computational_governance.Lifecycle.Calls.{Call, perform_all, perform_all-IsKept}
use computational_governance.Lifecycle.Keyed.{key_of, IsKeyed, deadline}
use computational_governance.Lifecycle.Expiry.Loop.{kept-strip, present, entry-found, monitor-Swept}

keyed_unexpired :
    (clock : ℤ) (self : PolicyLifecycleManager) (policy_id environment : String) (now : Option ℤ)
    (bundle : PolicyBundle)
    → IsKeyed self
    → strip policy_id ≡ policy_id
    → (current clock policy_id environment now self).1 ≡ ok bundle
    → (e : LifecycleEntry) × (find (key_of e) (monitor clock now self).0.entries ≡ some e)
      × (e.bundle ≡ bundle)
      × (expiry_due e.expires_at (or_clock now clock) ≡ false)
unfolding current
keyed_unexpired clock self policy_id environment now bundle w plain h =
    let (events, monitored_ok, h1, whole) = both_returned (monitor clock now) _ self bundle h in
    let r = (monitor clock now self).0 in
    let (p, named, h2) = lift_returned _ _ r bundle h1 in
    let (env, kept, h3) = lift_returned _ _ r bundle h2 in
    let h4 = gets_returned _ _ r bundle h3 in
    let (version, live, h5) = lift_returned _ _ r bundle h4 in
    let (e, ent, h6, whole1) = entry_returned policy_id version _ r bundle h5 in
    let found = entry-found policy_id version r e (ap (λ q. q.1) ent) in
    let (passed, served) = monitor-Swept clock now self events w monitored_ok in
    let active = present (find (p ∷ env ∷ []) r.active) version _ live in
    let same = ap strip (kept-strip policy_id "policy_id" p named ∙ plain) in
    (
      e,
      ap (λ k. find k r.entries) (sym (passed.keyed.entries_keyed _ e found)) ∙ found,
      ok-injective e.bundle bundle h6,
      ap (λ d. expiry_due d (or_clock now clock))
            (sym (ap deadline found)
              ∙ (passed.deadlines (strip policy_id ∷ strip version ∷ [])
                  ∙ ap (λ i. deadline (find (i ∷ strip version ∷ []) self.entries)) (sym same)))
          ∙ served (p ∷ env ∷ []) version version
              (passed.still_active (p ∷ env ∷ []) version active) active,
    )

-- On a new manager, after every sequence of calls, and for a policy id with no white space around it:
-- what `current` returns is the bundle of an entry, in the manager that `monitor` leaves, whose
-- deadline is not reached at the given time.
pub current_unexpired :
    (digest : Json → String) (float : String → Option ℤ) (hash48 : String → ℕ) (threshold : ℕ)
    (approver_roles : List String) (expiry_mode : String) (fresh : PolicyLifecycleManager)
    (calls : List (ℤ × Call)) (clock : ℤ) (policy_id environment : String) (now : Option ℤ)
    (bundle : PolicyBundle)
    → make_manager threshold approver_roles expiry_mode ≡ ok fresh
    → strip policy_id ≡ policy_id
    → (current clock policy_id environment now (perform_all digest float hash48 calls fresh)).1
      ≡ ok bundle
    → (e : LifecycleEntry) × (find
          (key_of e)
          (monitor clock now (perform_all digest float hash48 calls fresh)).0.entries
        ≡ some e)
      × (e.bundle ≡ bundle)
      × (expiry_due e.expires_at (or_clock now clock) ≡ false)
current_unexpired digest float hash48 threshold approver_roles expiry_mode fresh calls clock
      policy_id environment now bundle made plain h =
    let (votes, keyed, unique) =
      perform_all-IsKept digest float hash48 threshold approver_roles expiry_mode fresh calls
        made in
    keyed_unexpired clock (perform_all digest float hash48 calls fresh) policy_id environment now
      bundle (record { entries_keyed = keyed; active_unique = unique }) plain h
