-- ===== src/Lifecycle/Expiry/Turns.antt =====
-- governance/lifecycle.py: one turn of the loop of `monitor`.
use computational_governance.Prelude.{
  String, ℤ, ◌≡◌, refl, ap, sym, ◌∙◌, Bool, true, false, not, none, some, List, [], ◌∷◌, arith,
  if◌then◌else◌,
}
use computational_governance.Errors.{Try, ok, raise}
use computational_governance.Json.{end, field}
use computational_governance.Audit.Exact.{same_texts_refl}
use computational_governance.Lifecycle.{
  expired, PolicyLifecycleEvent, LifecycleEntry, PolicyLifecycleManager,
}
use computational_governance.Lifecycle.Tables.{Key, find, put, drop}
use computational_governance.Lifecycle.Monad.{M, ◌>>=◌, ◌>>◌, continue_with, pure, modify}
use computational_governance.Lifecycle.Authoring.{
  save, set_state_in, state_in, append_event, recompute_state,
}
use computational_governance.Lifecycle.Serving.{
  deadline_value, environment_of, expiry_due, monitored,
}
use computational_governance.Lifecycle.Keyed.{
  find-drop, key_of, IsKeyed, append_event-tables, recompute_state-same, Passed, saved-Passed,
}

returned-state :
    {A B : Type 0} (m : M A) (g : A → B) (s : PolicyLifecycleManager)
    → ((m >>= λ a. pure (g a)) s).0 ≡ (m s).0
unfolding ◌>>=◌
returned-state m g s = go (m s)
  where
    go : (p : PolicyLifecycleManager × Try _) → (continue_with (λ a. pure (g a)) p).0 ≡ p.0
    go (t, ok a) = refl
    go (t, raise e) = refl

pub Passed-refl : (s : PolicyLifecycleManager) → IsKeyed s → Passed s s
Passed-refl s w = record { keyed = w; deadlines = λ k. refl; still_active = λ k v h. h }

-- One turn of the loop keeps what is claimed of it, and a version that is past its deadline goes.
pub monitored-Passed :
    (clock now : ℤ) (key j : Key) (e : LifecycleEntry) (s : PolicyLifecycleManager)
    → IsKeyed s
    → find j s.entries ≡ some e
    → Passed s (monitored clock now key e s).0
      × ((v : String)
          → find key (monitored clock now key e s).0.active ≡ some v
          → expiry_due e.expires_at now ≡ false)
unfolding ◌>>=◌ save
monitored-Passed clock now key j e s w found = go (expiry_due e.expires_at now) refl
  where
    after : LifecycleEntry
    after = recompute_state (set_state_in (environment_of key) expired e)

    stored : PolicyLifecycleManager
    stored = record s { entries = put (key_of after) after s.entries; active = drop key s.active }

    appending : M PolicyLifecycleEvent
    appending =
        append_event clock after "expired" (state_in e (environment_of key)) expired
          "policy expiry reached" (some (environment_of key)) none
          (field "expires_at" (deadline_value e.expires_at) end)

    dropped : M (List PolicyLifecycleEvent)
    dropped =
        save after
        >> (modify (λ self. record self { active = drop key self.active })
            >> (appending >>= λ event. pure (event ∷ [])))

    tables :
        ((dropped s).0.entries ≡ put (key_of after) after s.entries)
        × ((dropped s).0.active ≡ drop key s.active)
    tables =
        let same = returned-state appending (λ event. event ∷ []) stored in
        let (entries, active) =
          append_event-tables clock after "expired" (state_in e (environment_of key)) expired
            "policy expiry reached" (some (environment_of key)) none
            (field "expires_at" (deadline_value e.expires_at) end) stored in
        (ap (λ t. t.entries) same ∙ entries, ap (λ t. t.active) same ∙ active)

    dropped_out : (v : String) → find key (drop key s.active) ≡ some v → ⊥
    dropped_out v h =
        ground (arith, find-drop key key s.active w.active_unique, same_texts_refl key)

    go :
        (b : Bool)
        → expiry_due e.expires_at now ≡ b
        → Passed s ((if not b then pure [] else dropped) s).0
          × ((v : String)
              → find key ((if not b then pure [] else dropped) s).0.active ≡ some v
              → expiry_due e.expires_at now ≡ false)
    go false due = (Passed-refl s w, λ v h. due)
    go true due =
        let (same_bundle, same_deadline) =
          recompute_state-same (set_state_in (environment_of key) expired e) in
        (
          saved-Passed key s (dropped s).0 e after w
              (ap (λ k. find k s.entries) (sym (w.entries_keyed j e found)) ∙ found) same_bundle
              same_deadline tables.0 tables.1,
          λ v h. absurd (dropped_out v (sym (ap (find key) tables.1) ∙ h)),
        )
