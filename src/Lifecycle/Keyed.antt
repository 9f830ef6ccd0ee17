-- ===== src/Lifecycle/Keyed.antt =====
-- governance/lifecycle.py: the tables of the manager under `monitor`: entries that stand under their own
-- names, keys that stand once, and what a saved entry and a dropped key leave.
use mathlib.Core.Option.{some-injective}
use mathlib.Core.Path.{subst}
use computational_governance.Prelude.{
  inl, inr, Bool-cases, String, ℤ, ◌≡◌, refl, ap, sym, ◌∙◌, Bool, true, false, Option, none, some,
  [], ◌∷◌, arith, if◌then◌else◌,
}
use computational_governance.Json.{Fields}
use computational_governance.Audit.Replay.{same_texts}
use computational_governance.Audit.Exact.{same_texts_refl, same_texts→eq}
use computational_governance.Lifecycle.{
  PolicyLifecycleState, LifecycleEntry, PolicyLifecycleManager,
}
use computational_governance.Lifecycle.Tables.{Key, Table, find, put, drop, find-put}
use computational_governance.Lifecycle.Monad.{◌>>=◌}
use computational_governance.Lifecycle.Authoring.{append_event, recompute_state}

-- No key stands twice.
abbrev pub UniqueKeys : {V : Type 0} → Table V → Type 0
UniqueKeys [] = Unit
UniqueKeys ((k, v) ∷ d) = (find k d ≡ none) × UniqueKeys d

pub find-drop :
    {V : Type 0} (j k : Key) (d : Table V)
    → UniqueKeys d
    → find j (drop k d) ≡ (if same_texts j k then none else find j d)
unfolding find drop
find-drop j k [] u = ground arith
find-drop j k ((i, v) ∷ d) (absent, u) = ground (
  arith,
  find-drop j k d u,
  same_texts→eq k i,
  same_texts→eq j k,
  same_texts→eq j i,
  same_texts_refl i,
  same_texts_refl k,
)

pub drop-UniqueKeys : {V : Type 0} (k : Key) (d : Table V) → UniqueKeys d → UniqueKeys (drop k d)
unfolding drop
drop-UniqueKeys k [] u = tt
drop-UniqueKeys k ((i, v) ∷ d) (absent, u) = elim (Bool-cases (same_texts k i)) [
  | inl same ↦ rw same u
  | inr other ↦ rw other (ground (arith, find-drop i k d u), drop-UniqueKeys k d u)
]

pub put-UniqueKeys :
    {V : Type 0} (k : Key) (v : V) (d : Table V) → UniqueKeys d → UniqueKeys (put k v d)
unfolding put find
put-UniqueKeys k v [] u = (refl, tt)
put-UniqueKeys k v ((i, w) ∷ d) (absent, u) = elim (Bool-cases (same_texts k i)) [
  | inl same ↦ rw same (absent, u)
  | inr other ↦ rw other (
    ground (arith, find-put i k v d, same_texts→eq i k, same_texts_refl k, same_texts_refl i),
    put-UniqueKeys k v d u,
  )
]

abbrev pub key_of : LifecycleEntry → Key
key_of e = e.bundle.policy_id ∷ e.bundle.policy_version ∷ []

-- Entries stand under the names in their bundles.
abbrev pub EntriesKeyed : Table LifecycleEntry → Type 0
EntriesKeyed d = (k : Key) (e : LifecycleEntry) → find k d ≡ some e → k ≡ key_of e

-- And a policy has one active version in an environment.
pub record IsKeyed (self : PolicyLifecycleManager) : Type 0 where
  pub entries_keyed : EntriesKeyed self.entries
  pub active_unique : UniqueKeys self.active

abbrev pub deadline : Option LifecycleEntry → Option ℤ
deadline none = none
deadline (some e) = e.expires_at

-- `append_event` changes neither the entries nor the active versions.
pub append_event-tables :
    (clock : ℤ) (e : LifecycleEntry) (event : String) (from_state to_state : PolicyLifecycleState)
    (reason : String) (environment actor_id : Option String) (attributes : Fields)
    (self : PolicyLifecycleManager)
    → ((append_event clock e event from_state to_state reason environment actor_id attributes
          self).0.entries
        ≡ self.entries)
      × ((append_event clock e event from_state to_state reason environment actor_id attributes
            self).0.active
          ≡ self.active)
unfolding append_event ◌>>=◌
append_event-tables clock e event from_state to_state reason environment actor_id attributes self =
    ground arith

pub recompute_state-same :
    (e : LifecycleEntry)
    → ((recompute_state e).bundle ≡ e.bundle) × ((recompute_state e).expires_at ≡ e.expires_at)
unfolding recompute_state
recompute_state-same e = (ground arith, ground arith)

-- What a part of the loop over the active versions leaves behind.
pub record Passed (s t : PolicyLifecycleManager) : Type 0 where
  pub keyed : IsKeyed t
  pub deadlines : (k : Key) → deadline (find k t.entries) ≡ deadline (find k s.entries)
  pub still_active : (k : Key) (v : String) → find k t.active ≡ some v → find k s.active ≡ some v

pub put-EntriesKeyed :
    (d : Table LifecycleEntry) (after : LifecycleEntry)
    → EntriesKeyed d
    → EntriesKeyed (put (key_of after) after d)
put-EntriesKeyed d after keyed k f h = elim (Bool-cases (same_texts k (key_of after))) [
  | inl same ↦
      same_texts→eq k (key_of after) same
      ∙ ap key_of
          (some-injective after f (rw same refl ∙ (sym (find-put k (key_of after) after d) ∙ h)))
  | inr other ↦ keyed k f (rw other refl ∙ (sym (find-put k (key_of after) after d) ∙ h))
]

deadline-put :
    (d : Table LifecycleEntry) (e after : LifecycleEntry) (k j : Key)
    → find j d ≡ some e
    → after.expires_at ≡ e.expires_at
    → deadline (find k (put j after d)) ≡ deadline (find k d)
deadline-put d e after k j found same =
    ap deadline (find-put k j after d) ∙ go (same_texts k j) refl
  where
    go :
        (b : Bool)
        → same_texts k j ≡ b
        → deadline (if b then some after else find k d) ≡ deadline (find k d)
    go true h = same ∙ sym (ap deadline (ap (λ i. find i d) (same_texts→eq k j h) ∙ found))
    go false h = refl

pub saved-Passed :
    (key : Key) (s t : PolicyLifecycleManager) (e after : LifecycleEntry)
    → IsKeyed s
    → find (key_of e) s.entries ≡ some e
    → after.bundle ≡ e.bundle
    → after.expires_at ≡ e.expires_at
    → t.entries ≡ put (key_of after) after s.entries
    → t.active ≡ drop key s.active
    → Passed s t
saved-Passed key s t e after w found same_bundle same_deadline entries active = record {
  keyed = record {
    entries_keyed = λ k f h.
        put-EntriesKeyed s.entries after w.entries_keyed k f (sym (ap (find k) entries) ∙ h);
    active_unique = subst UniqueKeys (sym active) (drop-UniqueKeys key s.active w.active_unique);
  };
  deadlines = λ k.
      ap (λ d. deadline (find k d)) entries
      ∙ deadline-put s.entries e after k (key_of after)
          (ap (λ b. find (b.policy_id ∷ b.policy_version ∷ []) s.entries) same_bundle ∙ found)
          same_deadline;
  still_active = λ k v h. ground (arith, find-drop k key s.active w.active_unique);
}
