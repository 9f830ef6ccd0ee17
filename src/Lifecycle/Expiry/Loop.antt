-- ===== src/Lifecycle/Expiry/Loop.antt =====
-- governance/lifecycle.py: the loop of `monitor`, and the entries that it looks up.
use mathlib.Core.Option.{some-injective}
use mathlib.Core.Path.{subst}
use computational_governance.Prelude.{
  String, ℤ, ◌≡◌, refl, ap, sym, ◌∙◌, Bool, true, false, Option, none, some, List, [], ◌∷◌, arith,
  if◌then◌else◌,
}
use computational_governance.Errors.{Exception, ok}
use computational_governance.Strip.{strip}
use computational_governance.Audit.Replay.{same_texts}
use computational_governance.Audit.Exact.{same_texts→eq}
use computational_governance.Lifecycle.{
  PolicyLifecycleEvent, LifecycleEntry, PolicyLifecycleManager,
}
use computational_governance.Lifecycle.Tables.{Key, Table, find}
use computational_governance.Lifecycle.Monad.{◌>>=◌, both_returned}
use computational_governance.Lifecycle.Authoring.{or_raise, non_empty, entry}
use computational_governance.Lifecycle.Serving.{
  policy_of, expiry_due, or_clock, monitored, monitor_all, monitor,
}
use computational_governance.Lifecycle.Quorum.{lift_returned, gets_returned, entry_returned}
use computational_governance.Lifecycle.Keyed.{IsKeyed, deadline, Passed}
use computational_governance.Lifecycle.Expiry.Turns.{Passed-refl, monitored-Passed}

pub kept-strip : (value name kept : String) → non_empty value name ≡ ok kept → kept ≡ strip value
unfolding non_empty
kept-strip value name kept h = ground arith

pub present :
    {A : Type 0} (o : Option A) (a : A) (problem : Exception)
    → or_raise o problem ≡ ok a
    → o ≡ some a
present (some b) a problem k = cc
present none a problem k = absurd (ground arith)

pub entry-found :
    (policy_id version : String) (self : PolicyLifecycleManager) (e : LifecycleEntry)
    → (entry policy_id version self).1 ≡ ok e
    → find (strip policy_id ∷ strip version ∷ []) self.entries ≡ some e
unfolding entry
entry-found policy_id version self e h =
    let (p, named, h1) = lift_returned _ _ self e h in
    let (v, numbered, h2) = lift_returned _ _ self e h1 in
    let h3 = gets_returned _ _ self e h2 in
    ap (λ q. find (q ∷ strip version ∷ []) self.entries)
      (sym (kept-strip policy_id "policy_id" p named))
    ∙ (ap (λ w. find (p ∷ w ∷ []) self.entries)
          (sym (kept-strip version "policy_version" v numbered))
        ∙ present (find (p ∷ v ∷ []) self.entries) e _ h3)

-- The deadline that the entry of an active version has.
abbrev pub deadline_of : PolicyLifecycleManager → Key → String → Option ℤ
deadline_of self key version =
    deadline (find (strip (policy_of key) ∷ strip version ∷ []) self.entries)

-- After the loop no version among the items that is still active is past its deadline.
abbrev pub Swept : ℤ → Table String → PolicyLifecycleManager → PolicyLifecycleManager → Type 0
Swept now items s t =
    Passed s t
    × ((k : Key) (v u : String)
        → find k items ≡ some v
        → find k t.active ≡ some u
        → expiry_due (deadline_of s k v) now ≡ false)

turn-Swept :
    (now : ℤ) (key : Key) (version : String) (rest : Table String) (e : LifecycleEntry)
    (s r t : PolicyLifecycleManager)
    → find (strip (policy_of key) ∷ strip version ∷ []) s.entries ≡ some e
    → Passed s r
    → ((v : String) → find key r.active ≡ some v → expiry_due e.expires_at now ≡ false)
    → Swept now rest r t
    → Swept now ((key, version) ∷ rest) s t
unfolding find
turn-Swept now key version rest e s r t found turn gone (loop, served) = (
  record {
    keyed = loop.keyed;
    deadlines = λ k. loop.deadlines k ∙ turn.deadlines k;
    still_active = λ k v h. turn.still_active k v (loop.still_active k v h);
  },
  λ k v u f g. go k v u (same_texts k key) refl f g,
)
  where
    go :
        (k : Key) (v u : String) (b : Bool)
        → same_texts k key ≡ b
        → (if b then some version else find k rest) ≡ some v
        → find k t.active ≡ some u
        → expiry_due (deadline_of s k v) now ≡ false
    go k v u true same f g =
        let names = same_texts→eq k key same in
        ap (λ d. expiry_due d now)
          (ap (λ i. deadline_of s i v) names
            ∙ (ap (deadline_of s key) (sym (some-injective version v f)) ∙ ap deadline found))
        ∙ gone u (ap (λ i. find i r.active) (sym names) ∙ loop.still_active k u g)
    go k v u false same f g =
        ap (λ d. expiry_due d now) (sym (turn.deadlines (strip (policy_of k) ∷ strip v ∷ [])))
        ∙ served k v u f g

monitor_all-Swept :
    (clock now : ℤ) (items : Table String) (s : PolicyLifecycleManager)
    (events : List PolicyLifecycleEvent)
    → IsKeyed s
    → (monitor_all clock now items s).1 ≡ ok events
    → Swept now items s (monitor_all clock now items s).0
unfolding monitor_all find
monitor_all-Swept clock now [] s events w h = (Passed-refl s w, λ k v u f g. absurd (ground arith))
monitor_all-Swept clock now ((key, version) ∷ rest) s events w h =
    let (e, ent, h1, whole) = entry_returned (policy_of key) version _ s events h in
    let (some_events, turned, h2, whole1) =
      both_returned (monitored clock now key e) _ s events h1 in
    let r = (monitored clock now key e s).0 in
    let (others, looped, h3, whole2) = both_returned (monitor_all clock now rest) _ r events h2 in
    let found = entry-found (policy_of key) version s e (ap (λ p. p.1) ent) in
    let (turn, gone) =
      monitored-Passed clock now key (strip (policy_of key) ∷ strip version ∷ []) e s w found in
    subst (Swept now ((key, version) ∷ rest) s) (sym (ap (λ p. p.0) (whole ∙ (whole1 ∙ whole2)))) (
      turn-Swept now key version rest e s r (monitor_all clock now rest r).0 found turn gone
        (monitor_all-Swept clock now rest r others turn.keyed looped))

pub monitor-Swept :
    (clock : ℤ) (now : Option ℤ) (self : PolicyLifecycleManager)
    (events : List PolicyLifecycleEvent)
    → IsKeyed self
    → (monitor clock now self).1 ≡ ok events
    → Swept (or_clock now clock) self.active self (monitor clock now self).0
unfolding monitor ◌>>=◌
monitor-Swept clock now self events w h =
    monitor_all-Swept clock (or_clock now clock) self.active self events w h
