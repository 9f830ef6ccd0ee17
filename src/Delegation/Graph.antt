-- ===== src/Delegation/Graph.antt =====
-- governance/delegation.py: the operations of `DelegationGraph`.
use computational_governance.Prelude.{
  ℕ, zero, suc, String, ℤ, Bool, true, false, ◌&&◌, not, Option, none, some, List, [], ◌∷◌, ◌++◌,
  if◌then◌else◌, ◌==◌, lookup, values, contains, any, keep, min_from, length, leb, ltb, le_int,
}
use mathlib.Core.List.{map, reverse}
use computational_governance.Model.{Capability, is_descendant_of}
use computational_governance.Delegation.{Grant, Instant, minus_infinity, at, DelegationGraph}

abbrev pub or_empty : Option (List String) → List String
or_empty none = []
or_empty (some xs) = xs

abbrev pub covers : Capability → List String → Bool
covers capability granted = any (λ g. is_descendant_of capability (record { name = g })) granted

-- `_intrinsic_has`
unfoldable pub intrinsic_has : DelegationGraph → String → Capability → Bool
intrinsic_has self actor_id capability =
    covers capability (or_empty (lookup actor_id self.intrinsic))

-- `expires_at is not None and now >= expires_at`
unfoldable pub is_expired : Option ℤ → Instant → Bool
is_expired none now = false
is_expired (some t) minus_infinity = false
is_expired (some t) (at now) = le_int t now

-- The tests that relate a grant to its parent.
unfoldable pub extends : Grant → Grant → Bool
extends grant parent =
    (parent.to_actor == grant.from_actor)
    && (is_descendant_of grant.capability parent.capability && not (leb parent.depth grant.depth))

-- The tests on the grant itself.
unfoldable pub is_live : DelegationGraph → Grant → Instant → Bool
is_live self grant now =
    not (contains self.revoked grant.id) && not (is_expired grant.expires_at now)

-- A grant without a parent is valid if its grantor holds the capability intrinsically; else the
-- parent has to be known, extended by the grant and valid.
unfoldable pub valid_found : Grant → Option Grant → (Grant → Bool) → Bool
unfolding extends
valid_found grant none follow = false
valid_found grant (some parent) follow = extends grant parent && follow parent

unfoldable pub valid_parent : DelegationGraph → Grant → Option String → (Grant → Bool) → Bool
unfolding valid_found
valid_parent self grant none follow = intrinsic_has self grant.from_actor grant.capability
valid_parent self grant (some p) follow = valid_found grant (lookup p self.grants) follow

-- `_valid_grant` from a given set `seen`. The chain of parents enters each grant of the graph once,
-- so one round more than there are grants is enough.
unfoldable pub valid_from : ℕ → DelegationGraph → Grant → Instant → List String → Bool
unfolding valid_parent is_live
valid_from zero self grant now seen = false
valid_from (suc fuel) self grant now seen =
    let rest =
      valid_parent self grant grant.parent_grant_id
        (λ parent. valid_from fuel self parent now (grant.id ∷ seen)) in
    if contains seen grant.id then false else if is_live self grant now then rest else false

unfoldable pub valid_grant : DelegationGraph → Grant → Instant → Bool
valid_grant self grant now = valid_from (suc (length self.grants)) self grant now []

abbrev pub min_grant : List Grant → Option Grant
min_grant [] = none
min_grant (g ∷ gs) = some (min_from (λ (x : Grant). x.id) g gs)

-- `_source_grant`
unfoldable pub source_grant : DelegationGraph → String → Capability → ℤ → Option Grant
source_grant self grantor capability now = min_grant (
    keep
      (λ g.
        (g.to_actor == grantor)
        && (ltb 0 g.depth
            && (is_descendant_of capability g.capability && valid_grant self g (at now))))
      (values self.grants))

unfoldable pub path_found : Option Grant → List String → (Grant → List String) → List String
path_found none path follow = path
path_found (some parent) path follow = follow parent

unfoldable pub path_parent :
    DelegationGraph → Option String → List String → (Grant → List String) → List String
unfolding path_found
path_parent self none path follow = path
path_parent self (some p) path follow = path_found (lookup p self.grants) path follow

-- `_grant_path`: root to leaf; empty if the chain repeats a grant.
unfoldable pub path_from : ℕ → DelegationGraph → Grant → List String → List String → List String
unfolding path_parent
path_from zero self current seen path = []
path_from (suc fuel) self current seen path =
    let rest =
      path_parent self current.parent_grant_id (current.id ∷ path)
        (λ parent. path_from fuel self parent (current.id ∷ seen) (current.id ∷ path)) in
    if contains seen current.id then [] else rest

unfoldable pub grant_path : DelegationGraph → Grant → List String
grant_path self grant = path_from (suc (length self.grants)) self grant [] []

-- The actors that `current` has delegated to by valid grants.
unfoldable pub delegates : DelegationGraph → String → ℤ → List String
delegates self current now =
    map (λ g. g.to_actor)
      (keep (λ g. (g.from_actor == current) && valid_grant self g (at now)) (values self.grants))

-- `_actor_reachable`: a stack, whose top is the head of the list. Every grant is pushed at most
-- once, so the rounds are at most the grants and the start, and one more to see the stack empty.
unfoldable pub reachable_from : ℕ → DelegationGraph → List String → List String → String → ℤ → Bool
reachable_from zero self pending visited target now = false
reachable_from (suc fuel) self [] visited target now = false
reachable_from (suc fuel) self (current ∷ pending) visited target now =
    let skip = reachable_from fuel self pending visited target now in
    let enter =
      reachable_from fuel self (reverse (delegates self current now) ++ pending) (current ∷ visited)
        target now in
    if current == target then true else if contains visited current then skip else enter

unfoldable pub actor_reachable : DelegationGraph → String → String → ℤ → Bool
actor_reachable self start target now =
    reachable_from (suc (suc (length self.grants))) self (start ∷ []) [] target now
