-- ===== src/Delegation/Revocation.antt =====
-- governance/delegation.py: what is valid after a revocation and at an earlier moment.
use computational_governance.Prelude.{
  String, ◌≤ℤ◌, ◌≡◌, ◌≢◌, refl, Bool, true, false, some, arith, contains-add, add, ◌∙◌, lookup,
  IsNamed, is_some,
}
use computational_governance.Delegation.{Grant, Instant, minus_infinity, at, DelegationGraph}
use computational_governance.Delegation.Graph.{intrinsic_has, is_live, is_expired, valid_grant}
use computational_governance.Delegation.Methods.{revoke}
use computational_governance.Delegation.Validity.{
  Held, held_root, held_under, valid_grant_iff_Held, valid_grant-Held, Held-live, Held-parent,
}
use computational_governance.Model.{Capability}

-- The grant of that id, and every grant below it.
pub data Below (self : DelegationGraph) (id : String) : Grant → Type 0 where
  itself : {g : Grant} → g.id ≡ id → Below self id g
  under :
      {g : Grant} (p : String) (parent : Grant)
      → g.parent_grant_id ≡ some p
      → lookup p self.grants ≡ some parent
      → Below self id parent
      → Below self id g

-- The graph after a revocation that succeeds.
abbrev mark : DelegationGraph → String → DelegationGraph
mark self id = record self { revoked = add id self.revoked }

revoke-known :
    (self : DelegationGraph) (id : String)
    → is_some (lookup id self.grants) ≡ true
    → (revoke self id).0 ≡ mark self id
unfolding revoke
revoke-known self id h = ground arith

revoked_dead :
    (self : DelegationGraph) (id : String) (now : Instant) {g : Grant}
    → Below self id g
    → ¬ Held (mark self id) now g
unfolding is_live
revoked_dead self id now (itself {g} e) h =
    ground (arith, Held-live (mark self id) now h, contains-add g.id id self.revoked)
revoked_dead self id now (under p parent e l b) h =
    revoked_dead self id now b (Held-parent (mark self id) now p parent h e l)

spared_live :
    (self : DelegationGraph) (id : String) (now : Instant) (g : Grant)
    → g.id ≢ id
    → is_live self g now ≡ true
    → is_live (mark self id) g now ≡ true
unfolding is_live
spared_live self id now g ne live = ground (arith, contains-add g.id id self.revoked)

intrinsic_has-mark :
    (self : DelegationGraph) (id : String) (a : String) (c : Capability)
    → intrinsic_has (mark self id) a c ≡ intrinsic_has self a c
unfolding intrinsic_has
intrinsic_has-mark self id a c = refl

spared :
    (self : DelegationGraph) (id : String) (now : Instant) {g : Grant}
    → Held self now g
    → ¬ Below self id g
    → Held (mark self id) now g
spared self id now (held_root {g} live e i) apart =
    held_root (spared_live self id now g (λ q. apart (itself q)) live) e
      (intrinsic_has-mark self id g.from_actor g.capability ∙ i)
spared self id now (held_under {g} p parent live e q ext h) apart =
    held_under p parent (spared_live self id now g (λ s. apart (itself s)) live) e q ext
      (spared self id now h (λ b. apart (under p parent e q b)))

-- Revoking a known grant makes that grant and every grant below it invalid, at every moment.
pub revoke_cascades :
    (self : DelegationGraph) (id : String) (now : Instant) (g : Grant)
    → is_some (lookup id self.grants) ≡ true
    → Below self id g
    → valid_grant (revoke self id).0 g now ≡ false
revoke_cascades self id now g known b =
    rw (revoke-known self id known) (go (valid_grant (mark self id) g now) refl)
  where
    go :
        (v : Bool) → valid_grant (mark self id) g now ≡ v → valid_grant (mark self id) g now ≡ false
    go true e = absurd (revoked_dead self id now b (valid_grant-Held (mark self id) now g e))
    go false e = e

-- Revoking a known grant changes nothing for the stored grants that are not below it: one that was
-- valid stays valid.
pub revoke_spares :
    (self : DelegationGraph) (id : String) (now : Instant) (g : Grant)
    → is_some (lookup id self.grants) ≡ true
    → IsNamed (λ (x : Grant). x.id) self.grants
    → lookup g.id self.grants ≡ some g
    → ¬ Below self id g
    → valid_grant self g now ≡ true
    → valid_grant (revoke self id).0 g now ≡ true
revoke_spares self id now g known named l apart h = rw (revoke-known self id known) (
    (valid_grant_iff_Held (mark self id) now named g l).1
      (spared self id now (valid_grant-Held self now g h) apart))

-- The order of moments.
abbrev pub Earlier : Instant → Instant → Type 0
Earlier minus_infinity t = Unit
Earlier (at s) minus_infinity = ⊥
Earlier (at s) (at t) = s ≤ℤ t

Earlier-live :
    (self : DelegationGraph) (s t : Instant) (g : Grant)
    → Earlier s t
    → is_live self g t ≡ true
    → is_live self g s ≡ true
unfolding is_live is_expired
Earlier-live self minus_infinity t g e live = ground arith
Earlier-live self (at s) minus_infinity g e live = absurd e
Earlier-live self (at s) (at t) g e live = ground arith

Earlier-Held :
    (self : DelegationGraph) (s t : Instant) {g : Grant}
    → Earlier s t
    → Held self t g
    → Held self s g
Earlier-Held self s t e (held_root {g} live n i) = held_root (Earlier-live self s t g e live) n i
Earlier-Held self s t e (held_under {g} p parent live n q ext h) =
    held_under p parent (Earlier-live self s t g e live) n q ext (Earlier-Held self s t e h)

-- Time only takes validity away: a stored grant that is valid at a moment was valid at every earlier
-- moment, in the same graph.
pub valid_grant-Earlier :
    (self : DelegationGraph) (s t : Instant) (g : Grant)
    → IsNamed (λ (x : Grant). x.id) self.grants
    → lookup g.id self.grants ≡ some g
    → Earlier s t
    → valid_grant self g t ≡ true
    → valid_grant self g s ≡ true
valid_grant-Earlier self s t g named l e h =
    (valid_grant_iff_Held self s named g l).1
      (Earlier-Held self s t e (valid_grant-Held self t g h))
