-- ===== src/Examples/Delegations.antt =====
-- Delegation graphs at concrete inputs.
use computational_governance.Prelude.{
  pos, ◌≡◌, ◌↔◌, refl, ap, ◌==◌, true, false, none, some, List, [], ◌∷◌, arith, str_dec, lookup,
  insert, values, keys, add, IsNamed, update, min_from,
}
use computational_governance.Decimal.{pad4, str}
use computational_governance.Errors.{delegation_error, ok, raise}
use computational_governance.Model.{Capability, is_descendant_of}
use computational_governance.Delegation.{Grant, at, DelegationGraph, Party, name, actor}
use computational_governance.Delegation.Graph.{
  intrinsic_has, is_live, is_expired, extends, valid_from, valid_parent, valid_grant, source_grant,
  actor_reachable, reachable_from, delegates,
}
use computational_governance.Delegation.Methods.{
  new_graph, Terms, grant, grant_checked, choose_parent, check_scope, revoke,
}
use computational_governance.Delegation.Validity.{
  Held, Origin, valid_grant_iff_Held, valid_grant-Origin,
}
use computational_governance.Delegation.Revocation.{
  Below, itself, under, revoke_cascades, revoke_spares, valid_grant-Earlier,
}
use computational_governance.Delegation.Invariant.{IsWellFormed}
use computational_governance.Delegation.Calls.{
  Call, registering, granting, revoking, perform, perform_all, perform_all-IsWellFormed,
}
use computational_governance.Delegation.Granted.{grant_returns_valid}

abbrev payments : Capability
payments = record { name = "payment" }

abbrev sending : Capability
sending = record { name = "payment.send" }

-- alice holds payment and delegates it to bob, who delegates payment.send to carol.
abbrev first : Grant
first = record {
  id = "G-0001";
  from_actor = "alice";
  to_actor = "bob";
  capability = payments;
  depth = 2;
  expires_at = some (pos 100);
  parent_grant_id = none;
  granting_rule_id = none;
  identity_reference = none;
}

abbrev second : Grant
second = record {
  id = "G-0002";
  from_actor = "bob";
  to_actor = "carol";
  capability = sending;
  depth = 1;
  expires_at = none;
  parent_grant_id = some "G-0001";
  granting_rule_id = none;
  identity_reference = none;
}

abbrev chain : DelegationGraph
chain = record {
  intrinsic = ("alice", "payment" ∷ []) ∷ [];
  grants = ("G-0001", first) ∷ ("G-0002", second) ∷ [];
  revoked = [];
  next_id = 3;
}

runs : Unit {0}
unfolding str_dec lookup insert values keys add update min_from is_descendant_of intrinsic_has
    is_live is_expired extends valid_from valid_parent valid_grant source_grant actor_reachable
    reachable_from delegates grant grant_checked choose_parent check_scope revoke pad4 str
runs = tt

named : IsNamed (λ (g : Grant). g.id) chain.grants
unfolding runs
named = (refl, refl, (refl, refl, tt))

stored : lookup "G-0002" chain.grants ≡ some second
unfolding runs
stored = refl

valid : valid_grant chain second (at (pos 50)) ≡ true
unfolding runs
valid = refl

valid_grant_iff_Held_example :
    (valid_grant chain second (at (pos 50)) ≡ true) ↔ Held chain (at (pos 50)) second
valid_grant_iff_Held_example = valid_grant_iff_Held chain (at (pos 50)) named second stored

valid_grant-Origin_example : Origin chain second
valid_grant-Origin_example = valid_grant-Origin chain (at (pos 50)) second valid

below : Below chain "G-0001" second
unfolding runs
below = under "G-0001" first refl refl (itself refl)

revoke_cascades_example : valid_grant (revoke chain "G-0001").0 second (at (pos 50)) ≡ false
unfolding runs
revoke_cascades_example = revoke_cascades chain "G-0001" (at (pos 50)) second refl below

valid_first : valid_grant chain first (at (pos 50)) ≡ true
unfolding runs
valid_first = refl

apart : ¬ Below chain "G-0002" first
unfolding runs
apart (itself e) = ground (arith, ap (λ s. s == "G-0002") e)
apart (under p parent e l b) = ground arith

revoke_spares_example : valid_grant (revoke chain "G-0002").0 first (at (pos 50)) ≡ true
unfolding runs
revoke_spares_example =
    revoke_spares chain "G-0002" (at (pos 50)) first refl named refl apart valid_first

valid_grant-Earlier_example : valid_grant chain second (at (pos 20)) ≡ true
valid_grant-Earlier_example =
    valid_grant-Earlier chain (at (pos 20)) (at (pos 50)) second named stored (omega arith) valid

abbrev terms : Terms
terms = record {
  scope = none;
  expires_at = some (pos 100);
  granting_rule_id = none;
  identity_reference = none;
}

abbrev alice : Party
alice =
    actor (record {
      id = "alice";
      authority_level = pos 1;
      cls = "agent";
      capabilities = "payment" ∷ [];
    })

granted : (grant (new_graph []) alice (name "bob") payments (pos 2) terms (pos 0)).1 ≡ ok first
unfolding runs
granted = refl

-- bob cannot hand the capability back to alice.
refused_cycle :
    (grant chain (name "carol") (name "alice") sending (pos 0) terms (pos 0)).1
    ≡ raise (delegation_error "delegation cycle rejected: carol -> alice")
unfolding runs
refused_cycle = refl

abbrev calls : List Call
calls =
    registering (name "dan") payments
    ∷ granting alice (name "bob") payments (pos 2) terms (pos 0)
    ∷ granting (name "bob") (name "carol") sending (pos 1) terms (pos 0)
    ∷ revoking "G-0001"
    ∷ revoking "G-0009"
    ∷ []

perform_all-IsWellFormed_example : IsWellFormed (perform_all calls (new_graph []))
perform_all-IsWellFormed_example = perform_all-IsWellFormed [] calls

-- Of alice's grant, before it is revoked.
abbrev before : DelegationGraph
before =
    perform_all (granting alice (name "bob") payments (pos 2) terms (pos 0) ∷ []) (new_graph [])

abbrev to_carol : Grant
to_carol = record {
  id = "G-0002";
  from_actor = "bob";
  to_actor = "carol";
  capability = sending;
  depth = 1;
  expires_at = terms.expires_at;
  parent_grant_id = some "G-0001";
  granting_rule_id = terms.granting_rule_id;
  identity_reference = terms.identity_reference;
}

before-IsWellFormed : IsWellFormed before
before-IsWellFormed =
    perform_all-IsWellFormed [] (granting alice (name "bob") payments (pos 2) terms (pos 0) ∷ [])

granted_again :
    (grant before (name "bob") (name "carol") sending (pos 1) terms (pos 0)).1 ≡ ok to_carol
unfolding runs perform perform_all
granted_again = refl

grant_returns_valid_example :
    valid_grant
      (grant before (name "bob") (name "carol") sending (pos 1) terms (pos 0)).0
      to_carol
      (at (pos 0))
    ≡ true
grant_returns_valid_example =
    grant_returns_valid before (name "bob") (name "carol") sending (pos 1) terms (pos 0) to_carol
      before-IsWellFormed granted_again
