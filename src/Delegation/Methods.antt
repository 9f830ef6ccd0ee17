-- ===== src/Delegation/Methods.antt =====
-- governance/delegation.py: the public methods of `DelegationGraph`.
use computational_governance.Prelude.{
  ℕ, suc, String, ℤ, pos, negsuc, Bool, true, false, ◌&&◌, ◌||◌, not, Option, none, some, List, [],
  ◌∷◌, if◌then◌else◌, ◌==◌, ◌<>◌, lookup, insert, values, keep, sort_by, length, leb, ltb, le_int,
  is_some, str_le, sub_ℕ, add, update, Dict,
}
use mathlib.Core.List.{map}
use computational_governance.Decimal.{str, str_int, pad4}
use computational_governance.Errors.{delegation_error, Try, ok, raise}
use computational_governance.Model.{Capability, is_descendant_of}
use computational_governance.Delegation.{
  Grant, AuthorityProof, at, DelegationGraph, Party, actor, name, party_id,
}
use computational_governance.Delegation.Graph.{
  or_empty, covers, intrinsic_has, is_expired, source_grant, valid_grant, grant_path,
  actor_reachable,
}

-- `DelegationGraph(intrinsic)`
abbrev pub new_graph : Dict (List String) → DelegationGraph
new_graph intrinsic = record { intrinsic = intrinsic; grants = []; revoked = []; next_id = 1 }

-- `register_intrinsic`
unfoldable pub register_intrinsic : DelegationGraph → Party → Capability → DelegationGraph
register_intrinsic self p capability = record self {
  intrinsic =
      insert (party_id p) (add capability.name (or_empty (lookup (party_id p) self.intrinsic)))
        self.intrinsic;
}

-- The checks of `grant` before the graph is read.
unfoldable pub check_scope : Capability → Capability → Try Capability
check_scope requested source =
    if source.name == ""
    then raise (delegation_error "capability scope cannot be empty")
    else if not (is_descendant_of source requested)
    then raise (
        delegation_error
          ("grant scope " <> source.name <> " widens requested capability " <> requested.name))
    else ok source

-- `self._intrinsic.setdefault(grantor_id, set()).update(grantor.capabilities)`, for an `Actor`
unfoldable pub learn : DelegationGraph → Party → DelegationGraph
learn self (name s) = self
learn self (actor a) = record self {
  intrinsic =
      insert a.id (update (or_empty (lookup a.id self.intrinsic)) a.capabilities) self.intrinsic;
}

-- A source grant has to leave depth for the new grant.
unfoldable pub choose_under : String → Capability → ℕ → Option Grant → Try (Option String)
choose_under grantor source depth none =
    raise (delegation_error (grantor <> " does not hold valid authority for " <> source.name))
choose_under grantor source depth (some parent) =
    if leb parent.depth depth
    then raise (
        delegation_error (
          "grant depth "
          <> str depth
          <> " exceeds remaining depth "
          <> str_int (sub_ℕ parent.depth 1)))
    else ok (some parent.id)

-- The parent of a new grant: none if the grantor holds the scope intrinsically.
unfoldable pub choose_parent : DelegationGraph → String → Capability → ℕ → ℤ → Try (Option String)
unfolding choose_under
choose_parent self grantor source depth now =
    if intrinsic_has self grantor source
    then ok none
    else choose_under grantor source depth (source_grant self grantor source now)

-- `expires_at is not None and expires_at <= now`
abbrev pub in_past : Option ℤ → ℤ → Bool
in_past none now = false
in_past (some t) now = le_int t now

-- The arguments of `grant` after the parties, the capability and the depth.
pub record Terms : Type 0 where
  pub scope : Option Capability
  pub expires_at : Option ℤ
  pub granting_rule_id : Option String
  pub identity_reference : Option String

abbrev pub scope_or : Option Capability → Capability → Capability
scope_or none capability = capability
scope_or (some scope) capability = scope

-- The grant that is stored under the next id.
unfoldable pub store_grant :
    DelegationGraph
    → String
    → String
    → Capability
    → ℕ
    → Terms
    → Option String
    → DelegationGraph × Try Grant
store_grant self grantor grantee source depth terms parent =
    let grant_id = "G-" <> pad4 self.next_id in
    let grant : Grant = record {
      id = grant_id;
      from_actor = grantor;
      to_actor = grantee;
      capability = source;
      depth = depth;
      expires_at = terms.expires_at;
      parent_grant_id = parent;
      granting_rule_id = terms.granting_rule_id;
      identity_reference = terms.identity_reference;
    } in
    (
      record self { grants = insert grant_id grant self.grants; next_id = suc self.next_id },
      ok grant,
    )

-- The last check of `grant`, and the new grant.
unfoldable pub grant_under :
    DelegationGraph
    → String
    → String
    → Capability
    → ℕ
    → Terms
    → ℤ
    → Try (Option String)
    → DelegationGraph × Try Grant
unfolding store_grant
grant_under self grantor grantee source depth terms now (raise e) = (self, raise e)
grant_under self grantor grantee source depth terms now (ok parent) =
    if in_past terms.expires_at now
    then (self, raise (delegation_error "grant expiry must be in the future"))
    else store_grant self grantor grantee source depth terms parent

-- From the check for a cycle on; `self` has learnt the grantor's capabilities.
unfoldable pub grant_checked :
    DelegationGraph → String → String → Capability → ℕ → Terms → ℤ → DelegationGraph × Try Grant
unfolding grant_under
grant_checked self grantor grantee source depth terms now =
    if actor_reachable self grantee grantor now
    then (
      self,
      raise (delegation_error ("delegation cycle rejected: " <> grantor <> " -> " <> grantee)),
    )
    else grant_under self grantor grantee source depth terms now
        (choose_parent self grantor source depth now)

unfoldable pub grant_scoped :
    DelegationGraph → Party → Party → ℕ → Terms → ℤ → Try Capability → DelegationGraph × Try Grant
unfolding learn
grant_scoped self grantor grantee depth terms now (raise e) = (self, raise e)
grant_scoped self grantor grantee depth terms now (ok source) =
    grant_checked (learn self grantor) (party_id grantor) (party_id grantee) source depth terms now

-- `grant`: what an `Actor` holds is recorded also when a later check refuses the grant.
unfoldable pub grant :
    DelegationGraph → Party → Party → Capability → ℤ → Terms → ℤ → DelegationGraph × Try Grant
unfolding grant_scoped
grant self grantor grantee capability (negsuc depth) terms now =
    (self, raise (delegation_error "grant depth cannot be negative"))
grant self grantor grantee capability (pos depth) terms now =
    grant_scoped self grantor grantee depth terms now
      (check_scope capability (scope_or terms.scope capability))

-- `revoke`, by the grant's id
unfoldable pub revoke : DelegationGraph → String → DelegationGraph × Try (Unit {0})
revoke self grant_id =
    if is_some (lookup grant_id self.grants)
    then (record self { revoked = add grant_id self.revoked }, ok tt)
    else (self, raise (delegation_error ("unknown grant " <> grant_id)))

-- `expire`: the ids of the grants that have expired.
unfoldable pub expire : DelegationGraph → ℤ → List String
expire self now =
    sort_by (λ id. id)
      (map (λ g. g.id) (keep (λ g. is_expired g.expires_at (at now)) (values self.grants)))

-- The order of paths: by length, then element by element.
abbrev path_lt_lex : List String → List String → Bool
path_lt_lex [] [] = false
path_lt_lex [] (q ∷ qs) = true
path_lt_lex (p ∷ ps) [] = false
path_lt_lex (p ∷ ps) (q ∷ qs) = let rest = path_lt_lex ps qs in if p == q then rest else str_le p q

abbrev path_lt : List String → List String → Bool
path_lt ps qs =
    if ltb (length ps) (length qs)
    then true
    else if ltb (length qs) (length ps)
    then false
    else path_lt_lex ps qs

-- The first smallest path.
unfoldable pub min_path : List String → List (List String) → List String
min_path best [] = best
min_path best (p ∷ ps) = min_path (if path_lt p best then p else best) ps

abbrev pub is_path : List String → Bool
is_path [] = false
is_path (p ∷ ps) = true

unfoldable pub candidates : DelegationGraph → String → Capability → ℤ → List Grant
candidates self actor_id requested now =
    keep
      (λ g.
        (g.to_actor == actor_id)
        && (is_descendant_of requested g.capability && valid_grant self g (at now)))
      (values self.grants)

-- Intrinsic authority: what an `Actor` says it holds, or what the graph has recorded.
unfoldable pub holds_intrinsically : DelegationGraph → Party → Capability → Bool
holds_intrinsically self (actor a) requested =
    covers requested a.capabilities || intrinsic_has self a.id requested
holds_intrinsically self (name s) requested = intrinsic_has self s requested

abbrev delegated_proof : List (List String) → Option String → AuthorityProof
delegated_proof [] reference = record {
  allowed = false;
  source = "none";
  path = [];
  reason = "no intrinsic or active delegated capability";
  identity_reference = reference;
}
delegated_proof (p ∷ ps) reference = record {
  allowed = true;
  source = "delegated";
  path = min_path p ps;
  reason = "active delegated capability is valid";
  identity_reference = reference;
}

-- `authority_proof`
unfoldable pub authority_proof :
    DelegationGraph → Party → Capability → ℤ → Option String → AuthorityProof
unfolding holds_intrinsically
authority_proof self party requested now reference =
    if holds_intrinsically self party requested
    then record {
      allowed = true;
      source = "intrinsic";
      path = ("actor:" <> party_id party) ∷ [];
      reason = "intrinsic capability is valid";
      identity_reference = reference;
    }
    else delegated_proof
        (keep is_path (map (grant_path self) (candidates self (party_id party) requested now)))
        reference

-- `has_authority`
unfoldable pub has_authority : DelegationGraph → Party → Capability → ℤ → Bool
unfolding authority_proof
has_authority self party capability now = (authority_proof self party capability now none).allowed

-- `grants` and `revoked_grants`, for audit
unfoldable pub sorted_grants : DelegationGraph → List Grant
sorted_grants self = sort_by (λ g. g.id) (values self.grants)

unfoldable pub revoked_grants : DelegationGraph → List String
revoked_grants self = sort_by (λ id. id) self.revoked
