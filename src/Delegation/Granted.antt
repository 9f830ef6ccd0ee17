-- ===== src/Delegation/Granted.antt =====
-- governance/delegation.py: the validity of a grant that `grant` has just returned.
use mathlib.Core.Path.{subst}
use computational_governance.Prelude.{
  ℕ, suc, String, ℤ, pos, negsuc, ◌≡◌, refl, inl, inr, true, false, Option, none, some, arith,
  lookup, insert, lookup-insert, lookup-insert_self, IsNamed-values, insert-IsNamed, ◌<>◌,
  Bool-cases,
}
use computational_governance.Decimal.{pad4}
use computational_governance.Errors.{Try, ok, raise, ok-injective}
use computational_governance.Model.{Capability}
use computational_governance.Delegation.{Grant, Instant, at, DelegationGraph, Party, party_id}
use computational_governance.Delegation.Graph.{
  extends, valid_grant, source_grant, actor_reachable, intrinsic_has, is_live, is_expired,
}
use computational_governance.Delegation.Methods.{
  Terms, learn, store_grant, choose_parent, choose_under, grant_under, grant_checked, grant_scoped,
  grant, in_past,
}
use computational_governance.Delegation.Validity.{Held, held_root, held_under, valid_grant_iff_Held}
use computational_governance.Delegation.Invariant.{
  IsWellFormed, next_id_fresh, learn-IsWellFormed, new_grant, source_grant-found,
}

module _ (self : DelegationGraph) (w : IsWellFormed self) (g : Grant)
    (numbered : g.id ≡ "G-" <> pad4 self.next_id) where
  -- The graph with the grant stored.
  abbrev extended : DelegationGraph
  extended = record self { grants = insert g.id g self.grants; next_id = suc self.next_id }

  -- A chain of the old graph is one of the new graph.
  Held-extended : (now : Instant) {x : Grant} → Held self now x → Held extended now x
  unfolding is_live intrinsic_has
  Held-extended now (held_root live top i) = held_root live top i
  Held-extended now (held_under p parent live e q ext h) =
      held_under p parent live e
        (ground (arith, lookup-insert p g.id g self.grants, next_id_fresh self w)) ext
        (Held-extended now h)

  -- A grant under the next id that is not late is live.
  new-live : (now : ℤ) → in_past g.expires_at now ≡ false → is_live extended g (at now) ≡ true
  unfolding is_live is_expired
  new-live now early = ground (arith, w.known ("G-" <> pad4 self.next_id), next_id_fresh self w)

  -- What the new grant rests on.
  abbrev IsSupported : ℤ → Option String → Type 0
  IsSupported now none = intrinsic_has self g.from_actor g.capability ≡ true
  IsSupported now (some p) =
      (parent : Grant) × (lookup p self.grants ≡ some parent)
      × (extends g parent ≡ true)
      × Held self (at now) parent

  new-Held :
      (now : ℤ) (o : Option String)
      → g.parent_grant_id ≡ o
      → in_past g.expires_at now ≡ false
      → IsSupported now o
      → Held extended (at now) g
  unfolding intrinsic_has
  new-Held now none top early holds = held_root (new-live now early) top holds
  new-Held now (some p) link early (parent, q, ext, h) =
      held_under p parent (new-live now early) link
        (ground (arith, lookup-insert p g.id g self.grants, next_id_fresh self w)) ext
        (Held-extended (at now) h)

  new_valid :
      (now : ℤ)
      → in_past g.expires_at now ≡ false
      → IsSupported now g.parent_grant_id
      → valid_grant extended g (at now) ≡ true
  new_valid now early support =
      (valid_grant_iff_Held extended (at now)
          (insert-IsNamed (λ (x : Grant). x.id) g self.grants w.named) g
          (lookup-insert_self g.id g self.grants)).1
        (new-Held now g.parent_grant_id refl early support)

choose_under_some :
    (grantor : String) (source : Capability) (depth : ℕ) (o : Option Grant)
    → choose_under grantor source depth o ≡ ok none
    → ⊥
unfolding choose_under
choose_under_some grantor source depth none h = absurd (ground arith)
choose_under_some grantor source depth (some parent) h = absurd (ground arith)

-- The parent that is chosen supports the grant.
choose_parent-IsSupported :
    (self : DelegationGraph) (w : IsWellFormed self) (grantor grantee : String)
    (source : Capability) (depth : ℕ) (terms : Terms) (now : ℤ) (parent : Option String)
    → choose_parent self grantor source depth now ≡ ok parent
    → IsSupported self w (new_grant self grantor grantee source depth terms parent) refl now parent
unfolding choose_parent choose_under extends
choose_parent-IsSupported self w grantor grantee source depth terms now none h =
    ground (arith, choose_under_some grantor source depth (source_grant self grantor source now))
choose_parent-IsSupported self w grantor grantee source depth terms now (some p) h =
    go (source_grant self grantor source now) refl
  where
    go :
        (o : Option Grant)
        → source_grant self grantor source now ≡ o
        → IsSupported self w
            (new_grant self grantor grantee source depth terms (some p))
            refl
            now
            (some p)
    go none e = absurd (ground arith)
    go (some parent) e =
        let (m, to, covered, valid) = source_grant-found self grantor source now parent e in
        let here = IsNamed-values (λ (x : Grant). x.id) parent self.grants w.named m in
        (
          parent,
          ground arith,
          ground arith,
          (valid_grant_iff_Held self (at now) w.named parent here).0 valid,
        )

grant_under-valid :
    (self : DelegationGraph) (grantor grantee : String) (source : Capability) (depth : ℕ)
    (terms : Terms) (now : ℤ) (g : Grant) (r : Try (Option String))
    → IsWellFormed self
    → choose_parent self grantor source depth now ≡ r
    → (grant_under self grantor grantee source depth terms now r).1 ≡ ok g
    → valid_grant (grant_under self grantor grantee source depth terms now r).0 g (at now) ≡ true
unfolding grant_under store_grant
grant_under-valid self grantor grantee source depth terms now g (raise e) w q =
    λ h. absurd (ground arith)
grant_under-valid self grantor grantee source depth terms now g (ok parent) w q =
    elim (Bool-cases (in_past terms.expires_at now)) [
      | inl late ↦ rw late (λ h. absurd (ground arith))
      | inr early ↦ rw early (λ h.
          let new = new_grant self grantor grantee source depth terms parent in
          subst (λ x. valid_grant (extended self w new refl) x (at now) ≡ true)
            (ok-injective new g h)
            (new_valid self w new refl now early
              (choose_parent-IsSupported self w grantor grantee source depth terms now parent q)))
    ]

grant_checked-valid :
    (self : DelegationGraph) (grantor grantee : String) (source : Capability) (depth : ℕ)
    (terms : Terms) (now : ℤ) (g : Grant)
    → IsWellFormed self
    → (grant_checked self grantor grantee source depth terms now).1 ≡ ok g
    → valid_grant (grant_checked self grantor grantee source depth terms now).0 g (at now) ≡ true
unfolding grant_checked
grant_checked-valid self grantor grantee source depth terms now g w =
    elim (Bool-cases (actor_reachable self grantee grantor now)) [
      | inl cycle ↦ rw cycle (λ h. absurd (ground arith))
      | inr free ↦
          rw free (grant_under-valid self grantor grantee source depth terms now g _ w refl)
    ]

grant_scoped-valid :
    (self : DelegationGraph) (grantor grantee : Party) (depth : ℕ) (terms : Terms) (now : ℤ)
    (g : Grant) (t : Try Capability)
    → IsWellFormed self
    → (grant_scoped self grantor grantee depth terms now t).1 ≡ ok g
    → valid_grant (grant_scoped self grantor grantee depth terms now t).0 g (at now) ≡ true
unfolding grant_scoped
grant_scoped-valid self grantor grantee depth terms now g (raise e) w h = absurd (ground arith)
grant_scoped-valid self grantor grantee depth terms now g (ok source) w h =
    grant_checked-valid (learn self grantor) (party_id grantor) (party_id grantee) source depth
      terms now g (learn-IsWellFormed self grantor w) h

-- In a graph in which the invariant holds, a grant that `grant` returns is valid in the graph that it
-- leaves, at the moment at which it was granted.
pub grant_returns_valid :
    (self : DelegationGraph) (grantor grantee : Party) (capability : Capability) (depth : ℤ)
    (terms : Terms) (now : ℤ) (g : Grant)
    → IsWellFormed self
    → (grant self grantor grantee capability depth terms now).1 ≡ ok g
    → valid_grant (grant self grantor grantee capability depth terms now).0 g (at now) ≡ true
unfolding grant
grant_returns_valid self grantor grantee capability (negsuc depth) terms now g w h =
    absurd (ground arith)
grant_returns_valid self grantor grantee capability (pos depth) terms now g w h =
    grant_scoped-valid self grantor grantee depth terms now g _ w h
