-- ===== src/Delegation/Invariant.antt =====
-- governance/delegation.py: the invariant of the graph under its methods.
use mathlib.Core.Path.{subst}
use mathlib.Core.Option.{some-injective}
use computational_governance.Prelude.{
  ℕ, suc, ◌<◌, String, ℤ, pos, negsuc, ◌≡◌, refl, sym, inl, inr, true, ◌&&◌, Option, none, some,
  List, [], ◌∷◌, arith, In, keep, In-keep, keep-holds, min_from-In, contains, contains-add, Dict,
  lookup, insert, insert-cases, values, lookup-insert, IsNamed, insert-IsNamed, IsNamed-values,
  ◌==◌, is_some, ◌⊎◌, ◌<>◌, ltb, Bool-cases,
}
use computational_governance.Decimal.{pad4}
use computational_governance.Decimal.Injective.{prefixed-injective}
use computational_governance.Errors.{Try, ok, raise}
use computational_governance.Model.{Capability, is_descendant_of}
use computational_governance.Delegation.{Grant, at, DelegationGraph, Party, actor, name, party_id}
use computational_governance.Delegation.Graph.{
  extends, valid_grant, source_grant, actor_reachable, min_grant,
}
use computational_governance.Delegation.Methods.{
  new_graph, Terms, revoke, learn, store_grant, scope_or, choose_parent, choose_under, grant_under,
  grant_checked, grant_scoped, grant, check_scope, in_past,
}

-- A parent link leads to a stored grant that the grant extends.
abbrev pub IsLinked : Dict Grant → Grant → Option String → Type 0
IsLinked grants g none = Unit
IsLinked grants g (some p) =
    (parent : Grant) × (lookup p grants ≡ some parent) × (extends g parent ≡ true)

pub record IsWellFormed (self : DelegationGraph) : Type 0 where
  -- every grant stands under its id, once
  pub named : IsNamed (λ (g : Grant). g.id) self.grants
  -- ids come from numbers that were handed out
  pub numbered :
      (k : String) (g : Grant)
      → lookup k self.grants ≡ some g
      → (n : ℕ) × (n < self.next_id) × (k ≡ "G-" <> pad4 n)
  pub linked :
      (k : String) (g : Grant)
      → lookup k self.grants ≡ some g
      → IsLinked self.grants g g.parent_grant_id
  -- only known grants are revoked
  pub known : (k : String) → contains self.revoked k ≡ true → is_some (lookup k self.grants) ≡ true

pub new_graph-IsWellFormed : (intrinsic : Dict (List String)) → IsWellFormed (new_graph intrinsic)
unfolding lookup
new_graph-IsWellFormed intrinsic = record {
  named = tt;
  numbered = λ k g h. absurd (ground arith);
  linked = λ k g h. absurd (ground arith);
  known = λ k h. absurd (ground arith);
}

-- The next id is not in use.
pub next_id_fresh :
    (self : DelegationGraph)
    → IsWellFormed self
    → lookup ("G-" <> pad4 self.next_id) self.grants ≡ none
next_id_fresh self w = go (lookup ("G-" <> pad4 self.next_id) self.grants) refl
  where
    go :
        (o : Option Grant)
        → lookup ("G-" <> pad4 self.next_id) self.grants ≡ o
        → lookup ("G-" <> pad4 self.next_id) self.grants ≡ none
    go none e = e
    go (some g) e =
        let (n, below, same) = w.numbered ("G-" <> pad4 self.next_id) g e in
        absurd (omega (arith, prefixed-injective "G-" self.next_id n same))

pub learn-IsWellFormed :
    (self : DelegationGraph) (p : Party) → IsWellFormed self → IsWellFormed (learn self p)
unfolding learn
learn-IsWellFormed self (actor a) w = record {
  named = w.named;
  numbered = w.numbered;
  linked = w.linked;
  known = w.known;
}
learn-IsWellFormed self (name s) w = w

-- The links of stored grants survive the insertion under a fresh id.
IsLinked-insert :
    (grants : Dict Grant) (k : String) (new g : Grant) (o : Option String)
    → lookup k grants ≡ none
    → IsLinked grants g o
    → IsLinked (insert k new grants) g o
IsLinked-insert grants k new g none fresh h = tt
IsLinked-insert grants k new g (some p) fresh h =
    (h.0, ground (arith, lookup-insert p k new grants, h.1), h.2)

-- The grant that `store_grant` makes.
abbrev pub new_grant :
    DelegationGraph → String → String → Capability → ℕ → Terms → Option String → Grant
new_grant self grantor grantee source depth terms parent = record {
  id = "G-" <> pad4 self.next_id;
  from_actor = grantor;
  to_actor = grantee;
  capability = source;
  depth = depth;
  expires_at = terms.expires_at;
  parent_grant_id = parent;
  granting_rule_id = terms.granting_rule_id;
  identity_reference = terms.identity_reference;
}

number :
    (self : DelegationGraph)
    → IsWellFormed self
    → (j : String) (x : Grant) {g : Grant}
    → ((j ≡ "G-" <> pad4 self.next_id) × (x ≡ g)) ⊎ (lookup j self.grants ≡ some x)
    → (n : ℕ) × (n < suc self.next_id) × (j ≡ "G-" <> pad4 n)
number self w j x (inl (e, same)) = (self.next_id, omega arith, e)
number self w j x (inr old) = let (n, below, e) = w.numbered j x old in (n, omega arith, e)

pub store_grant-IsWellFormed :
    (self : DelegationGraph) (grantor grantee : String) (source : Capability) (depth : ℕ)
    (terms : Terms) (parent : Option String)
    → IsWellFormed self
    → IsLinked self.grants (new_grant self grantor grantee source depth terms parent) parent
    → IsWellFormed (store_grant self grantor grantee source depth terms parent).0
unfolding store_grant
store_grant-IsWellFormed self grantor grantee source depth terms parent w link =
    let k = "G-" <> pad4 self.next_id in
    let g = new_grant self grantor grantee source depth terms parent in
    record {
      named = insert-IsNamed (λ (x : Grant). x.id) g self.grants w.named;
      numbered = λ j x h. number self w j x (insert-cases j k g x self.grants h);
      linked = λ j x h. relink j x (insert-cases j k g x self.grants h);
      known = λ j h. ground (arith, lookup-insert j k g self.grants, w.known j h);
    }
  where
    relink :
        (j : String) (x : Grant)
        → ((j ≡ "G-" <> pad4 self.next_id)
            × (x ≡ new_grant self grantor grantee source depth terms parent))
          ⊎ (lookup j self.grants ≡ some x)
        → IsLinked
            (insert
              ("G-" <> pad4 self.next_id)
              (new_grant self grantor grantee source depth terms parent)
              self.grants)
            x
            x.parent_grant_id
    relink j x (inl (e, same)) =
        subst
          (λ y.
            IsLinked
              (insert ("G-" <> pad4 self.next_id)
                (new_grant self grantor grantee source depth terms parent) self.grants)
              y y.parent_grant_id)
          (sym same) (IsLinked-insert self.grants _ _ _ parent (next_id_fresh self w) link)
    relink j x (inr old) =
        IsLinked-insert self.grants _ _ x x.parent_grant_id (next_id_fresh self w)
          (w.linked j x old)

min_grant-In : (gs : List Grant) (g : Grant) → min_grant gs ≡ some g → In g gs
min_grant-In [] g h = absurd (cc)
min_grant-In (x ∷ xs) g h =
    subst (λ y. In y (x ∷ xs)) (some-injective _ _ h) (min_from-In (λ (y : Grant). y.id) x xs)

-- The grant that a search finds is stored, goes to the grantor and covers the scope.
pub source_grant-found :
    (self : DelegationGraph) (grantor : String) (source : Capability) (now : ℤ) (parent : Grant)
    → source_grant self grantor source now ≡ some parent
    → In parent (values self.grants)
      × (parent.to_actor ≡ grantor)
      × (is_descendant_of source parent.capability ≡ true)
      × (valid_grant self parent (at now) ≡ true)
unfolding source_grant
source_grant-found self grantor source now parent h =
    let usable = λ (g : Grant).
      (g.to_actor == grantor)
      && (ltb 0 g.depth && (is_descendant_of source g.capability && valid_grant self g (at now))) in
    let m = min_grant-In (keep usable (values self.grants)) parent h in
    let holds = keep-holds usable parent (values self.grants) m in
    (In-keep usable parent (values self.grants) m, ground arith, ground arith, ground arith)

pub choose_parent-IsLinked :
    (self : DelegationGraph) (grantor grantee : String) (source : Capability) (depth : ℕ)
    (terms : Terms) (now : ℤ) (parent : Option String)
    → IsWellFormed self
    → choose_parent self grantor source depth now ≡ ok parent
    → IsLinked self.grants (new_grant self grantor grantee source depth terms parent) parent
unfolding choose_parent choose_under extends
choose_parent-IsLinked self grantor grantee source depth terms now none w h = tt
choose_parent-IsLinked self grantor grantee source depth terms now (some p) w h =
    go (source_grant self grantor source now) refl
  where
    go :
        (o : Option Grant)
        → source_grant self grantor source now ≡ o
        → IsLinked self.grants (new_grant self grantor grantee source depth terms (some p)) (some p)
    go none e = absurd (ground arith)
    go (some parent) e =
        let (m, to, covered, valid) = source_grant-found self grantor source now parent e in
        (
          parent,
          ground (arith, IsNamed-values (λ (g : Grant). g.id) parent self.grants w.named m),
          ground arith,
        )

-- Every call of `grant` keeps the invariant, whether it succeeds or raises.
pub grant-IsWellFormed :
    (self : DelegationGraph) (grantor grantee : Party) (capability : Capability) (depth : ℤ)
    (terms : Terms) (now : ℤ)
    → IsWellFormed self
    → IsWellFormed (grant self grantor grantee capability depth terms now).0
unfolding grant grant_scoped grant_checked grant_under
grant-IsWellFormed self grantor grantee capability (negsuc depth) terms now w = w
grant-IsWellFormed self grantor grantee capability (pos depth) terms now w =
    scoped (check_scope capability (scope_or terms.scope capability))
  where
    learnt : DelegationGraph
    learnt = learn self grantor

    known : IsWellFormed learnt
    known = learn-IsWellFormed self grantor w

    under :
        (source : Capability) (r : Try (Option String))
        → choose_parent learnt (party_id grantor) source depth now ≡ r
        → IsWellFormed
            (grant_under learnt (party_id grantor) (party_id grantee) source depth terms now r).0
    under source (raise e) q = known
    under source (ok parent) q = elim (Bool-cases (in_past terms.expires_at now)) [
      | inl late ↦ rw late known
      | inr early ↦ rw early (
          store_grant-IsWellFormed learnt (party_id grantor) (party_id grantee) source depth terms
            parent known
            (choose_parent-IsLinked learnt (party_id grantor) (party_id grantee) source depth terms
              now parent known q))
    ]

    scoped :
        (r : Try Capability) → IsWellFormed (grant_scoped self grantor grantee depth terms now r).0
    scoped (raise e) = w
    scoped (ok source) =
        elim (Bool-cases (actor_reachable learnt (party_id grantee) (party_id grantor) now)) [
          | inl cycle ↦ rw cycle known
          | inr free ↦
              rw free (under source (choose_parent learnt (party_id grantor) source depth now) refl)
        ]

-- Every call of `revoke` keeps the invariant.
pub revoke-IsWellFormed :
    (self : DelegationGraph) (id : String) → IsWellFormed self → IsWellFormed (revoke self id).0
unfolding revoke
revoke-IsWellFormed self id w = elim (Bool-cases (is_some (lookup id self.grants))) [
  | inl there ↦ rw there (record {
    named = w.named;
    numbered = w.numbered;
    linked = w.linked;
    known = λ k h. ground (arith, contains-add k id self.revoked, w.known k);
  })
  | inr gone ↦ rw gone w
]
