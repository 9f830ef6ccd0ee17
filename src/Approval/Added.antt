-- ===== src/Approval/Added.antt =====
-- A call of `request`: the invariant, and the requests that were there.
use mathlib.Core.Path.{subst}
use computational_governance.Prelude.{
  suc, String, ℤ, ◌≡◌, refl, sym, ap, ◌∙◌, inl, inr, ◌⊎◌, Bool, true, false, Option, none, some,
  arith, ◌==◌, ◌<>◌, lookup, lookup-insert, insert-cases, not, ◌||◌, ◌&&◌, is_some, le_int, pos,
  if◌then◌else◌,
}
use computational_governance.Decimal.{pad4}
use computational_governance.Decimal.Injective.{prefixed-injective}
use computational_governance.Errors.{Try, ok}
use computational_governance.Json.{Json}
use computational_governance.Model.{Action, Context, Decision, make_decision, is_escalate}
use computational_governance.Compiler.{CompiledPolicy}
use computational_governance.Delegation.{DelegationGraph}
use computational_governance.Approval.{ApprovalRequest, ApprovalManager}
use computational_governance.Approval.Manager.{default_to, store}
use computational_governance.Approval.Requests.{new_request, request_for, request}
use computational_governance.Approval.Lifecycle.{IsValid, IsSound}
use computational_governance.Approval.Bodies.{new_request-IsValid}

abbrev manager_of : ApprovalManager × Try ApprovalRequest → ApprovalManager
manager_of result = result.0

-- Three guards before a call that changes the manager.
guarded :
    (self after : ApprovalManager) (e f g r : Try ApprovalRequest) (a b c : Bool)
    → (manager_of
          (if a then (self, e) else if b then (self, f) else if c then (self, g) else (after, r))
        ≡ self)
      ⊎ (manager_of
            (if a then (self, e) else if b then (self, f) else if c then (self, g) else (after, r))
          ≡ after)
guarded self after e f g r true b c = inl refl
guarded self after e f g r false true c = inl refl
guarded self after e f g r false false true = inl refl
guarded self after e f g r false false false = inr refl

-- A request under the next id: the invariant is kept, and so is every request.
abbrev add_request : ApprovalManager → ApprovalRequest → ApprovalManager
add_request self fresh =
    store ((self.request_prefix <> "-") <> pad4 self.next_id) fresh
      (record self { next_id = suc self.next_id })

added_keeps :
    (self : ApprovalManager) (fresh : ApprovalRequest) (k : String) (r : ApprovalRequest)
    → IsSound self
    → lookup k self.requests ≡ some r
    → lookup k (add_request self fresh).requests ≡ some r
added_keeps self fresh k r w stored =
    let (n, below, name) = w.numbered k r stored in
    ground (
      arith,
      lookup-insert k ((self.request_prefix <> "-") <> pad4 self.next_id) fresh self.requests,
      prefixed-injective (self.request_prefix <> "-") self.next_id n,
    )

added-IsSound :
    (self : ApprovalManager) (fresh : ApprovalRequest)
    → IsValid fresh
    → IsSound self
    → IsSound (add_request self fresh)
added-IsSound self fresh good w = record {
  valid = λ k r h.
      elim (insert-cases k ((self.request_prefix <> "-") <> pad4 self.next_id) fresh r self.requests
        h) [ inl (same, e) ↦ subst IsValid (sym e) good | inr old ↦ w.valid k r old ];
  numbered = λ k r h.
      elim (insert-cases k ((self.request_prefix <> "-") <> pad4 self.next_id) fresh r self.requests
        h) [
          | inl (same, e) ↦ (self.next_id, omega arith, same)
          | inr old ↦ let (n, below, name) = w.numbered k r old in (n, omega arith, name)
        ];
}

module _ (digest : Json → String) where
  -- A call of `request` leaves the manager as it is, or adds a request under a new id.
  added_cases :
      (self : ApprovalManager) (decision : Decision) (policy : CompiledPolicy) (action : Action)
      (context : Context) (delegation : Option DelegationGraph) (now ttl : Option ℤ)
      → ((request digest self decision policy action context delegation now ttl).0 ≡ self)
        ⊎ ((role : String) × (at : ℤ) × (ttl_used : ℤ) × ((request digest self decision policy
                action context delegation now ttl).0
              ≡ store
                  ((self.request_prefix <> "-") <> pad4 self.next_id)
                  (new_request digest self decision role policy action context delegation at
                    ttl_used)
                  (record self { next_id = suc self.next_id })))
  unfolding request request_for new_request
  added_cases self decision policy action context delegation now ttl = go decision.role
    where
      go :
          (o : Option String)
          → ((request_for digest self decision o policy action context delegation now ttl).0 ≡ self)
            ⊎ ((role : String) × (at : ℤ) × (ttl_used : ℤ) × ((request_for digest self decision o
                    policy action context delegation now ttl).0
                  ≡ store
                      ((self.request_prefix <> "-") <> pad4 self.next_id)
                      (new_request digest self decision role policy action context delegation at
                        ttl_used)
                      (record self { next_id = suc self.next_id })))
      go none = inl refl
      go (some role) =
          elim (guarded self _ _ _ _ _ (not (is_escalate decision.kind) || role == "")
            (self.require_identity && not (is_some action.identity_reference))
            (le_int (default_to self.ttl ttl) (pos 0))) [
              | inl same ↦ inl same
              | inr same ↦ inr (role, default_to context.now now, default_to self.ttl ttl, same)
            ]

  pub request-IsSound :
      (self : ApprovalManager) (decision : Decision) (policy : CompiledPolicy) (action : Action)
      (context : Context) (delegation : Option DelegationGraph) (now ttl : Option ℤ)
      → make_decision decision ≡ ok decision
      → IsSound self
      → IsSound (request digest self decision policy action context delegation now ttl).0
  request-IsSound self decision policy action context delegation now ttl good w =
      elim (added_cases self decision policy action context delegation now ttl) [
        | inl same ↦ subst IsSound (sym same) w
        | inr (role, created_at, ttl_used, same) ↦ subst IsSound (sym same) (
            added-IsSound self
              (new_request digest self decision role policy action context delegation created_at
                ttl_used)
              (new_request-IsValid digest self decision role policy action context delegation
                created_at ttl_used good)
              w)
      ]

  pub request_closed :
      (self : ApprovalManager) (decision : Decision) (policy : CompiledPolicy) (action : Action)
      (context : Context) (delegation : Option DelegationGraph) (now ttl : Option ℤ) (k : String)
      (r : ApprovalRequest)
      → IsSound self
      → lookup k self.requests ≡ some r
      → lookup k (request digest self decision policy action context delegation now ttl).0.requests
        ≡ some r
  request_closed self decision policy action context delegation now ttl k r w stored =
      elim (added_cases self decision policy action context delegation now ttl) [
        | inl same ↦ ap (λ (m : ApprovalManager). lookup k m.requests) same ∙ stored
        | inr (role, created_at, ttl_used, same) ↦
            ap (λ (m : ApprovalManager). lookup k m.requests) same
            ∙ added_keeps self
                (new_request digest self decision role policy action context delegation created_at
                  ttl_used)
                k r w stored
      ]
