-- ===== src/Approval/Steps.antt =====
-- governance/approval.py: sequences of calls of an `ApprovalManager`.
use mathlib.Core.Path.{subst}
use computational_governance.Prelude.{
  String, ℤ, ◌≡◌, refl, sym, ap, ◌∙◌, true, Option, none, some, arith, lookup,
}
use computational_governance.Errors.{ok, raise, recursion_error}
use computational_governance.Json.{Json}
use computational_governance.Model.{Action, Context, Decision, make_decision}
use computational_governance.Compiler.{CompiledPolicy}
use computational_governance.Delegation.{DelegationGraph}
use computational_governance.Approval.{ApprovalRequest, ApprovalManager, VerifiedIdentity}
use computational_governance.Approval.Manager.{found, get, changed, finish, with_request}
use computational_governance.Approval.Requests.{request, approve, deny, prepare_resume}
use computational_governance.Approval.Lifecycle.{is_closed, IsSound, with_request-IsSound}
use computational_governance.Approval.Added.{request-IsSound, request_closed}
use computational_governance.Approval.Closed.{with_request_closed}
use computational_governance.Approval.Bodies.{
  vote-ok, veto-ok, consume-ok, vote-IsValid, veto-IsValid, consume-IsValid,
}

-- One call of a public method, whether it returns or raises. A decision comes from its constructor.
pub data Step (digest : Json → String) : ApprovalManager → ApprovalManager → Type 0 where
  requested :
      {self : ApprovalManager} (decision : Decision) (policy : CompiledPolicy) (action : Action)
      (context : Context) (delegation : Option DelegationGraph) (now ttl : Option ℤ)
      → make_decision decision ≡ ok decision
      → Step digest self (request digest self decision policy action context delegation now ttl).0
  read :
      {self : ApprovalManager} (id : String) (now : Option ℤ) → Step digest self (get self id now).0
  voted :
      {self : ApprovalManager} (id role : String) (policy : CompiledPolicy) (action : Action)
      (context : Context) (delegation : Option DelegationGraph) (now : Option ℤ)
      (identity : Option VerifiedIdentity)
      → Step digest self
          (approve digest self id role policy action context delegation now identity).0
  refused :
      {self : ApprovalManager} (id role : String) (now : Option ℤ)
      (identity : Option VerifiedIdentity)
      → Step digest self (deny digest self id role now identity).0
  resumed :
      {self : ApprovalManager} (id : String) (policy : CompiledPolicy) (action : Action)
      (context : Context) (delegation : Option DelegationGraph) (now : Option ℤ)
      → Step digest self (prepare_resume digest self id policy action context delegation now).0

-- Calls one after the other.
pub data Steps (digest : Json → String) : ApprovalManager → ApprovalManager → Type 0 where
  done : {self : ApprovalManager} → Steps digest self self
  next :
      {self middle last : ApprovalManager}
      → Step digest self middle
      → Steps digest middle last
      → Steps digest self last

-- Reading is a method whose body changes nothing.
get-with_request :
    (self : ApprovalManager) (id : String) (now : Option ℤ)
    → (get self id now).0 ≡ (with_request self id now (λ r. raise recursion_error)).0
unfolding get with_request found changed finish
get-with_request self id now = go (lookup id self.requests)
  where
    go :
        (o : Option ApprovalRequest)
        → (found self id now o).0
          ≡ (changed id (λ r. raise recursion_error) (found self id now o)).0
    go none = refl
    go (some r) = refl

module _ (digest : Json → String) where
  -- The invariant holds after every call, whatever it returns or raises.
  pub step-IsSound :
      {self after : ApprovalManager} → Step digest self after → IsSound self → IsSound after
  unfolding approve deny prepare_resume
  step-IsSound (requested decision policy action context delegation now ttl good) w =
      request-IsSound digest _ decision policy action context delegation now ttl good w
  step-IsSound (read id now) w = subst IsSound (sym (get-with_request _ id now)) (
      with_request-IsSound _ id now (λ r. raise recursion_error)
        (λ r after h. absurd (ground arith)) w)
  step-IsSound (voted {self = self} id role policy action context delegation now identity) w =
      with_request-IsSound _ id now _
        (vote-IsValid digest self role policy action context delegation now identity) w
  step-IsSound (refused {self = self} id role now identity) w =
      with_request-IsSound _ id now _ (veto-IsValid digest self role now identity) w
  step-IsSound (resumed id policy action context delegation now) w =
      with_request-IsSound _ id now _ (consume-IsValid digest policy action context delegation) w

  -- A denied, expired or consumed request stays as it is.
  pub step_closed :
      {self after : ApprovalManager} (k : String) (r : ApprovalRequest)
      → Step digest self after
      → IsSound self
      → lookup k self.requests ≡ some r
      → is_closed r ≡ true
      → lookup k after.requests ≡ some r
  unfolding approve deny prepare_resume
  step_closed k r (requested decision policy action context delegation now ttl good) w stored
        closed =
      request_closed digest _ decision policy action context delegation now ttl k r w stored
  step_closed k r (read id now) w stored closed =
      ap (λ (m : ApprovalManager). lookup k m.requests) (get-with_request _ id now)
      ∙ with_request_closed _ id now (λ s. raise recursion_error) k r
          (λ s after good h. absurd (ground arith)) w stored closed
  step_closed k r (voted {self = self} id role policy action context delegation now identity) w
        stored closed =
      with_request_closed _ id now _ k r
        (λ s after good h.
          let (reference, waits, required, new, same) =
            vote-ok digest self role policy action context delegation now identity s after h in
          ground (arith, good.used))
        w stored closed
  step_closed k r (refused {self = self} id role now identity) w stored closed =
      with_request_closed _ id now _ k r
        (λ s after good h.
          let (reference, waits, same) = veto-ok digest self role now identity s after h in
          ground (arith, good.used))
        w stored closed
  step_closed k r (resumed id policy action context delegation now) w stored closed =
      with_request_closed _ id now _ k r
        (λ s after good h.
          let (agreed, unused, bound, same) =
            consume-ok digest policy action context delegation s after h in
          ground arith)
        w stored closed
