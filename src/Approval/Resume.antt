-- ===== src/Approval/Resume.antt =====
-- What a resumed approval guarantees, over all sequences of calls.
use mathlib.Core.Path.{subst}
use computational_governance.Prelude.{
  ◌≤◌, String, ℤ, ◌≡◌, refl, sym, true, false, Option, none, some, arith, lookup, insert,
  lookup-insert_self, distinct, subset, length, le_int,
}
use computational_governance.Errors.{Try, ok, raise, Returns}
use computational_governance.Json.{Json}
use computational_governance.Model.{Action, Context}
use computational_governance.Compiler.{CompiledPolicy}
use computational_governance.Delegation.{DelegationGraph}
use computational_governance.Approval.{ApprovalRequest, ApprovalManager}
use computational_governance.Approval.Manager.{
  is_approved, default_to, expire_due, store, found, get, changed, finish, with_request,
}
use computational_governance.Approval.Requests.{consume, prepare_resume}
use computational_governance.Approval.Lifecycle.{
  IsSound, is_closed, expire_due_closed, expire_due-IsValid,
}
use computational_governance.Approval.Bodies.{IsBound, consume-ok}
use computational_governance.Approval.Steps.{Step, Steps, done, next, step-IsSound, step_closed}

-- A method that returns has read a stored request, and has stored what its body returned.
with_request-ok :
    (self : ApprovalManager) (id : String) (now : Option ℤ)
    (body : ApprovalRequest → Try ApprovalRequest) (after : ApprovalRequest)
    → (with_request self id now body).1 ≡ ok after
    → (r : ApprovalRequest) × (lookup id self.requests ≡ some r)
      × (body (expire_due now r) ≡ ok after)
      × (lookup id (with_request self id now body).0.requests ≡ some after)
unfolding with_request get found changed finish
with_request-ok self id now body after h = go (lookup id self.requests) refl h
  where
    written :
        (r : ApprovalRequest) (t : Try ApprovalRequest)
        → (finish (store id r self) id t).1 ≡ ok after
        → (t ≡ ok after) × (lookup id (finish (store id r self) id t).0.requests ≡ some after)
    written r (raise problem) e = absurd (ground arith)
    written r (ok other) e =
        (e, ground (arith, lookup-insert_self id other (insert id r self.requests)))

    go :
        (o : Option ApprovalRequest)
        → lookup id self.requests ≡ o
        → (changed id body (found self id now o)).1 ≡ ok after
        → (r : ApprovalRequest) × (o ≡ some r)
          × (body (expire_due now r) ≡ ok after)
          × (lookup id (changed id body (found self id now o)).0.requests ≡ some after)
    go none same e = absurd (ground arith)
    go (some r) same e =
        let (ran, there) = written (expire_due now r) (body (expire_due now r)) e in
        (r, refl, ran, there)

-- Every sequence of calls, returning or raising, with decisions from their constructor, keeps the
-- invariant of the manager: valid requests under ids whose numbers were handed out.
pub steps-IsSound :
    {digest : Json → String} {self last : ApprovalManager}
    → Steps digest self last
    → IsSound self
    → IsSound last
steps-IsSound done w = w
steps-IsSound {digest} (next step rest) w = steps-IsSound rest (step-IsSound digest step w)

-- In a manager in which the invariant holds, a denied, expired or consumed request stays exactly as
-- it is in every sequence of calls.
pub steps_closed :
    {digest : Json → String} {self last : ApprovalManager} (k : String) (r : ApprovalRequest)
    → Steps digest self last
    → IsSound self
    → lookup k self.requests ≡ some r
    → is_closed r ≡ true
    → lookup k last.requests ≡ some r
steps_closed k r done w stored closed = stored
steps_closed {digest} k r (next step rest) w stored closed =
    steps_closed k r rest (step-IsSound digest step w) (step_closed digest k r step w stored closed)
      closed

-- A consumed request cannot be resumed.
consumed_stays_shut :
    (digest : Json → String) (self : ApprovalManager) (id : String) (policy : CompiledPolicy)
    (action : Action) (context : Context) (delegation : Option DelegationGraph) (now : Option ℤ)
    (r : ApprovalRequest)
    → lookup id self.requests ≡ some r
    → r.consumed ≡ true
    → ¬ Returns (prepare_resume digest self id policy action context delegation now).1
unfolding prepare_resume
consumed_stays_shut digest self id policy action context delegation now r stored used (after, h) =
    let (s, there, ran, written) =
      with_request-ok self id now (consume digest policy action context delegation) after h in
    let (agreed, unused, bound, same) =
      consume-ok digest policy action context delegation (expire_due now s) after ran in
    ground (arith, expire_due_closed now r)

-- An approval is used once: after `prepare_resume` returned, of a manager in which the invariant
-- holds, no call of `prepare_resume` for the
-- same request returns, whatever calls are made between them and with whatever arguments.
pub resumed_once :
    (digest : Json → String) (self last : ApprovalManager) (id : String) (policy : CompiledPolicy)
    (action : Action) (context : Context) (delegation : Option DelegationGraph) (now : Option ℤ)
    (r : ApprovalRequest) (policy2 : CompiledPolicy) (action2 : Action) (context2 : Context)
    (delegation2 : Option DelegationGraph) (now2 : Option ℤ)
    → IsSound self
    → (prepare_resume digest self id policy action context delegation now).1 ≡ ok r
    → Steps digest (prepare_resume digest self id policy action context delegation now).0 last
    → ¬ Returns (prepare_resume digest last id policy2 action2 context2 delegation2 now2).1
unfolding prepare_resume
resumed_once digest self last id policy action context delegation now r policy2 action2 context2
      delegation2 now2 w h calls =
    let (s, there, ran, written) =
      with_request-ok self id now (consume digest policy action context delegation) r h in
    let (agreed, unused, bound, same) =
      consume-ok digest policy action context delegation (expire_due now s) r ran in
    consumed_stays_shut digest last id policy2 action2 context2 delegation2 now2 r
      (steps_closed id r calls
        (step-IsSound digest (Step.resumed id policy action context delegation now) w) written
        (ground arith))
      (ground arith)

-- A request that is approved and unused after a look at the clock has not expired.
approved_unexpired :
    (now : Option ℤ) (s : ApprovalRequest)
    → is_approved (expire_due now s).state ≡ true
    → (expire_due now s).consumed ≡ false
    → le_int (expire_due now s).expires_at (default_to (expire_due now s).created_at now) ≡ false
unfolding expire_due
approved_unexpired now s agreed unused = ground arith

-- When `prepare_resume` of a manager in which the invariant holds returns a request, the stored
-- fingerprints of the request are those of this policy, action, context and delegation, enough
-- distinct required roles have voted for it, and it has not expired at the moment of the call.
pub resumed_rightly :
    (digest : Json → String) (self : ApprovalManager) (id : String) (policy : CompiledPolicy)
    (action : Action) (context : Context) (delegation : Option DelegationGraph) (now : Option ℤ)
    (r : ApprovalRequest)
    → IsSound self
    → (prepare_resume digest self id policy action context delegation now).1 ≡ ok r
    → IsBound digest r policy action context delegation
      × (r.threshold ≤ length r.votes)
      × (distinct r.votes ≡ true)
      × (subset r.votes r.required_roles ≡ true)
      × (le_int r.expires_at (default_to r.created_at now) ≡ false)
unfolding prepare_resume
resumed_rightly digest self id policy action context delegation now r w h =
    let (s, there, ran, written) =
      with_request-ok self id now (consume digest policy action context delegation) r h in
    let (agreed, unused, bound, same) =
      consume-ok digest policy action context delegation (expire_due now s) r ran in
    let valid = expire_due-IsValid now s (w.valid id s there) in
    subst
      (λ (x : ApprovalRequest).
        IsBound digest x policy action context delegation
        × (x.threshold ≤ length x.votes)
        × (distinct x.votes ≡ true)
        × (subset x.votes x.required_roles ≡ true)
        × (le_int x.expires_at (default_to x.created_at now) ≡ false))
      (sym same)
      (
        record {
          same_action = bound.same_action;
          same_context = bound.same_context;
          same_policy = bound.same_policy;
          same_state = bound.same_state;
        },
        valid.agreed agreed,
        valid.votes_distinct,
        valid.votes_required,
        approved_unexpired now s agreed unused,
      )
