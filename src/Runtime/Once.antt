-- ===== src/Runtime/Once.antt =====
-- governance/runtime.py: completed requests over sequences of invocations.
use computational_governance.Prelude.{
  String, ◌<>◌, ◌≡◌, refl, ap, ◌∙◌, Bool, true, false, ◌&&◌, not, Option, none, some, arith,
  contains, contains-add, Bool-cases, inl, inr,
}
use computational_governance.Errors.{Exception, message, Try, ok, raise}
use computational_governance.Json.{Json}
use computational_governance.Model.{Action, Context, Decision}
use computational_governance.Approval.{VerifiedIdentity}
use computational_governance.Interceptor.{is_shadow, Interceptor, InterceptionResult}
use computational_governance.Interceptor.Methods.{blocked, execute, record_governance_error}
use computational_governance.Interceptor.Records.{record_event-Keeps}
use computational_governance.Interceptor.Honest.{execute-IsHonest}
use computational_governance.Runtime.{ToolCall, to_action, RuntimeAdapter, class_name, Invocation}
use computational_governance.Runtime.Mediation.{invoke_mediated}
use computational_governance.Runtime.Invoke.{
  is_completed, error_recorded, error_result, settle, settled_invocation, executed_result, governed,
  identity_failed, identified, verified_with, invoke,
}

-- What every invocation does to the adapter.
pub record Settles {V : Type 0} (self : RuntimeAdapter) (id : Option String) (i : Invocation V)
    : Type 0 where
  pub same_mode : i.after.interceptor.mode ≡ self.interceptor.mode
  pub grown :
      (k : String)
      → contains self.completed_request_ids k ≡ true
      → contains i.after.completed_request_ids k ≡ true
  -- in enforce mode an executed request with an id is completed
  pub completes :
      is_shadow self.interceptor.mode ≡ false
      → (r : InterceptionResult V) → i.result ≡ ok r
      → r.executed ≡ true
      → (k : String) → id ≡ some k
      → contains i.after.completed_request_ids k ≡ true

record_governance_error-mode :
    (digest : Json → String) (self : Interceptor) (action : Action) (context : Context)
    (reason : String) (executed : Bool)
    → (record_governance_error digest self action context reason executed).0.mode ≡ self.mode
unfolding record_governance_error
record_governance_error-mode digest self action context reason executed =
    (record_event-Keeps digest self action context (blocked reason) (some executed)
      (some "Block")).same_mode

module _ (digest : Json → String) (V : Type 0) where
  settle-Settles :
      (self : RuntimeAdapter) (id : Option String) (ran : Bool) (result : InterceptionResult V)
      → Settles self id (settle digest self id ran result)
  settle-Settles self none ran result = record {
    same_mode = ground arith;
    grown = λ k h. ground arith;
    completes = λ e r h x k same. absurd (ground arith);
  }
  settle-Settles self (some id) ran result = record {
    same_mode = ground arith;
    grown = λ k h. ground (arith, contains-add k id self.completed_request_ids);
    completes = λ e r h x k same. ground (arith, contains-add k id self.completed_request_ids);
  }

  raised-Settles :
      (self after : RuntimeAdapter) (id : Option String) (ran : Bool) (problem : Exception)
      → after.interceptor.mode ≡ self.interceptor.mode
      → after.completed_request_ids ≡ self.completed_request_ids
      → Settles {V = V} self id (record { after = after; ran = ran; result = raise problem })
  raised-Settles self after id ran problem same kept = record {
    same_mode = same;
    grown = λ k h. ground arith;
    completes = λ e r h x k same. absurd (ground arith);
  }

  error_recorded-Settles :
      (self : RuntimeAdapter) (id request_id : Option String) (shadow : Bool) (operation : Try V)
      (p : Interceptor × Try Decision)
      → p.0.mode ≡ self.interceptor.mode
      → (is_shadow self.interceptor.mode ≡ false → shadow ≡ false)
      → Settles self id (error_recorded digest self request_id shadow operation p)
  error_recorded-Settles self id request_id shadow operation (i, raise problem) same closed =
      raised-Settles self (record self { interceptor = i }) id false problem same refl
  error_recorded-Settles self id request_id false operation (i, ok decision) same closed = record {
    same_mode = same;
    grown = λ k h. h;
    completes = λ e r h x k eq. absurd (ground arith);
  }
  error_recorded-Settles self id request_id true operation (i, ok decision) same closed = record {
    same_mode = same;
    grown = λ k h. h;
    completes = λ e r h x k eq. absurd (ground (arith, closed e));
  }

  settled_invocation-Settles :
      (self : RuntimeAdapter) (id : Option String) (i : Invocation V)
      → Settles self id i
      → Settles self id (settled_invocation digest id i.after i.ran i.result)
  settled_invocation-Settles self id i w = go i.result refl
    where
      go :
          (t : Try (InterceptionResult V))
          → i.result ≡ t
          → Settles self id (settled_invocation digest id i.after i.ran t)
      go (raise problem) e = record {
        same_mode = w.same_mode;
        grown = w.grown;
        completes = λ e r h x k eq. absurd (ground arith);
      }
      go (ok result) e =
          let s = settle-Settles i.after id i.ran result in
          record {
            same_mode = s.same_mode ∙ w.same_mode;
            grown = λ k h. s.grown k (w.grown k h);
            completes = λ e r h x k eq. s.completes (ap is_shadow w.same_mode ∙ e) r h x k eq;
          }

  executed_result-Settles :
      (self : RuntimeAdapter) (call : ToolCall) (action : Action) (context : Context)
      (operation : Try V) (ran : Bool) (result : Try (InterceptionResult V))
      → Settles self call.request_id
          (executed_result digest self call action context operation ran result)
  unfolding error_result
  executed_result-Settles self call action context operation ran (ok result) =
      settle-Settles self call.request_id ran result
  executed_result-Settles self call action context operation true (raise problem) =
      raised-Settles self self call.request_id true problem refl refl
  executed_result-Settles self call action context operation false (raise problem) =
      elim (Bool-cases (is_shadow self.interceptor.mode && self.raise_in_shadow)) [
        | inl again ↦ rw again (raised-Settles self self call.request_id false problem refl refl)
        | inr recorded ↦ rw recorded (
            settled_invocation-Settles self call.request_id _ (
              error_recorded-Settles self call.request_id call.request_id
                (is_shadow self.interceptor.mode) operation
                (record_governance_error digest self.interceptor action context _ _)
                (record_governance_error-mode digest self.interceptor action context _ _) (λ e. e)))
      ]

  governed-Settles :
      (self : RuntimeAdapter) (call : ToolCall) (context : Context) (operation : Try V)
      (t : Try Action)
      → Settles self call.request_id (governed digest self call context operation t)
  unfolding governed
  governed-Settles self call context operation (raise problem) =
      raised-Settles self self call.request_id false problem refl refl
  governed-Settles self call context operation (ok action) =
      let o = execute digest self.interceptor action context operation in
      let kept = (execute-IsHonest digest V self.interceptor action context operation).same_mode in
      let s =
        executed_result-Settles (record self { interceptor = o.after }) call action context
          operation o.ran o.result in
      record {
        same_mode = s.same_mode ∙ kept;
        grown = s.grown;
        completes = λ e r h x k eq. s.completes (ap is_shadow kept ∙ e) r h x k eq;
      }

  identified-Settles :
      (self : RuntimeAdapter) (call : ToolCall) (context : Context) (operation : Try V)
      (t : Try (Option VerifiedIdentity))
      → Settles self call.request_id (identified digest self call context operation t)
  identified-Settles self call context operation (ok identity) =
      governed-Settles self call context operation (to_action digest call identity)
  identified-Settles self call context operation (raise error) = go (to_action digest call none)
    where
      go :
          (t : Try Action)
          → Settles self call.request_id (identity_failed digest {V = V} self context error t)
      go (raise problem) = raised-Settles self self call.request_id false problem refl refl
      go (ok action) =
          error_recorded-Settles self call.request_id none false (raise error)
            (record_governance_error digest self.interceptor action context
              ("identity verification failed: " <> class_name error <> ": " <> message error) false)
            (record_governance_error-mode digest self.interceptor action context
              ("identity verification failed: " <> class_name error <> ": " <> message error) false)
            (λ e. refl)

  invoke-Settles :
      (self : RuntimeAdapter) (call : ToolCall) (context : Context) (operation : Try V)
      → Settles self call.request_id (invoke digest self call context operation)
  unfolding invoke
  invoke-Settles self call context operation =
      elim (Bool-cases (
        not (is_shadow self.interceptor.mode)
        && is_completed self.completed_request_ids call.request_id)) [
          | inl again ↦ rw again (record {
            same_mode = refl;
            grown = λ k h. h;
            completes = λ e r h x k eq. absurd (ground arith);
          })
          | inr new ↦ rw new (
              identified-Settles self call context operation
                (verified_with digest self.identity_verifier call context))
        ]

-- Invocations of an adapter, one after the other.
pub data Invocations (digest : Json → String) (V : Type 0)
    : RuntimeAdapter → RuntimeAdapter → Type 0 where
  none_yet : {self : RuntimeAdapter} → Invocations digest V self self
  invoked :
      {self last : RuntimeAdapter} (call : ToolCall) (context : Context) (operation : Try V)
      → Invocations digest V (invoke digest self call context operation).after last
      → Invocations digest V self last

-- The mode stays, and completed requests stay completed.
completed_stays :
    {digest : Json → String} {V : Type 0} {self last : RuntimeAdapter} (k : String)
    → Invocations digest V self last
    → contains self.completed_request_ids k ≡ true
    → (last.interceptor.mode ≡ self.interceptor.mode)
      × (contains last.completed_request_ids k ≡ true)
completed_stays k none_yet h = (refl, h)
completed_stays {digest} {V} {self} k (invoked call context operation rest) h =
    let s = invoke-Settles digest V self call context operation in
    let (same, there) = completed_stays k rest (s.grown k h) in (same ∙ s.same_mode, there)

-- In enforce mode, after `invoke` has returned an executed result for a request id, no later
-- invocation for that id starts its operation, whatever is invoked in between.
pub invoke_once :
    (digest : Json → String) (V : Type 0) (self later : RuntimeAdapter) (call again : ToolCall)
    (context context2 : Context) (operation operation2 : Try V) (r : InterceptionResult V)
    (id : String)
    → is_shadow self.interceptor.mode ≡ false
    → call.request_id ≡ some id
    → again.request_id ≡ some id
    → (invoke digest self call context operation).result ≡ ok r
    → r.executed ≡ true
    → Invocations digest V (invoke digest self call context operation).after later
    → (invoke digest later again context2 operation2).ran ≡ false
invoke_once digest V self later call again context context2 operation operation2 r id e named named2
      returned executed calls =
    let s = invoke-Settles digest V self call context operation in
    let (same, there) = completed_stays id calls (s.completes e r returned executed id named) in
    elim (Bool-cases (invoke digest later again context2 operation2).ran) [
      | inr still ↦ still
      | inl ran ↦
          let fresh =
            (invoke_mediated digest V later again context2 operation2
              (ap is_shadow (same ∙ s.same_mode) ∙ e) ran).0 in
          absurd (ground arith)
    ]
