-- ===== src/Runtime/Mediation.antt =====
-- The tool boundary: what has happened before an operation is started.
use computational_governance.Prelude.{
  String, ◌<>◌, ◌≡◌, refl, sym, ap, ◌∙◌, Bool, true, false, Option, none, arith, Bool-cases, inl,
  inr,
}
use computational_governance.Errors.{Exception, message, Try, ok, raise}
use computational_governance.Json.{Json}
use computational_governance.Model.{Action, Context, Decision}
use computational_governance.Approval.{VerifiedIdentity}
use computational_governance.Interceptor.{is_shadow, Interceptor, InterceptionResult}
use computational_governance.Interceptor.Methods.{evaluate, execute, record_governance_error}
use computational_governance.Interceptor.Enforcement.{Permits, execute_permitted}
use computational_governance.Interceptor.Honest.{execute-IsHonest}
use computational_governance.Runtime.{ToolCall, to_action, RuntimeAdapter, class_name, Invocation}
use computational_governance.Runtime.Invoke.{
  is_completed, error_recorded, error_result, settle, settled_invocation, executed_result, governed,
  identity_failed, identified, verified_with, invoke,
}

module _ (digest : Json → String) (V : Type 0) where
  settle-ran :
      (self : RuntimeAdapter) (id : Option String) (ran : Bool) (result : InterceptionResult V)
      → (settle digest self id ran result).ran ≡ ran
  settle-ran self id ran result = ground arith

  settled_invocation-ran :
      (id : Option String) (self : RuntimeAdapter) (ran : Bool)
      (result : Try (InterceptionResult V))
      → (settled_invocation digest id self ran result).ran ≡ ran
  settled_invocation-ran id self ran (raise problem) = refl
  settled_invocation-ran id self ran (ok result) = settle-ran self id ran result

  error_recorded-still :
      (self : RuntimeAdapter) (id : Option String) (operation : Try V)
      (p : Interceptor × Try Decision)
      → (error_recorded digest self id false operation p).ran ≡ false
  error_recorded-still self id operation (i, raise problem) = refl
  error_recorded-still self id operation (i, ok decision) = refl

  -- After `execute`, an adapter in enforce mode starts nothing more.
  executed_result-ran :
      (self : RuntimeAdapter) (call : ToolCall) (action : Action) (context : Context)
      (operation : Try V) (ran : Bool) (result : Try (InterceptionResult V))
      → is_shadow self.interceptor.mode ≡ false
      → (executed_result digest self call action context operation ran result).ran ≡ true
      → ran ≡ true
  unfolding error_result
  executed_result-ran self call action context operation true result e h = refl
  executed_result-ran self call action context operation false (ok result) e h =
      sym (settle-ran self call.request_id false result) ∙ h
  executed_result-ran self call action context operation false (raise problem) e h =
      let failed =
        error_result digest self action context problem false operation call.request_id in
      let same : executed_result digest self call action context operation false (raise problem)
          ≡ settled_invocation digest call.request_id failed.after failed.ran failed.result =
        rw e refl in
      let still : failed.ran ≡ false = error_recorded-still self call.request_id operation (
        record_governance_error digest self.interceptor action context
          ("governance error: " <> class_name problem <> ": " <> message problem) false) in
      sym (settled_invocation-ran call.request_id failed.after failed.ran failed.result ∙ still)
      ∙ sym (ap (λ (i : Invocation V). i.ran) same)
      ∙ h

  governed-ran :
      (self : RuntimeAdapter) (call : ToolCall) (context : Context) (operation : Try V)
      (t : Try Action)
      → is_shadow self.interceptor.mode ≡ false
      → (governed digest self call context operation t).ran ≡ true
      → (action : Action) × (d : Decision) × (t ≡ ok action)
        × (evaluate self.interceptor action context ≡ ok d)
        × Permits self.interceptor action d
  unfolding governed
  governed-ran self call context operation (raise problem) e h = absurd (ground arith)
  governed-ran self call context operation (ok action) e h =
      let o = execute digest self.interceptor action context operation in
      let honest = execute-IsHonest digest V self.interceptor action context operation in
      let started : o.ran ≡ true =
        executed_result-ran (record self { interceptor = o.after }) call action context operation
          o.ran o.result (ap is_shadow honest.same_mode ∙ e) h in
      let (d, evaluated, permitted, written) =
        execute_permitted digest V self.interceptor action context operation e started in
      (action, d, refl, evaluated, permitted)

  -- An identity failure starts nothing, in either mode.
  identity_failed-still :
      (self : RuntimeAdapter) (context : Context) (error : Exception) (t : Try Action)
      → (identity_failed digest {V = V} self context error t).ran ≡ false
  identity_failed-still self context error (raise problem) = refl
  identity_failed-still self context error (ok action) =
      error_recorded-still self none (raise error) (
        record_governance_error digest self.interceptor action context
          ("identity verification failed: " <> class_name error <> ": " <> message error) false)

  identified-ran :
      (self : RuntimeAdapter) (call : ToolCall) (context : Context) (operation : Try V)
      (t : Try (Option VerifiedIdentity))
      → is_shadow self.interceptor.mode ≡ false
      → (identified digest self call context operation t).ran ≡ true
      → (identity : Option VerifiedIdentity) × (action : Action) × (d : Decision) × (t
          ≡ ok identity)
        × (to_action digest call identity ≡ ok action)
        × (evaluate self.interceptor action context ≡ ok d)
        × Permits self.interceptor action d
  identified-ran self call context operation (raise error) e h =
      absurd (ground (arith, identity_failed-still self context error (to_action digest call none)))
  identified-ran self call context operation (ok identity) e h =
      let (action, d, made, evaluated, permitted) =
        governed-ran self call context operation (to_action digest call identity) e h in
      (identity, action, d, refl, made, evaluated, permitted)

  -- Complete mediation: in enforce mode `invoke` starts an operation only if the request has not been
  -- completed, the caller's identity was verified where a verifier is configured, the action was made
  -- with that identity, and the policy allows it or escalates it and the approval handler approves.
  pub invoke_mediated :
      (self : RuntimeAdapter) (call : ToolCall) (context : Context) (operation : Try V)
      → is_shadow self.interceptor.mode ≡ false
      → (invoke digest self call context operation).ran ≡ true
      → (is_completed self.completed_request_ids call.request_id ≡ false)
        × (identity : Option VerifiedIdentity) × (action : Action) × (d : Decision) × (verified_with
              digest self.identity_verifier call context
            ≡ ok identity)
        × (to_action digest call identity ≡ ok action)
        × (evaluate self.interceptor action context ≡ ok d)
        × Permits self.interceptor action d
  unfolding invoke
  invoke_mediated self call context operation e h =
      elim (Bool-cases (is_completed self.completed_request_ids call.request_id)) [
        | inl again ↦ absurd (ground (arith))
        | inr fresh ↦
            let same : invoke digest self call context operation
                ≡ identified digest self call context operation
                    (verified_with digest self.identity_verifier call context) =
              rw e (rw fresh refl) in
            let (identity, action, d, verified, made, evaluated, permitted) =
              identified-ran self call context operation
                (verified_with digest self.identity_verifier call context) e
                (sym (ap (λ (i : Invocation V). i.ran) same) ∙ h) in
            (fresh, identity, action, d, verified, made, evaluated, permitted)
      ]

  -- When a verifier is configured and refuses the credential, `invoke` does not start the operation,
  -- in shadow mode neither.
  pub invoke_unverified :
      (self : RuntimeAdapter) (call : ToolCall) (context : Context) (operation : Try V)
      (error : Exception)
      → verified_with digest self.identity_verifier call context ≡ raise error
      → (invoke digest self call context operation).ran ≡ false
  unfolding invoke
  invoke_unverified self call context operation error refused = ground (
    arith,
    identity_failed-still self context error (to_action digest call none),
    ap
        (λ (t : Try (Option VerifiedIdentity)).
          (identified digest self call context operation t).ran)
        refused,
  )
