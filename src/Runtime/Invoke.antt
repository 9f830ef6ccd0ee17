-- ===== src/Runtime/Invoke.antt =====
-- governance/runtime.py: `RuntimeAdapter.invoke`.
use computational_governance.Prelude.{
  String, Bool, true, false, ◌&&◌, not, Option, none, some, List, if◌then◌else◌, ◌<>◌, contains,
  add,
}
use computational_governance.Errors.{
  Exception, message, runtime_adapter_error, Try, ok, raise, ◌>>=◌,
}
use computational_governance.Json.{Json}
use computational_governance.Model.{Action, Context, Decision, is_allow}
use computational_governance.Approval.{VerifiedIdentity}
use computational_governance.Approval.Verifier.{IdentityVerifier, verify}
use computational_governance.Interceptor.{is_shadow, Interceptor, InterceptionResult}
use computational_governance.Interceptor.Methods.{blocked, execute, record_governance_error}
use computational_governance.Runtime.{ToolCall, to_action, RuntimeAdapter, class_name, Invocation}

abbrev pub is_completed : List String → Option String → Bool
is_completed ids none = false
is_completed ids (some id) = contains ids id

-- `_completed_request_ids.add(call.request_id)`, where there is one.
abbrev pub complete : RuntimeAdapter → Option String → RuntimeAdapter
complete self none = self
complete self (some id) = record self { completed_request_ids = add id self.completed_request_ids }

-- The caller's identity, where a verifier is configured.
abbrev pub verified_with :
    (Json → String) → Option IdentityVerifier → ToolCall → Context → Try (Option VerifiedIdentity)
verified_with digest none call context = ok none
verified_with digest (some verifier) call context =
    verify digest verifier call.credential (some call.actor.id) context.now >>= λ identity.
    ok (some identity)

module _ (digest : Json → String) {V : Type 0} where
  abbrev pub fail : RuntimeAdapter → Exception → Invocation V
  fail self problem = record { after = self; ran = false; result = raise problem }

  abbrev pub not_executed : Decision → Try (InterceptionResult V)
  not_executed decision = ok (record {
    decision = decision;
    executed = false;
    value = none;
    initial_decision = some decision;
    approval_request_id = none;
  })

  -- A governance error was recorded: a shadow adapter runs the operation, any other does not.
  abbrev pub error_recorded :
      RuntimeAdapter → Option String → Bool → Try V → Interceptor × Try Decision → Invocation V
  error_recorded self request_id run operation (interceptor, raise problem) =
      fail (record self { interceptor = interceptor }) problem
  error_recorded self request_id false operation (interceptor, ok decision) = record {
    after = record self { interceptor = interceptor };
    ran = false;
    result = not_executed decision;
  }
  error_recorded self request_id true operation (interceptor, ok decision) = record {
    after = record self { interceptor = interceptor };
    ran = true;
    result = operation >>= λ value. ok (record {
      decision = decision;
      executed = true;
      value = some value;
      initial_decision = some decision;
      approval_request_id = request_id;
    });
  }

  -- `_error_result`
  unfoldable pub error_result :
      RuntimeAdapter → Action → Context → Exception → Bool → Try V → Option String → Invocation V
  error_result self action context error shadow operation request_id =
      error_recorded self request_id shadow operation (
        record_governance_error digest self.interceptor action context
          ("governance error: " <> class_name error <> ": " <> message error) shadow)

  -- The end of `invoke` for a result: enforce mode checks it and completes the request.
  abbrev pub settle : RuntimeAdapter → Option String → Bool → InterceptionResult V → Invocation V
  settle self request_id ran result =
      if is_shadow self.interceptor.mode
      then record { after = self; ran = ran; result = ok result }
      else if result.executed && not (is_allow result.decision.kind)
      then record {
        after = self;
        ran = ran;
        result =
            raise (runtime_adapter_error "enforce invariant violated: non-Allow result executed");
      }
      else if result.executed
      then record { after = complete self request_id; ran = ran; result = ok result }
      else record { after = self; ran = ran; result = ok result }

  abbrev pub settled_invocation :
      Option String → RuntimeAdapter → Bool → Try (InterceptionResult V) → Invocation V
  settled_invocation request_id self ran (raise problem) = record {
    after = self;
    ran = ran;
    result = raise problem;
  }
  settled_invocation request_id self ran (ok result) = settle self request_id ran result

  -- An exception out of `execute`: a tool's own failure passes, a governance error is recorded.
  abbrev pub executed_result :
      RuntimeAdapter
      → ToolCall
      → Action
      → Context
      → Try V
      → Bool
      → Try (InterceptionResult V)
      → Invocation V
  executed_result self call action context operation ran (ok result) =
      settle self call.request_id ran result
  executed_result self call action context operation true (raise problem) = record {
    after = self;
    ran = true;
    result = raise problem;
  }
  executed_result self call action context operation false (raise problem) =
      if is_shadow self.interceptor.mode && self.raise_in_shadow
      then fail self problem
      else let e =
          error_result self action context problem (is_shadow self.interceptor.mode) operation
            call.request_id in
        settled_invocation call.request_id e.after e.ran e.result

  unfoldable pub governed : RuntimeAdapter → ToolCall → Context → Try V → Try Action → Invocation V
  unfolding error_result
  governed self call context operation (raise problem) = fail self problem
  governed self call context operation (ok action) =
      let o = execute digest self.interceptor action context operation in
      executed_result (record self { interceptor = o.after }) call action context operation o.ran
        o.result

  -- Identity failures fail closed in every mode.
  abbrev pub identity_failed : RuntimeAdapter → Context → Exception → Try Action → Invocation V
  identity_failed self context error (raise problem) = fail self problem
  identity_failed self context error (ok action) = error_recorded self none false (raise error) (
      record_governance_error digest self.interceptor action context
        ("identity verification failed: " <> class_name error <> ": " <> message error) false)

  abbrev pub identified :
      RuntimeAdapter → ToolCall → Context → Try V → Try (Option VerifiedIdentity) → Invocation V
  identified self call context operation (raise error) =
      identity_failed self context error (to_action digest call none)
  identified self call context operation (ok identity) =
      governed self call context operation (to_action digest call identity)

  -- `invoke`
  unfoldable pub invoke : RuntimeAdapter → ToolCall → Context → Try V → Invocation V
  unfolding governed
  invoke self call context operation =
      if not (is_shadow self.interceptor.mode)
        && is_completed self.completed_request_ids call.request_id
      then record {
        after = self;
        ran = false;
        result = not_executed (blocked (duplicate_reason call.request_id));
      }
      else identified self call context operation
          (verified_with digest self.identity_verifier call context)
    where
      duplicate_reason : Option String → String
      duplicate_reason none = "duplicate completed request None"
      duplicate_reason (some id) = "duplicate completed request " <> id
