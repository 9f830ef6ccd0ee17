-- ===== src/Interceptor/Resumption.antt =====
-- governance/interceptor.py: what `resume_approved` asks of the approval manager.
use mathlib.Core.Path.{subst}
use computational_governance.Prelude.{
  String, ℤ, ◌≡◌, refl, sym, ap, ◌∙◌, inl, inr, Bool, true, false, ◌||◌, not, Option, none, some,
  arith, if◌then◌else◌, Bool-cases,
}
use computational_governance.Errors.{
  value_error, type_error, recursion_error, inheritance_error, compile_error, delegation_error,
  approval_error, runtime_adapter_error, identity_error, versioning_error, lifecycle_error,
  key_error, parse_error, index_error, Try, ok, raise,
}
use computational_governance.Json.{Json}
use computational_governance.Model.{Action, Context, Decision, DecisionKind, is_escalate}
use computational_governance.Approval.{ApprovalRequest, ApprovalManager}
use computational_governance.Approval.Manager.{default_to, get}
use computational_governance.Approval.Requests.{prepare_resume}
use computational_governance.Approval.Lifecycle.{IsSound}
use computational_governance.Approval.Steps.{Step, Steps, done, next, step-IsSound}
use computational_governance.Approval.Resume.{resumed_once}
use computational_governance.Interceptor.{is_shadow, Interceptor, Outcome}
use computational_governance.Interceptor.Methods.{
  run, recorded, is_role, settled, evaluate, record_and_run, resume_refused, prepared, looked_up,
  resume_with, resume_approved,
}
use computational_governance.Audit.Fingerprints.{kind_value}
use computational_governance.Interceptor.Records.{record_event-Keeps}
use computational_governance.Interceptor.Enforcement.{record_and_withhold-still}

module _ (digest : Json → String) (V : Type 0) where
  -- The manager after the request was read, and after it was prepared.
  abbrev pub manager_read : ApprovalManager → String → ℤ → ApprovalManager
  manager_read manager request_id now = (get manager request_id (some now)).0

  abbrev pub preparation :
      Interceptor
      → ApprovalManager
      → String
      → Action
      → Context
      → ℤ
      → ApprovalManager × Try ApprovalRequest
  preparation self manager request_id action context now =
      prepare_resume digest (manager_read manager request_id now) request_id self.policy action
        context self.delegation (some now)

  record_and_run-manager :
      (self : Interceptor) (action : Action) (context : Context) (initial decision : Decision)
      (id : Option String) (operation : Try V)
      → (record_and_run digest self action context initial decision id
          operation).after.approval_manager
        ≡ self.approval_manager
  unfolding record_and_run
  record_and_run-manager self action context initial decision id operation =
      ap (λ (i : Interceptor). i.approval_manager) (go _)
      ∙ (record_event-Keeps digest self action context initial (some true)
          (some (kind_value decision.kind))).same_manager
    where
      go :
          (p : Interceptor × Try (Unit {0}))
          → (recorded digest p (run digest operation initial decision id)).after ≡ p.0
      go (i, raise problem) = refl
      go (i, ok u) = refl

  prepared-ran :
      (self : Interceptor) (action : Action) (context : Context) (current : Decision)
      (request_id : String) (found : ApprovalRequest) (operation : Try V)
      (p : ApprovalManager × Try ApprovalRequest)
      → (prepared digest self action context current request_id found operation p).ran ≡ true
      → (used : ApprovalRequest) × (p.1 ≡ ok used)
        × ((prepared digest self action context current request_id found operation
              p).after.approval_manager
            ≡ some p.0)
  prepared-ran self action context current request_id found operation (m, raise (approval_error e))
        h =
      absurd (
        ground (
          arith,
          record_and_withhold-still digest V (record self { approval_manager = some m }) action
              context current (settled DecisionKind.block e current) (some request_id),
        ))
  prepared-ran self action context current request_id found operation (m, raise (value_error e)) h =
      absurd (ground arith)
  prepared-ran self action context current request_id found operation (m, raise (type_error e)) h =
      absurd (ground arith)
  prepared-ran self action context current request_id found operation (m, raise recursion_error) h =
      absurd (ground arith)
  prepared-ran self action context current request_id found operation
        (m, raise (inheritance_error e)) h =
      absurd (ground arith)
  prepared-ran self action context current request_id found operation (m, raise (compile_error c e))
        h =
      absurd (ground arith)
  prepared-ran self action context current request_id found operation
        (m, raise (delegation_error e)) h =
      absurd (ground arith)
  prepared-ran self action context current request_id found operation
        (m, raise (runtime_adapter_error e)) h =
      absurd (ground arith)
  prepared-ran self action context current request_id found operation (m, raise (identity_error e))
        h =
      absurd (ground arith)
  prepared-ran self action context current request_id found operation
        (m, raise (versioning_error e)) h =
      absurd (ground arith)
  prepared-ran self action context current request_id found operation (m, raise (lifecycle_error e))
        h =
      absurd (ground arith)
  prepared-ran self action context current request_id found operation (m, raise (parse_error n e))
        h =
      absurd (ground arith)
  prepared-ran self action context current request_id found operation (m, raise (key_error e)) h =
      absurd (ground arith)
  prepared-ran self action context current request_id found operation (m, raise index_error) h =
      absurd (ground arith)
  prepared-ran self action context current request_id found operation (m, ok used) h = (
    used,
    refl,
    record_and_run-manager (record self { approval_manager = some m }) action context current _
        (some request_id) operation,
  )

  matched-ran :
      (self : Interceptor) (action : Action) (context : Context) (current : Decision)
      (request_id reason : String) (found : ApprovalRequest) (operation : Try V)
      (p : ApprovalManager × Try ApprovalRequest) (b : Bool)
      → (if b
          then resume_refused digest self action context current request_id reason
          else prepared digest self action context current request_id found operation p).ran
        ≡ true
      → (used : ApprovalRequest) × (p.1 ≡ ok used)
        × ((if b
              then resume_refused digest self action context current request_id reason
              else prepared digest self action context current request_id found operation
                  p).after.approval_manager
            ≡ some p.0)
  matched-ran self action context current request_id reason found operation p true h = absurd (
      ground (
        arith,
        record_and_withhold-still digest V self action context current
            (settled DecisionKind.block reason current) (some request_id),
      ))
  matched-ran self action context current request_id reason found operation p false h =
      prepared-ran self action context current request_id found operation p h

  looked_up-ran :
      (self : Interceptor) (action : Action) (context : Context) (current : Decision)
      (request_id : String) (now : ℤ) (operation : Try V)
      (p : ApprovalManager × Try ApprovalRequest)
      → (looked_up digest self action context current request_id now operation p).ran ≡ true
      → (used : ApprovalRequest) × ((prepare_resume digest p.0 request_id self.policy action context
            self.delegation
            (some now)).1
          ≡ ok used)
        × ((looked_up digest self action context current request_id now operation
              p).after.approval_manager
            ≡ some
                (prepare_resume digest p.0 request_id self.policy action context self.delegation
                  (some now)).0)
  looked_up-ran self action context current request_id now operation (m, raise problem) h =
      absurd (ground arith)
  looked_up-ran self action context current request_id now operation (m, ok found) h =
      matched-ran (record self { approval_manager = some m }) action context current request_id
        "approval no longer matches the current escalation" found operation
        (prepare_resume digest m request_id self.policy action context self.delegation (some now))
        (not (is_escalate current.kind) || not (is_role current.role found.role)) h

  resume_with-ran :
      (self : Interceptor) (manager : Option ApprovalManager) (action : Action) (context : Context)
      (request_id : String) (now : ℤ) (operation : Try V) (t : Try Decision)
      → evaluate self action context ≡ t
      → (resume_with digest self manager action context request_id now operation).ran ≡ true
      → (m : ApprovalManager) × (used : ApprovalRequest) × (manager ≡ some m)
        × ((preparation self m request_id action context now).1 ≡ ok used)
        × ((resume_with digest self manager action context request_id now
              operation).after.approval_manager
            ≡ some (preparation self m request_id action context now).0)
  resume_with-ran self none action context request_id now operation t e h = absurd (ground arith)
  resume_with-ran self (some m) action context request_id now operation (raise problem) e h =
      absurd (ground arith)
  resume_with-ran self (some m) action context request_id now operation (ok current) e h =
      let same : resume_with digest self (some m) action context request_id now operation
          ≡ looked_up digest self action context current request_id now operation
              (get m request_id (some now)) =
        rw e refl in
      let (used, prepared_it, stored) =
        looked_up-ran self action context current request_id now operation
          (get m request_id (some now)) (sym (ap (λ (o : Outcome V). o.ran) same) ∙ h) in
      (m, used, refl, prepared_it, ap (λ (o : Outcome V). o.after.approval_manager) same ∙ stored)

  -- In enforce mode `resume_approved` runs the operation only if an approval manager is configured,
  -- whose `prepare_resume` has returned for this request, action, context, policy and delegation at
  -- this moment; and the manager is left as that call left it.
  pub resume_approved_prepared :
      (self : Interceptor) (request_id : String) (action : Action) (context : Context)
      (now : Option ℤ) (operation : Try V)
      → is_shadow self.mode ≡ false
      → (resume_approved digest self request_id action context now operation).ran ≡ true
      → (m : ApprovalManager) × (used : ApprovalRequest) × (self.approval_manager ≡ some m)
        × ((preparation self m request_id action context (default_to context.now now)).1 ≡ ok used)
        × ((resume_approved digest self request_id action context now
              operation).after.approval_manager
            ≡ some (preparation self m request_id action context (default_to context.now now)).0)
  unfolding resume_approved
  resume_approved_prepared self request_id action context now operation e h =
      let same : resume_approved digest self request_id action context now operation
          ≡ resume_with digest self self.approval_manager action context request_id
              (default_to context.now now) operation =
        rw e refl in
      let (m, used, managed, prepared_it, stored) =
        resume_with-ran self self.approval_manager action context request_id
          (default_to context.now now) operation (evaluate self action context) refl
          (sym (ap (λ (o : Outcome V). o.ran) same) ∙ h) in
      (
        m,
        used,
        managed,
        prepared_it,
        ap (λ (o : Outcome V). o.after.approval_manager) same ∙ stored,
      )

  and_then :
      {first middle last : ApprovalManager}
      → Steps digest first middle
      → Step digest middle last
      → Steps digest first last
  and_then done step = next step done
  and_then (next before rest) step = next before (and_then rest step)

  -- An approval runs an operation once: after `resume_approved` ran it in enforce mode, with a
  -- manager in which the invariant holds, no interceptor in enforce mode runs one for the same
  -- request with that manager, whatever calls of the manager are made in between.
  pub resume_approved_once :
      (self other : Interceptor) (request_id : String) (action action2 : Action)
      (context context2 : Context) (now now2 : Option ℤ) (operation operation2 : Try V)
      (manager after later : ApprovalManager)
      → is_shadow self.mode ≡ false
      → is_shadow other.mode ≡ false
      → self.approval_manager ≡ some manager
      → IsSound manager
      → (resume_approved digest self request_id action context now operation).ran ≡ true
      → (resume_approved digest self request_id action context now operation).after.approval_manager
        ≡ some after
      → Steps digest after later
      → other.approval_manager ≡ some later
      → (resume_approved digest other request_id action2 context2 now2 operation2).ran ≡ false
  resume_approved_once self other request_id action action2 context context2 now now2 operation
        operation2 manager after later e e2 managed sound ran left calls shared =
      elim (Bool-cases
        (resume_approved digest other request_id action2 context2 now2 operation2).ran) [
          | inr still ↦ still
          | inl again ↦
              let (m, used, has, prepared_it, stored) =
                resume_approved_prepared self request_id action context now operation e ran in
              let (m2, used2, has2, prepared_again, stored2) =
                resume_approved_prepared other request_id action2 context2 now2 operation2 e2
                  again in
              let same : m ≡ manager = cc in
              let same2 : m2 ≡ later = cc in
              let begun : after
                  ≡ (preparation self m request_id action context (default_to context.now now)).0 =
                cc in
              absurd (
                resumed_once digest (manager_read m request_id (default_to context.now now))
                  (manager_read m2 request_id (default_to context2.now now2)) request_id self.policy
                  action context self.delegation (some (default_to context.now now)) used
                  other.policy action2 context2 other.delegation
                  (some (default_to context2.now now2))
                  (step-IsSound digest (Step.read request_id (some (default_to context.now now)))
                    (subst IsSound (sym same) sound))
                  prepared_it
                  (and_then
                    (subst (λ (x : ApprovalManager). Steps digest x m2) begun
                      (subst (λ (x : ApprovalManager). Steps digest after x) (sym same2) calls))
                    (Step.read request_id (some (default_to context2.now now2))))
                  (used2, prepared_again))
        ]
