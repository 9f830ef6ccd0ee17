-- ===== src/Interceptor/Enforcement.antt =====
-- governance/interceptor.py: the operation that `execute` is given, in enforce and in shadow mode.
use mathlib.Core.Path.{subst}
use computational_governance.Prelude.{
  Bool-cases, String, ◌≡◌, refl, sym, ap, ◌∙◌, inl, inr, ◌⊎◌, Bool, true, false, Option, none, some,
  [], ◌∷◌, ◌++◌, arith, if◌then◌else◌,
}
use computational_governance.Errors.{Try, ok, raise, ◌>>=◌}
use computational_governance.Json.{Json}
use computational_governance.Model.{
  Action, Context, Decision, DecisionKind, is_escalate, is_allow, make_decision,
}
use computational_governance.Audit.Fingerprints.{kind_value}
use computational_governance.Approval.{ApprovalManager, ApprovalRequest}
use computational_governance.Approval.Requests.{request}
use computational_governance.Interceptor.{is_shadow, Handler, Interceptor, Outcome, record_event}
use computational_governance.Interceptor.Methods.{
  shown, evaluate, run, withhold, recorded, record_and_run, record_and_withhold, conclude,
  requested, answered, escalated, decided, execute,
}
use computational_governance.Interceptor.Records.{
  IsNumbered, event_for, record_event_appends, record_event_returns,
}

-- What permits an action: an Allow, or an escalation that the handler approves.
abbrev pub Permits : Interceptor → Action → Decision → Type 0
Permits self action d =
    (is_allow d.kind ≡ true)
    ⊎ ((is_escalate d.kind ≡ true)
        × (self.approval_manager ≡ none)
        × (handler : Handler) × (self.approval_handler ≡ some handler)
        × (handler (shown d.role) action d ≡ ok true))

-- The log has grown by the event of this decision, which says that the operation was executed.
abbrev pub RunIsLogged :
    (Json → String)
    → Interceptor
    → Interceptor
    → Action
    → Context
    → Decision
    → DecisionKind
    → Type 0
RunIsLogged digest self after action context decision kind =
    after.audit_log.events
    ≡ self.audit_log.events
      ++ event_for digest self action context decision (some true) (some (kind_value kind)) ∷ []

kind_allow : (k : DecisionKind) → is_allow k ≡ true → k ≡ DecisionKind.allow
kind_allow k h = ground arith

module _ (digest : Json → String) (V : Type 0) where
  recorded-run :
      (p : Interceptor × Try (Unit {0})) (operation : Try V) (initial decision : Decision)
      (id : Option String)
      → (recorded digest p (run digest operation initial decision id)).ran ≡ true
      → (p.1 ≡ ok tt) × ((recorded digest p (run digest operation initial decision id)).after ≡ p.0)
  recorded-run (self, raise problem) operation initial decision id h = absurd (ground arith)
  recorded-run (self, ok tt) operation initial decision id h = (refl, refl)

  -- An operation that runs has been recorded.
  pub record_and_run-logged :
      (self : Interceptor) (action : Action) (context : Context) (initial decision : Decision)
      (id : Option String) (operation : Try V)
      → (record_and_run digest self action context initial decision id operation).ran ≡ true
      → RunIsLogged digest self
          (record_and_run digest self action context initial decision id operation).after
          action
          context
          initial
          decision.kind
  unfolding record_and_run
  record_and_run-logged self action context initial decision id operation h =
      let (done, same) = recorded-run _ operation initial decision id h in
      ap (λ (i : Interceptor). i.audit_log.events) same
      ∙ record_event_appends digest self action context initial (some true)
          (some (kind_value decision.kind)) done

  pub record_and_withhold-still :
      (self : Interceptor) (action : Action) (context : Context) (initial decision : Decision)
      (id : Option String)
      → (record_and_withhold digest {V = V} self action context initial decision id).ran ≡ false
  unfolding record_and_withhold
  record_and_withhold-still self action context initial decision id = go (
      record_event digest self action context initial (some false)
        (some (kind_value decision.kind)))
    where
      go :
          (p : Interceptor × Try (Unit {0}))
          → (recorded digest {V = V} p (withhold digest initial decision id)).ran ≡ false
      go (i, raise problem) = refl
      go (i, ok u) = refl

  conclude-ran :
      (self : Interceptor) (action : Action) (context : Context) (initial decision : Decision)
      (operation : Try V)
      → (conclude digest self action context initial decision operation).ran ≡ true
      → (is_allow decision.kind ≡ true)
        × RunIsLogged digest self
            (conclude digest self action context initial decision operation).after
            action
            context
            initial
            decision.kind
  unfolding conclude
  conclude-ran self action context initial decision operation =
      elim (Bool-cases (is_allow decision.kind)) [
        | inl allowed ↦ rw allowed (λ h.
            (refl, record_and_run-logged self action context initial decision none operation h))
        | inr refused ↦ rw refused (λ h.
            absurd
              (ground (arith, record_and_withhold-still self action context initial decision none)))
      ]

  requested-still :
      (self : Interceptor) (action : Action) (context : Context) (initial : Decision)
      (made : ApprovalManager × Try ApprovalRequest)
      → (requested digest {V = V} self action context initial made).ran ≡ false
  requested-still self action context initial (manager, raise problem) = refl
  requested-still self action context initial (manager, ok made) =
      record_and_withhold-still (record self { approval_manager = some manager }) action context
        initial initial (some made.id)

  answered-ran :
      (self : Interceptor) (action : Action) (context : Context) (initial : Decision)
      (operation : Try V) (answer : Try Bool)
      → (answered digest self action context initial operation answer).ran ≡ true
      → (answer ≡ ok true)
        × RunIsLogged digest self
            (answered digest self action context initial operation answer).after
            action
            context
            initial
            DecisionKind.allow
  answered-ran self action context initial operation (raise problem) h = absurd (ground arith)
  answered-ran self action context initial operation (ok true) h =
      let (allowed, written) = conclude-ran self action context initial _ operation h in
      (refl, written)
  answered-ran self action context initial operation (ok false) h =
      let (allowed, written) = conclude-ran self action context initial _ operation h in
      absurd (ground arith)

  escalated-ran :
      (self : Interceptor) (action : Action) (context : Context) (initial : Decision)
      (operation : Try V) (manager : Option ApprovalManager) (handler : Option Handler)
      → is_escalate initial.kind ≡ true
      → (escalated digest self action context initial operation manager handler).ran ≡ true
      → (manager ≡ none)
        × (h : Handler) × (handler ≡ some h)
        × (h (shown initial.role) action initial ≡ ok true)
        × RunIsLogged digest self
            (escalated digest self action context initial operation manager handler).after
            action
            context
            initial
            DecisionKind.allow
  unfolding escalated
  escalated-ran self action context initial operation (some m) handler e h = absurd (
      ground (
        arith,
        requested-still self action context initial (
            request digest m initial self.policy action context self.delegation (some context.now)
              none),
      ))
  escalated-ran self action context initial operation none (some f) e h =
      let (approved, written) =
        answered-ran self action context initial operation (f (shown initial.role) action initial)
          h in
      (refl, f, refl, approved, written)
  escalated-ran self action context initial operation none none e h =
      let (allowed, written) = conclude-ran self action context initial initial operation h in
      absurd (ground arith)

  abbrev enforced : Interceptor → Action → Context → Try V → Decision → Outcome V
  enforced self action context operation d =
      if is_escalate d.kind
      then escalated digest self action context d operation self.approval_manager
          self.approval_handler
      else conclude digest self action context d d operation

  enforced-ran :
      (self : Interceptor) (action : Action) (context : Context) (operation : Try V) (d : Decision)
      → (enforced self action context operation d).ran ≡ true
      → Permits self action d
        × RunIsLogged digest self
            (enforced self action context operation d).after
            action
            context
            d
            DecisionKind.allow
  enforced-ran self action context operation d = elim (Bool-cases (is_escalate d.kind)) [
    | inl e ↦ rw e (λ h.
        let (unmanaged, handler, handled, approved, written) =
          escalated-ran self action context d operation self.approval_manager self.approval_handler
            e h in
        (inr (refl, unmanaged, handler, handled, approved), written))
    | inr e ↦ rw e (λ h.
        let (allowed, written) = conclude-ran self action context d d operation h in
        (
          inl allowed,
          subst
              (RunIsLogged digest self (conclude digest self action context d d operation).after
                action context d)
              (kind_allow d.kind allowed) written,
        ))
  ]

  decided-ran :
      (self : Interceptor) (action : Action) (context : Context) (operation : Try V)
      (t : Try Decision)
      → is_shadow self.mode ≡ false
      → (decided digest self action context operation t).ran ≡ true
      → (d : Decision) × (t ≡ ok d)
        × Permits self action d
        × RunIsLogged digest self
            (decided digest self action context operation t).after
            action
            context
            d
            DecisionKind.allow
  unfolding decided
  decided-ran self action context operation (raise problem) e h = absurd (ground arith)
  decided-ran self action context operation (ok d) e h =
      let unshadowed : decided digest self action context operation (ok d)
          ≡ enforced self action context operation d =
        rw e refl in
      let (permitted, written) =
        enforced-ran self action context operation d
          (sym (ap (λ (o : Outcome V). o.ran) unshadowed) ∙ h) in
      (d, refl, permitted, ap (λ (o : Outcome V). o.after.audit_log.events) unshadowed ∙ written)

  -- In enforce mode `execute` runs the operation only if the policy allows the action, or escalates
  -- it and the approval handler, with no approval manager configured, approves; and the log has then
  -- grown by exactly the event of that decision, marked as executed, with the outcome Allow.
  pub execute_permitted :
      (self : Interceptor) (action : Action) (context : Context) (operation : Try V)
      → is_shadow self.mode ≡ false
      → (execute digest self action context operation).ran ≡ true
      → (d : Decision) × (evaluate self action context ≡ ok d)
        × Permits self action d
        × RunIsLogged digest self
            (execute digest self action context operation).after
            action
            context
            d
            DecisionKind.allow
  unfolding execute
  execute_permitted self action context operation e h =
      decided-ran self action context operation (evaluate self action context) e h

  record_and_run-returns :
      (self : Interceptor) (action : Action) (context : Context) (initial decision : Decision)
      (id : Option String) (operation : Try V)
      → IsNumbered self
      → make_decision initial ≡ ok initial
      → record_and_run digest self action context initial decision id operation
        ≡ run digest operation initial decision id
            (record_event digest self action context initial
              (some true)
              (some (kind_value decision.kind))).0
  unfolding record_and_run
  record_and_run-returns self action context initial decision id operation fresh good =
      let (done, later) =
        record_event_returns digest self action context initial (some true) decision.kind fresh
          good in
      go _ done
    where
      go :
          (p : Interceptor × Try (Unit {0}))
          → p.1 ≡ ok tt
          → recorded digest p (run digest operation initial decision id)
            ≡ run digest operation initial decision id p.0
      go (i, raise problem) h = absurd (ground arith)
      go (i, ok tt) h = refl

  -- In shadow mode, with fresh event numbers and a decision from its constructor, `execute` runs the
  -- operation whatever the decision is, returns what the operation returns and reports the decision.
  pub execute_shadowed :
      (self : Interceptor) (action : Action) (context : Context) (operation : Try V) (d : Decision)
      → is_shadow self.mode ≡ true
      → IsNumbered self
      → evaluate self action context ≡ ok d
      → make_decision d ≡ ok d
      → ((execute digest self action context operation).ran ≡ true)
        × ((execute digest self action context operation).result ≡ (
            operation >>= λ value. ok (record {
              decision = d;
              executed = true;
              value = some value;
              initial_decision = some d;
              approval_request_id = none;
            })))
  unfolding execute decided
  execute_shadowed self action context operation d e fresh evaluated good =
      let same : execute digest self action context operation
          ≡ record_and_run digest self action context d d none operation =
        rw evaluated (rw e refl) in
      let ran = same ∙ record_and_run-returns self action context d d none operation fresh good in
      (ap (λ (o : Outcome V). o.ran) ran, ap (λ (o : Outcome V). o.result) ran)
