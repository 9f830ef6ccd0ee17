-- ===== src/Interceptor/Honest.antt =====
-- governance/interceptor.py: the mode of the interceptor and the flag `executed` of its results.
use computational_governance.Prelude.{
  inl, inr, Bool-cases, String, ◌<>◌, ◌≡◌, refl, ◌∙◌, Bool, true, false, Option, none, some, arith,
}
use computational_governance.Errors.{Exception, Try, ok, raise}
use computational_governance.Json.{Json}
use computational_governance.Model.{Action, Context, Decision, DecisionKind, is_allow, is_escalate}
use computational_governance.Audit.Fingerprints.{kind_value}
use computational_governance.Approval.{ApprovalManager, ApprovalRequest}
use computational_governance.Approval.Requests.{request}
use computational_governance.Interceptor.{
  is_shadow, Handler, Interceptor, InterceptionResult, Outcome, record_event,
}
use computational_governance.Interceptor.Methods.{
  settled, shown, evaluate, stop, run, withhold, recorded, record_and_run, record_and_withhold,
  conclude, requested, answered, escalated, decided, execute,
}
use computational_governance.Interceptor.Records.{record_event-Keeps}

pub record IsHonest {V : Type 0} (self : Interceptor) (o : Outcome V) : Type 0 where
  pub same_mode : o.after.mode ≡ self.mode
  -- `executed` tells whether the operation was started
  pub reported : (r : InterceptionResult V) → o.result ≡ ok r → r.executed ≡ o.ran
  -- in enforce mode only an Allow is executed
  pub allowed :
      is_shadow self.mode ≡ false
      → (r : InterceptionResult V) → o.result ≡ ok r
      → r.executed ≡ true
      → is_allow r.decision.kind ≡ true

module _ (digest : Json → String) (V : Type 0) where
  stop-IsHonest :
      (self after : Interceptor) (problem : Exception)
      → after.mode ≡ self.mode
      → IsHonest self (stop digest {V = V} after problem)
  stop-IsHonest self after problem same = record {
    same_mode = same;
    reported = λ r h. absurd (ground arith);
    allowed = λ e r h x. absurd (ground arith);
  }

  withhold-IsHonest :
      (self after : Interceptor) (initial decision : Decision) (id : Option String)
      → after.mode ≡ self.mode
      → IsHonest self (withhold digest {V = V} initial decision id after)
  withhold-IsHonest self after initial decision id same = record {
    same_mode = same;
    reported = λ r h. ground arith;
    allowed = λ e r h x. absurd (ground arith);
  }

  run-IsHonest :
      (self after : Interceptor) (operation : Try V) (initial decision : Decision)
      (id : Option String)
      → (is_shadow self.mode ≡ false → is_allow decision.kind ≡ true)
      → after.mode ≡ self.mode
      → IsHonest self (run digest operation initial decision id after)
  run-IsHonest self after (raise problem) initial decision id permitted same = record {
    same_mode = same;
    reported = λ r h. absurd (ground arith);
    allowed = λ e r h x. absurd (ground arith);
  }
  run-IsHonest self after (ok value) initial decision id permitted same = record {
    same_mode = same;
    reported = λ r h. ground arith;
    allowed = λ e r h x. ground (arith, permitted e);
  }

  recorded-IsHonest :
      (self : Interceptor) (p : Interceptor × Try (Unit {0})) (rest : Interceptor → Outcome V)
      → p.0.mode ≡ self.mode
      → ((i : Interceptor) → i.mode ≡ self.mode → IsHonest self (rest i))
      → IsHonest self (recorded digest p rest)
  recorded-IsHonest self (i, raise problem) rest same honest = stop-IsHonest self i problem same
  recorded-IsHonest self (i, ok u) rest same honest = honest i same

  record_and_run-IsHonest :
      (self start : Interceptor) (action : Action) (context : Context) (initial decision : Decision)
      (id : Option String) (operation : Try V)
      → start.mode ≡ self.mode
      → (is_shadow self.mode ≡ false → is_allow decision.kind ≡ true)
      → IsHonest self (record_and_run digest start action context initial decision id operation)
  unfolding record_and_run
  record_and_run-IsHonest self start action context initial decision id operation same permitted =
      recorded-IsHonest self
        (record_event digest start action context initial (some true)
          (some (kind_value decision.kind)))
        (run digest operation initial decision id)
        ((record_event-Keeps digest start action context initial (some true)
            (some (kind_value decision.kind))).same_mode
          ∙ same)
        (λ i kept. run-IsHonest self i operation initial decision id permitted kept)

  record_and_withhold-IsHonest :
      (self start : Interceptor) (action : Action) (context : Context) (initial decision : Decision)
      (id : Option String)
      → start.mode ≡ self.mode
      → IsHonest self (record_and_withhold digest {V = V} start action context initial decision id)
  unfolding record_and_withhold
  record_and_withhold-IsHonest self start action context initial decision id same =
      recorded-IsHonest self
        (record_event digest start action context initial (some false)
          (some (kind_value decision.kind)))
        (withhold digest initial decision id)
        ((record_event-Keeps digest start action context initial (some false)
            (some (kind_value decision.kind))).same_mode
          ∙ same)
        (λ i kept. withhold-IsHonest self i initial decision id kept)

  conclude-IsHonest :
      (self : Interceptor) (action : Action) (context : Context) (initial decision : Decision)
      (operation : Try V)
      → IsHonest self (conclude digest self action context initial decision operation)
  unfolding conclude
  conclude-IsHonest self action context initial decision operation =
      elim (Bool-cases (is_allow decision.kind)) [
        | inl e ↦ rw e (
            record_and_run-IsHonest self self action context initial decision none operation refl
              (λ x. e))
        | inr e ↦
            rw e (record_and_withhold-IsHonest self self action context initial decision none refl)
      ]

  escalated-IsHonest :
      (self : Interceptor) (action : Action) (context : Context) (initial : Decision)
      (operation : Try V) (manager : Option ApprovalManager) (handler : Option Handler)
      → IsHonest self (escalated digest self action context initial operation manager handler)
  unfolding escalated
  escalated-IsHonest self action context initial operation (some m) handler =
      go (
        request digest m initial self.policy action context self.delegation (some context.now) none)
    where
      go :
          (p : ApprovalManager × Try ApprovalRequest)
          → IsHonest self (requested digest {V = V} self action context initial p)
      go (manager, raise problem) =
          stop-IsHonest self (record self { approval_manager = some manager }) problem refl
      go (manager, ok made) =
          record_and_withhold-IsHonest self (record self { approval_manager = some manager }) action
            context initial initial (some made.id) refl
  escalated-IsHonest self action context initial operation none (some f) =
      go (f (shown initial.role) action initial)
    where
      go : (t : Try Bool) → IsHonest self (answered digest self action context initial operation t)
      go (raise problem) = stop-IsHonest self self problem refl
      go (ok true) =
          conclude-IsHonest self action context initial
            (settled DecisionKind.allow ("approved by " <> shown initial.role) initial) operation
      go (ok false) =
          conclude-IsHonest self action context initial
            (settled DecisionKind.block ("approval denied by " <> shown initial.role) initial)
            operation
  escalated-IsHonest self action context initial operation none none =
      conclude-IsHonest self action context initial initial operation

  decided-IsHonest :
      (self : Interceptor) (action : Action) (context : Context) (operation : Try V)
      (t : Try Decision)
      → IsHonest self (decided digest self action context operation t)
  unfolding decided
  decided-IsHonest self action context operation (raise problem) =
      stop-IsHonest self self problem refl
  decided-IsHonest self action context operation (ok initial) =
      elim (Bool-cases (is_shadow self.mode)) [
        | inl shadow ↦ rw shadow (
            record_and_run-IsHonest self self action context initial initial none operation refl
              (λ x. absurd (ground arith)))
        | inr enforce ↦ rw enforce (elim (Bool-cases (is_escalate initial.kind)) [
          | inl e ↦ rw e (
              escalated-IsHonest self action context initial operation self.approval_manager
                self.approval_handler)
          | inr e ↦ rw e (conclude-IsHonest self action context initial initial operation)
        ])
      ]

  -- `execute` keeps the mode; a result says that the operation was executed exactly when it was
  -- started; and in enforce mode a result that says so carries an Allow.
  pub execute-IsHonest :
      (self : Interceptor) (action : Action) (context : Context) (operation : Try V)
      → IsHonest self (execute digest self action context operation)
  unfolding execute
  execute-IsHonest self action context operation =
      decided-IsHonest self action context operation (evaluate self action context)
