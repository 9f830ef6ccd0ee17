-- ===== src/Interceptor/Records.antt =====
-- governance/interceptor.py: what `_record` appends and changes.
use computational_governance.Prelude.{
  ℕ, suc, ◌≤◌, String, ◌≡◌, refl, ap, ◌∙◌, Bool, true, false, Option, some, [], ◌∷◌, ◌++◌, arith,
  ◌==◌, ◌<>◌, contains, add, str_dec, contains-add,
}
use computational_governance.Decimal.{pad4}
use computational_governance.Decimal.Injective.{prefixed-injective}
use computational_governance.Errors.{Try, ok, raise}
use computational_governance.Json.{Json}
use computational_governance.Model.{
  Action, Context, Decision, DecisionKind, make_decision, is_escalate, truthy,
}
use computational_governance.Audit.Fingerprints.{kind_value}
use computational_governance.Audit.Events.{
  DecisionEvent, event_of, make_event, from_decision, is_kind, outcome_or,
}
use computational_governance.Audit.Log.{AuditLog, append_event}
use computational_governance.Interceptor.{
  Interceptor, GovernanceEvent, mode_value, event_id_of, logged, append_recorded, record_event,
}

-- No id that the interceptor has still to hand out is in the log.
abbrev pub IsNumbered : Interceptor → Type 0
IsNumbered self =
    (n : ℕ)
    → self.next_event_id ≤ n
    → contains self.audit_log.ids ((self.trace_id <> "-") <> pad4 n) ≡ false

-- What stays: all but the log, the number and the list of events.
pub record Keeps (self after : Interceptor) : Type 0 where
  pub same_policy : after.policy ≡ self.policy
  pub same_mode : after.mode ≡ self.mode
  pub same_delegation : after.delegation ≡ self.delegation
  pub same_manager : after.approval_manager ≡ self.approval_manager
  pub same_trace : after.trace_id ≡ self.trace_id

append_event-ok :
    (log after : AuditLog) (event : DecisionEvent)
    → append_event log event ≡ ok after
    → (after.events ≡ log.events ++ event ∷ []) × (after.ids ≡ add event.event_id log.ids)
unfolding append_event
append_event-ok log after event h = (ground arith, ground arith)

make_event-ok : (event after : DecisionEvent) → make_event event ≡ ok after → after ≡ event
unfolding make_event
make_event-ok event after h = ground arith

is_kind-kind_value : (k : DecisionKind) → is_kind (kind_value k) ≡ true
unfolding kind_value str_dec
is_kind-kind_value DecisionKind.allow = refl
is_kind-kind_value DecisionKind.block = refl
is_kind-kind_value DecisionKind.escalate = refl

escalate_value : (k : DecisionKind) → (kind_value k == "Escalate") ≡ is_escalate k
unfolding kind_value str_dec
escalate_value DecisionKind.allow = refl
escalate_value DecisionKind.block = refl
escalate_value DecisionKind.escalate = refl

outcome_or-kind_value :
    (k l : DecisionKind) → outcome_or (some (kind_value k)) (kind_value l) ≡ kind_value k
unfolding kind_value str_dec
outcome_or-kind_value DecisionKind.allow l = refl
outcome_or-kind_value DecisionKind.block l = refl
outcome_or-kind_value DecisionKind.escalate l = refl

decision_role :
    (decision : Decision)
    → make_decision decision ≡ ok decision
    → is_escalate decision.kind ≡ truthy decision.role
unfolding make_decision
decision_role decision good = ground arith

append_event-fresh :
    (log : AuditLog) (event : DecisionEvent)
    → contains log.ids event.event_id ≡ false
    → append_event log event
      ≡ ok (record { events = log.events ++ event ∷ []; ids = add event.event_id log.ids })
unfolding append_event
append_event-fresh log event h = ground arith

module _ (digest : Json → String) where
  -- The event that `_record` makes.
  abbrev pub event_for :
      Interceptor → Action → Context → Decision → Option Bool → Option String → DecisionEvent
  event_for self action context decision executed outcome =
      event_of digest (event_id_of self) self.trace_id self.policy action context decision
        (mode_value self.mode) self.delegation executed outcome

  -- The two parts of `_record`, with the parts that can fail as variables.
  append_recorded-Keeps :
      (self : Interceptor) (event : GovernanceEvent) (t : Try DecisionEvent)
      → Keeps self (append_recorded digest self event t).0
  append_recorded-Keeps self event (raise e) = record {
    same_policy = refl;
    same_mode = refl;
    same_delegation = refl;
    same_manager = refl;
    same_trace = refl;
  }
  append_recorded-Keeps self event (ok r) = go (append_event self.audit_log r)
    where
      go : (t : Try AuditLog) → Keeps self (logged digest self event t).0
      go (raise e) = record {
        same_policy = refl;
        same_mode = refl;
        same_delegation = refl;
        same_manager = refl;
        same_trace = refl;
      }
      go (ok log) = record {
        same_policy = refl;
        same_mode = refl;
        same_delegation = refl;
        same_manager = refl;
        same_trace = refl;
      }

  append_recorded-ok :
      (self : Interceptor) (event : GovernanceEvent) (t : Try DecisionEvent)
      → (append_recorded digest self event t).1 ≡ ok tt
      → (r : DecisionEvent) × (t ≡ ok r)
        × ((append_recorded digest self event t).0.audit_log.events
            ≡ self.audit_log.events ++ r ∷ [])
  append_recorded-ok self event (raise e) h = absurd (ground arith)
  append_recorded-ok self event (ok r) h = (r, refl, go (append_event self.audit_log r) refl h)
    where
      go :
          (t : Try AuditLog)
          → append_event self.audit_log r ≡ t
          → (logged digest self event t).1 ≡ ok tt
          → (logged digest self event t).0.audit_log.events ≡ self.audit_log.events ++ r ∷ []
      go (raise e) same e2 = absurd (ground arith)
      go (ok log) same e2 = (append_event-ok self.audit_log log r same).0

  pub record_event-Keeps :
      (self : Interceptor) (action : Action) (context : Context) (decision : Decision)
      (executed : Option Bool) (outcome : Option String)
      → Keeps self (record_event digest self action context decision executed outcome).0
  unfolding record_event
  record_event-Keeps self action context decision executed outcome =
      let w = append_recorded-Keeps (record self { next_event_id = suc self.next_event_id }) _ _ in
      record {
        same_policy = w.same_policy;
        same_mode = w.same_mode;
        same_delegation = w.same_delegation;
        same_manager = w.same_manager;
        same_trace = w.same_trace;
      }

  -- Where `_record` returns, the log has grown by exactly the event of the decision.
  pub record_event_appends :
      (self : Interceptor) (action : Action) (context : Context) (decision : Decision)
      (executed : Option Bool) (outcome : Option String)
      → (record_event digest self action context decision executed outcome).1 ≡ ok tt
      → ((record_event digest self action context decision executed outcome).0.audit_log.events
          ≡ self.audit_log.events ++ event_for self action context decision executed outcome ∷ [])
  unfolding record_event from_decision
  record_event_appends self action context decision executed outcome h =
      let (r, made, grown) =
        append_recorded-ok (record self { next_event_id = suc self.next_event_id }) _ _ h in
      grown ∙ ap (λ (e : DecisionEvent). self.audit_log.events ++ e ∷ []) (make_event-ok _ r made)

  from_decision-ok :
      (self : Interceptor) (action : Action) (context : Context) (decision : Decision)
      (executed : Option Bool) (kind : DecisionKind)
      → make_decision decision ≡ ok decision
      → from_decision digest
          (event_id_of self)
          self.trace_id
          self.policy
          action
          context
          decision
          (mode_value self.mode)
          self.delegation
          executed
          (some (kind_value kind))
        ≡ ok (event_for self action context decision executed (some (kind_value kind)))
  unfolding from_decision make_event event_of
  from_decision-ok self action context decision executed kind good = ground (
    arith,
    is_kind-kind_value decision.kind,
    escalate_value decision.kind,
    is_kind-kind_value kind,
    outcome_or-kind_value kind decision.kind,
    decision_role decision,
  )

  -- `_record` of a decision from its constructor, with an outcome that is the name of a decision,
  -- returns where the numbers are fresh, and keeps them fresh.
  pub record_event_returns :
      (self : Interceptor) (action : Action) (context : Context) (decision : Decision)
      (executed : Option Bool) (kind : DecisionKind)
      → IsNumbered self
      → make_decision decision ≡ ok decision
      → ((record_event digest self action context decision executed (some (kind_value kind))).1
          ≡ ok tt)
        × IsNumbered
            (record_event digest self action context decision executed (some (kind_value kind))).0
  unfolding record_event event_of
  record_event_returns self action context decision executed kind fresh good =
      let event = event_for self action context decision executed (some (kind_value kind)) in
      let made = from_decision-ok self action context decision executed kind good in
      let stored : append_event self.audit_log event
          ≡ ok (record {
            events = self.audit_log.events ++ event ∷ [];
            ids = add (event_id_of self) self.audit_log.ids;
          }) =
        append_event-fresh self.audit_log event (fresh self.next_event_id (omega arith)) in
      rw made (rw stored (refl, later))
    where
      later :
          (n : ℕ)
          → suc self.next_event_id ≤ n
          → contains (add (event_id_of self) self.audit_log.ids) ((self.trace_id <> "-") <> pad4 n)
            ≡ false
      later n above = ground (
        arith,
        contains-add ((self.trace_id <> "-") <> pad4 n) (event_id_of self) self.audit_log.ids,
        prefixed-injective (self.trace_id <> "-") n self.next_event_id,
        fresh n,
      )
