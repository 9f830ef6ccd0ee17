-- ===== src/Audit/Exact.antt =====
-- When the replay of a recorded check reports nothing.
use mathlib.Core.Path.{subst}
use mathlib.Core.Logic.{◌↔◌}
use computational_governance.Prelude.{
  sym, String, ◌≡◌, refl, Bool, true, Option, none, some, List, [], ◌∷◌, ◌++◌, arith, ◌==◌, ==_refl,
}
use computational_governance.Errors.{ok, both_return}
use computational_governance.Json.{Json}
use computational_governance.Model.{Action, Context, Decision}
use computational_governance.Compiler.{CompiledPolicy}
use computational_governance.Delegation.{DelegationGraph}
use computational_governance.Audit.Fingerprints.{
  kind_value, action_fingerprint, context_fingerprint, policy_fingerprint, state_fingerprint,
}
use computational_governance.Audit.Events.{DecisionEvent, event_of, make_event, from_decision}
use computational_governance.Audit.Replay.{
  evaluate_with, same_texts, same_option, differs, drift_of, replay_event, ReplayResult,
}

pub same_texts_refl : (xs : List String) → same_texts xs xs ≡ true
same_texts_refl [] = refl
same_texts_refl (x ∷ xs) = ground (arith, same_texts_refl xs)

pub same_texts→eq : (xs ys : List String) → same_texts xs ys ≡ true → xs ≡ ys
same_texts→eq [] [] h = refl
same_texts→eq [] (y ∷ ys) h = cc
same_texts→eq (x ∷ xs) [] h = cc
same_texts→eq (x ∷ xs) (y ∷ ys) h = ground (arith, same_texts→eq xs ys)

pub same_option→eq : (o p : Option String) → same_option o p ≡ true → o ≡ p
same_option→eq none none h = refl
same_option→eq none (some t) h = cc
same_option→eq (some s) none h = cc
same_option→eq (some s) (some t) h = ground arith

same_option_refl : (o : Option String) → same_option o o ≡ true
same_option_refl none = refl
same_option_refl (some s) = ==_refl s

-- Where a comparison adds nothing, its sides are equal.
text_agrees :
    (s t name : String) (rest : List String)
    → differs (s == t) name ++ rest ≡ []
    → (s ≡ t) × (rest ≡ [])
text_agrees s t name rest h = ground arith

option_agrees :
    (s t : Option String) (name : String) (rest : List String)
    → differs (same_option s t) name ++ rest ≡ []
    → (s ≡ t) × (rest ≡ [])
option_agrees s t name rest h = ground (arith, same_option→eq s t)

texts_agree :
    (s t : List String) (name : String) (rest : List String)
    → differs (same_texts s t) name ++ rest ≡ []
    → (s ≡ t) × (rest ≡ [])
texts_agree s t name rest h = ground (arith, same_texts→eq s t)

last_agrees : (s t : List String) (name : String) → differs (same_texts s t) name ≡ [] → s ≡ t
last_agrees s t name h = ground (arith, same_texts→eq s t)

module _ (digest : Json → String) where
  -- What a recorded check and a decision have in common where a replay reports nothing.
  pub record Agrees (event : DecisionEvent) (policy : CompiledPolicy) (action : Action)
      (context : Context) (delegation : Option DelegationGraph) (decision : Decision) : Type 0 where
    pub same_policy : event.policy_fingerprint ≡ policy_fingerprint digest policy
    pub same_state : event.state_fingerprint ≡ state_fingerprint digest policy delegation
    pub same_action : event.action_fingerprint ≡ action_fingerprint digest action
    pub same_context : event.context_fingerprint ≡ context_fingerprint digest context
    pub same_kind : kind_value decision.kind ≡ event.decision
    pub same_role : decision.role ≡ event.role
    pub same_reason : decision.reason ≡ event.reason
    pub same_rules : decision.matched_rules ≡ event.matched_rules
    pub same_source : decision.authority_source ≡ event.authority_source
    pub same_path : decision.authority_path ≡ event.authority_path
    pub same_identity : event.identity_reference ≡ action.identity_reference
    pub same_roles : event.identity_roles ≡ action.identity_roles

  drift_of-Agrees :
      (event : DecisionEvent) (policy : CompiledPolicy) (action : Action) (context : Context)
      (delegation : Option DelegationGraph) (decision : Decision)
      → drift_of digest event policy action context delegation decision ≡ []
      → Agrees event policy action context delegation decision
  unfolding drift_of
  drift_of-Agrees event policy action context delegation decision h =
      let (policy_eq, h0) = text_agrees _ _ _ _ h in
      let (state_eq, h1) = text_agrees _ _ _ _ h0 in
      let (action_eq, h2) = text_agrees _ _ _ _ h1 in
      let (context_eq, h3) = text_agrees _ _ _ _ h2 in
      let (kind_eq, h4) = text_agrees _ _ _ _ h3 in
      let (role_eq, h5) = option_agrees _ _ _ _ h4 in
      let (reason_eq, h6) = text_agrees _ _ _ _ h5 in
      let (rules_eq, h7) = texts_agree _ _ _ _ h6 in
      let (source_eq, h8) = text_agrees _ _ _ _ h7 in
      let (path_eq, h9) = texts_agree _ _ _ _ h8 in
      let (identity_eq, h10) = option_agrees _ _ _ _ h9 in
      record {
        same_policy = policy_eq;
        same_state = state_eq;
        same_action = action_eq;
        same_context = context_eq;
        same_kind = kind_eq;
        same_role = role_eq;
        same_reason = reason_eq;
        same_rules = rules_eq;
        same_source = source_eq;
        same_path = path_eq;
        same_identity = identity_eq;
        same_roles = last_agrees _ _ _ h10;
      }

  Agrees-drift_of :
      (event : DecisionEvent) (policy : CompiledPolicy) (action : Action) (context : Context)
      (delegation : Option DelegationGraph) (decision : Decision)
      → Agrees event policy action context delegation decision
      → drift_of digest event policy action context delegation decision ≡ []
  unfolding drift_of
  Agrees-drift_of event policy action context delegation decision w = simp (
    w.same_policy, w.same_state, w.same_action, w.same_context, w.same_kind, w.same_role,
    w.same_reason, w.same_rules, w.same_source, w.same_path, w.same_identity, w.same_roles, ==_refl,
    same_texts_refl, same_option_refl,
  )

  -- A replay that returns reports nothing exactly when its fingerprints are those that were recorded,
  -- and its decision and the action's identity agree with the event in every field that it compares.
  pub replay_event_exact :
      (event : DecisionEvent) (policy : CompiledPolicy) (action : Action) (context : Context)
      (delegation : Option DelegationGraph) (result : ReplayResult)
      → replay_event digest event policy action context delegation ≡ ok result
      → (result.drift ≡ []) ↔ Agrees event policy action context delegation result.decision
  unfolding replay_event
  replay_event_exact event policy action context delegation result h =
      let (decision, made, evaluated) =
        both_return (evaluate_with policy action context delegation)
          (λ decision. ok (record {
            decision = decision;
            drift = drift_of digest event policy action context delegation decision;
          }))
          result h in
      subst
        (λ (r : ReplayResult).
          (r.drift ≡ []) ↔ Agrees event policy action context delegation r.decision)
        (ground arith)
        (
          drift_of-Agrees event policy action context delegation decision,
          Agrees-drift_of event policy action context delegation decision,
        )

  -- The replay of an event that was recorded for the decision of the policy, with the same policy,
  -- action, context and delegation, returns that decision and reports nothing.
  pub replay_event-from_decision :
      (event_id trace_id : String) (policy : CompiledPolicy) (action : Action) (context : Context)
      (decision : Decision) (mode : String) (delegation : Option DelegationGraph)
      (executed : Option Bool) (outcome : Option String) (event : DecisionEvent)
      → evaluate_with policy action context delegation ≡ ok decision
      → from_decision digest event_id trace_id policy action context decision mode delegation
          executed outcome
        ≡ ok event
      → replay_event digest event policy action context delegation
        ≡ ok (record { decision = decision; drift = [] })
  unfolding replay_event from_decision make_event event_of
  replay_event-from_decision event_id trace_id policy action context decision mode delegation
        executed outcome event evaluated recorded =
      let same : event
          ≡ event_of digest event_id trace_id policy action context decision mode delegation
              executed outcome =
        ground arith in
      ground (
        arith,
        Agrees-drift_of event policy action context delegation decision (
            subst (λ (e : DecisionEvent). Agrees e policy action context delegation decision)
              (sym same)
              (record {
                same_policy = refl;
                same_state = refl;
                same_action = refl;
                same_context = refl;
                same_kind = refl;
                same_role = refl;
                same_reason = refl;
                same_rules = refl;
                same_source = refl;
                same_path = refl;
                same_identity = refl;
                same_roles = refl;
              })),
      )
