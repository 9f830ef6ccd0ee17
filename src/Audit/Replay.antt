-- ===== src/Audit/Replay.antt =====
-- governance/audit.py: `replay_event`, which reports every mismatch with the recorded check.
use computational_governance.Prelude.{
  String, Bool, true, false, Option, none, some, List, [], ◌∷◌, ◌++◌, if◌then◌else◌, ◌==◌,
}
use computational_governance.Errors.{Try, ok, ◌>>=◌}
use computational_governance.Json.{Json}
use computational_governance.Model.{Action, Context, Decision}
use computational_governance.Compiler
use computational_governance.Compiler.{CompiledPolicy}
use computational_governance.Delegation.{DelegationGraph, actor}
use computational_governance.Delegation.Methods.{authority_proof}
use computational_governance.Composition.{Authority}
use computational_governance.Audit.Fingerprints.{
  kind_value, action_fingerprint, context_fingerprint, policy_fingerprint, state_fingerprint,
}
use computational_governance.Audit.Events.{DecisionEvent}

-- The authority that an evaluation asks: a graph, where there is one.
unfoldable pub authority_of : Option DelegationGraph → Authority
authority_of none = none
authority_of (some graph) =
    some (λ a capability now reference. authority_proof graph (actor a) capability now reference)

-- `policy.evaluate(action, context, delegation=delegation)`
unfoldable pub evaluate_with :
    CompiledPolicy → Action → Context → Option DelegationGraph → Try Decision
unfolding authority_of
evaluate_with policy action context delegation =
    Compiler.evaluate policy action context (authority_of delegation)

-- `==` on tuples of texts and on optional texts
abbrev pub same_texts : List String → List String → Bool
same_texts [] [] = true
same_texts (s ∷ ss) (t ∷ ts) = if s == t then same_texts ss ts else false
same_texts _ _ = false

abbrev pub same_option : Option String → Option String → Bool
same_option none none = true
same_option (some s) (some t) = s == t
same_option _ _ = false

-- `if test fails: drift.append(name)`
abbrev pub differs : Bool → String → List String
differs true name = []
differs false name = name ∷ []

pub record ReplayResult : Type 0 where
  pub decision : Decision
  pub drift : List String

-- `exact`
abbrev pub is_exact : ReplayResult → Bool
is_exact self = go self.drift
  where
    go : List String → Bool
    go [] = true
    go (name ∷ names) = false

module _ (digest : Json → String) where
  unfoldable pub drift_of :
      DecisionEvent
      → CompiledPolicy
      → Action
      → Context
      → Option DelegationGraph
      → Decision
      → List String
  unfolding kind_value action_fingerprint context_fingerprint policy_fingerprint state_fingerprint
  drift_of event policy action context delegation decision =
      differs (event.policy_fingerprint == policy_fingerprint digest policy) "policy"
      ++ (differs (event.state_fingerprint == state_fingerprint digest policy delegation) "state"
          ++ (differs (event.action_fingerprint == action_fingerprint digest action) "action"
              ++ (differs (event.context_fingerprint == context_fingerprint digest context)
                    "context"
                  ++ (differs (kind_value decision.kind == event.decision) "decision"
                      ++ (differs (same_option decision.role event.role) "role"
                          ++ (differs (decision.reason == event.reason) "reason"
                              ++ (differs (same_texts decision.matched_rules event.matched_rules)
                                    "matched_rules"
                                  ++ (differs (decision.authority_source == event.authority_source)
                                        "authority_source"
                                      ++ (differs
                                            (same_texts decision.authority_path
                                              event.authority_path)
                                            "authority_path"
                                          ++ (differs
                                                (same_option event.identity_reference
                                                  action.identity_reference)
                                                "identity"
                                              ++ differs
                                                  (same_texts event.identity_roles
                                                    action.identity_roles)
                                                  "identity_roles"))))))))))

  -- The names are distinct, so that `dict.fromkeys` keeps all of them.
  unfoldable pub replay_event :
      DecisionEvent → CompiledPolicy → Action → Context → Option DelegationGraph → Try ReplayResult
  unfolding drift_of evaluate_with
  replay_event event policy action context delegation =
      evaluate_with policy action context delegation >>= λ decision. ok (record {
        decision = decision;
        drift = drift_of event policy action context delegation decision;
      })
