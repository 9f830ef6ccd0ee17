-- ===== src/Approval/Bodies.antt =====
-- What `approve`, `deny`, `prepare_resume` and `request` tell about a request when they return it.
use mathlib.Core.Path.{subst}
use computational_governance.Prelude.{
  ◌≤◌, String, ℤ, ◌≡◌, refl, sym, true, false, Option, List, [], ◌∷◌, arith, contains, length, ltb,
  is_some, if◌then◌else◌,
}
use computational_governance.Errors.{ok, both_return, ◌>>◌}
use computational_governance.Json.{Json}
use computational_governance.Model.{Action, Context, Decision, make_decision, is_empty}
use computational_governance.Compiler.{CompiledPolicy}
use computational_governance.Delegation.{DelegationGraph}
use computational_governance.Audit.Fingerprints.{
  action_fingerprint, context_fingerprint, policy_fingerprint, state_fingerprint,
}
use computational_governance.Approval.{denied, ApprovalRequest, ApprovalManager, VerifiedIdentity}
use computational_governance.Approval.Manager.{
  is_pending, is_approved, reviewer, check_binding, mismatches,
}
use computational_governance.Approval.Requests.{
  add_vote, vote, veto, consume, roles_or, one_or, new_request,
}
use computational_governance.Approval.Lifecycle.{IsValid, add_vote-IsValid}

module _ (digest : Json → String) where
  -- The request is bound to this action, context, policy and delegation.
  pub record IsBound (self : ApprovalRequest) (policy : CompiledPolicy) (action : Action)
      (context : Context) (delegation : Option DelegationGraph) : Type 0 where
    pub same_action : self.action_fingerprint ≡ action_fingerprint digest action
    pub same_context : self.context_fingerprint ≡ context_fingerprint digest context
    pub same_policy : self.policy_fingerprint ≡ policy_fingerprint digest policy
    pub same_state : self.state_fingerprint ≡ state_fingerprint digest policy delegation

  pub check_binding-IsBound :
      (self : ApprovalRequest) (policy : CompiledPolicy) (action : Action) (context : Context)
      (delegation : Option DelegationGraph)
      → check_binding digest self policy action context delegation ≡ ok tt
      → IsBound self policy action context delegation
  unfolding check_binding mismatches
  check_binding-IsBound self policy action context delegation h = record {
    same_action = ground arith;
    same_context = ground arith;
    same_policy = ground arith;
    same_state = ground arith;
  }

  pub vote-ok :
      (self : ApprovalManager) (role : String) (policy : CompiledPolicy) (action : Action)
      (context : Context) (delegation : Option DelegationGraph) (now : Option ℤ)
      (identity : Option VerifiedIdentity) (r after : ApprovalRequest)
      → vote digest self role policy action context delegation now identity r ≡ ok after
      → (reference : Option String) × (is_pending r.state ≡ true)
        × (contains r.required_roles role ≡ true)
        × (contains r.votes role ≡ false)
        × (after ≡ add_vote role reference r)
  unfolding vote
  vote-ok self role policy action context delegation now identity r after h =
      let (reference, bound, who) =
        both_return (reviewer digest self r role now identity)
          (λ reference.
            check_binding digest r policy action context delegation
            >> ok (add_vote role reference r))
          after (ground arith) in
      let (u, same, binding) =
        both_return (check_binding digest r policy action context delegation)
          (λ u. ok (add_vote role reference r)) after bound in
      (reference, ground arith, ground arith, ground arith, ground arith)

  pub veto-ok :
      (self : ApprovalManager) (role : String) (now : Option ℤ) (identity : Option VerifiedIdentity)
      (r after : ApprovalRequest)
      → veto digest self role now identity r ≡ ok after
      → (reference : Option String) × (is_pending r.state ≡ true)
        × (after ≡ record r { state = denied; denial_identity_reference = reference })
  unfolding veto
  veto-ok self role now identity r after h =
      let (reference, same, who) =
        both_return (reviewer digest self r role now identity)
          (λ reference. ok (record r {
            state = denied;
            denial_identity_reference =
                if is_some reference then reference else r.denial_identity_reference;
          }))
          after (ground arith) in
      (
        if is_some reference then reference else r.denial_identity_reference,
        ground arith,
        ground arith,
      )

  pub consume-ok :
      (policy : CompiledPolicy) (action : Action) (context : Context)
      (delegation : Option DelegationGraph) (r after : ApprovalRequest)
      → consume digest policy action context delegation r ≡ ok after
      → (is_approved r.state ≡ true)
        × (r.consumed ≡ false)
        × IsBound r policy action context delegation
        × (after ≡ record r { consumed = true })
  unfolding consume
  consume-ok policy action context delegation r after h =
      let (u, same, binding) =
        both_return (check_binding digest r policy action context delegation)
          (λ u. ok (record r { consumed = true })) after (ground arith) in
      (
        ground arith,
        ground arith,
        check_binding-IsBound r policy action context delegation binding,
        ground arith,
      )

  pub vote-IsValid :
      (self : ApprovalManager) (role : String) (policy : CompiledPolicy) (action : Action)
      (context : Context) (delegation : Option DelegationGraph) (now : Option ℤ)
      (identity : Option VerifiedIdentity) (r after : ApprovalRequest)
      → vote digest self role policy action context delegation now identity r ≡ ok after
      → IsValid r
      → IsValid after
  vote-IsValid self role policy action context delegation now identity r after h w =
      let (reference, waits, required, new, same) =
        vote-ok self role policy action context delegation now identity r after h in
      subst IsValid (sym same) (add_vote-IsValid role reference r waits required new w)

  pub veto-IsValid :
      (self : ApprovalManager) (role : String) (now : Option ℤ) (identity : Option VerifiedIdentity)
      (r after : ApprovalRequest)
      → veto digest self role now identity r ≡ ok after
      → IsValid r
      → IsValid after
  veto-IsValid self role now identity r after h w =
      let (reference, waits, same) = veto-ok self role now identity r after h in
      subst IsValid (sym same) (record {
        positive = w.positive;
        reachable = w.reachable;
        votes_distinct = w.votes_distinct;
        votes_required = w.votes_required;
        agreed = λ e. absurd (ground arith);
        short = λ e. absurd (ground arith);
        used = λ e. absurd (ground (arith, w.used e));
      })

  pub consume-IsValid :
      (policy : CompiledPolicy) (action : Action) (context : Context)
      (delegation : Option DelegationGraph) (r after : ApprovalRequest)
      → consume digest policy action context delegation r ≡ ok after
      → IsValid r
      → IsValid after
  consume-IsValid policy action context delegation r after h w =
      let (agreed, unused, bound, same) = consume-ok policy action context delegation r after h in
      subst IsValid (sym same) (record {
        positive = w.positive;
        reachable = w.reachable;
        votes_distinct = w.votes_distinct;
        votes_required = w.votes_required;
        agreed = w.agreed;
        short = w.short;
        used = λ e. agreed;
      })

  -- A request for a decision that the constructor accepts starts valid.
  pub new_request-IsValid :
      (self : ApprovalManager) (decision : Decision) (role : String) (policy : CompiledPolicy)
      (action : Action) (context : Context) (delegation : Option DelegationGraph) (now ttl : ℤ)
      → make_decision decision ≡ ok decision
      → IsValid (new_request digest self decision role policy action context delegation now ttl)
  unfolding new_request make_decision
  new_request-IsValid self decision role policy action context delegation now ttl h = record {
    positive = ground arith;
    reachable = go decision.approval_roles (ground arith);
    votes_distinct = refl;
    votes_required = refl;
    agreed = λ e. absurd (ground arith);
    short = λ e. ground arith;
    used = λ e. absurd (ground arith);
  }
    where
      go :
          (roles : List String)
          → (if is_empty roles
              then ltb 0 decision.approval_threshold
              else ltb (length roles) decision.approval_threshold)
            ≡ false
          → one_or decision.approval_threshold ≤ length (roles_or roles role)
      go [] e = ground arith
      go (x ∷ xs) e = ground arith
