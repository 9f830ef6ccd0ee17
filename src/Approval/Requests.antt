-- ===== src/Approval/Requests.antt =====
-- governance/approval.py: `request`, `approve`, `deny` and `prepare_resume`.
use computational_governance.Prelude.{
  ℕ, suc, String, ℤ, pos, ◌+ℤ◌, true, false, ◌&&◌, ◌||◌, not, Option, none, some, List, [], ◌∷◌,
  ◌++◌, if◌then◌else◌, ◌==◌, ◌<>◌, length, contains, leb, le_int, is_some,
}
use computational_governance.Decimal.{pad4}
use computational_governance.Errors.{approval_error, Try, ok, raise, ◌>>=◌, ◌>>◌}
use computational_governance.Json.{Json}
use computational_governance.Model.{Action, Context, Decision, is_escalate}
use computational_governance.Compiler.{CompiledPolicy}
use computational_governance.Delegation.{DelegationGraph}
use computational_governance.Audit.Fingerprints.{
  action_fingerprint, context_fingerprint, policy_fingerprint, state_fingerprint,
}
use computational_governance.Approval.{
  pending, approved, denied, ApprovalRequest, ApprovalManager, VerifiedIdentity,
}
use computational_governance.Approval.Manager.{
  is_pending, is_approved, default_to, store, with_request, role_error, wrong_state, reviewer,
  check_binding,
}

-- `x or y` on a tuple of roles and on a threshold.
abbrev pub roles_or : List String → String → List String
roles_or [] role = role ∷ []
roles_or (r ∷ rs) role = r ∷ rs

abbrev pub one_or : ℕ → ℕ
one_or n = if leb 1 n then n else 1

-- `vote_identity_references` after a vote.
abbrev pub add_reference : String → Option String → List (String × String) → List (String × String)
add_reference role none references = references
add_reference role (some reference) references = references ++ (role, reference) ∷ []

-- The request after a vote.
unfoldable pub add_vote : String → Option String → ApprovalRequest → ApprovalRequest
add_vote role reference request = record request {
  votes = request.votes ++ role ∷ [];
  vote_identity_references = add_reference role reference request.vote_identity_references;
  state =
      if leb request.threshold (length (request.votes ++ role ∷ []))
      then approved
      else request.state;
}

module _ (digest : Json → String) where
  unfoldable pub new_request :
      ApprovalManager
      → Decision
      → String
      → CompiledPolicy
      → Action
      → Context
      → Option DelegationGraph
      → ℤ
      → ℤ
      → ApprovalRequest
  unfolding action_fingerprint context_fingerprint policy_fingerprint state_fingerprint
  new_request self decision role policy action context delegation created_at ttl = record {
    id = (self.request_prefix <> "-") <> pad4 self.next_id;
    role = role;
    action_fingerprint = action_fingerprint digest action;
    context_fingerprint = context_fingerprint digest context;
    policy_fingerprint = policy_fingerprint digest policy;
    state_fingerprint = state_fingerprint digest policy delegation;
    matched_rules = decision.matched_rules;
    created_at = created_at;
    expires_at = created_at +ℤ ttl;
    required_roles = roles_or decision.approval_roles role;
    threshold = one_or decision.approval_threshold;
    votes = [];
    state = pending;
    consumed = false;
    identity_reference = action.identity_reference;
    vote_identity_references = [];
    denial_identity_reference = none;
  }

  -- `request`: the checks, in their order, then the new entry.
  unfoldable pub request_for :
      ApprovalManager
      → Decision
      → Option String
      → CompiledPolicy
      → Action
      → Context
      → Option DelegationGraph
      → Option ℤ
      → Option ℤ
      → ApprovalManager × Try ApprovalRequest
  unfolding new_request
  request_for self decision none policy action context delegation now ttl =
      (self, raise (approval_error "only Escalate decisions can create approval requests"))
  request_for self decision (some role) policy action context delegation now ttl =
      if not (is_escalate decision.kind) || role == ""
      then (self, raise (approval_error "only Escalate decisions can create approval requests"))
      else if self.require_identity && not (is_some action.identity_reference)
      then (self, raise (approval_error "authenticated requester identity is required"))
      else if le_int (default_to self.ttl ttl) (pos 0)
      then (self, raise (approval_error "approval ttl must be positive"))
      else let fresh =
          new_request self decision role policy action context delegation
            (default_to context.now now) (default_to self.ttl ttl) in
        (store fresh.id fresh (record self { next_id = suc self.next_id }), ok fresh)

  unfoldable pub request :
      ApprovalManager
      → Decision
      → CompiledPolicy
      → Action
      → Context
      → Option DelegationGraph
      → Option ℤ
      → Option ℤ
      → ApprovalManager × Try ApprovalRequest
  unfolding request_for
  request self decision policy action context delegation now ttl =
      request_for self decision decision.role policy action context delegation now ttl

  -- What `approve` does with the request it read.
  unfoldable pub vote :
      ApprovalManager
      → String
      → CompiledPolicy
      → Action
      → Context
      → Option DelegationGraph
      → Option ℤ
      → Option VerifiedIdentity
      → ApprovalRequest
      → Try ApprovalRequest
  unfolding reviewer check_binding add_vote role_error
  vote self role policy action context delegation now identity request =
      if not (is_pending request.state)
      then wrong_state request
      else if not (contains request.required_roles role)
      then raise (approval_error (role_error request))
      else if contains request.votes role
      then raise (approval_error ("role " <> role <> " has already voted on " <> request.id))
      else reviewer digest self request role now identity >>= λ reference.
          check_binding digest request policy action context delegation
          >> ok (add_vote role reference request)

  unfoldable pub approve :
      ApprovalManager
      → String
      → String
      → CompiledPolicy
      → Action
      → Context
      → Option DelegationGraph
      → Option ℤ
      → Option VerifiedIdentity
      → ApprovalManager × Try ApprovalRequest
  unfolding with_request vote
  approve self request_id role policy action context delegation now identity =
      with_request self request_id now
        (vote self role policy action context delegation now identity)

  -- What `deny` does with the request it read.
  unfoldable pub veto :
      ApprovalManager
      → String
      → Option ℤ
      → Option VerifiedIdentity
      → ApprovalRequest
      → Try ApprovalRequest
  unfolding reviewer role_error
  veto self role now identity request =
      if not (is_pending request.state)
      then wrong_state request
      else if not (contains request.required_roles role)
      then raise (approval_error (role_error request))
      else reviewer digest self request role now identity >>= λ reference. ok (record request {
        state = denied;
        denial_identity_reference =
            if is_some reference then reference else request.denial_identity_reference;
      })

  unfoldable pub deny :
      ApprovalManager
      → String
      → String
      → Option ℤ
      → Option VerifiedIdentity
      → ApprovalManager × Try ApprovalRequest
  unfolding with_request veto
  deny self request_id role now identity =
      with_request self request_id now (veto self role now identity)

  -- What `prepare_resume` does with the request it read.
  unfoldable pub consume :
      CompiledPolicy
      → Action
      → Context
      → Option DelegationGraph
      → ApprovalRequest
      → Try ApprovalRequest
  unfolding check_binding
  consume policy action context delegation request =
      if not (is_approved request.state)
      then wrong_state request
      else if request.consumed
      then raise
          (approval_error ("approval request " <> request.id <> " has already been consumed"))
      else check_binding digest request policy action context delegation
        >> ok (record request { consumed = true })

  unfoldable pub prepare_resume :
      ApprovalManager
      → String
      → CompiledPolicy
      → Action
      → Context
      → Option DelegationGraph
      → Option ℤ
      → ApprovalManager × Try ApprovalRequest
  unfolding with_request consume
  prepare_resume self request_id policy action context delegation now =
      with_request self request_id now (consume policy action context delegation)
