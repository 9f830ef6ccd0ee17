-- ===== src/Approval/Manager.antt =====
-- governance/approval.py: the methods of `ApprovalManager`. Each returns the manager after the call,
-- also where it raises: a request that is read after its expiry is marked expired either way.
use computational_governance.Prelude.{
  String, ℤ, pos, Bool, true, false, ◌&&◌, ◌||◌, not, Option, none, some, List, [], ◌∷◌, ◌++◌,
  if◌then◌else◌, ◌==◌, ◌<>◌, lookup, insert, contains, le_int, lt_int,
}
use mathlib.Core.List.{map}
use computational_governance.Decimal.{repr}
use computational_governance.Errors.{approval_error, value_error, Try, ok, raise, ◌>>=◌, refuse_if}
use computational_governance.Json.{Json, obj, field, end, word, arr, texts}
use computational_governance.Model.{Action, Context, is_empty}
use computational_governance.Compiler.{CompiledPolicy}
use computational_governance.Delegation.{DelegationGraph}
use computational_governance.Audit.Fingerprints.{
  action_fingerprint, context_fingerprint, policy_fingerprint, state_fingerprint,
}
use computational_governance.Approval.{
  ApprovalState, pending, approved, denied, expired, ApprovalRequest, ApprovalManager,
  VerifiedIdentity,
}

-- `ApprovalManager(...)`
unfoldable pub make_manager : ℤ → String → Bool → Try ApprovalManager
make_manager ttl request_prefix require_identity =
    if le_int ttl (pos 0)
    then raise (value_error "approval ttl must be positive")
    else if request_prefix == ""
    then raise (value_error "approval request prefix cannot be empty")
    else ok (record {
      ttl = ttl;
      request_prefix = request_prefix;
      require_identity = require_identity;
      next_id = 1;
      requests = [];
    })

abbrev pub state_value : ApprovalState → String
state_value pending = "pending"
state_value approved = "approved"
state_value denied = "denied"
state_value expired = "expired"

abbrev pub is_pending : ApprovalState → Bool
is_pending pending = true
is_pending _ = false

abbrev pub is_approved : ApprovalState → Bool
is_approved approved = true
is_approved _ = false

-- `x if y is None else y`
abbrev pub default_to : ℤ → Option ℤ → ℤ
default_to x none = x
default_to x (some y) = y

-- The request after `_get` has looked at the clock.
unfoldable pub expire_due : Option ℤ → ApprovalRequest → ApprovalRequest
expire_due now request =
    if not request.consumed
      && (is_pending request.state || is_approved request.state)
      && le_int request.expires_at (default_to request.created_at now)
    then record request { state = expired }
    else request

-- The request is an object that the manager holds under its id: a change of it is a change there.
abbrev pub store : String → ApprovalRequest → ApprovalManager → ApprovalManager
store request_id request self = record self { requests = insert request_id request self.requests }

unfoldable pub found :
    ApprovalManager
    → String
    → Option ℤ
    → Option ApprovalRequest
    → ApprovalManager × Try ApprovalRequest
unfolding expire_due
found self request_id now none =
    (self, raise (approval_error ("unknown approval request " <> request_id)))
found self request_id now (some request) =
    (store request_id (expire_due now request) self, ok (expire_due now request))

-- `_get`
unfoldable pub get : ApprovalManager → String → Option ℤ → ApprovalManager × Try ApprovalRequest
unfolding found
get self request_id now = found self request_id now (lookup request_id self.requests)

-- A method body changes the request after all its checks.
unfoldable pub finish :
    ApprovalManager → String → Try ApprovalRequest → ApprovalManager × Try ApprovalRequest
finish self request_id (raise problem) = (self, raise problem)
finish self request_id (ok after) = (store request_id after self, ok after)

unfoldable pub changed :
    String
    → (ApprovalRequest → Try ApprovalRequest)
    → ApprovalManager × Try ApprovalRequest
    → ApprovalManager × Try ApprovalRequest
unfolding finish
changed request_id body (self, raise problem) = (self, raise problem)
changed request_id body (self, ok request) = finish self request_id (body request)

-- `_get`, then the body.
unfoldable pub with_request :
    ApprovalManager
    → String
    → Option ℤ
    → (ApprovalRequest → Try ApprovalRequest)
    → ApprovalManager × Try ApprovalRequest
unfolding get changed
with_request self request_id now body = changed request_id body (get self request_id now)

-- `", ".join(...)`
abbrev pub join_comma : List String → String
join_comma [] = ""
join_comma (s ∷ []) = s
join_comma (s ∷ t ∷ ss) = s <> ", " <> join_comma (t ∷ ss)

unfoldable pub role_error : ApprovalRequest → String
role_error request = go request.required_roles
  where
    go : List String → String
    go (role ∷ []) = "approval request " <> request.id <> " requires role " <> role
    go roles =
        "approval request "
        <> request.id
        <> " requires one of ("
        <> join_comma (map repr roles)
        <> ")"

-- `raise ApprovalError(f"approval request {request.id} is {request.state.value}")`
abbrev pub wrong_state : ApprovalRequest → Try ApprovalRequest
wrong_state request =
    raise
      (approval_error ("approval request " <> request.id <> " is " <> state_value request.state))

module _ (digest : Json → String) where
  unfoldable pub identity_reference : VerifiedIdentity → String
  identity_reference self = digest (
      obj (
        field "trust_domain" (word self.trust_domain) (
          field "subject" (word self.subject)
            (field "issuer" (word self.issuer) (field "roles" (arr (texts self.roles)) end)))))

  -- `is_valid_at`
  abbrev pub is_valid_at : VerifiedIdentity → ℤ → Bool
  is_valid_at self now = le_int self.issued_at now && lt_int now self.expires_at

  unfoldable pub validate_identity : VerifiedIdentity → String → ℤ → Try String
  unfolding identity_reference
  validate_identity identity role current =
      if not identity.verified
      then raise (approval_error "approver identity must be provider-verified")
      else if not (is_valid_at identity current)
      then raise (approval_error "authenticated approver identity is expired")
      else if not (contains identity.roles role) || identity_reference identity == ""
      then raise (approval_error ("authenticated identity is not authorized for role " <> role))
      else ok (identity_reference identity)

  -- The reference of the reviewer, where an identity is presented.
  unfoldable pub reviewer :
      ApprovalManager
      → ApprovalRequest
      → String
      → Option ℤ
      → Option VerifiedIdentity
      → Try (Option String)
  unfolding validate_identity
  reviewer self request role now none =
      if self.require_identity
      then raise (approval_error "authenticated approver identity is required")
      else ok none
  reviewer self request role now (some identity) =
      validate_identity identity role (default_to request.created_at now) >>= λ reference.
      ok (some reference)

  -- The names of the fingerprints that differ.
  unfoldable pub mismatches :
      ApprovalRequest → CompiledPolicy → Action → Context → Option DelegationGraph → List String
  unfolding action_fingerprint context_fingerprint policy_fingerprint state_fingerprint
  mismatches request policy action context delegation =
      (if request.action_fingerprint == action_fingerprint digest action then [] else "action" ∷ [])
      ++ (if request.context_fingerprint == context_fingerprint digest context
          then []
          else "context" ∷ [])
      ++ (if request.policy_fingerprint == policy_fingerprint digest policy
          then []
          else "policy" ∷ [])
      ++ (if request.state_fingerprint == state_fingerprint digest policy delegation
          then []
          else "state" ∷ [])

  unfoldable pub check_binding :
      ApprovalRequest → CompiledPolicy → Action → Context → Option DelegationGraph → Try (Unit {0})
  unfolding mismatches
  check_binding request policy action context delegation =
      let changes = mismatches request policy action context delegation in
      refuse_if (not (is_empty changes)) (
        approval_error
          ("approval request " <> request.id <> " is bound to changed " <> join_comma changes))
