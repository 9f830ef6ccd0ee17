-- ===== src/Runtime.antt =====
-- governance/runtime.py: the tool boundary. An adapter governs a call before its operation runs.
pub mod Invoke
pub mod Mediation
pub mod Once
use computational_governance.Prelude.{
  String, Bool, true, false, Option, none, some, List, [], Dict, if◌then◌else◌, ◌==◌,
}
use computational_governance.Errors.{Exception, runtime_adapter_error, Try, ok, raise}
use computational_governance.Errors
use computational_governance.Json.{Json, obj, field, end, word, bool, optional}
use computational_governance.Model.{Actor, Action, Capability, Value, make_action}
use computational_governance.Approval.{VerifiedIdentity}
use computational_governance.Approval.Manager.{identity_reference}
use computational_governance.Approval.Verifier.{IdentityVerifier}
use computational_governance.Audit.Fingerprints.{params_value}
use computational_governance.Interceptor.{Interceptor, InterceptionResult}

-- An action as it is presented at a tool boundary.
pub record ToolCall : Type 0 where
  pub actor : Actor
  pub capability : Capability
  pub params : Dict Value
  pub request_id : Option String
  pub credential : Option Json

abbrev is_blank : Option String → Bool
is_blank none = false
is_blank (some s) = s == ""

-- `ToolCall(...)`, with the checks of `__post_init__`
unfoldable pub make_call : ToolCall → Try ToolCall
make_call self =
    if self.capability.name == ""
    then raise (runtime_adapter_error "tool call capability cannot be empty")
    else if is_blank self.request_id
    then raise (runtime_adapter_error "request_id cannot be empty")
    else ok self

module _ (digest : Json → String) where
  -- `ToolCall.to_action`
  unfoldable pub to_action : ToolCall → Option VerifiedIdentity → Try Action
  unfolding identity_reference make_action
  to_action self none = make_action self.actor self.capability self.params none []
  to_action self (some identity) =
      make_action self.actor self.capability self.params (some (identity_reference digest identity))
        identity.roles

abbrev credential_present : Option Json → Bool
credential_present none = false
credential_present (some c) = true

-- `ToolCall.to_dict`
unfoldable pub call_dict : ToolCall → Json
unfolding params_value
call_dict self = obj (
    field "actor" (word self.actor.id) (
      field "capability" (word self.capability.name) (
        field "params" (obj (params_value self.params)) (
          field "request_id" (optional self.request_id) (
            field "identity_credential_present" (bool (credential_present self.credential)) end)))))

-- `raise_in_shadow` stands for shadow_error_mode == "raise".
pub record RuntimeAdapter : Type 0 where
  pub interceptor : Interceptor
  pub raise_in_shadow : Bool
  pub identity_verifier : Option IdentityVerifier
  pub completed_request_ids : List String

-- `RuntimeAdapter(...)`
unfoldable pub make_adapter : Interceptor → String → Option IdentityVerifier → Try RuntimeAdapter
make_adapter interceptor shadow_error_mode identity_verifier =
    if shadow_error_mode == "allow"
    then ok (record {
      interceptor = interceptor;
      raise_in_shadow = false;
      identity_verifier = identity_verifier;
      completed_request_ids = [];
    })
    else if shadow_error_mode == "raise"
    then ok (record {
      interceptor = interceptor;
      raise_in_shadow = true;
      identity_verifier = identity_verifier;
      completed_request_ids = [];
    })
    else raise (runtime_adapter_error "shadow_error_mode must be allow or raise")

-- `type(error).__name__`
abbrev pub class_name : Exception → String
class_name (Errors.value_error m) = "ValueError"
class_name (Errors.type_error m) = "TypeError"
class_name Errors.recursion_error = "RecursionError"
class_name (Errors.inheritance_error m) = "InheritanceError"
class_name (Errors.compile_error code m) = "CompileError"
class_name (Errors.delegation_error m) = "DelegationError"
class_name (Errors.approval_error m) = "ApprovalError"
class_name (Errors.runtime_adapter_error m) = "RuntimeAdapterError"
class_name (Errors.identity_error m) = "IdentityError"
class_name (Errors.versioning_error m) = "VersioningError"
class_name (Errors.lifecycle_error m) = "PolicyLifecycleError"
class_name (Errors.parse_error n m) = "ParseError"
class_name (Errors.key_error k) = "KeyError"
class_name Errors.index_error = "IndexError"

-- An invocation: the adapter after it, whether the operation was started, and its result.
pub record Invocation (V : Type 0) : Type 0 where
  pub after : RuntimeAdapter
  pub ran : Bool
  pub result : Try (InterceptionResult V)
