-- ===== src/Model.antt =====
-- governance/model.py: actors, capabilities, actions, contexts and decisions.
pub mod Capabilities
use text.Mathlib.Text.{starts_with}
use computational_governance.Prelude.{
  ℕ, String, ℤ, Bool, true, false, ◌||◌, ◌&&◌, not, Option, none, some, List, [], ◌∷◌, ◌++◌, Dict,
  if◌then◌else◌, ◌==◌, ◌<>◌, contains, distinct, any, sort_by, ltb, length,
}
use computational_governance.Json.{Json}
use computational_governance.Errors.{Try, ok, raise, value_error}

-- What a rule does when its predicate fails.
pub data Disposition : Type 0 where
  block escalate : Disposition

pub data DecisionKind : Type 0 where
  allow block escalate : DecisionKind

-- A value that a caller puts into `params`. `structured` holds a list or a dict, which compares with
-- neither a number nor a text. Booleans are the numbers 0 and 1, as Python compares them.
pub data Value : Type 0 where
  num : ℤ → Value
  string : String → Value
  null : Value
  structured : Json → Value

pub record Decision : Type 0 where
  pub kind : DecisionKind
  pub role : Option String
  pub reason : String
  pub matched_rules : List String
  pub authority_source : String
  pub authority_path : List String
  pub approval_roles : List String
  pub approval_threshold : ℕ

abbrev pub is_escalate : DecisionKind → Bool
is_escalate escalate = true
is_escalate _ = false

abbrev pub is_allow : DecisionKind → Bool
is_allow allow = true
is_allow _ = false

-- The truth value of an optional text: neither None nor "".
abbrev pub truthy : Option String → Bool
truthy none = false
truthy (some s) = not (s == "")

abbrev pub is_empty : List String → Bool
is_empty [] = true
is_empty (x ∷ xs) = false

-- `Decision(...)`, with the checks of `__post_init__`.
unfoldable pub make_decision : Decision → Try Decision
make_decision d =
    if is_escalate d.kind && not (truthy d.role)
    then raise (value_error "Escalate decision requires a role")
    else if not (is_escalate d.kind) && truthy d.role
    then raise (value_error "role is only valid for Escalate decisions")
    else if not (is_escalate d.kind)
        && (not (is_empty d.approval_roles) || ltb 0 d.approval_threshold)
    then raise (value_error "approval quorum is only valid for Escalate decisions")
    else if not (is_empty d.approval_roles)
    then if not (distinct d.approval_roles)
      then raise (value_error "approval roles must be distinct")
      else if ltb d.approval_threshold 1 || ltb (length d.approval_roles) d.approval_threshold
      then raise (value_error "approval threshold must be within approval role count")
      else ok d
    else if ltb 0 d.approval_threshold
    then raise (value_error "approval threshold requires approval roles")
    else ok d

pub record Actor : Type 0 where
  pub id : String
  pub authority_level : ℤ
  pub cls : String
  pub capabilities : List String

pub record Capability : Type 0 where
  pub name : String

-- "payment" is an ancestor of "payment.send".
unfoldable pub is_descendant_of : Capability → Capability → Bool
is_descendant_of self other = self.name == other.name || starts_with self.name (other.name <> ".")

pub record Action : Type 0 where
  pub actor : Actor
  pub capability : Capability
  pub params : Dict Value
  pub identity_reference : Option String
  pub identity_roles : List String

-- `reference == ""`
abbrev is_blank : Option String → Bool
is_blank none = false
is_blank (some s) = s == ""

-- `Action(...)`, with the checks of `__post_init__`; the roles are kept sorted.
unfoldable pub make_action :
    Actor → Capability → Dict Value → Option String → List String → Try Action
make_action actor capability params reference roles =
    if is_blank reference
    then raise (value_error "identity reference cannot be empty")
    else if any (λ role. role == "") roles
    then raise (value_error "identity roles must be non-empty strings")
    else if not (distinct roles)
    then raise (value_error "identity roles must be distinct")
    else ok (record {
      actor = actor;
      capability = capability;
      params = params;
      identity_reference = reference;
      identity_roles = sort_by (λ role. role) roles;
    })

pub record Context : Type 0 where
  pub budget_used : ℤ
  pub prior_approvals : List String
  pub now : ℤ

-- The next context after a human approval.
unfoldable pub with_approval : Context → String → Context
with_approval self role = if contains self.prior_approvals role then self else record {
  budget_used = self.budget_used;
  prior_approvals = self.prior_approvals ++ role ∷ [];
  now = self.now;
}
