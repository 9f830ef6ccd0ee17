-- ===== src/Rule.antt =====
-- governance/rule.py, and the comparison predicates that governance/parser.py builds.
pub mod Predicate
use computational_governance.Prelude.{
  ℕ, suc, String, ℤ, Bool, true, false, ◌||◌, ◌&&◌, not, Option, none, some, List, [], ◌∷◌, Dict,
  if◌then◌else◌, ◌==◌, ◌<>◌, contains, distinct, any, sort_by, ltb, lt_int, length,
}
use computational_governance.Decimal.{str}
use computational_governance.Errors.{Try, ok, raise, value_error}
use computational_governance.Model.{
  Actor, Action, Capability, Context, Disposition, Value, is_descendant_of,
}
use Predicate.{PredicateSpec}

-- The outcome of evaluating one applicable rule.
pub data Result : Type 0 where
  satisfied violated not_applicable : Result

pub data Applicability : Type 0 where
  applies not_applicable : Applicability

-- A callable: `ref` is the identity of the object, which `is` compares, and `call` what it computes.
pub record Callable : Type 0 where
  pub ref : ℕ
  pub call : Actor → Dict Value → Context → Bool

-- A distinct-reviewer quorum attached to one rule.
pub record ApprovalRequirement : Type 0 where
  pub roles : List String
  pub threshold : ℕ

-- `ApprovalRequirement(...)`, with the checks of `__post_init__`.
unfoldable pub make_requirement : List String → ℕ → Try ApprovalRequirement
make_requirement [] threshold = raise (value_error "approval quorum requires named roles")
make_requirement (r ∷ rs) threshold =
    if any (λ role. role == "") (r ∷ rs)
    then raise (value_error "approval quorum requires named roles")
    else if not (distinct (r ∷ rs))
    then raise (value_error "approval quorum roles must be distinct")
    else if ltb threshold 1 || ltb (length (r ∷ rs)) threshold
    then raise (value_error "approval quorum threshold must be within role count")
    else ok (record { roles = r ∷ rs; threshold = threshold })

unfoldable pub label : ApprovalRequirement → String
label self = "quorum(" <> str self.threshold <> "/" <> str (length self.roles) <> ")"

pub record Rule : Type 0 where
  pub id : String
  pub capability : Capability
  pub min_authority : ℤ
  pub disposition : Disposition
  pub requires_approval : Option String
  pub approval_requirement : Option ApprovalRequirement
  pub predicate : Option Callable
  pub forbidden_classes : List String
  pub predicate_spec : Option PredicateSpec
  pub parent_id : Option String

unfoldable pub applies_to : Rule → Action → Applicability
applies_to self action =
    if is_descendant_of action.capability self.capability
    then Applicability.applies
    else Applicability.not_applicable

abbrev pub is_applicable : Applicability → Bool
is_applicable Applicability.applies = true
is_applicable Applicability.not_applicable = false

-- `sum(role in approvals for role in roles)`
unfoldable pub count_approved : List String → List String → ℕ
count_approved approvals [] = 0
count_approved approvals (r ∷ rs) =
    let rest = count_approved approvals rs in if contains approvals r then suc rest else rest

-- The approval condition: the quorum if there is one, else the single role.
unfoldable pub approval_missing : Option ApprovalRequirement → Option String → List String → Bool
approval_missing (some q) single approvals = ltb (count_approved approvals q.roles) q.threshold
approval_missing none none approvals = false
approval_missing none (some role) approvals = not (role == "") && not (contains approvals role)

-- `predicate is not None and not predicate(actor, params, context)`
unfoldable pub predicate_fails : Option Callable → Action → Context → Bool
predicate_fails none action context = false
predicate_fails (some p) action context = not (p.call action.actor action.params context)

-- Single-rule semantics.
unfoldable pub evaluate : Rule → Action → Context → Result
evaluate self action context =
    if not (is_applicable (applies_to self action))
    then Result.not_applicable
    else if lt_int action.actor.authority_level self.min_authority
    then Result.violated
    else if contains self.forbidden_classes action.actor.cls
    then Result.violated
    else if predicate_fails self.predicate action context
    then Result.violated
    else if approval_missing self.approval_requirement self.requires_approval
        context.prior_approvals
    then Result.violated
    else Result.satisfied

-- The condition portion of a rule, excluding its disposition.
pub record Signature : Type 0 where
  pub capability : String
  pub min_authority : ℤ
  pub predicate : Option PredicateSpec
  pub forbidden_classes : List String
  pub requires_approval : Option String
  pub approval_requirement : Option ApprovalRequirement

unfoldable pub semantic_signature : Rule → Signature
semantic_signature self = record {
  capability = self.capability.name;
  min_authority = self.min_authority;
  predicate = self.predicate_spec;
  forbidden_classes = sort_by (λ c. c) self.forbidden_classes;
  requires_approval = self.requires_approval;
  approval_requirement = self.approval_requirement;
}
