-- ===== src/Composition.antt =====
-- governance/composition.py: evaluation of a rule set to one decision.
pub mod Inheritance
pub mod Decisions
pub mod Matched
use computational_governance.Prelude.{
  ℕ, String, ℤ, Bool, true, false, not, Option, none, some, List, [], ◌∷◌, if◌then◌else◌, ◌==◌,
  ◌<>◌, keep, sort_by, min_from,
}
use computational_governance.Errors.{Try}
use computational_governance.Model.{
  Action, Actor, Capability, Context, Decision, DecisionKind, Disposition, make_decision,
}
use computational_governance.Rule.{
  Rule, Result, ApprovalRequirement, evaluate, applies_to, is_applicable, label,
}
use computational_governance.Delegation.{AuthorityProof}

-- `delegation`: None, or an object whose method `authority_proof` is called.
abbrev pub Authority : Type 0
Authority = Option (Actor → Capability → ℤ → Option String → AuthorityProof)

-- The evidence that an evaluation records; without delegation nothing is refused.
unfoldable pub proof_of : Authority → Action → Context → AuthorityProof
proof_of none action context = record {
  allowed = true;
  source = "";
  path = [];
  reason = "";
  identity_reference = none;
}
proof_of (some authority_proof) action context =
    authority_proof action.actor action.capability context.now action.identity_reference

abbrev pub is_violated : Result → Bool
is_violated Result.violated = true
is_violated _ = false

abbrev pub is_block : Disposition → Bool
is_block Disposition.block = true
is_block Disposition.escalate = false

abbrev pub ids : List Rule → List String
ids [] = []
ids (r ∷ rs) = r.id ∷ ids rs

abbrev later : Option Result → Option Result → Option Result
later (some r) earlier = some r
later none earlier = earlier

abbrev verdict : Option Result → Bool
verdict none = false
verdict (some r) = is_violated r

-- `dict(results)[id]`: of several results with one id, the last counts.
unfoldable pub result_of : String → List Rule → Action → Context → Option Result
result_of id [] action context = none
result_of id (r ∷ rs) action context =
    later (result_of id rs action context)
      (if r.id == id then some (evaluate r action context) else none)

unfoldable pub violates : List Rule → Action → Context → Rule → Bool
violates applicable action context r = verdict (result_of r.id applicable action context)

-- The rules that apply, in the order of their ids.
unfoldable pub applicable_rules : List Rule → Action → List Rule
applicable_rules rules action =
    keep (λ r. is_applicable (applies_to r action)) (sort_by (λ r. r.id) rules)

unfoldable pub violated_rules : List Rule → Action → Context → List Rule
unfolding violates result_of
violated_rules applicable action context = keep (violates applicable action context) applicable

-- The reviewer that an escalation names.
unfoldable pub role_for : Option ApprovalRequirement → Option String → String
role_for (some requirement) single = label requirement
role_for none none = "human-reviewer"
role_for none (some role) = if role == "" then "human-reviewer" else role

abbrev pub quorum_roles : Option ApprovalRequirement → List String
quorum_roles none = []
quorum_roles (some q) = q.roles

abbrev pub quorum_threshold : Option ApprovalRequirement → ℕ
quorum_threshold none = 0
quorum_threshold (some q) = q.threshold

-- A decision that names no reviewer, with the evidence of the check.
abbrev pub plain : DecisionKind → String → List String → AuthorityProof → Decision
plain kind reason matched proof = record {
  kind = kind;
  role = none;
  reason = reason;
  matched_rules = matched;
  authority_source = proof.source;
  authority_path = proof.path;
  approval_roles = [];
  approval_threshold = 0;
}

unfoldable pub block_decision : Rule → List String → AuthorityProof → Try Decision
block_decision chosen matched proof =
    make_decision (plain DecisionKind.block ("blocked by " <> chosen.id) matched proof)

-- The decision that names a reviewer, with the quorum if the rule has one.
abbrev pub escalation : Rule → List String → AuthorityProof → Decision
escalation chosen matched proof =
    let role = role_for chosen.approval_requirement chosen.requires_approval in
    record {
      kind = DecisionKind.escalate;
      role = some role;
      reason = "escalated by " <> chosen.id <> " to " <> role;
      matched_rules = matched;
      authority_source = proof.source;
      authority_path = proof.path;
      approval_roles = quorum_roles chosen.approval_requirement;
      approval_threshold = quorum_threshold chosen.approval_requirement;
    }

unfoldable pub escalate_decision : Rule → List String → AuthorityProof → Try Decision
escalate_decision chosen matched proof = make_decision (escalation chosen matched proof)

abbrev allow_reason : List String → String
allow_reason [] = "no applicable rules"
allow_reason (id ∷ ids) = "all applicable rules satisfied"

-- With no violation the action is allowed; a blocking violation goes before an escalating one, and
-- among those of the chosen kind the smallest id is named.
unfoldable pub resolve : List Rule → List Rule → List String → AuthorityProof → Try Decision
unfolding block_decision escalate_decision
resolve [] [] matched proof =
    make_decision (plain DecisionKind.allow (allow_reason matched) matched proof)
resolve [] (v ∷ vs) matched proof = escalate_decision (min_from (λ r. r.id) v vs) matched proof
resolve (b ∷ bs) violated matched proof = block_decision (min_from (λ r. r.id) b bs) matched proof

unfoldable pub evaluate_rules : List Rule → Action → Context → Authority → Try Decision
unfolding proof_of applicable_rules violated_rules resolve
evaluate_rules rules action context delegation =
    let applicable = applicable_rules rules action in
    let matched = ids applicable in
    let proof = proof_of delegation action context in
    let violated = violated_rules applicable action context in
    if not proof.allowed
    then make_decision (
        plain DecisionKind.block "delegated authority is missing, expired, or revoked" matched
          proof)
    else resolve (keep (λ r. is_block r.disposition) violated) violated matched proof
