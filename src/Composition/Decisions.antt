-- ===== src/Composition/Decisions.antt =====
-- What the decision of a rule set says, whatever the order of the rules.
use mathlib.Core.Path.{subst}
use mathlib.Core.List.{Permᴰ}
use text.Mathlib.TextLemmas.{append-eq-nil_iff, cons≢nil}
use computational_governance.Prelude.{
  ℕ, String, ◌≡◌, ◌≢◌, refl, sym, ap, ◌∙◌, inl, inr, Bool, true, false, Option, none, some, List,
  [], ◌∷◌, arith, In, All, keep, sort_by, min_from, DistinctKeys, sort_by-Permᴰ, if◌then◌else◌,
  ◌==◌, ==_false, str_dec, Bool-cases, ◌≤◌, not, ◌&&◌, any, distinct, length, nonempty,
  nonempty-keep, any-keep, any_cong, any-sort_by, DistinctKeys-sort_by, DistinctKeys-keep,
  All-sort_by, any-true, min_from-In, All-In, All-keep,
}
use computational_governance.Errors.{ok}
use computational_governance.Delegation.{AuthorityProof}
use computational_governance.Model.{
  Action, Context, Decision, DecisionKind, make_decision, is_escalate,
}
use computational_governance.Rule.{
  label, Rule, ApprovalRequirement, evaluate, applies_to, is_applicable,
}
use computational_governance.Composition.{
  Authority, proof_of, applicable_rules, violated_rules, violates, resolve, evaluate_rules, ids,
  is_block, is_violated, result_of, plain, escalation, role_for, escalate_decision,
}

-- The decision does not depend on the order in which the rules are given, if their ids differ.
pub evaluate_rules-Permᴰ :
    (rules rules' : List Rule) (action : Action) (context : Context) (delegation : Authority)
    → Permᴰ rules rules'
    → DistinctKeys (λ r. r.id) rules
    → evaluate_rules rules action context delegation
      ≡ evaluate_rules rules' action context delegation
unfolding evaluate_rules
evaluate_rules-Permᴰ rules rules' action context delegation p d = rw (sort_by-Permᴰ (λ r. r.id) p d)

-- A quorum as `ApprovalRequirement` admits it.
abbrev pub IsQuorum : ApprovalRequirement → Type 0
IsQuorum q =
    (q.roles ≢ []) × (distinct q.roles ≡ true) × (1 ≤ q.threshold) × (q.threshold ≤ length q.roles)

abbrev pub HasQuorum : Option ApprovalRequirement → Type 0
HasQuorum none = Unit
HasQuorum (some q) = IsQuorum q

abbrev pub has_violation : Action → Context → Rule → Bool
has_violation action context r = is_violated (evaluate r action context)

abbrev pub has_blocking : Action → Context → Rule → Bool
has_blocking action context r = is_violated (evaluate r action context) && is_block r.disposition

-- The decision in terms of the rules alone: no order, no filter and no table of results.
abbrev pub expected_kind : List Rule → Action → Context → Authority → DecisionKind
expected_kind rules action context delegation =
    if not (proof_of delegation action context).allowed
    then DecisionKind.block
    else if any (has_blocking action context) rules
    then DecisionKind.block
    else if any (has_violation action context) rules
    then DecisionKind.escalate
    else DecisionKind.allow

result_of_absent :
    (id : String) (rs : List Rule) (action : Action) (context : Context)
    → All (λ y. id ≢ y.id) rs
    → result_of id rs action context ≡ none
unfolding result_of
result_of_absent id [] action context h = refl
result_of_absent id (r ∷ rs) action context h =
    ground (arith, result_of_absent id rs action context h.1, h.0)

result_of_member :
    (r : Rule) (rs : List Rule) (action : Action) (context : Context)
    → DistinctKeys (λ r. r.id) rs
    → In r rs
    → result_of r.id rs action context ≡ some (evaluate r action context)
unfolding result_of
result_of_member r [] action context d m = absurd m
result_of_member r (x ∷ rs) action context d (inl e) =
    ground (arith, result_of_absent x.id rs action context d.0)
result_of_member r (x ∷ rs) action context d (inr m) =
    ground (arith, result_of_member r rs action context d.1 m)

module _ (rules : List Rule) (action : Action) (context : Context)
    (distinct_ids : DistinctKeys (λ r. r.id) rules) where
  violates-eq :
      (r : Rule)
      → In r (applicable_rules rules action)
      → violates (applicable_rules rules action) action context r ≡ has_violation action context r
  unfolding violates applicable_rules
  violates-eq r m = ground (
    arith,
    result_of_member r (applicable_rules rules action) action context
        (DistinctKeys-keep (λ r. r.id) (λ r. is_applicable (applies_to r action)) _
          (DistinctKeys-sort_by (λ r. r.id) rules distinct_ids))
        m,
  )

  -- A rule that does not apply is not violated.
  applies_of_violation :
      (q : Bool) (r : Rule)
      → (is_applicable (applies_to r action) && (has_violation action context r && q))
        ≡ (has_violation action context r && q)
  unfolding evaluate
  applies_of_violation q r = ground arith

  any_applicable :
      (b : Rule → Bool)
      → any (λ r. has_violation action context r && b r) (applicable_rules rules action)
        ≡ any (λ r. has_violation action context r && b r) rules
  unfolding applicable_rules
  any_applicable b =
      any-keep (λ r. has_violation action context r && b r)
        (λ r. is_applicable (applies_to r action)) (sort_by (λ r. r.id) rules)
      ∙ any_cong _ _ (sort_by (λ r. r.id) rules) (λ r m. applies_of_violation (b r) r)
      ∙ any-sort_by (λ r. has_violation action context r && b r) (λ r. r.id) rules

  any_violated :
      (b : Rule → Bool)
      → any b (violated_rules (applicable_rules rules action) action context)
        ≡ any (λ r. has_violation action context r && b r) rules
  unfolding violated_rules
  any_violated b =
      any-keep b (violates (applicable_rules rules action) action context)
        (applicable_rules rules action)
      ∙ any_cong _ _ (applicable_rules rules action) (λ r m. ap (λ v. v && b r) (violates-eq r m))
      ∙ any_applicable b

make_decision-plain :
    (kind : DecisionKind) (reason : String) (matched : List String) (proof : AuthorityProof)
    → is_escalate kind ≡ false
    → make_decision (plain kind reason matched proof) ≡ ok (plain kind reason matched proof)
unfolding make_decision
make_decision-plain kind reason matched proof h = ground arith

human-reviewer_nonblank : ("human-reviewer" == "") ≡ false
unfolding str_dec
human-reviewer_nonblank = refl

label_nonblank : (q : ApprovalRequirement) → label q ≢ ""
unfolding label
label_nonblank q h = cons≢nil ((append-eq-nil_iff.0 h).0)

role_for_nonblank :
    (q : Option ApprovalRequirement) (single : Option String) → (role_for q single == "") ≡ false
unfolding role_for
role_for_nonblank (some q) single = ==_false (label q) "" (label_nonblank q)
role_for_nonblank none none = human-reviewer_nonblank
role_for_nonblank none (some s) = ground (arith, human-reviewer_nonblank)

escalate_decision_returns :
    (chosen : Rule) (matched : List String) (proof : AuthorityProof)
    → HasQuorum chosen.approval_requirement
    → escalate_decision chosen matched proof ≡ ok (escalation chosen matched proof)
unfolding escalate_decision make_decision
escalate_decision_returns chosen matched proof h =
    ground (arith, role_for_nonblank chosen.approval_requirement chosen.requires_approval)

resolve_returns :
    (blocking violated : List Rule) (matched : List String) (proof : AuthorityProof)
    → All (λ r. HasQuorum r.approval_requirement) violated
    → (d : Decision) × (resolve blocking violated matched proof ≡ ok d)
      × (d.kind ≡ (
          if nonempty blocking
          then DecisionKind.block
          else if nonempty violated
          then DecisionKind.escalate
          else DecisionKind.allow))
unfolding resolve
resolve_returns [] [] matched proof h =
    (_, make_decision-plain DecisionKind.allow _ matched proof refl, refl)
resolve_returns [] (v ∷ vs) matched proof h = (
  _,
  escalate_decision_returns (min_from (λ r. r.id) v vs) matched proof (
      All-In (λ r. HasQuorum r.approval_requirement) _ (v ∷ vs)
        (λ x e p. subst (λ r. HasQuorum r.approval_requirement) (sym e) p) h
        (min_from-In (λ r. r.id) v vs)),
  refl,
)
resolve_returns (b ∷ bs) violated matched proof h =
    (_, make_decision-plain DecisionKind.block _ matched proof refl, refl)

module _ (rules : List Rule) (action : Action) (context : Context) where
  abbrev violated_of : List Rule
  violated_of = violated_rules (applicable_rules rules action) action context

  quorums_kept :
      All (λ r. HasQuorum r.approval_requirement) rules
      → All (λ r. HasQuorum r.approval_requirement) violated_of
  unfolding violated_rules applicable_rules
  quorums_kept h =
      All-keep _ (violates (applicable_rules rules action) action context) _ (
        All-keep _ (λ r. is_applicable (applies_to r action)) _ (All-sort_by (λ r. r.id) _ rules h))

  blocking_nonempty :
      DistinctKeys (λ r. r.id) rules
      → nonempty (keep (λ r. is_block r.disposition) violated_of)
        ≡ any (has_blocking action context) rules
  blocking_nonempty h =
      nonempty-keep (λ r. is_block r.disposition) violated_of
      ∙ any_violated rules action context h (λ r. is_block r.disposition)

  violated_nonempty :
      DistinctKeys (λ r. r.id) rules
      → nonempty violated_of ≡ any (has_violation action context) rules
  violated_nonempty h =
      sym (any-true violated_of)
      ∙ any_violated rules action context h (λ r. true)
      ∙ any_cong _ _ rules (λ r m. ground arith)

module _ (rules : List Rule) (action : Action) (context : Context) (delegation : Authority) where
  -- For rules with distinct ids and well-formed quorums the evaluation returns, and its kind is
  -- Block when authority is refused or a blocking rule is violated, else Escalate when some rule is
  -- violated, else Allow.
  pub evaluate_rules_decides :
      DistinctKeys (λ r. r.id) rules
      → All (λ r. HasQuorum r.approval_requirement) rules
      → (d : Decision) × (evaluate_rules rules action context delegation ≡ ok d)
        × (d.kind ≡ expected_kind rules action context delegation)
  unfolding evaluate_rules
  evaluate_rules_decides distinct_ids quorums =
      elim (Bool-cases (proof_of delegation action context).allowed) [
        | inl granted ↦
            let (d, e, k) =
              resolve_returns
                (keep (λ r. is_block r.disposition) (violated_of rules action context))
                (violated_of rules action context) (ids (applicable_rules rules action))
                (proof_of delegation action context) (quorums_kept rules action context quorums) in
            rw granted (
              d,
              e,
              cc (
                k,
                blocking_nonempty rules action context distinct_ids,
                violated_nonempty rules action context distinct_ids,
              ),
            )
        | inr refused ↦ rw refused (
          _,
          make_decision-plain DecisionKind.block _ _ (proof_of delegation action context) refl,
          refl,
        )
      ]

-- `_SEVERITY`: Block over Escalate over Allow.
abbrev pub severity : DecisionKind → ℕ
severity DecisionKind.allow = 0
severity DecisionKind.escalate = 1
severity DecisionKind.block = 2

-- A rule that is added to a rule set, with a new id and a well-formed quorum, never makes the
-- decision less severe.
pub added_rule_tightens :
    (r : Rule) (rules : List Rule) (action : Action) (context : Context) (delegation : Authority)
    (before after : Decision)
    → DistinctKeys (λ r. r.id) (r ∷ rules)
    → All (λ r. HasQuorum r.approval_requirement) (r ∷ rules)
    → evaluate_rules rules action context delegation ≡ ok before
    → evaluate_rules (r ∷ rules) action context delegation ≡ ok after
    → severity before.kind ≤ severity after.kind
added_rule_tightens r rules action context delegation before after distinct_ids quorums e e' =
    ground (
      arith,
      evaluate_rules_decides rules action context delegation distinct_ids.1 quorums.1,
      evaluate_rules_decides (r ∷ rules) action context delegation distinct_ids quorums,
    )
