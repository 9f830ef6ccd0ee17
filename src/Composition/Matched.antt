-- ===== src/Composition/Matched.antt =====
-- Which rules a decision lists.
use computational_governance.Prelude.{
  String, ◌≡◌, refl, ap, ◌∙◌, inl, inr, List, [], ◌∷◌, arith, sort_by, Bool-cases, not, any,
  nonempty, nonempty-keep, any-sort_by,
}
use computational_governance.Errors.{ok}
use computational_governance.Delegation.{AuthorityProof}
use computational_governance.Model.{Action, Context, Decision, make_decision, is_empty}
use computational_governance.Rule.{Rule, applies_to, is_applicable}
use computational_governance.Composition.{
  Authority, proof_of, applicable_rules, resolve, evaluate_rules, ids, escalate_decision,
  block_decision,
}

make_decision-eq : (d e : Decision) → make_decision d ≡ ok e → e ≡ d
unfolding make_decision
make_decision-eq d e h = ground arith

resolve-matched :
    (blocking violated : List Rule) (matched : List String) (proof : AuthorityProof) (d : Decision)
    → resolve blocking violated matched proof ≡ ok d
    → d.matched_rules ≡ matched
unfolding resolve block_decision escalate_decision
resolve-matched [] [] matched proof d h =
    ap (λ (x : Decision). x.matched_rules) (make_decision-eq _ d h)
resolve-matched [] (v ∷ vs) matched proof d h =
    ap (λ (x : Decision). x.matched_rules) (make_decision-eq _ d h)
resolve-matched (b ∷ bs) violated matched proof d h =
    ap (λ (x : Decision). x.matched_rules) (make_decision-eq _ d h)

-- A decision lists the ids of the rules that apply, in the order of the ids.
pub evaluate_rules-matched :
    (rules : List Rule) (action : Action) (context : Context) (delegation : Authority)
    (d : Decision)
    → evaluate_rules rules action context delegation ≡ ok d
    → d.matched_rules ≡ ids (applicable_rules rules action)
unfolding evaluate_rules
evaluate_rules-matched rules action context delegation d h =
    elim (Bool-cases (proof_of delegation action context).allowed) [
      | inl granted ↦ resolve-matched _ _ _ (proof_of delegation action context) d (rw granted at h)
      | inr refused ↦
          ap (λ (x : Decision). x.matched_rules) (make_decision-eq _ d (rw refused at h))
    ]

pub is_empty-applicable :
    (rules : List Rule) (action : Action)
    → is_empty (ids (applicable_rules rules action))
      ≡ not (any (λ r. is_applicable (applies_to r action)) rules)
unfolding applicable_rules
is_empty-applicable rules action =
    empty-ids (applicable_rules rules action)
    ∙ ap not (
        nonempty-keep (λ r. is_applicable (applies_to r action)) (sort_by (λ r. r.id) rules)
        ∙ any-sort_by (λ r. is_applicable (applies_to r action)) (λ r. r.id) rules)
  where
    empty-ids : (rs : List Rule) → is_empty (ids rs) ≡ not (nonempty rs)
    empty-ids [] = refl
    empty-ids (r ∷ rs) = refl
