-- ===== src/Composition/Inheritance/Tightening.antt =====
-- What a validated child rule keeps of its parent's conditions.
use computational_governance.Prelude.{
  ◌≡◌, refl, Bool, true, false, Option, none, some, arith, subset, Dict, str_dec, subset-contains,
  lt_int, str_le_trans,
}
use computational_governance.Errors.{Try, ok, raise}
use computational_governance.Model.{
  Action, Actor, Context, is_descendant_of, Value, num, string, null, structured,
}
use computational_governance.Model.Capabilities.{is_descendant_of_trans}
use computational_governance.Rule.{
  Rule, Result, Callable, evaluate, applies_to, predicate_fails, approval_missing,
}
use computational_governance.Rule.Predicate.{
  PredicateSpec, Operator, ne, Threshold, number, word, predicate_of, compare, field_value,
}
use computational_governance.Composition.Inheritance.{
  validate_inheritance, is_at_least_as_restrictive, predicate_proven, restricts_on, names_parent,
  opaque_test,
}

-- A comparison that the child's specification passes is passed by the parent's.
compare-restrictive :
    (op : Operator) (v : Value) (p c : Threshold)
    → restricts_on op op p c ≡ ok true
    → compare op v c ≡ true
    → compare op v p ≡ true
unfolding restricts_on compare
compare-restrictive op null p c h k = absurd (cc)
compare-restrictive op (structured j) p c h k = mixed op k
  where
    mixed : (o : Operator) → compare o (structured j) c ≡ true → compare o (structured j) p ≡ true
    mixed ne k = refl
    mixed _ k = cc
compare-restrictive op (num a) (number p) (number c) h k = ground arith
compare-restrictive op (num a) (word p) (word c) h k = k
compare-restrictive op (num a) (number p) (word c) h k = ground arith
compare-restrictive op (num a) (word p) (number c) h k = ground arith
compare-restrictive op (string a) (number p) (number c) h k = k
compare-restrictive op (string a) (word p) (word c) h k =
    ground (arith, str_le_trans a c p, str_le_trans c p a, str_le_trans p c a, str_le_trans a p c)
compare-restrictive op (string a) (number p) (word c) h k = ground arith
compare-restrictive op (string a) (word p) (number c) h k = ground arith

restricts_on_same :
    (op op' : Operator) (p c : Threshold) → restricts_on op op' p c ≡ ok true → op' ≡ op
unfolding restricts_on
restricts_on_same op op' p c h = ground arith

-- The tests that a validated pair has passed.
pub record Validated (parent child : Rule) : Type 0 where
  pub narrows : is_descendant_of child.capability parent.capability ≡ true
  pub authority : lt_int child.min_authority parent.min_authority ≡ false
  pub classes : subset parent.forbidden_classes child.forbidden_classes ≡ true
  pub names : names_parent child.parent_id parent.id ≡ true
  pub proven :
      (b : Bool) × (is_at_least_as_restrictive parent.predicate_spec child.predicate_spec ≡ ok b)
      × (predicate_proven parent child b ≡ true)

pub validate_inheritance-Validated :
    (parent child : Rule) → validate_inheritance parent child ≡ ok tt → Validated parent child
unfolding validate_inheritance
validate_inheritance-Validated parent child h =
    go (is_at_least_as_restrictive parent.predicate_spec child.predicate_spec) refl
  where
    go :
        (r : Try Bool)
        → is_at_least_as_restrictive parent.predicate_spec child.predicate_spec ≡ r
        → Validated parent child
    go (raise e) q = absurd (ground arith)
    go (ok b) q = record {
      narrows = ground arith;
      authority = ground arith;
      classes = ground arith;
      names = ground arith;
      proven = (b, q, ground arith);
    }

-- A rule whose specification, if it has one, describes its predicate, as the parser builds it.
abbrev pub IsCoherent : Option PredicateSpec → Option Callable → Type 0
IsCoherent none p = Unit
IsCoherent (some s) none = ⊥
IsCoherent (some s) (some p) = p.call ≡ predicate_of s

-- Callables that are one object compute the same.
abbrev pub IsOneObject : Option Callable → Option Callable → Type 0
IsOneObject (some p) (some c) = c.ref ≡ p.ref → c.call ≡ p.call
IsOneObject _ _ = Unit

spec-restrictive :
    (s c : PredicateSpec) (b : Bool) (actor : Actor) (params : Dict Value) (context : Context)
    → is_at_least_as_restrictive (some s) (some c) ≡ ok b
    → b ≡ true
    → predicate_of c actor params context ≡ true
    → predicate_of s actor params context ≡ true
unfolding is_at_least_as_restrictive predicate_of
spec-restrictive s c b actor params context h t k = go (str_dec s.field_name c.field_name) refl
  where
    go :
        (d : Dec (s.field_name ≡ c.field_name))
        → str_dec s.field_name c.field_name ≡ d
        → predicate_of s actor params context ≡ true
    go (yes e) q =
        let r : restricts_on s.operator c.operator s.threshold c.threshold ≡ ok true =
          ground arith in
        let o = restricts_on_same s.operator c.operator s.threshold c.threshold r in
        ground (
          arith,
          o,
          e,
          compare-restrictive s.operator (field_value s.field_name actor params context) s.threshold
              c.threshold,
        )
    go (no n) q = absurd (ground arith)

predicate-kept :
    (p : Option Callable) (s : Option PredicateSpec) (cp : Option Callable)
    (cs : Option PredicateSpec) (b : Bool) (action : Action) (context : Context)
    → is_at_least_as_restrictive s cs ≡ ok b
    → opaque_test p s cp b ≡ true
    → IsCoherent s p
    → IsCoherent cs cp
    → IsOneObject p cp
    → predicate_fails cp action context ≡ false
    → predicate_fails p action context ≡ false
unfolding predicate_fails is_at_least_as_restrictive
predicate-kept none s cp cs b action context r t co cc' one k = refl
predicate-kept (some p) none none cs b action context r t co cc' one k = absurd (cc)
predicate-kept (some p) none (some c) cs b action context r t co cc' one k = ground (arith, one)
predicate-kept (some p) (some s) cp none b action context r t co cc' one k = absurd (ground arith)
predicate-kept (some p) (some s) none (some c') b action context r t co cc' one k = absurd cc'
predicate-kept (some p) (some s) (some c) (some c') b action context r t co cc' one k =
    ground (arith, spec-restrictive s c' b action.actor action.params context)

-- Every action that a validated child permits is permitted by its parent's conditions other than
-- approval: for coherent rules, a parent without an approval condition is satisfied by every action
-- that satisfies the child.
pub child-tightens :
    (parent child : Rule) (action : Action) (context : Context)
    → validate_inheritance parent child ≡ ok tt
    → IsCoherent parent.predicate_spec parent.predicate
    → IsCoherent child.predicate_spec child.predicate
    → IsOneObject parent.predicate child.predicate
    → parent.requires_approval ≡ none
    → parent.approval_requirement ≡ none
    → evaluate child action context ≡ Result.satisfied
    → evaluate parent action context ≡ Result.satisfied
unfolding evaluate applies_to approval_missing predicate_proven
child-tightens parent child action context valid co cc' one single quorum h =
    let v = validate_inheritance-Validated parent child valid in
    ground (
      arith,
      v.narrows,
      v.authority,
      v.classes,
      is_descendant_of_trans action.capability child.capability parent.capability,
      subset-contains parent.forbidden_classes child.forbidden_classes action.actor.cls,
      predicate-kept parent.predicate parent.predicate_spec child.predicate child.predicate_spec
          v.proven.0 action context v.proven.1 v.proven.2 co cc' one,
    )
