-- ===== src/Composition/Inheritance.antt =====
-- governance/composition.py: parent and child rules.
pub mod Tightening
pub mod Graph
pub mod Union
use computational_governance.Prelude.{
  ℕ, zero, suc, String, Bool, true, false, ◌&&◌, ◌||◌, not, Option, none, some, List, [], ◌∷◌, ◌++◌,
  Dict, if◌then◌else◌, ◌==◌, ◌<>◌, lookup, insert, values, keys, length, contains, subset, eqb, ltb,
  lt_int, le_int, eq_int, str_le,
}
use computational_governance.Decimal.{str_int, repr}
use computational_governance.Errors.{
  Exception, inheritance_error, type_error, Try, ok, raise, ◌>>=◌, ◌>>◌, refuse_if,
}
use computational_governance.Model.{Disposition, is_descendant_of, truthy}
use computational_governance.Rule.{Rule, Callable, ApprovalRequirement}
use computational_governance.Rule.Predicate.{
  PredicateSpec, Operator, le, ge, lt, gt, eq, ne, Threshold, number, word,
}

-- `a <= b` on thresholds; an order between a number and a text raises TypeError.
threshold_le : Threshold → Threshold → Try Bool
threshold_le (number a) (number b) = ok (le_int a b)
threshold_le (word a) (word b) = ok (str_le a b)
threshold_le _ _ = raise (type_error "not supported between instances of 'str' and 'int'")

threshold_eq : Threshold → Threshold → Bool
threshold_eq (number a) (number b) = eq_int a b
threshold_eq (word a) (word b) = a == b
threshold_eq _ _ = false

-- The tests on two specifications of one field.
unfoldable pub restricts_on : Operator → Operator → Threshold → Threshold → Try Bool
unfolding threshold_le threshold_eq
restricts_on le le parent child = threshold_le child parent
restricts_on lt lt parent child = threshold_le child parent
restricts_on ge ge parent child = threshold_le parent child
restricts_on gt gt parent child = threshold_le parent child
restricts_on eq eq parent child = ok (threshold_eq child parent)
restricts_on ne ne parent child = ok (threshold_eq child parent)
restricts_on _ _ parent child = ok false

-- `_predicate_is_at_least_as_restrictive`
unfoldable pub is_at_least_as_restrictive : Option PredicateSpec → Option PredicateSpec → Try Bool
unfolding restricts_on
is_at_least_as_restrictive none child = ok true
is_at_least_as_restrictive (some p) none = ok false
is_at_least_as_restrictive (some p) (some c) =
    if p.field_name == c.field_name
    then restricts_on p.operator c.operator p.threshold c.threshold
    else ok false

-- `parent.approval_requirement` is weakened by the child's.
unfoldable pub weakens_quorum : Option ApprovalRequirement → Option ApprovalRequirement → Bool
weakens_quorum none child = false
weakens_quorum (some p) none = true
weakens_quorum (some p) (some c) = ltb c.threshold p.threshold || not (subset p.roles c.roles)

-- A callable without a declared shape is preserved only by the same object.
abbrev pub same_object : Option Callable → Callable → Bool
same_object none parent = false
same_object (some child) parent = eqb child.ref parent.ref

abbrev pub opaque_test : Option Callable → Option PredicateSpec → Option Callable → Bool → Bool
opaque_test (some p) none child by_spec = same_object child p
opaque_test _ _ child by_spec = by_spec

unfoldable pub predicate_proven : Rule → Rule → Bool → Bool
predicate_proven parent child by_spec =
    opaque_test parent.predicate parent.predicate_spec child.predicate by_spec

abbrev pub loosens : Disposition → Disposition → Bool
loosens Disposition.block Disposition.escalate = true
loosens _ _ = false

abbrev pub name_of : Option String → String
name_of none = "None"
name_of (some s) = s

abbrev pub names_parent : Option String → String → Bool
names_parent none id = false
names_parent (some p) id = p == id

unfoldable pub validate_inheritance : Rule → Rule → Try (Unit {0})
validate_inheritance parent child = do
  refuse_if (not (names_parent child.parent_id parent.id))
      (inheritance_error ("child " <> child.id <> " does not declare parent " <> parent.id))
  refuse_if (not (is_descendant_of child.capability parent.capability)) (
      inheritance_error (
        "child "
        <> child.id
        <> " capability "
        <> repr child.capability.name
        <> " cannot widen parent "
        <> repr parent.capability.name))
  refuse_if (lt_int child.min_authority parent.min_authority) (
      inheritance_error (
        "child "
        <> child.id
        <> " lowers authority requirement from "
        <> str_int parent.min_authority
        <> " to "
        <> str_int child.min_authority))
  refuse_if (not (subset parent.forbidden_classes child.forbidden_classes))
      (inheritance_error ("child " <> child.id <> " removes a parent actor-class restriction"))
  refuse_if (truthy parent.requires_approval && not (truthy child.requires_approval)) (
      inheritance_error (
        "child "
        <> child.id
        <> " removes parent approval requirement "
        <> name_of parent.requires_approval))
  refuse_if (weakens_quorum parent.approval_requirement child.approval_requirement)
      (inheritance_error ("child " <> child.id <> " weakens parent approval quorum"))
  refuse_if (loosens parent.disposition child.disposition) (
      inheritance_error ("child " <> child.id <> " changes parent block disposition to escalation"))
  by_spec ← is_at_least_as_restrictive parent.predicate_spec child.predicate_spec
  refuse_if (not (predicate_proven parent child by_spec))
      (inheritance_error ("child " <> child.id <> " weakens or cannot prove the parent predicate"))

-- `{rule.id: rule for rule in rules}`
unfoldable pub index_from : Dict Rule → List Rule → Dict Rule
index_from d [] = d
index_from d (r ∷ rs) = index_from (insert r.id r d) rs

unfoldable pub index : List Rule → Dict Rule
unfolding index_from
index = index_from []

unfoldable pub missing_parent : Rule → String → Exception
missing_parent child parent =
    inheritance_error ("child " <> child.id <> " references missing parent " <> parent)

-- The check of one child against the parents: `parent_by_id.get(child.parent_id)`
abbrev pub check_found : Rule → String → Option Rule → Try (Unit {0})
check_found child p none = raise (missing_parent child p)
check_found child p (some parent) = validate_inheritance parent child

unfoldable pub check_child : Dict Rule → Rule → Option String → Try (Unit {0})
check_child parents child none = ok tt
check_child parents child (some p) = check_found child p (lookup p parents)

unfoldable pub add_children : Dict Rule → List Rule → List String → List Rule → Try (List Rule)
unfolding check_child
add_children parents result seen [] = ok result
add_children parents result seen (child ∷ rest) =
    let continue = add_children parents (result ++ child ∷ []) (child.id ∷ seen) rest in
    if contains seen child.id
    then raise (inheritance_error ("duplicate rule id " <> repr child.id <> " in inheritance"))
    else (check_child parents child child.parent_id >>= λ _. continue)

-- Every parent rule and each validated child.
unfoldable pub inherit_rules : List Rule → List Rule → Try (List Rule)
unfolding index add_children
inherit_rules parents children =
    let by_id = index parents in add_children by_id parents (keys by_id) children

-- The sets `visiting` and `checked` of the depth-first search.
pub record Search : Type 0 where
  pub visiting : List String
  pub checked : List String

-- `visiting.remove(id)`
unfoldable pub remove : String → List String → List String
remove id [] = []
remove id (v ∷ vs) = if id == v then vs else v ∷ remove id vs

-- After the parent is visited the pair is validated.
after_parent : Rule → Rule → Option (Try Search) → Option (Try Search)
after_parent parent rule none = none
after_parent parent rule (some (raise e)) = some (raise e)
after_parent parent rule (some (ok s)) = some (validate_inheritance parent rule >>= λ _. ok s)

visit_found : Rule → String → Option Rule → (Rule → Option (Try Search)) → Option (Try Search)
visit_found rule p none follow = some (raise (missing_parent rule p))
visit_found rule p (some parent) follow = after_parent parent rule (follow parent)

visit_parent :
    Dict Rule → Rule → Option String → (Rule → Option (Try Search)) → Search → Option (Try Search)
unfolding missing_parent after_parent visit_found
visit_parent by_id rule none follow s = some (ok s)
visit_parent by_id rule (some p) follow s = visit_found rule p (lookup p by_id) follow

-- `visiting.remove(rule.id)` and `checked.add(rule.id)`
finish : Rule → Option (Try Search) → Option (Try Search)
finish rule none = none
finish rule (some (raise e)) = some (raise e)
finish rule (some (ok s)) =
    some (ok (record { visiting = remove rule.id s.visiting; checked = rule.id ∷ s.checked }))

-- `visit`: `none` means that the fuel ran out.
unfoldable pub visit : ℕ → Dict Rule → Rule → Search → Option (Try Search)
unfolding visit_parent finish
visit zero by_id rule s = none
visit (suc fuel) by_id rule s =
    let entered = record s { visiting = rule.id ∷ s.visiting } in
    let rest = finish rule (
      visit_parent by_id rule rule.parent_id (λ parent. visit fuel by_id parent entered) entered) in
    if contains s.checked rule.id
    then some (ok s)
    else if contains s.visiting rule.id
    then some (raise (inheritance_error ("inheritance cycle includes " <> rule.id)))
    else rest

abbrev pub next : Option (Try Search) → (Search → Option (Try Search)) → Option (Try Search)
next none k = none
next (some (raise e)) k = some (raise e)
next (some (ok s)) k = k s

-- The loop `for rule in by_id.values(): visit(rule)`.
unfoldable pub visit_all : ℕ → Dict Rule → List Rule → Search → Option (Try Search)
unfolding visit
visit_all fuel by_id [] s = some (ok s)
visit_all fuel by_id (r ∷ rs) s = next (visit fuel by_id r s) (λ s'. visit_all fuel by_id rs s')

-- Each nested visit enters one more rule of the index, so a visit goes at most as deep as the index
-- is long, and one more round ends it.
unfoldable pub validate_inheritance_graph : List Rule → Option (Try Search)
unfolding visit_all index
validate_inheritance_graph rules =
    let by_id = index rules in
    visit_all (suc (length by_id)) by_id (values by_id) (record { visiting = []; checked = [] })
