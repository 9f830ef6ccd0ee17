-- ===== src/Rule/Predicate.antt =====
-- The comparison predicates of governance/parser.py and their declarative shape.
use computational_governance.Prelude.{
  String, ℤ, pos, Bool, true, false, ◌||◌, not, Option, none, some, Dict, lookup, if◌then◌else◌,
  ◌==◌, le_int, lt_int, eq_int, str_le, length,
}
use computational_governance.Model.{Actor, Context, Value, num, string, null, structured}

-- The keys of `_OPS`.
pub data Operator : Type 0 where
  le ge lt gt eq ne : Operator

-- A threshold is a number or a text.
pub data Threshold : Type 0 where
  number : ℤ → Threshold
  word : String → Threshold

pub record PredicateSpec : Type 0 where
  pub field_name : String
  pub operator : Operator
  pub threshold : Threshold

-- The fields that the actor and the context supply.
built_in : String → Actor → Context → Value
built_in name actor context =
    if name == "budget_used" || name == "context.budget_used"
    then num context.budget_used
    else if name == "now" || name == "context.now"
    then num context.now
    else if name == "prior_approvals_count" || name == "context.prior_approvals_count"
    then num (pos (length context.prior_approvals))
    else if name == "actor.class" || name == "actor.cls"
    then string actor.cls
    else if name == "actor.authority_level"
    then num actor.authority_level
    else if name == "actor.id"
    then string actor.id
    else null

abbrev param_or : Option Value → Value → Value
param_or (some v) other = v
param_or none other = other

-- `_field_value`: a parameter of that name hides the built-in field.
unfoldable pub field_value : String → Actor → Dict Value → Context → Value
unfolding built_in
field_value name actor params context = param_or (lookup name params) (built_in name actor context)

abbrev compare_int : Operator → ℤ → ℤ → Bool
compare_int le a b = le_int a b
compare_int ge a b = le_int b a
compare_int lt a b = lt_int a b
compare_int gt a b = lt_int b a
compare_int eq a b = eq_int a b
compare_int ne a b = not (eq_int a b)

abbrev compare_text : Operator → String → String → Bool
compare_text le s t = str_le s t
compare_text ge s t = str_le t s
compare_text lt s t = not (str_le t s)
compare_text gt s t = not (str_le s t)
compare_text eq s t = s == t
compare_text ne s t = not (s == t)

-- Values of different types are unequal, and an order between them raises TypeError, which the
-- predicate catches and answers with False.
abbrev compare_mixed : Operator → Bool
compare_mixed ne = true
compare_mixed _ = false

-- `op(value, threshold)`; None never permits.
unfoldable pub compare : Operator → Value → Threshold → Bool
compare op null t = false
compare op (structured j) t = compare_mixed op
compare op (num a) (Threshold.number b) = compare_int op a b
compare op (num a) (Threshold.word b) = compare_mixed op
compare op (string a) (Threshold.number b) = compare_mixed op
compare op (string a) (Threshold.word b) = compare_text op a b

-- The closure that `_make_predicate` returns.
unfoldable pub predicate_of : PredicateSpec → Actor → Dict Value → Context → Bool
predicate_of spec actor params context =
    compare spec.operator (field_value spec.field_name actor params context) spec.threshold
