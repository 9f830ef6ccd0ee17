-- ===== src/Parser/Values.antt =====
-- governance/parser.py: the values of the fields of a law.
use Prim.Native.Char.{Char, code}
use computational_governance.Prelude.{
  ℕ, zero, suc, String, ℤ, pos, negsuc, Bool, false, ◌&&◌, not, Option, none, some, List, [], ◌∷◌,
  if◌then◌else◌, ◌==◌, ◌<>◌, keep, eqb,
}
use mathlib.Core.List.{map}
use computational_governance.Decimal.{read, repr}
use computational_governance.Errors.{message, parse_error, Try, ok, raise, ◌>>=◌}
use computational_governance.Audit.Log.{is_digit, after_prefix}
use computational_governance.Strip.{is_space, strip, strip_start, split_on, after_any_case}
use computational_governance.Rule.{ApprovalRequirement, make_requirement}
use computational_governance.Rule.Predicate.{
  Operator, le, ge, lt, gt, eq, ne, Threshold, number, word, PredicateSpec,
}
use computational_governance.Parser.Shlex.{shell_split}

abbrev with_digit : Char → Option String → Option String
with_digit c none = none
with_digit c (some t) = some (String.◌∷◌ c t)

-- The digits of a number, where single underscores may stand between two digits.
unfoldable pub plain_digits : Bool → String → Option String
plain_digits after_digit String.[] = if after_digit then some "" else none
plain_digits after_digit (String.◌∷◌ c s) =
    let rest = plain_digits (is_digit c) s in
    if is_digit c then with_digit c rest else if eqb (code c) 95 && after_digit then rest else none

abbrev natural : Option String → Option ℕ
natural none = none
natural (some digits) = some (read 0 digits)

abbrev positive : Option ℕ → Option ℤ
positive none = none
positive (some n) = some (pos n)

abbrev negative : Option ℕ → Option ℤ
negative none = none
negative (some zero) = some (pos 0)
negative (some (suc n)) = some (negsuc n)

abbrev signed : String → Option ℤ
signed String.[] = none
signed (String.◌∷◌ c s) =
    if eqb (code c) 45
    then negative (natural (plain_digits false s))
    else if eqb (code c) 43
    then positive (natural (plain_digits false s))
    else positive (natural (plain_digits false (String.◌∷◌ c s)))

-- `int(s)`
unfoldable pub int_of : String → Option ℤ
unfolding plain_digits
int_of s = signed (strip s)

abbrev without : Option String → String → String
without none s = s
without (some rest) s = strip rest

abbrev pub level_or : Option ℤ → ℕ → String → Try ℤ
level_or (some n) line_no value = ok n
level_or none line_no value =
    raise (parse_error line_no ("invalid authority_level: " <> repr value))

-- `_parse_authority`
unfoldable pub parse_authority : String → ℕ → Try ℤ
unfolding int_of
parse_authority value line_no =
    level_or (int_of (without (after_prefix ">=" (strip value)) (strip value))) line_no value

-- `_OPS`
unfoldable pub operator_of : String → Option Operator
operator_of s =
    if s == "<="
    then some le
    else if s == ">="
    then some ge
    else if s == "<"
    then some lt
    else if s == ">"
    then some gt
    else if s == "=="
    then some eq
    else if s == "!="
    then some ne
    else none

abbrev pub threshold_or : Option ℤ → String → ℕ → Try Threshold
threshold_or (some n) rhs line_no = ok (number n)
threshold_or none rhs line_no =
    if rhs == ""
    then raise (parse_error line_no "constraint RHS cannot be empty")
    else ok (word rhs)

abbrev pub known : Option Operator → String → ℕ → Try Operator
known none symbol line_no = raise (parse_error line_no ("unknown operator " <> repr symbol))
known (some op) symbol line_no = ok op

abbrev pub words_or : Try (List String) → ℕ → Try (List String)
words_or (ok parts) line_no = ok parts
words_or (raise problem) line_no =
    raise (parse_error line_no ("invalid constraint quoting: " <> message problem))

abbrev pub comparison : (String → Option ℤ) → List String → String → ℕ → Try PredicateSpec
comparison float (name ∷ symbol ∷ rhs ∷ []) value line_no =
    known (operator_of symbol) symbol line_no >>= λ op.
    threshold_or (float rhs) rhs line_no >>= λ threshold.
    ok (record { field_name = name; operator = op; threshold = threshold })
comparison float _ value line_no =
    raise (
      parse_error line_no ("constraint must be '<field> <op> <number|string>', got " <> repr value))

-- `_parse_constraint`: `float` is what Python's `float` makes of a text, none where it raises.
unfoldable pub parse_constraint : (String → Option ℤ) → String → ℕ → Try PredicateSpec
unfolding operator_of shell_split
parse_constraint float value line_no =
    words_or (shell_split (strip value)) line_no >>= λ parts. comparison float parts value line_no

-- White space, at least one.
abbrev past_space : Option String → Option String
past_space none = none
past_space (some String.[]) = none
past_space (some (String.◌∷◌ c s)) = if is_space c then some (strip_start s) else none

-- The digits at the start, and what follows them.
unfoldable pub take_digits : String → String × String
take_digits String.[] = ("", "")
take_digits (String.◌∷◌ c s) =
    let rest = take_digits s in
    if is_digit c then (String.◌∷◌ c rest.0, rest.1) else ("", String.◌∷◌ c s)

abbrev keyword : String → Option String → Option String
keyword name none = none
keyword name (some s) = after_any_case name s

abbrev some_text : Option String → Option String
some_text none = none
some_text (some s) = if s == "" then none else some s

abbrev with_number : ℕ → Option String → Option (ℕ × String)
with_number n none = none
with_number n (some roles) = some (n, roles)

-- `\s+of\s+(.+)` behind the number
abbrev quorum_of : String × String → Option (ℕ × String)
quorum_of (digits, rest) =
    if digits == ""
    then none
    else with_number (read 0 digits)
        (some_text (past_space (keyword "OF" (past_space (some rest)))))

abbrev after_quorum : Option String → Option (ℕ × String)
after_quorum none = none
after_quorum (some s) = quorum_of (take_digits s)

-- `quorum\s+(\d+)\s+of\s+(.+)`, whatever the case of the letters
unfoldable pub match_quorum : String → Option (ℕ × String)
unfolding take_digits
match_quorum s = after_quorum (past_space (keyword "QUORUM" (some s)))

-- `[c.strip() for c in value.split(",") if c.strip()]`
unfoldable pub comma_list : String → List String
comma_list value = keep (λ s. not (s == "")) (map strip (split_on 44 value))

abbrev pub as_parse_error : ℕ → Try ApprovalRequirement → Try ApprovalRequirement
as_parse_error line_no (ok q) = ok q
as_parse_error line_no (raise problem) = raise (parse_error line_no (message problem))

abbrev pub requirement_of : Option (ℕ × String) → ℕ → Try ApprovalRequirement
requirement_of none line_no =
    raise (parse_error line_no "approval_policy must be 'quorum N of RoleA, RoleB, ...'")
requirement_of (some (threshold, roles)) line_no =
    as_parse_error line_no (make_requirement (comma_list roles) threshold)

-- `_parse_approval_policy`
unfoldable pub parse_approval_policy : String → ℕ → Try ApprovalRequirement
unfolding match_quorum comma_list make_requirement
parse_approval_policy value line_no = requirement_of (match_quorum (strip value)) line_no
