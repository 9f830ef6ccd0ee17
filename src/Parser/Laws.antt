-- ===== src/Parser/Laws.antt =====
-- governance/parser.py: `parse_laws`. `float` is what Python's `float` makes of a text: none where it
-- raises, and a whole number, since numbers that are not whole are outside of the model.
use Prim.Native.Char.{code}
use computational_governance.Prelude.{
  ℕ, suc, String, ℤ, pos, Bool, true, ◌||◌, Option, none, some, List, [], ◌∷◌, ◌++◌, if◌then◌else◌,
  ◌==◌, ◌<>◌, contains, is_some, update, eqb,
}
use computational_governance.Decimal.{repr}
use computational_governance.Errors.{parse_error, Try, ok, raise, ◌>>=◌, ◌>>◌, refuse_if}
use computational_governance.Model.{Disposition}
use computational_governance.Strip.{strip, partition_on, split_lines, after_any_case, same_any_case}
use computational_governance.Rule.{Rule, Callable, ApprovalRequirement}
use computational_governance.Rule.Predicate.{PredicateSpec, predicate_of}
use computational_governance.Parser.Values.{
  parse_authority, parse_constraint, parse_approval_policy, comma_list,
}

-- `current`: the fields of a law, as far as they were read. `constraint` carries the line too, since
-- every constraint makes a predicate of its own.
pub record Block : Type 0 where
  pub id : String
  pub capability : Option String
  pub min_authority : ℤ
  pub disposition : Disposition
  pub requires_approval : Option String
  pub approval_requirement : Option ApprovalRequirement
  pub constraint : Option (ℕ × PredicateSpec)
  pub forbidden_classes : List String
  pub parent_id : Option String

abbrev pub new_block : String → Block
new_block id = record {
  id = id;
  capability = none;
  min_authority = pos 0;
  disposition = Disposition.block;
  requires_approval = none;
  approval_requirement = none;
  constraint = none;
  forbidden_classes = [];
  parent_id = none;
}

abbrev callable_of : Option (ℕ × PredicateSpec) → Option Callable
callable_of none = none
callable_of (some (line, spec)) = some (record { ref = line; call = predicate_of spec })

abbrev spec_of : Option (ℕ × PredicateSpec) → Option PredicateSpec
spec_of none = none
spec_of (some (line, spec)) = some spec

abbrev pub finalize_with : Block → Option String → ℕ → Try Rule
finalize_with block none header_line =
    raise (parse_error header_line (block.id <> " missing 'capability'"))
finalize_with block (some capability) header_line = ok (record {
  id = block.id;
  capability = record { name = capability };
  min_authority = block.min_authority;
  disposition = block.disposition;
  requires_approval = block.requires_approval;
  approval_requirement = block.approval_requirement;
  predicate = callable_of block.constraint;
  forbidden_classes = update [] block.forbidden_classes;
  predicate_spec = spec_of block.constraint;
  parent_id = block.parent_id;
})

-- `finalize`
unfoldable pub finalize : Block → ℕ → Try Rule
finalize block header_line = finalize_with block block.capability header_line

-- The finished rules and the law that is read, with the line of its header.
pub record Progress : Type 0 where
  pub rules : List Rule
  pub current : Option (Block × ℕ)

-- `rules.append(finalize(current, current_line))`, where there is a current law
unfoldable pub close : Progress → Option (Block × ℕ) → Try (List Rule)
unfolding finalize
close self none = ok self.rules
close self (some (block, header_line)) =
    finalize block header_line >>= λ rule. ok (self.rules ++ rule ∷ [])

abbrev pub exclusive : ℕ → Bool → Try (Unit {0})
exclusive i taken =
    refuse_if taken (parse_error i "requires_approval and approval_policy are mutually exclusive")

abbrev pub disposition_of : String → ℕ → Try Disposition
disposition_of value i =
    if same_any_case "BLOCK" value
    then ok Disposition.block
    else if same_any_case "ESCALATE" value
    then ok Disposition.escalate
    else raise (parse_error i ("on_violation must be block|escalate, got " <> repr value))

abbrev pub starts_law : String → Bool
starts_law line = is_some (after_any_case "LAW-" line)

abbrev pub is_comment : String → Bool
is_comment String.[] = true
is_comment (String.◌∷◌ c s) = eqb (code c) 35

-- `seen`
unfoldable pub check_ids : List String → List Rule → Try (Unit {0})
check_ids seen [] = ok tt
check_ids seen (r ∷ rules) =
    let rest = check_ids (r.id ∷ seen) rules in
    refuse_if (contains seen r.id) (parse_error 0 ("duplicate law id " <> repr r.id)) >> rest

abbrev pub some_laws : List Rule → Try (List Rule)
some_laws [] = raise (parse_error 0 "no LAW blocks found")
some_laws (r ∷ rules) = check_ids [] (r ∷ rules) >> ok (r ∷ rules)

abbrev pub initial : Progress
initial = record { rules = []; current = none }

module _ (float : String → Option ℤ) where
  -- One `key: value` of the current law.
  unfoldable pub set_field : Block → String → String → ℕ → Try Block
  set_field block key value i =
      if key == "capability"
      then ok (record block { capability = some value })
      else if key == "authority_level"
      then (parse_authority value i >>= λ n. ok (record block { min_authority = n }))
      else if key == "constraint"
      then (parse_constraint float value i >>= λ spec.
          ok (record block { constraint = some (i, spec) }))
      else if key == "forbidden_classes"
      then ok (record block { forbidden_classes = comma_list value })
      else if key == "requires_approval"
      then (exclusive i (is_some block.approval_requirement)
          >> ok (record block { requires_approval = some value }))
      else if key == "approval_policy"
      then (exclusive i (is_some block.requires_approval || is_some block.approval_requirement)
          >> (parse_approval_policy value i >>= λ quorum.
              ok (record block { approval_requirement = some quorum })))
      else if key == "on_violation"
      then (disposition_of value i >>= λ d. ok (record block { disposition = d }))
      else if key == "parent" || key == "inherits"
      then ok (record block { parent_id = some value })
      else raise (parse_error i ("unknown field " <> repr key))

  abbrev pub add_field : Block → Option (String × String) → String → ℕ → Try Block
  add_field block none line i = raise (parse_error i ("expected 'key: value', got " <> repr line))
  add_field block (some (key, value)) line i = set_field block (strip key) (strip value) i

  abbrev pub read_field : Progress → Option (Block × ℕ) → String → ℕ → Try Progress
  read_field self none line i = raise (parse_error i ("field outside any LAW block: " <> repr line))
  read_field self (some (block, header_line)) line i =
      add_field block (partition_on 58 line) line i >>= λ changed.
      ok (record self { current = some (changed, header_line) })

  -- One turn of the loop, on the stripped line.
  unfoldable pub read_line : Progress → String → ℕ → Try Progress
  unfolding close set_field
  read_line self line i =
      if is_comment line
      then ok self
      else if starts_law line
      then (close self self.current >>= λ rules.
          ok (record { rules = rules; current = some (new_block line, i) }))
      else read_field self self.current line i

  unfoldable pub read_lines : Progress → List String → ℕ → Try Progress
  unfolding read_line
  read_lines self [] i = ok self
  read_lines self (raw ∷ lines) i =
      read_line self (strip raw) i >>= λ next. read_lines next lines (suc i)

  -- `parse_laws`
  unfoldable pub parse_laws : String → Try (List Rule)
  unfolding read_lines check_ids
  parse_laws source = read_lines initial (split_lines source) 1 >>= λ last.
      close last last.current >>= λ rules. some_laws rules
