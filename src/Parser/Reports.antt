-- ===== src/Parser/Reports.antt =====
-- governance/parser.py: the exceptions of the parser, and their lines.
use computational_governance.Prelude.{
  ℕ, suc, ◌+◌, ◌≤◌, String, ℤ, ◌≡◌, refl, ap, sym, ◌∙◌, Bool, true, false, Option, none, some, List,
  [], ◌∷◌, arith, leb, length,
}
use computational_governance.Errors.{
  Exception, value_error, type_error, recursion_error, inheritance_error, compile_error,
  delegation_error, approval_error, runtime_adapter_error, identity_error, versioning_error,
  lifecycle_error, parse_error, key_error, index_error, Try, ok, raise, ◌>>=◌,
}
use computational_governance.Strip.{strip, split_lines, partition_on}
use computational_governance.Rule.{Rule}
use computational_governance.Parser.Shlex.{shell_split}
use computational_governance.Parser.Values.{
  parse_authority, parse_constraint, words_or, comparison, parse_approval_policy, match_quorum,
  requirement_of,
}
use computational_governance.Parser.Laws.{
  Block, Progress, finalize, close, set_field, add_field, read_field, read_line, read_lines,
  check_ids, some_laws, initial, parse_laws,
}

-- A ParseError, on a line up to the bound.
abbrev is_report : ℕ → Exception → Bool
is_report b (parse_error n m) = leb n b
is_report b _ = false

abbrev reports : {A : Type 0} → ℕ → Try A → Bool
reports b (ok a) = true
reports b (raise e) = is_report b e

parse_authority-reports :
    (value : String) (i b : ℕ) → i ≤ b → reports b (parse_authority value i) ≡ true
unfolding parse_authority
parse_authority-reports value i b h = ground arith

parse_constraint-reports :
    (float : String → Option ℤ) (value : String) (i b : ℕ)
    → i ≤ b
    → reports b (parse_constraint float value i) ≡ true
unfolding parse_constraint
parse_constraint-reports float value i b h = go (shell_split (strip value))
  where
    go :
        (t : Try (List String))
        → reports b (words_or t i >>= λ parts. comparison float parts value i) ≡ true
    go (raise e) = ground arith
    go (ok (name ∷ symbol ∷ rhs ∷ [])) = ground arith
    go (ok []) = ground arith
    go (ok (x ∷ [])) = ground arith
    go (ok (x ∷ y ∷ [])) = ground arith
    go (ok (x ∷ y ∷ z ∷ w ∷ rest)) = ground arith

parse_approval_policy-reports :
    (value : String) (i b : ℕ) → i ≤ b → reports b (parse_approval_policy value i) ≡ true
unfolding parse_approval_policy
parse_approval_policy-reports value i b h = go (match_quorum (strip value))
  where
    go : (o : Option (ℕ × String)) → reports b (requirement_of o i) ≡ true
    go none = ground arith
    go (some (threshold, roles)) = ground arith

set_field-reports :
    (float : String → Option ℤ) (block : Block) (key value : String) (i b : ℕ)
    → i ≤ b
    → reports b (set_field float block key value i) ≡ true
unfolding set_field
set_field-reports float block key value i b h = ground (
  arith,
  parse_authority-reports value i b h,
  parse_constraint-reports float value i b h,
  parse_approval_policy-reports value i b h,
)

abbrev header_below : ℕ → Option (Block × ℕ) → Bool
header_below b none = true
header_below b (some (block, header_line)) = leb header_line b

close-reports :
    (self : Progress) (o : Option (Block × ℕ)) (b : ℕ)
    → header_below b o ≡ true
    → reports b (close self o) ≡ true
unfolding close finalize
close-reports self none b h = refl
close-reports self (some (block, header_line)) b h = ground arith

-- The next state has its header below the bound too.
abbrev reads_below : ℕ → Try Progress → Bool
reads_below b (ok next) = header_below b next.current
reads_below b (raise e) = is_report b e

read_field_below :
    (float : String → Option ℤ) (self : Progress) (o : Option (Block × ℕ)) (line : String) (i b : ℕ)
    → i ≤ b
    → header_below b o ≡ true
    → reads_below b (read_field float self o line i) ≡ true
read_field_below float self none line i b h w = ground arith
read_field_below float self (some (block, header_line)) line i b h w = go (partition_on 58 line)
  where
    go :
        (o : Option (String × String))
        → reads_below b (
            add_field float block o line i >>= λ changed.
            ok (record self { current = some (changed, header_line) }))
          ≡ true
    go none = ground arith
    go (some (key, value)) =
        ground (arith, set_field-reports float block (strip key) (strip value) i b h)

read_line_below :
    (float : String → Option ℤ) (self : Progress) (line : String) (i b : ℕ)
    → i ≤ b
    → header_below b self.current ≡ true
    → reads_below b (read_line float self line i) ≡ true
unfolding read_line
read_line_below float self line i b h w = ground (
  arith,
  read_field_below float self self.current line i b h w,
  close-reports self self.current b w,
)

read_lines_below :
    (float : String → Option ℤ) (self : Progress) (lines : List String) (i b : ℕ)
    → i + length lines ≤ suc b
    → header_below b self.current ≡ true
    → reads_below b (read_lines float self lines i) ≡ true
unfolding read_lines
read_lines_below float self [] i b h w = w
read_lines_below float self (raw ∷ lines) i b h w =
    go (read_line float self (strip raw) i)
      (read_line_below float self (strip raw) i b (omega arith) w)
      (λ next k. read_lines_below float next lines (suc i) b (omega arith) k)
  where
    go :
        (t : Try Progress)
        → reads_below b t ≡ true
        → ((next : Progress)
            → header_below b next.current ≡ true
            → reads_below b (read_lines float next lines (suc i)) ≡ true)
        → reads_below b (t >>= λ next. read_lines float next lines (suc i)) ≡ true
    go (ok next) k rest = rest next k
    go (raise e) k rest = k

check_ids-reports :
    (seen : List String) (rules : List Rule) (b : ℕ) → reports b (check_ids seen rules) ≡ true
unfolding check_ids
check_ids-reports seen [] b = refl
check_ids-reports seen (r ∷ rules) b = ground (arith, check_ids-reports (r.id ∷ seen) rules b)

parse_laws-reports :
    (float : String → Option ℤ) (source : String)
    → reports (length (split_lines source)) (parse_laws float source) ≡ true
unfolding parse_laws
parse_laws-reports float source =
    go (read_lines float initial (split_lines source) 1)
      (read_lines_below float initial (split_lines source) 1 b (omega arith) refl)
  where
    b : ℕ
    b = length (split_lines source)

    checked : (rules : List Rule) → reports b (some_laws rules) ≡ true
    checked [] = ground arith
    checked (r ∷ rules) = ground (arith, check_ids-reports [] (r ∷ rules) b)

    closed :
        (t : Try (List Rule))
        → reports b t ≡ true
        → reports b (t >>= λ rules. some_laws rules) ≡ true
    closed (ok rules) h = checked rules
    closed (raise e) h = h

    go :
        (t : Try Progress)
        → reads_below b t ≡ true
        → reports b (t >>= λ last. close last last.current >>= λ rules. some_laws rules) ≡ true
    go (ok last) h = closed (close last last.current) (close-reports last last.current b h)
    go (raise e) h = h

report_line :
    (b : ℕ) (e : Exception)
    → is_report b e ≡ true
    → (n : ℕ) × (m : String) × (e ≡ parse_error n m) × (n ≤ b)
report_line b (parse_error n m) h = (n, m, refl, ground arith)
report_line b (value_error m) h = absurd (ground arith)
report_line b (type_error m) h = absurd (ground arith)
report_line b recursion_error h = absurd (ground arith)
report_line b (inheritance_error m) h = absurd (ground arith)
report_line b (compile_error c m) h = absurd (ground arith)
report_line b (delegation_error m) h = absurd (ground arith)
report_line b (approval_error m) h = absurd (ground arith)
report_line b (runtime_adapter_error m) h = absurd (ground arith)
report_line b (identity_error m) h = absurd (ground arith)
report_line b (versioning_error m) h = absurd (ground arith)
report_line b (lifecycle_error m) h = absurd (ground arith)
report_line b (key_error k) h = absurd (ground arith)
report_line b index_error h = absurd (ground arith)

-- A source that is refused is refused with a ParseError, whose line is one of the source, or 0 for
-- the source as a whole.
pub parse_laws_refused :
    (float : String → Option ℤ) (source : String) (e : Exception)
    → parse_laws float source ≡ raise e
    → (n : ℕ) × (m : String) × (e ≡ parse_error n m) × (n ≤ length (split_lines source))
parse_laws_refused float source e h =
    report_line (length (split_lines source)) e
      (sym (ap (reports (length (split_lines source))) h) ∙ parse_laws-reports float source)
