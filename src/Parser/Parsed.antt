-- ===== src/Parser/Parsed.antt =====
-- governance/parser.py: what the rules of a parsed source are like.
use mathlib.Core.Path.{subst}
use computational_governance.Prelude.{
  inl, inr, Bool-cases, all, All-map, ℕ, suc, String, ℤ, ◌≡◌, ◌≢◌, refl, ap, arith, Bool, true,
  false, ◌&&◌, not, Option, none, some, List, [], ◌∷◌, ◌++◌, All, DistinctKeys, contains, is_some,
  length, leb, distinct,
}
use computational_governance.Errors.{Try, ok, raise, ◌>>=◌, both_return, ok-injective}
use computational_governance.Model.{is_empty}
use computational_governance.Rule.{Rule, ApprovalRequirement, make_requirement}
use computational_governance.Composition.Decisions.{HasQuorum}
use computational_governance.Strip.{strip, split_lines, partition_on}
use computational_governance.Parser.Values.{
  parse_approval_policy, match_quorum, comma_list, requirement_of, as_parse_error,
}
use computational_governance.Parser.Laws.{
  Block, Progress, finalize, finalize_with, close, set_field, add_field, read_field, read_line,
  read_lines, starts_law, is_comment, check_ids, some_laws, initial, parse_laws, new_block,
}

-- The test of a quorum that its constructor makes.
unfoldable quorum_ok : ApprovalRequirement → Bool
quorum_ok q =
    not (is_empty q.roles)
    && (distinct q.roles && (leb 1 q.threshold && leb q.threshold (length q.roles)))

abbrev admitted : Option ApprovalRequirement → Bool
admitted none = true
admitted (some q) = quorum_ok q

abbrev returns_ok : Try ApprovalRequirement → Bool
returns_ok (ok q) = quorum_ok q
returns_ok (raise e) = true

admitted-HasQuorum : (o : Option ApprovalRequirement) → admitted o ≡ true → HasQuorum o
unfolding quorum_ok
admitted-HasQuorum none h = tt
admitted-HasQuorum (some q) h =
    (go q.roles (ground arith), ground arith, ground arith, ground arith)
  where
    go : (roles : List String) → is_empty roles ≡ false → roles ≢ []
    go [] h = cc
    go (r ∷ rs) h = λ e. absurd (ground (arith, ap is_empty e))

make_requirement_ok :
    (roles : List String) (threshold : ℕ) → returns_ok (make_requirement roles threshold) ≡ true
unfolding make_requirement quorum_ok
make_requirement_ok [] threshold = refl
make_requirement_ok (r ∷ rs) threshold = ground arith

parse_approval_policy_ok :
    (value : String) (i : ℕ) → returns_ok (parse_approval_policy value i) ≡ true
unfolding parse_approval_policy
parse_approval_policy_ok value i = go (match_quorum (strip value))
  where
    kept :
        (t : Try ApprovalRequirement) → returns_ok t ≡ true → returns_ok (as_parse_error i t) ≡ true
    kept (ok q) h = h
    kept (raise e) h = refl

    go : (o : Option (ℕ × String)) → returns_ok (requirement_of o i) ≡ true
    go none = refl
    go (some (threshold, roles)) = kept _ (make_requirement_ok (comma_list roles) threshold)

-- The start of the id, a quorum as its constructor admits it, and one kind of approval at most.
unfoldable well_formed : String → Option String → Option ApprovalRequirement → Bool
well_formed id single quorum =
    starts_law id && (admitted quorum && not (is_some single && is_some quorum))

abbrev block_ok : Block → Bool
block_ok b = well_formed b.id b.requires_approval b.approval_requirement

abbrev rule_ok : Rule → Bool
rule_ok r = well_formed r.id r.requires_approval r.approval_requirement

abbrev open_ok : Option (Block × ℕ) → Bool
open_ok none = true
open_ok (some (block, header_line)) = block_ok block

set_field_ok :
    (float : String → Option ℤ) (block : Block) (key value : String) (i : ℕ) (after : Block)
    → block_ok block ≡ true
    → set_field float block key value i ≡ ok after
    → block_ok after ≡ true
unfolding set_field well_formed
set_field_ok float block key value i after w h = ground (arith, parse_approval_policy_ok value i)

all_append :
    (rules : List Rule) (r : Rule)
    → all rule_ok rules ≡ true
    → rule_ok r ≡ true
    → all rule_ok (rules ++ r ∷ []) ≡ true
all_append [] r h k = ground arith
all_append (x ∷ rules) r h k = ground (arith, all_append rules r)

close_ok :
    (self : Progress) (o : Option (Block × ℕ)) (rules : List Rule)
    → all rule_ok self.rules ≡ true
    → open_ok o ≡ true
    → close self o ≡ ok rules
    → all rule_ok rules ≡ true
unfolding close finalize
close_ok self none rules w opened h = ground arith
close_ok self (some (block, header_line)) rules w opened h = go block.capability h
  where
    go :
        (o : Option String)
        → (finalize_with block o header_line >>= λ rule. ok (self.rules ++ rule ∷ [])) ≡ ok rules
        → all rule_ok rules ≡ true
    go none h = absurd (ground arith)
    go (some capability) h =
        subst (λ rs. all rule_ok rs ≡ true) (ok-injective _ rules h)
          (all_append self.rules _ w opened)

abbrev IsSane : Progress → Type 0
IsSane self = (all rule_ok self.rules ≡ true) × (open_ok self.current ≡ true)

read_field-IsSane :
    (float : String → Option ℤ) (self : Progress) (o : Option (Block × ℕ)) (line : String) (i : ℕ)
    (next : Progress)
    → all rule_ok self.rules ≡ true
    → open_ok o ≡ true
    → read_field float self o line i ≡ ok next
    → IsSane next
read_field-IsSane float self none line i next w opened h = absurd (ground arith)
read_field-IsSane float self (some (block, header_line)) line i next w opened h =
    go (partition_on 58 line) h
  where
    go :
        (o : Option (String × String))
        → (add_field float block o line i >>= λ changed.
            ok (record self { current = some (changed, header_line) }))
          ≡ ok next
        → IsSane next
    go none h = absurd (ground arith)
    go (some (key, value)) h =
        let (changed, rest, done) =
          both_return (set_field float block (strip key) (strip value) i) _ next h in
        subst IsSane (ok-injective _ next rest)
          (w, set_field_ok float block (strip key) (strip value) i changed opened done)

new_block_ok : (line : String) → starts_law line ≡ true → block_ok (new_block line) ≡ true
unfolding well_formed
new_block_ok line header = ground arith

read_line-IsSane :
    (float : String → Option ℤ) (self : Progress) (line : String) (i : ℕ) (next : Progress)
    → IsSane self
    → read_line float self line i ≡ ok next
    → IsSane next
unfolding read_line
read_line-IsSane float self line i next (w, opened) = elim (Bool-cases (is_comment line)) [
  | inl comment ↦ rw comment (λ h. subst IsSane (ok-injective self next h) (w, opened))
  | inr text ↦ rw text (elim (Bool-cases (starts_law line)) [
    | inl header ↦ rw header (λ h.
        let (rules, rest, done) = both_return (close self self.current) _ next h in
        subst IsSane (ok-injective _ next rest)
          (close_ok self self.current rules w opened done, new_block_ok line header))
    | inr field ↦ rw field (read_field-IsSane float self self.current line i next w opened)
  ])
]

read_lines-IsSane :
    (float : String → Option ℤ) (self : Progress) (lines : List String) (i : ℕ) (last : Progress)
    → IsSane self
    → read_lines float self lines i ≡ ok last
    → IsSane last
unfolding read_lines
read_lines-IsSane float self [] i last w h = subst IsSane (ok-injective self last h) w
read_lines-IsSane float self (raw ∷ lines) i last w h =
    let (next, rest, done) = both_return (read_line float self (strip raw) i) _ last h in
    read_lines-IsSane float next lines (suc i) last
      (read_line-IsSane float self (strip raw) i next w done) rest

check_ids-distinct :
    (seen : List String) (rules : List Rule)
    → check_ids seen rules ≡ ok tt
    → DistinctKeys (λ r. r.id) rules × All (λ r. contains seen r.id ≡ false) rules
unfolding check_ids
check_ids-distinct seen [] h = (tt, tt)
check_ids-distinct seen (r ∷ rules) h =
    let (apart, fresh) = check_ids-distinct (r.id ∷ seen) rules (ground arith) in
    (
      (All-map _ (λ s. r.id ≢ s.id) rules (λ s e. ground arith) fresh, apart),
      (ground arith, All-map _ (λ s. contains seen s.id ≡ false) rules (λ s e. ground arith) fresh),
    )

-- The id starts with `LAW-` in letters of either case, a quorum is as its constructor admits it, and
-- there is one kind of approval at most.
pub record IsParsed (r : Rule) : Type 0 where
  pub header : starts_law r.id ≡ true
  pub quorum : HasQuorum r.approval_requirement
  pub one_approval : (is_some r.requires_approval && is_some r.approval_requirement) ≡ false

rule-IsParsed : (r : Rule) → rule_ok r ≡ true → IsParsed r
unfolding well_formed
rule-IsParsed r h = record {
  header = ground arith;
  quorum = admitted-HasQuorum r.approval_requirement (ground arith);
  one_approval = ground arith;
}

rules-IsParsed : (rules : List Rule) → all rule_ok rules ≡ true → All IsParsed rules
rules-IsParsed [] h = tt
rules-IsParsed (r ∷ rules) h = (rule-IsParsed r (ground arith), rules-IsParsed rules (ground arith))

pub parse_laws-IsParsed :
    (float : String → Option ℤ) (source : String) (rules : List Rule)
    → parse_laws float source ≡ ok rules
    → (rules ≢ []) × DistinctKeys (λ r. r.id) rules × All IsParsed rules
unfolding parse_laws
parse_laws-IsParsed float source rules h =
    let (last, rest, done) =
      both_return (read_lines float initial (split_lines source) 1) _ rules h in
    let (laws, accepted, closed) = both_return (close last last.current) _ rules rest in
    let (finished, opened) =
      read_lines-IsSane float initial (split_lines source) 1 last (refl, refl) done in
    go laws (close_ok last last.current laws finished opened closed) accepted
  where
    go :
        (laws : List Rule)
        → all rule_ok laws ≡ true
        → some_laws laws ≡ ok rules
        → (rules ≢ []) × DistinctKeys (λ r. r.id) rules × All IsParsed rules
    go [] w h = absurd (ground arith)
    go (r ∷ laws) w h =
        let (u, same, checked) = both_return (check_ids [] (r ∷ laws)) _ rules h in
        subst (λ (rs : List Rule). (rs ≢ []) × DistinctKeys (λ r. r.id) rs × All IsParsed rs)
          (ok-injective (r ∷ laws) rules same)
          (
            (λ e. absurd (cc)),
            (check_ids-distinct [] (r ∷ laws) checked).0,
            rules-IsParsed (r ∷ laws) w,
          )
