-- ===== src/Compiler/Policies.antt =====
-- governance/compiler.py: what a compiled policy is like, and its decisions.
use computational_governance.Prelude.{
  String, ◌≡◌, ◌≢◌, refl, sym, ap, ◌∙◌, ◌⊎◌, inl, inr, Bool, true, false, Option, none, some, List,
  [], ◌∷◌, arith, In, All, All-map, contains, DistinctKeys, values, any, not, ◌&&◌, if◌then◌else◌,
}
use computational_governance.Errors.{Try, ok, raise, both_return}
use computational_governance.Model.{
  is_allow, is_empty, make_decision, Action, Context, Decision, DecisionKind, Disposition,
}
use computational_governance.Rule.{Rule, applies_to, is_applicable, Signature, semantic_signature}
use computational_governance.Composition.{Authority, ids}
use computational_governance.Composition.Matched.{evaluate_rules-matched, is_empty-applicable}
use computational_governance.Composition.Decisions.{
  HasQuorum, evaluate_rules_decides, expected_kind,
}
use computational_governance.Composition.Inheritance.{Search, index, validate_inheritance_graph}
use computational_governance.Composition.Inheritance.Graph.{
  Rooted, validate_inheritance_graph-Rooted,
}
use computational_governance.Compiler.{
  CompiledPolicy, compile_policy, validate_rules, validate_rule, previous, default_kind,
  with_parents, check_graph, default_deny, is_block_kind, evaluate, apply_default, same_disposition,
  contradicts,
}

-- Rules with the same conditions have the same disposition.
abbrev pub Agree : List Rule → Type 0
Agree rules =
    (x y : Rule)
    → In x rules
    → In y rules
    → semantic_signature x ≡ semantic_signature y
    → x.disposition ≡ y.disposition

-- What the loop has checked of one rule.
validate_rule-ok :
    (roles : Option (List String)) (earlier : List Rule) (r : Rule)
    → validate_rule roles earlier r ≡ ok tt
    → (contains (ids earlier) r.id ≡ false)
      × (contradicts (previous (semantic_signature r) earlier) r ≡ false)
unfolding validate_rule
validate_rule-ok roles earlier r h = ground arith

validate_rules-cons :
    (roles : Option (List String)) (earlier : List Rule) (r : Rule) (rs : List Rule)
    → validate_rules roles earlier (r ∷ rs) ≡ ok tt
    → (validate_rule roles earlier r ≡ ok tt) × (validate_rules roles (r ∷ earlier) rs ≡ ok tt)
unfolding validate_rules
validate_rules-cons roles earlier r rs h = ground arith

validate_rules-distinct :
    (roles : Option (List String)) (earlier rs : List Rule)
    → validate_rules roles earlier rs ≡ ok tt
    → DistinctKeys (λ r. r.id) rs × All (λ r. contains (ids earlier) r.id ≡ false) rs
validate_rules-distinct roles earlier [] h = (tt, tt)
validate_rules-distinct roles earlier (r ∷ rs) h =
    let (one, rest) = validate_rules-cons roles earlier r rs h in
    let (d, a) = validate_rules-distinct roles (r ∷ earlier) rs rest in
    (
      (All-map _ (λ y. r.id ≢ y.id) rs (λ y e. ground arith) a, d),
      (
        (validate_rule-ok roles earlier r one).0,
        All-map _ (λ y. contains (ids earlier) y.id ≡ false) rs (λ y e. ground arith) a,
      ),
    )

-- The dict `seen` holds a rule with the signature, and has none only if there is none.
previous-some :
    (sig : Signature) (rs : List Rule) (p : Rule)
    → previous sig rs ≡ some p
    → In p rs × (semantic_signature p ≡ sig)
unfolding previous
previous-some sig [] p h = cc
previous-some sig (r ∷ rs) p h = ground (arith, previous-some sig rs p)

previous-none :
    (sig : Signature) (rs : List Rule) (x : Rule)
    → previous sig rs ≡ none
    → In x rs
    → semantic_signature x ≢ sig
unfolding previous
previous-none sig [] x h m = absurd m
previous-none sig (r ∷ rs) x h m = ground (arith, previous-none sig rs x)

same_disposition-eq : (a b : Disposition) → same_disposition a b ≡ true → a ≡ b
same_disposition-eq a b h = ground arith

-- A rule that does not contradict the last one with its conditions agrees with all before it.
agrees_with :
    (earlier : List Rule) (r x : Rule)
    → Agree earlier
    → contradicts (previous (semantic_signature r) earlier) r ≡ false
    → In x earlier
    → semantic_signature x ≡ semantic_signature r
    → x.disposition ≡ r.disposition
agrees_with earlier r x agree c m e = go (previous (semantic_signature r) earlier) refl
  where
    go :
        (o : Option Rule)
        → previous (semantic_signature r) earlier ≡ o
        → x.disposition ≡ r.disposition
    go none q = absurd (previous-none (semantic_signature r) earlier x q m e)
    go (some p) q =
        let (mp, ep) = previous-some (semantic_signature r) earlier p q in
        agree x p m mp (e ∙ sym ep) ∙ same_disposition-eq p.disposition r.disposition (ground arith)

Agree-cons :
    (earlier : List Rule) (r : Rule)
    → Agree earlier
    → contradicts (previous (semantic_signature r) earlier) r ≡ false
    → Agree (r ∷ earlier)
Agree-cons earlier r agree c x y (inl e) (inl f) s = cc (e, f)
Agree-cons earlier r agree c x y (inl e) (inr n) s =
    ap (λ (q : Rule). q.disposition) e
    ∙ sym (agrees_with earlier r y agree c n (sym s ∙ ap semantic_signature e))
Agree-cons earlier r agree c x y (inr m) (inl f) s =
    agrees_with earlier r x agree c m (s ∙ ap semantic_signature f)
    ∙ sym (ap (λ (q : Rule). q.disposition) f)
Agree-cons earlier r agree c x y (inr m) (inr n) s = agree x y m n s

-- Membership moves from the rest to the rules already seen.
In-shift :
    (x r : Rule) (rs earlier : List Rule)
    → In x (r ∷ rs) ⊎ In x earlier
    → In x rs ⊎ In x (r ∷ earlier)
In-shift x r rs earlier (inl (inl e)) = inr (inl e)
In-shift x r rs earlier (inl (inr m)) = inl m
In-shift x r rs earlier (inr m) = inr (inr m)

validate_rules-Agree :
    (roles : Option (List String)) (earlier rs : List Rule)
    → validate_rules roles earlier rs ≡ ok tt
    → Agree earlier
    → (x y : Rule) → In x rs ⊎ In x earlier
    → In y rs ⊎ In y earlier
    → semantic_signature x ≡ semantic_signature y
    → x.disposition ≡ y.disposition
validate_rules-Agree roles earlier [] h agree x y (inl m) n s = absurd m
validate_rules-Agree roles earlier [] h agree x y (inr m) (inl n) s = absurd n
validate_rules-Agree roles earlier [] h agree x y (inr m) (inr n) s = agree x y m n s
validate_rules-Agree roles earlier (r ∷ rs) h agree x y m n s =
    let (one, rest) = validate_rules-cons roles earlier r rs h in
    validate_rules-Agree roles (r ∷ earlier) rs rest
      (Agree-cons earlier r agree (validate_rule-ok roles earlier r one).1) x y
      (In-shift x r rs earlier m) (In-shift y r rs earlier n) s

-- What compilation has checked of the rules that it emits.
pub record IsSound (rules : List Rule) : Type 0 where
  pub distinct_ids : DistinctKeys (λ r. r.id) rules
  pub agree : Agree rules
  pub rooted : All (Rooted (index rules)) (values (index rules))

check_graph-ok :
    (o : Option (Try Search)) → check_graph o ≡ ok tt → (s : Search) × (o ≡ some (ok s))
unfolding check_graph
check_graph-ok none h = cc
check_graph-ok (some (raise e)) h = cc
check_graph-ok (some (ok s)) h = (s, refl)

compile_policy-stages :
    (source : List Rule) (roles : Option (List String)) (parents : List Rule) (default : String)
    (p : CompiledPolicy)
    → compile_policy source roles parents default ≡ ok p
    → (with_parents parents source ≡ ok p.rules)
      × (check_graph (validate_inheritance_graph p.rules) ≡ ok tt)
      × (validate_rules roles [] p.rules ≡ ok tt)
      × (default_kind default ≡ ok p.default_decision)
unfolding compile_policy
compile_policy-stages source roles parents default p h =
    let (k, h1, hk) = both_return (default_kind default) _ p h in
    let (rules, h2, hr) = both_return (with_parents parents source) _ p h1 in
    let (u, h3, hg) = both_return (check_graph (validate_inheritance_graph rules)) _ p h2 in
    let (v, h4, hv) = both_return (validate_rules roles [] rules) _ p h3 in
    let same_rules : rules ≡ p.rules = ground arith in
    let same_kind : k ≡ p.default_decision = ground arith in
    (rw (← same_rules) hr, rw (← same_rules) hg, rw (← same_rules) hv, rw (← same_kind) hk)

-- A compiled policy has distinct rule ids, no two rules with the same conditions and different
-- dispositions, and parent links that are validated and end.
pub compile_policy-IsSound :
    (source : List Rule) (roles : Option (List String)) (parents : List Rule) (default : String)
    (p : CompiledPolicy)
    → compile_policy source roles parents default ≡ ok p
    → IsSound p.rules
compile_policy-IsSound source roles parents default p h =
    let (a, b, c, d) = compile_policy-stages source roles parents default p h in
    let (s, e) = check_graph-ok (validate_inheritance_graph p.rules) b in
    record {
      distinct_ids = (validate_rules-distinct roles [] p.rules c).0;
      agree = λ x y m n.
          validate_rules-Agree roles [] p.rules c (λ x y m. absurd m) x y (inl m) (inl n);
      rooted = validate_inheritance_graph-Rooted p.rules s e;
    }

-- The default is applied exactly to an allowing decision that matched no rule.
default_applied :
    (def : DecisionKind) (d : Decision) (kind : DecisionKind) (unmatched : Bool)
    → d.kind ≡ kind
    → is_empty d.matched_rules ≡ unmatched
    → (d' : Decision) × (apply_default def d ≡ ok d')
      × (d'.kind
          ≡ (if is_allow kind && unmatched && is_block_kind def then DecisionKind.block else kind))
unfolding apply_default make_decision
default_applied def d kind unmatched k m =
    go (is_allow d.kind && is_empty d.matched_rules && is_block_kind def) refl
  where
    go :
        (b : Bool)
        → (is_allow d.kind && is_empty d.matched_rules && is_block_kind def) ≡ b
        → (d' : Decision) × (apply_default def d ≡ ok d')
          × (d'.kind ≡ (
              if is_allow kind && unmatched && is_block_kind def then DecisionKind.block else kind))
    go true q = (default_deny, ground arith, ground arith)
    go false q = (d, ground arith, ground arith)

-- The kind of decision that a policy takes: the rules' own, but Block where no rule applies and the
-- policy denies by default.
abbrev pub policy_kind : CompiledPolicy → Action → Context → Authority → DecisionKind
policy_kind p action context delegation =
    let kind = expected_kind p.rules action context delegation in
    if is_allow kind
      && not (any (λ r. is_applicable (applies_to r action)) p.rules)
      && is_block_kind p.default_decision
    then DecisionKind.block
    else kind

-- A compiled policy whose quorums are well formed answers every action, whatever the delegation,
-- and the kind of its decision is the policy's.
pub compiled_policy_answers :
    (source : List Rule) (roles : Option (List String)) (parents : List Rule) (default : String)
    (p : CompiledPolicy) (action : Action) (context : Context) (delegation : Authority)
    → compile_policy source roles parents default ≡ ok p
    → All (λ r. HasQuorum r.approval_requirement) p.rules
    → (d : Decision) × (evaluate p action context delegation ≡ ok d)
      × (d.kind ≡ policy_kind p action context delegation)
unfolding evaluate
compiled_policy_answers source roles parents default p action context delegation h quorums =
    let sound = compile_policy-IsSound source roles parents default p h in
    let (d, e, k) =
      evaluate_rules_decides p.rules action context delegation sound.distinct_ids quorums in
    let matched = evaluate_rules-matched p.rules action context delegation d e in
    rw e (
      default_applied p.default_decision d _ _ k
        (ap is_empty matched ∙ is_empty-applicable p.rules action))
