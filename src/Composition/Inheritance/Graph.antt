-- ===== src/Composition/Inheritance/Graph.antt =====
-- governance/composition.py: the walk over the parent links.
use mathlib.Core.Path.{subst}
use computational_governance.Prelude.{
  ◌≢◌, ℕ, zero, suc, ◌<◌, String, ◌≡◌, refl, sym, inl, inr, Bool, true, false, Option, none, some,
  List, [], ◌∷◌, arith, In, All, contains, contains-In, Dict, lookup, insert, values, keys, length,
  fresh, fresh-lt, fresh-le-length, lookup-keys, length-keys, IsNamed, insert-IsNamed,
  IsNamed-lookup, IsNamed-values,
}
use computational_governance.Errors.{Try, ok, raise, ◌>>=◌}
use computational_governance.Rule.{Rule}
use computational_governance.Composition.Inheritance.{
  Search, validate_inheritance, index, index_from, remove, visit, visit_parent, after_parent,
  finish, visit_found, next, visit_all, validate_inheritance_graph,
}

index_from-IsNamed :
    (d : Dict Rule) (rules : List Rule)
    → IsNamed (λ r. r.id) d
    → IsNamed (λ r. r.id) (index_from d rules)
unfolding index_from
index_from-IsNamed d [] h = h
index_from-IsNamed d (r ∷ rs) h =
    index_from-IsNamed (insert r.id r d) rs (insert-IsNamed (λ r. r.id) r d h)

pub index-IsNamed : (rules : List Rule) → IsNamed (λ r. r.id) (index rules)
unfolding index
index-IsNamed rules = index_from-IsNamed [] rules tt

-- A rule whose chain of parents ends, with every link of it validated.
pub data Rooted (by_id : Dict Rule) : Rule → Type 0 where
  root : {r : Rule} → r.parent_id ≡ none → Rooted by_id r
  child :
      {r : Rule} (p : String) (parent : Rule)
      → r.parent_id ≡ some p
      → lookup p by_id ≡ some parent
      → validate_inheritance parent r ≡ ok tt
      → Rooted by_id parent
      → Rooted by_id r

module _ (by_id : Dict Rule) (named : IsNamed (λ r. r.id) by_id) where
  -- What a finished visit leaves: the visiting set as it was, and only rooted rules checked.
  abbrev AllRooted : List String → Type 0
  AllRooted checked =
      (id : String) (r : Rule) → In id checked → lookup id by_id ≡ some r → Rooted by_id r

  abbrev IsDone : Search → Rule → Option (Try Search) → Type 0
  IsDone s rule none = ⊥
  IsDone s rule (some (raise e)) = Unit
  IsDone s rule (some (ok s')) =
      (s'.visiting ≡ s.visiting) × Rooted by_id rule × AllRooted s'.checked

  finish-IsDone :
      (rule : Rule) (s : Search) (r : Option (Try Search))
      → lookup rule.id by_id ≡ some rule
      → IsDone (record s { visiting = rule.id ∷ s.visiting }) rule r
      → IsDone s rule (finish rule r)
  unfolding finish remove
  finish-IsDone rule s none l h = h
  finish-IsDone rule s (some (raise e)) l h = tt
  finish-IsDone rule s (some (ok s')) l h = (
    rw h.0 (ground arith),
    h.1,
    λ id r m q. elim m [
      | inl e ↦ (let same : rule ≡ r = ground arith in subst (Rooted by_id) same h.1)
      | inr m' ↦ h.2 id r m' q
    ],
  )

  after-IsDone :
      (rule parent : Rule) (p : String) (s : Search) (r : Option (Try Search))
      → rule.parent_id ≡ some p
      → lookup p by_id ≡ some parent
      → IsDone s parent r
      → IsDone s rule (after_parent parent rule r)
  unfolding after_parent
  after-IsDone rule parent p s none e l h = h
  after-IsDone rule parent p s (some (raise x)) e l h = tt
  after-IsDone rule parent p s (some (ok s')) e l h = go (validate_inheritance parent rule) refl
    where
      go :
          (v : Try Unit)
          → validate_inheritance parent rule ≡ v
          → IsDone s rule (some (v >>= λ _. ok s'))
      go (raise x) q = tt
      go (ok tt) q = (h.0, child p parent e l q h.1, h.2)

  visit_step :
      (fuel : ℕ) (rule : Rule) (s : Search)
      → lookup rule.id by_id ≡ some rule
      → AllRooted s.checked
      → let entered : Search = record s { visiting = rule.id ∷ s.visiting } in
        ((parent : Rule)
          → contains s.visiting rule.id ≡ false
          → lookup parent.id by_id ≡ some parent
          → IsDone entered parent (visit fuel by_id parent entered))
        → IsDone s rule (visit (suc fuel) by_id rule s)
  unfolding visit
  visit_step fuel rule s l a ih =
      go (contains s.checked rule.id) (contains s.visiting rule.id) refl refl
    where
      entered : Search
      entered = record s { visiting = rule.id ∷ s.visiting }

      found :
          (p : String) (o : Option Rule)
          → contains s.visiting rule.id ≡ false
          → rule.parent_id ≡ some p
          → lookup p by_id ≡ o
          → IsDone entered rule (visit_found rule p o (λ parent. visit fuel by_id parent entered))
      found p none f e q = tt
      found p (some parent) f e q =
          after-IsDone rule parent p entered (visit fuel by_id parent entered) e q (
            ih parent f (
              subst (λ k. lookup k by_id ≡ some parent)
                (sym (IsNamed-lookup (λ r. r.id) p parent by_id named q)) q))

      parent_done :
          (o : Option String)
          → contains s.visiting rule.id ≡ false
          → rule.parent_id ≡ o
          → IsDone entered rule
              (visit_parent by_id rule o (λ parent. visit fuel by_id parent entered) entered)
      parent_done none f e = (refl, root e, a)
      parent_done (some p) f e = found p (lookup p by_id) f e refl

      go :
          (b c : Bool)
          → contains s.checked rule.id ≡ b
          → contains s.visiting rule.id ≡ c
          → IsDone s rule (visit (suc fuel) by_id rule s)
      go true c e f = rw e (refl, a rule.id rule (contains-In s.checked rule.id e) l, a)
      go false true e f = rw (e, f) tt
      go false false e f =
          rw (e, f)
            (finish-IsDone rule s
              (visit_parent by_id rule rule.parent_id (λ parent. visit fuel by_id parent entered)
                entered)
              l (parent_done rule.parent_id f refl))

  visit-IsDone :
      (fuel : ℕ) (rule : Rule) (s : Search)
      → lookup rule.id by_id ≡ some rule
      → AllRooted s.checked
      → fresh s.visiting (keys by_id) < fuel
      → IsDone s rule (visit fuel by_id rule s)
  visit-IsDone zero rule s l a m = absurd (omega arith)
  visit-IsDone (suc fuel) rule s l a m = visit_step fuel rule s l a (λ parent f l'.
      visit-IsDone fuel parent (record s { visiting = rule.id ∷ s.visiting }) l' a
        (omega
          (arith, fresh-lt s.visiting rule.id (keys by_id) (lookup-keys rule.id rule by_id l) f)))

  abbrev AllDone : List Rule → Option (Try Search) → Type 0
  AllDone rs none = ⊥
  AllDone rs (some (raise e)) = Unit
  AllDone rs (some (ok s')) = All (Rooted by_id) rs

  cons_done :
      (r : Rule) (rs : List Rule) (y : Option (Try Search))
      → Rooted by_id r
      → AllDone rs y
      → AllDone (r ∷ rs) y
  cons_done r rs none h d = d
  cons_done r rs (some (raise e)) h d = tt
  cons_done r rs (some (ok s')) h d = (h, d)

  next_done :
      (r : Rule) (rs : List Rule) (s : Search) (x : Option (Try Search))
      (k : Search → Option (Try Search))
      → IsDone s r x
      → ((s' : Search) → s'.visiting ≡ s.visiting → AllRooted s'.checked → AllDone rs (k s'))
      → AllDone (r ∷ rs) (next x k)
  next_done r rs s none k d h = d
  next_done r rs s (some (raise e)) k d h = tt
  next_done r rs s (some (ok s')) k d h = cons_done r rs (k s') d.1 (h s' d.0 d.2)

  visit_all_done :
      (fuel : ℕ) (rs : List Rule) (s : Search)
      → All (λ r. lookup r.id by_id ≡ some r) rs
      → AllRooted s.checked
      → fresh s.visiting (keys by_id) < fuel
      → AllDone rs (visit_all fuel by_id rs s)
  unfolding visit_all
  visit_all_done fuel [] s l a m = tt
  visit_all_done fuel (r ∷ rs) s l a m =
      next_done r rs s (visit fuel by_id r s) (λ s'. visit_all fuel by_id rs s')
        (visit-IsDone fuel r s l.0 a m)
        (λ s' same a'.
          visit_all_done fuel rs s' l.1 a' (subst (λ v. fresh v (keys by_id) < fuel) (sym same) m))

All-values :
    (d : Dict Rule) (by_id : Dict Rule)
    → ((r : Rule) → In r (values d) → lookup r.id by_id ≡ some r)
    → All (λ r. lookup r.id by_id ≡ some r) (values d)
unfolding values
All-values [] by_id h = tt
All-values ((j, w) ∷ d) by_id h = (h w (inl refl), All-values d by_id (λ r m. h r (inr m)))

validate_inheritance_graph_done :
    (rules : List Rule)
    → AllDone
        (index rules)
        (index-IsNamed rules)
        (values (index rules))
        (validate_inheritance_graph rules)
unfolding validate_inheritance_graph
validate_inheritance_graph_done rules =
    let d = index rules in
    visit_all_done d (index-IsNamed rules) (suc (length d)) (values d)
      (record { visiting = []; checked = [] })
      (All-values d d (λ r m. IsNamed-values (λ r. r.id) r d (index-IsNamed rules) m))
      (λ id r m q. absurd m) (omega (arith, fresh-le-length [] (keys d), length-keys d))

-- The check of the parent links ends within its fuel, whatever the rules.
pub validate_inheritance_graph_ends : (rules : List Rule) → validate_inheritance_graph rules ≢ none
validate_inheritance_graph_ends rules h =
    go (validate_inheritance_graph rules) h (validate_inheritance_graph_done rules)
  where
    go :
        (x : Option (Try Search))
        → x ≡ none
        → AllDone (index rules) (index-IsNamed rules) (values (index rules)) x
        → ⊥
    go none e d = d
    go (some y) e d = cc

-- When the check of the parent links accepts the rules, every rule of the index has a chain of
-- parents that ends, and each link of it is validated.
pub validate_inheritance_graph-Rooted :
    (rules : List Rule) (s : Search)
    → validate_inheritance_graph rules ≡ some (ok s)
    → All (Rooted (index rules)) (values (index rules))
validate_inheritance_graph-Rooted rules s h =
    subst (AllDone (index rules) (index-IsNamed rules) (values (index rules))) h
      (validate_inheritance_graph_done rules)
