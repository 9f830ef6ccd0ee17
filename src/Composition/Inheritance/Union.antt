-- ===== src/Composition/Inheritance/Union.antt =====
-- governance/composition.py: the union of parent and child rules.
use mathlib.Core.List.{append_assoc, append-nil}
use computational_governance.Prelude.{
  String, ◌≡◌, ◌≢◌, refl, ap, sym, ◌∙◌, inl, inr, true, false, Option, none, some, List, [], ◌∷◌,
  ◌++◌, arith, All, All-map, DistinctKeys, In, contains, Dict, keys, lookup, insert, insert-cases,
  ◌⊎◌,
}
use computational_governance.Errors.{Try, ok, raise}
use computational_governance.Rule.{Rule}
use computational_governance.Composition.Inheritance.{
  validate_inheritance, check_found, check_child, add_children, index_from, index, inherit_rules,
}

-- A declared parent is among the parent rules, and the pair was validated.
abbrev pub HasParent : List Rule → Rule → Option String → Type 0
HasParent parents child none = Unit
HasParent parents child (some p) =
    (parent : Rule) × In parent parents
    × (parent.id ≡ p)
    × (validate_inheritance parent child ≡ ok tt)

-- The id of a child is new among the parents, and its parent is there.
abbrev pub IsUnited : List Rule → Rule → Type 0
IsUnited parents child =
    All (λ (r : Rule). child.id ≢ r.id) parents × HasParent parents child child.parent_id

-- What the loop over the children has tested.
abbrev Tested : Dict Rule → List String → List Rule → Type 0
Tested by_id seen [] = Unit
Tested by_id seen (c ∷ cs) =
    (contains seen c.id ≡ false)
    × (check_child by_id c c.parent_id ≡ ok tt)
    × Tested by_id (c.id ∷ seen) cs

add_children-ok :
    (by_id : Dict Rule) (result : List Rule) (seen : List String) (children : List Rule)
    (all : List Rule)
    → add_children by_id result seen children ≡ ok all
    → (all ≡ result ++ children) × Tested by_id seen children
unfolding add_children
add_children-ok by_id result seen [] all h = (ground (arith, append-nil result), tt)
add_children-ok by_id result seen (c ∷ cs) all h =
    go (check_child by_id c c.parent_id) refl
      (add_children-ok by_id (result ++ c ∷ []) (c.id ∷ seen) cs all)
  where
    go :
        (r : Try Unit)
        → check_child by_id c c.parent_id ≡ r
        → (add_children by_id (result ++ c ∷ []) (c.id ∷ seen) cs ≡ ok all
            → (all ≡ (result ++ c ∷ []) ++ cs) × Tested by_id (c.id ∷ seen) cs)
        → (all ≡ result ++ c ∷ cs) × Tested by_id seen (c ∷ cs)
    go (raise e) q ih = absurd (ground arith)
    go (ok tt) q ih =
        let (a, b) = ih (ground arith) in
        (a ∙ append_assoc result (c ∷ []) cs, (ground arith, q, b))

-- An id that is seen is no id of a child, and the children have different ids.
Tested-unseen :
    (by_id : Dict Rule) (seen : List String) (children : List Rule)
    → Tested by_id seen children
    → All (λ (c : Rule). contains seen c.id ≡ false) children × DistinctKeys (λ c. c.id) children
Tested-unseen by_id seen [] t = (tt, tt)
Tested-unseen by_id seen (c ∷ cs) (unseen, checked, rest) =
    let (fresh, distinct) = Tested-unseen by_id (c.id ∷ seen) cs rest in
    (
      (unseen, All-map _ (λ (d : Rule). contains seen d.id ≡ false) cs (λ d e. ground arith) fresh),
      (All-map _ (λ (d : Rule). c.id ≢ d.id) cs (λ d e. ground arith) fresh, distinct),
    )

-- Every id of the rules is a key of the index, and every rule of the index is one of the rules.
contains-insert :
    (j k : String) (r : Rule) (d : Dict Rule)
    → (contains (keys d) j ≡ true → contains (keys (insert k r d)) j ≡ true)
      × (contains (keys (insert k r d)) k ≡ true)
unfolding keys insert
contains-insert j k r [] = (λ h. absurd (ground arith), ground arith)
contains-insert j k r ((i, s) ∷ d) =
    (λ h. ground (arith, (contains-insert j k r d).0), ground (arith, (contains-insert j k r d).1))

index_from-contains :
    (d : Dict Rule) (rules : List Rule)
    → ((j : String) → contains (keys d) j ≡ true → contains (keys (index_from d rules)) j ≡ true)
      × All (λ (r : Rule). contains (keys (index_from d rules)) r.id ≡ true) rules
unfolding index_from
index_from-contains d [] = (λ j h. h, tt)
index_from-contains d (r ∷ rs) =
    let (kept, there) = index_from-contains (insert r.id r d) rs in
    (
      λ j h. kept j ((contains-insert j r.id r d).0 h),
      (kept r.id (contains-insert r.id r.id r d).1, there),
    )

index_from-In :
    (d : Dict Rule) (rules : List Rule) (p : String) (r : Rule)
    → lookup p (index_from d rules) ≡ some r
    → ((lookup p d ≡ some r) ⊎ (In r rules × (r.id ≡ p)))
unfolding index_from
index_from-In d [] p r h = inl h
index_from-In d (x ∷ xs) p r h = elim (index_from-In (insert x.id x d) xs p r h) [
  | inl new ↦ elim (insert-cases p x.id x r d new) [
    | inl (e, same) ↦ inr (inl same, ap (λ (y : Rule). y.id) same ∙ sym e)
    | inr old ↦ inl old
  ]
  | inr (m, e) ↦ inr (inr m, e)
]

index-In :
    (rules : List Rule) (p : String) (r : Rule)
    → lookup p (index rules) ≡ some r
    → In r rules × (r.id ≡ p)
unfolding index lookup
index-In rules p r h = elim (index_from-In [] rules p r h) [
  | inl nowhere ↦ absurd (cc)
  | inr there ↦ there
]

check_found-HasParent :
    (parents : List Rule) (c : Rule) (p : String) (o : Option Rule)
    → lookup p (index parents) ≡ o
    → check_found c p o ≡ ok tt
    → HasParent parents c (some p)
check_found-HasParent parents c p none e h = absurd (ground arith)
check_found-HasParent parents c p (some parent) e h =
    let (m, same) = index-In parents p parent e in (parent, m, same, h)

check_child-HasParent :
    (parents : List Rule) (c : Rule) (o : Option String)
    → check_child (index parents) c o ≡ ok tt
    → HasParent parents c o
unfolding check_child
check_child-HasParent parents c none h = tt
check_child-HasParent parents c (some p) h =
    check_found-HasParent parents c p (lookup p (index parents)) refl h

new-id :
    (parents : List Rule) (c : Rule)
    → contains (keys (index parents)) c.id ≡ false
    → All (λ (r : Rule). c.id ≢ r.id) parents
unfolding index
new-id parents c unseen =
    All-map _ (λ (r : Rule). c.id ≢ r.id) parents (λ r there same. ground arith)
      (index_from-contains [] parents).1

Tested-IsUnited :
    (parents : List Rule) (seen : List String) (children : List Rule)
    → Tested (index parents) seen children
    → All (λ (c : Rule). contains (keys (index parents)) c.id ≡ false) children
    → All (IsUnited parents) children
Tested-IsUnited parents seen [] t unseen = tt
Tested-IsUnited parents seen (c ∷ cs) (free, checked, rest) (unseen, others) = (
  (new-id parents c unseen, check_child-HasParent parents c c.parent_id checked),
  Tested-IsUnited parents (c.id ∷ seen) cs rest others,
)

-- A union that is accepted holds every parent and then every child, unchanged and in order. The
-- children have different ids, and none has the id of a parent. The parent that a child declares, if
-- it declares one, is among the parents and was validated against it; a child that declares none is
-- not compared with the parents.
pub inherit_rules-ok :
    (parents children all : List Rule)
    → inherit_rules parents children ≡ ok all
    → (all ≡ parents ++ children)
      × DistinctKeys (λ c. c.id) children
      × All (IsUnited parents) children
unfolding inherit_rules
inherit_rules-ok parents children all h =
    let (same, tested) =
      add_children-ok (index parents) parents (keys (index parents)) children all h in
    let (unseen, distinct) = Tested-unseen (index parents) (keys (index parents)) children tested in
    (same, distinct, Tested-IsUnited parents (keys (index parents)) children tested unseen)
