-- ===== src/Approval/Lifecycle.antt =====
-- governance/approval.py: the invariant of the manager, and closed requests.
use mathlib.Core.Path.{subst}
use computational_governance.Prelude.{
  ℕ, ◌≤◌, ◌<◌, String, ℤ, ◌≡◌, refl, sym, ◌∙◌, inl, inr, ◌⊎◌, Bool, true, false, ◌||◌, not, Option,
  none, some, List, [], ◌∷◌, ◌++◌, arith, ◌==◌, ◌<>◌, contains, distinct, subset, length, lookup,
  lookup-insert_self, insert-cases,
}
use computational_governance.Decimal.{pad4}
use computational_governance.Errors.{Try, ok, raise}
use computational_governance.Approval.{ApprovalRequest, ApprovalManager}
use computational_governance.Approval.Manager.{
  is_pending, is_approved, expire_due, store, get, found, finish, changed, with_request,
}
use computational_governance.Approval.Requests.{add_vote}

-- What `from_snapshot` demands of a stored request.
pub record IsValid (self : ApprovalRequest) : Type 0 where
  pub positive : 1 ≤ self.threshold
  pub reachable : self.threshold ≤ length self.required_roles
  pub votes_distinct : distinct self.votes ≡ true
  pub votes_required : subset self.votes self.required_roles ≡ true
  pub agreed : is_approved self.state ≡ true → self.threshold ≤ length self.votes
  pub short : is_pending self.state ≡ true → length self.votes < self.threshold
  pub used : self.consumed ≡ true → is_approved self.state ≡ true

-- Denied, expired or consumed.
abbrev pub is_closed : ApprovalRequest → Bool
is_closed self = self.consumed || not (is_pending self.state || is_approved self.state)

contains-append :
    (xs : List String) (a b : String) → contains (xs ++ b ∷ []) a ≡ (contains xs a || a == b)
contains-append [] a b = ground arith
contains-append (x ∷ xs) a b = ground (arith, contains-append xs a b)

pub distinct-append :
    (xs : List String) (a : String)
    → distinct xs ≡ true
    → contains xs a ≡ false
    → distinct (xs ++ a ∷ []) ≡ true
distinct-append [] a h n = refl
distinct-append (x ∷ xs) a h n = ground (arith, contains-append xs x a, distinct-append xs a)

subset-append :
    (xs ys : List String) (a : String)
    → subset xs ys ≡ true
    → contains ys a ≡ true
    → subset (xs ++ a ∷ []) ys ≡ true
subset-append [] ys a h m = ground arith
subset-append (x ∷ xs) ys a h m = ground (arith, subset-append xs ys a)

-- A vote by a required role that has not voted keeps a pending request valid.
pub add_vote-IsValid :
    (role : String) (reference : Option String) (self : ApprovalRequest)
    → is_pending self.state ≡ true
    → contains self.required_roles role ≡ true
    → contains self.votes role ≡ false
    → IsValid self
    → IsValid (add_vote role reference self)
unfolding add_vote
add_vote-IsValid role reference self waits required new w = record {
  positive = w.positive;
  reachable = w.reachable;
  votes_distinct = distinct-append self.votes role w.votes_distinct new;
  votes_required = subset-append self.votes self.required_roles role w.votes_required required;
  agreed = λ h. ground (arith);
  short = λ h. ground (arith);
  used = λ h. ground (arith, w.used h);
}

pub expire_due-IsValid :
    (now : Option ℤ) (self : ApprovalRequest) → IsValid self → IsValid (expire_due now self)
unfolding expire_due
expire_due-IsValid now self w = record {
  positive = ground (arith, w.positive);
  reachable = ground (arith, w.reachable);
  votes_distinct = ground (arith, w.votes_distinct);
  votes_required = ground (arith, w.votes_required);
  agreed = λ h. ground (arith, w.agreed);
  short = λ h. ground (arith, w.short);
  used = λ h. ground (arith, w.used);
}

pub expire_due_closed :
    (now : Option ℤ) (self : ApprovalRequest) → is_closed self ≡ true → expire_due now self ≡ self
unfolding expire_due
expire_due_closed now self h = ground arith

-- The invariant of the manager: valid requests, under ids whose numbers were handed out.
pub record IsSound (self : ApprovalManager) : Type 0 where
  pub valid : (k : String) (r : ApprovalRequest) → lookup k self.requests ≡ some r → IsValid r
  pub numbered :
      (k : String) (r : ApprovalRequest)
      → lookup k self.requests ≡ some r
      → (n : ℕ) × (n < self.next_id) × (k ≡ (self.request_prefix <> "-") <> pad4 n)

-- A stored request stays, and the number of a manager and its prefix are kept.
store-IsSound :
    (k : String) (before after : ApprovalRequest) (self : ApprovalManager)
    → lookup k self.requests ≡ some before
    → IsValid after
    → IsSound self
    → IsSound (store k after self)
store-IsSound k before after self stored good w = record {
  valid = λ j r h. ground (arith, insert-cases j k after r self.requests h, w.valid j r);
  numbered = λ j r h. entry j r (insert-cases j k after r self.requests h);
}
  where
    entry :
        (j : String) (r : ApprovalRequest)
        → ((j ≡ k) × (r ≡ after)) ⊎ (lookup j self.requests ≡ some r)
        → (n : ℕ) × (n < self.next_id) × (j ≡ (self.request_prefix <> "-") <> pad4 n)
    entry j r (inl (same, e)) =
        let (n, below, name) = w.numbered k before stored in (n, below, same ∙ name)
    entry j r (inr h) = w.numbered j r h

-- What a method does: it finds nothing; or it reads a request, and its body raises or returns.
abbrev pub Effect :
    ApprovalManager
    → String
    → Option ℤ
    → (ApprovalRequest → Try ApprovalRequest)
    → Option ApprovalRequest
    → ApprovalManager
    → Type 0
Effect self id now body o result =
    ((o ≡ none) × (result ≡ self))
    ⊎ ((r : ApprovalRequest) × (o ≡ some r)
        × ((result ≡ store id (expire_due now r) self)
            ⊎ ((after : ApprovalRequest) × (body (expire_due now r) ≡ ok after)
                × (result ≡ store id after (store id (expire_due now r) self)))))

finish_cases :
    (self : ApprovalManager) (id : String) (t : Try ApprovalRequest)
    → ((finish self id t).0 ≡ self)
      ⊎ ((after : ApprovalRequest) × (t ≡ ok after) × ((finish self id t).0 ≡ store id after self))
unfolding finish
finish_cases self id (raise problem) = inl refl
finish_cases self id (ok after) = inr (after, refl, refl)

changed_cases :
    (self : ApprovalManager) (id : String) (now : Option ℤ)
    (body : ApprovalRequest → Try ApprovalRequest) (o : Option ApprovalRequest)
    → Effect self id now body o (changed id body (found self id now o)).0
unfolding found changed
changed_cases self id now body none = inl (refl, refl)
changed_cases self id now body (some r) =
    inr (r, refl, finish_cases (store id (expire_due now r) self) id (body (expire_due now r)))

pub with_request_cases :
    (self : ApprovalManager) (id : String) (now : Option ℤ)
    (body : ApprovalRequest → Try ApprovalRequest)
    → Effect self id now body (lookup id self.requests) (with_request self id now body).0
unfolding with_request get
with_request_cases self id now body = changed_cases self id now body (lookup id self.requests)

-- A method whose body keeps validity keeps the invariant, also where it raises.
pub with_request-IsSound :
    (self : ApprovalManager) (id : String) (now : Option ℤ)
    (body : ApprovalRequest → Try ApprovalRequest)
    → ((r after : ApprovalRequest) → body r ≡ ok after → IsValid r → IsValid after)
    → IsSound self
    → IsSound (with_request self id now body).0
with_request-IsSound self id now body keeps w = elim (with_request_cases self id now body) [
  | inl (absent, same) ↦ subst IsSound (sym same) w
  | inr (r, stored, inl same) ↦ subst IsSound (sym same) (read r stored)
  | inr (r, stored, inr (after, done, same)) ↦ subst IsSound (sym same) (
      store-IsSound id (expire_due now r) after (store id (expire_due now r) self)
        (lookup-insert_self id (expire_due now r) self.requests)
        (keeps (expire_due now r) after done (expire_due-IsValid now r (w.valid id r stored)))
        (read r stored))
]
  where
    read :
        (r : ApprovalRequest)
        → lookup id self.requests ≡ some r
        → IsSound (store id (expire_due now r) self)
    read r stored =
        store-IsSound id r (expire_due now r) self stored
          (expire_due-IsValid now r (w.valid id r stored)) w
