-- ===== src/Approval/Closed.antt =====
-- governance/approval.py: denied, expired and consumed requests under each method.
use computational_governance.Prelude.{
  String, ℤ, ◌≡◌, ap, ◌∙◌, inl, inr, true, false, Option, some, arith, lookup, insert,
  lookup-insert,
}
use computational_governance.Errors.{Try, ok}
use computational_governance.Approval.{ApprovalRequest, ApprovalManager}
use computational_governance.Approval.Manager.{expire_due, store, with_request}
use computational_governance.Approval.Lifecycle.{
  is_closed, IsValid, IsSound, expire_due-IsValid, expire_due_closed, with_request_cases,
}

-- Reading a request leaves a closed one as it is.
read_closed :
    (self : ApprovalManager) (id k : String) (now : Option ℤ) (s r : ApprovalRequest)
    → lookup id self.requests ≡ some s
    → lookup k self.requests ≡ some r
    → is_closed r ≡ true
    → lookup k (store id (expire_due now s) self).requests ≡ some r
read_closed self id k now s r there stored closed =
    ground (arith, lookup-insert k id (expire_due now s) self.requests, expire_due_closed now r)

-- A method whose body raises on closed requests leaves every closed request as it is.
pub with_request_closed :
    (self : ApprovalManager) (id : String) (now : Option ℤ)
    (body : ApprovalRequest → Try ApprovalRequest) (k : String) (r : ApprovalRequest)
    → ((s after : ApprovalRequest) → IsValid s → body s ≡ ok after → is_closed s ≡ false)
    → IsSound self
    → lookup k self.requests ≡ some r
    → is_closed r ≡ true
    → lookup k (with_request self id now body).0.requests ≡ some r
with_request_closed self id now body k r raises w stored closed =
    elim (with_request_cases self id now body) [
      | inl (absent, same) ↦ moved self same stored
      | inr (s, there, inl same) ↦
          moved (store id (expire_due now s) self) same
            (read_closed self id k now s r there stored closed)
      | inr (s, there, inr (after, done, same)) ↦
          moved (store id after (store id (expire_due now s) self)) same (
            written s after
              (raises (expire_due now s) after (expire_due-IsValid now s (w.valid id s there)) done)
              (read_closed self id k now s r there stored closed))
    ]
  where
    moved :
        (m : ApprovalManager)
        → (with_request self id now body).0 ≡ m
        → lookup k m.requests ≡ some r
        → lookup k (with_request self id now body).0.requests ≡ some r
    moved m same h = ap (λ (x : ApprovalManager). lookup k x.requests) same ∙ h

    written :
        (s after : ApprovalRequest)
        → is_closed (expire_due now s) ≡ false
        → lookup k (store id (expire_due now s) self).requests ≡ some r
        → lookup k (store id after (store id (expire_due now s) self)).requests ≡ some r
    written s after unclosed h = ground (
      arith,
      lookup-insert k id (expire_due now s) self.requests,
      lookup-insert k id after (insert id (expire_due now s) self.requests),
    )
