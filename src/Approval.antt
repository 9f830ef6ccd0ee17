-- ===== src/Approval.antt =====
-- governance/approval.py: the data of human approval requests, and of the identities that reviewers
-- present (governance/identity.py).
pub mod Manager
pub mod Requests
pub mod Lifecycle
pub mod Closed
pub mod Bodies
pub mod Added
pub mod Steps
pub mod Resume
pub mod Snapshots
pub mod Identity
pub mod Verifier
use computational_governance.Prelude.{ℕ, String, ℤ, Bool, Option, List, Dict}

pub data ApprovalState : Type 0 where
  pending approved denied expired : ApprovalState

-- A single-use approval, bound to one exact governance state.
pub record ApprovalRequest : Type 0 where
  pub id : String
  pub role : String
  pub action_fingerprint : String
  pub context_fingerprint : String
  pub policy_fingerprint : String
  pub state_fingerprint : String
  pub matched_rules : List String
  pub created_at : ℤ
  pub expires_at : ℤ
  pub required_roles : List String
  pub threshold : ℕ
  pub votes : List String
  pub state : ApprovalState
  pub consumed : Bool
  pub identity_reference : Option String
  pub vote_identity_references : List (String × String)
  pub denial_identity_reference : Option String

-- The state of an `ApprovalManager`.
pub record ApprovalManager : Type 0 where
  pub ttl : ℤ
  pub request_prefix : String
  pub require_identity : Bool
  pub next_id : ℕ
  pub requests : Dict ApprovalRequest

-- Authenticated claims; `verified` tells whether the verifier's marker is on the object.
pub record VerifiedIdentity : Type 0 where
  pub trust_domain : String
  pub subject : String
  pub roles : List String
  pub expires_at : ℤ
  pub issuer : String
  pub credential_reference : String
  pub issued_at : ℤ
  pub verified : Bool
