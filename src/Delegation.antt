-- ===== src/Delegation.antt =====
-- governance/delegation.py: the data of the delegation graph.
pub mod Graph
pub mod Methods
pub mod Validity
pub mod Revocation
pub mod Invariant
pub mod Calls
pub mod Granted
use computational_governance.Prelude.{ℕ, String, ℤ, Bool, Option, List, Dict}
use computational_governance.Model.{Actor, Capability}

pub record Grant : Type 0 where
  pub id : String
  pub from_actor : String
  pub to_actor : String
  pub capability : Capability
  pub depth : ℕ
  pub expires_at : Option ℤ
  pub parent_grant_id : Option String
  pub granting_rule_id : Option String
  pub identity_reference : Option String

-- Deterministic evidence for one actor/capability authority check.
pub record AuthorityProof : Type 0 where
  pub allowed : Bool
  pub source : String
  pub path : List String
  pub reason : String
  pub identity_reference : Option String

-- A moment, or `float("-inf")`, which is before every moment.
pub data Instant : Type 0 where
  minus_infinity : Instant
  at : ℤ → Instant

-- The state of a `DelegationGraph`.
pub record DelegationGraph : Type 0 where
  pub intrinsic : Dict (List String)
  pub grants : Dict Grant
  pub revoked : List String
  pub next_id : ℕ

-- `Actor | str`
pub data Party : Type 0 where
  actor : Actor → Party
  name : String → Party

abbrev pub party_id : Party → String
party_id (actor a) = a.id
party_id (name s) = s
